-- ===== src/Ntfs/Attributes/RoundTrip.antt =====
-- Data runs in the bytes that NTFS lays them out in, and what the parser reads of them.
use recoverx_cli.Prelude.{
  ℕ, zero, suc, ◌+◌, ◌*◌, ◌/◌, ◌%◌, ◌^◌, ◌<◌, ◌≡◌, refl, sym, ap, ◌∙◌, subst, Bool, false, ◌||◌,
  some, List, [], ◌∷◌, ◌++◌, map, append_assoc, arith, ltb, ◌==◌, length, length-append,
}
use recoverx_cli.Prelude.Int.{ℤ}
use recoverx_cli.Utils.RawReader.{Bytes}
use recoverx_cli.Utils.Unpack.{uint}
use recoverx_cli.Ntfs.Runlist.Mapping.{RawRun}
use recoverx_cli.Ntfs.Attributes.{read_data_run, read_entry, parse_entry, parse_from, parse_runlist}
use recoverx_cli.Ntfs.Attributes.Shift.{uint-cons, parse_from-append}
use recoverx_cli.Ntfs.Attributes.Fields.{
  le_bytes, unsigned, OffsetFits, length-le_bytes, uint-le_bytes, uint-append, unsigned_bound,
  offset_field,
}

-- A run with the widths of its two fields in bytes.
pub record RunEntry : Type 0 where
  pub count_bytes : ℕ
  pub offset_bytes : ℕ
  pub run : RawRun

unfoldable pub encode_entry : RunEntry → Bytes
encode_entry e =
    (e.count_bytes + 16 * e.offset_bytes)
    ∷ (le_bytes e.count_bytes e.run.cluster_count
        ++ le_bytes e.offset_bytes (unsigned e.offset_bytes e.run.cluster_offset))

-- The runs of an attribute as NTFS lays them out, with the byte 0 at the end.
unfoldable pub encode : List RunEntry → Bytes
encode [] = 0 ∷ []
encode (e ∷ entries) = encode_entry e ++ encode entries

-- The fields fit into their widths, and a run is sparse when it has no offset.
pub record Fits (e : RunEntry) : Type 0 where
  pub not_end : 0 < e.count_bytes + e.offset_bytes
  pub count_width : e.count_bytes < 16
  pub offset_width : e.offset_bytes < 16
  pub count : e.run.cluster_count < 256 ^ e.count_bytes
  pub offset : OffsetFits e.offset_bytes e.run.cluster_offset
  pub sparse : (e.offset_bytes == 0) ≡ e.run.is_sparse

abbrev pub AllFit : List RunEntry → Type 0
AllFit [] = Unit {0}
AllFit (e ∷ entries) = Fits e × AllFit entries

run_of_fields :
    (run : RawRun) (sparse : Bool) (offset : ℤ)
    → sparse ≡ run.is_sparse
    → offset ≡ run.cluster_offset
    → record { cluster_count = run.cluster_count; cluster_offset = offset; is_sparse = sparse }
      ≡ run
run_of_fields run sparse offset p q = rw (p, q) refl

read_two_fields :
    (count_bytes offset_bytes header count raw : ℕ) (rest : Bytes)
    → count < 256 ^ count_bytes
    → raw < 256 ^ offset_bytes
    → let bytes = header ∷ (le_bytes count_bytes count ++ le_bytes offset_bytes raw ++ rest) in
      (uint count_bytes bytes (0 + 1) ≡ some count)
      × (uint offset_bytes bytes (0 + 1 + count_bytes) ≡ some raw)
read_two_fields count_bytes offset_bytes header count raw rest l m =
    let first = le_bytes count_bytes count in
    let second = le_bytes offset_bytes raw in
    let size : length first ≡ count_bytes = length-le_bytes count_bytes count in
    let place : suc (length first + 0) ≡ 0 + 1 + count_bytes = omega (arith, size) in
    let whole = append_assoc first second rest in
    (
      rw whole (
          uint-cons count_bytes header (first ++ (second ++ rest)) 0
          ∙ uint-le_bytes count_bytes count (second ++ rest) l),
      rw whole (
          ap (uint offset_bytes (header ∷ (first ++ (second ++ rest)))) (sym place)
          ∙ uint-cons offset_bytes header (first ++ (second ++ rest)) (length first + 0)
          ∙ uint-append offset_bytes first (second ++ rest) 0
          ∙ uint-le_bytes offset_bytes raw rest m),
    )

-- an entry and what is behind it, read at the place of the entry
read_data_run-encode :
    (e : RunEntry) (rest : Bytes)
    → Fits e
    → read_data_run e.count_bytes e.offset_bytes (encode_entry e ++ rest) 0 ≡ some e.run
unfolding read_data_run encode_entry
read_data_run-encode e rest fits =
    let (count, offset) =
      read_two_fields e.count_bytes e.offset_bytes (e.count_bytes + 16 * e.offset_bytes)
        e.run.cluster_count (unsigned e.offset_bytes e.run.cluster_offset) rest fits.count
        (unsigned_bound e.offset_bytes e.run.cluster_offset fits.offset) in
    rw (read_data_run, count, offset)
      (ap some (
        run_of_fields e.run (e.offset_bytes == 0) _ fits.sparse
          (offset_field e.offset_bytes e.run.cluster_offset fits.offset)))

header_widths :
    (count_bytes offset_bytes : ℕ)
    → count_bytes < 16
    → offset_bytes < 16
    → ((count_bytes + 16 * offset_bytes) % 16 ≡ count_bytes)
      × ((count_bytes + 16 * offset_bytes) / 16 % 16 ≡ offset_bytes)
header_widths count_bytes offset_bytes l m = (omega arith, omega arith)

length-encode_entry : (e : RunEntry) → length (encode_entry e) ≡ 1 + e.count_bytes + e.offset_bytes
unfolding encode_entry
length-encode_entry e =
    let first = le_bytes e.count_bytes e.run.cluster_count in
    let second = le_bytes e.offset_bytes (unsigned e.offset_bytes e.run.cluster_offset) in
    omega (
      arith,
      length-append first second,
      length-le_bytes e.count_bytes e.run.cluster_count,
      length-le_bytes e.offset_bytes (unsigned e.offset_bytes e.run.cluster_offset),
    )

read_entry-encode :
    (e : RunEntry) (rest : Bytes)
    → Fits e
    → read_entry (e.count_bytes + 16 * e.offset_bytes) (encode_entry e ++ rest) 0
      ≡ some (e.run, 1 + e.count_bytes + e.offset_bytes)
read_entry-encode e rest fits =
    let (low, high) =
      header_widths e.count_bytes e.offset_bytes fits.count_width fits.offset_width in
    let size = length-append (encode_entry e) rest in
    let guard : ((e.count_bytes + 16 * e.offset_bytes) == 0
          || ltb (length (encode_entry e ++ rest)) (0 + 1 + e.count_bytes + e.offset_bytes))
        ≡ false =
      ground (arith, fits.not_end, size, length-encode_entry e) in
    rw (low, high, guard, read_data_run-encode e rest fits) refl

parse_entry-encode :
    (e : RunEntry) (rest : Bytes)
    → Fits e
    → parse_entry (encode_entry e ++ rest) 0 ≡ some (e.run, length (encode_entry e))
unfolding parse_entry
parse_entry-encode e rest fits =
    let whole = read_entry-encode e rest fits in
    let size : 1 + e.count_bytes + e.offset_bytes ≡ length (encode_entry e) =
      sym (length-encode_entry e) in
    let sized =
      subst
        (λ n.
          read_entry (e.count_bytes + 16 * e.offset_bytes) (encode_entry e ++ rest) 0
          ≡ some (e.run, n))
        size whole in
    unfold encode_entry in sized

parse_from-encode :
    (fuel : ℕ) (entries : List RunEntry) (rest : Bytes)
    → length entries < fuel
    → AllFit entries
    → parse_from fuel (encode entries ++ rest) 0 ≡ some (map (λ e. e.run) entries)
unfolding parse_from encode
parse_from-encode zero entries rest l h = absurd (omega arith)
parse_from-encode (suc fuel) [] rest l h = unfold parse_entry in refl
parse_from-encode (suc fuel) (e ∷ entries) rest l (fits, h) =
    let first = encode_entry e in
    let behind = encode entries ++ rest in
    let whole = append_assoc first (encode entries) rest in
    let later : parse_from fuel (first ++ behind) (0 + length first)
        ≡ some (map (λ e. e.run) entries) =
      ap (parse_from fuel (first ++ behind)) (omega arith)
      ∙ parse_from-append fuel first behind 0
      ∙ parse_from-encode fuel entries rest (omega arith) h in
    rw (whole, parse_entry-encode e behind fits, later) refl

length-encode : (entries : List RunEntry) → length entries < length (encode entries)
unfolding encode
length-encode [] = omega arith
length-encode (e ∷ entries) = omega (
  arith,
  length-append (encode_entry e) (encode entries),
  length-encode_entry e,
  length-encode entries,
)

-- Runs whose fields fit into their widths are read back: `parse_runlist` ends and returns them from the
-- bytes that NTFS lays them out in, whatever stands before and behind these bytes.
pub parse_runlist-encode :
    (before rest : Bytes) (entries : List RunEntry)
    → AllFit entries
    → parse_runlist (before ++ (encode entries ++ rest)) (length before)
      ≡ some (map (λ e. e.run) entries)
unfolding parse_runlist
parse_runlist-encode before rest entries h =
    let bytes = before ++ (encode entries ++ rest) in
    let fuel = length bytes + 1 in
    let enough : length entries < fuel = omega (
      arith,
      length-append before (encode entries ++ rest),
      length-append (encode entries) rest,
      length-encode entries,
    ) in
    ap (parse_from fuel bytes) (omega arith)
    ∙ parse_from-append fuel before (encode entries ++ rest) 0
    ∙ parse_from-encode fuel entries rest enough h
