-- ===== src/Ntfs/Attributes.antt =====
-- filesystems/ntfs/attributes.py: `parse_runlist`, which reads the data runs of an attribute.
use recoverx_cli.Prelude.{
  ℕ, zero, suc, ◌+◌, ◌-◌, ◌*◌, ◌/◌, ◌%◌, ◌^◌, ◌≤◌, ◌<◌, min, max, ◌≡◌, refl, sym, ap, ◌∙◌, subst,
  fun_ext, ◌≢◌, ◌↔◌, ◌⊎◌, inl, inr, Bool, true, false, not, ◌&&◌, ◌||◌, Option, none, some, List,
  [], ◌∷◌, ◌++◌, map, append-nil, append_assoc, arith, ltb, leb, ◌==◌, if◌then◌else◌, ltb→lt,
  lt→ltb, leb→le, ==_iff, Bool-cases, Option-cases, length, get_elem?, get_or, take, drop,
  replicate, concat, length-append, length-take, length-drop, length-replicate, length-map,
  take-zero, take-nil, drop-nil, take_of_length-le, take-append, take-take, take-replicate,
  replicate-add, drop-drop, take-add, get_elem?-append,
}
use recoverx_cli.Prelude.Int.{
  ℤ, pos, negsuc, pos_part, neg_part, sub_ℕ, ◌+ℤ◌, ◌-ℤ◌, ◌*ℤ◌, ◌≤ℤ◌, ◌<ℤ◌, leb_ℤ, ltb_ℤ, +ℤ_parts,
  -ℤ_parts, eq_of_parts, int_laws, pos-*, pos-+,
}
pub mod Shift
pub mod Fields
pub mod RoundTrip
pub mod Total
pub mod Header
use recoverx_cli.Utils.RawReader.{Bytes}
use recoverx_cli.Utils.Unpack.{byte, uint, ◌>>=◌}
use recoverx_cli.Ntfs.Runlist.Mapping.{RawRun}

-- The sign of an offset of `width` bytes: the top bit counts negatively.
unfoldable pub signed : ℕ → ℕ → ℤ
signed width raw = if leb (2 ^ (width * 8 - 1)) raw then sub_ℕ raw (2 ^ (width * 8)) else pos raw

-- the run whose fields have these widths at a position
unfoldable pub read_data_run : ℕ → ℕ → Bytes → ℕ → Option RawRun
read_data_run count_bytes offset_bytes bytes position = do
  count ← uint count_bytes bytes (position + 1)
  raw ← uint offset_bytes bytes (position + 1 + count_bytes)
  some (record {
    cluster_count = count;
    cluster_offset = if offset_bytes == 0 then pos 0 else signed offset_bytes raw;
    is_sparse = offset_bytes == 0;
  })

-- the fields of an entry behind its header, when they are there
abbrev pub read_entry : ℕ → Bytes → ℕ → Option (RawRun × ℕ)
read_entry header bytes position =
    let count_bytes = header % 16 in
    let offset_bytes = header / 16 % 16 in
    if header == 0 || ltb (length bytes) (position + 1 + count_bytes + offset_bytes)
    then none
    else do
      run ← read_data_run count_bytes offset_bytes bytes position
      some (run, 1 + count_bytes + offset_bytes)

-- A round of the loop: the run, and by how much `pos` moves on; `none` is a `break`. Behind the test
-- of the length both fields can be read.
unfoldable pub parse_entry : Bytes → ℕ → Option (RawRun × ℕ)
unfolding read_data_run
parse_entry bytes position = do header ← byte bytes position; read_entry header bytes position

abbrev pub add_run : RawRun → Option (List RawRun) → Option (List RawRun)
add_run run none = none
add_run run (some runs) = some (run ∷ runs)

abbrev pub after_entry : Option (RawRun × ℕ) → (ℕ → Option (List RawRun)) → Option (List RawRun)
after_entry none again = some []
after_entry (some (run, size)) again = add_run run (again size)

-- The rounds of the loop; `none` is a loop that needs more of them.
unfoldable pub parse_from : ℕ → Bytes → ℕ → Option (List RawRun)
unfolding parse_entry
parse_from zero bytes position = none
parse_from (suc fuel) bytes position =
    after_entry (parse_entry bytes position) (λ size. parse_from fuel bytes (position + size))

unfoldable pub parse_runlist : Bytes → ℕ → Option (List RawRun)
unfolding parse_from
parse_runlist bytes offset = parse_from (length bytes + 1) bytes offset
