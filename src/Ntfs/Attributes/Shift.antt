-- ===== src/Ntfs/Attributes/Shift.antt =====
-- The parser of data runs looks at the bytes from its position on.
use recoverx_cli.Prelude.{
  ℕ, zero, suc, ◌+◌, ◌/◌, ◌%◌, ◌≡◌, refl, ap, ◌∙◌, fun_ext, [], ◌∷◌, ◌++◌, arith, ltb, length,
}
use recoverx_cli.Utils.RawReader.{Bytes}
use recoverx_cli.Utils.Unpack.{byte, uint, ◌>>=◌}
use recoverx_cli.Ntfs.Attributes.{read_data_run, read_entry, parse_entry, after_entry, parse_from}

pub uint-cons :
    (width b : ℕ) (bytes : Bytes) (position : ℕ)
    → uint width (b ∷ bytes) (suc position) ≡ uint width bytes position
unfolding uint
uint-cons zero b bytes position = refl
uint-cons (suc width) b bytes position =
    let next : suc position + 1 ≡ suc (position + 1) = omega arith in
    rw (next, uint-cons width b bytes (position + 1)) refl

read_data_run-cons :
    (count_bytes offset_bytes b : ℕ) (bytes : Bytes) (position : ℕ)
    → read_data_run count_bytes offset_bytes (b ∷ bytes) (suc position)
      ≡ read_data_run count_bytes offset_bytes bytes position
unfolding read_data_run
read_data_run-cons count_bytes offset_bytes b bytes position =
    let next : suc position + 1 ≡ suc (position + 1) = omega arith in
    let behind : suc (position + 1) + count_bytes ≡ suc (position + 1 + count_bytes) =
      omega arith in
    rw
      (
        read_data_run,
        next,
        behind,
        uint-cons count_bytes b bytes (position + 1),
        uint-cons offset_bytes b bytes (position + 1 + count_bytes),
      )
      refl

read_entry-cons :
    (header b : ℕ) (bytes : Bytes) (position : ℕ)
    → read_entry header (b ∷ bytes) (suc position) ≡ read_entry header bytes position
read_entry-cons header b bytes position =
    let same : ltb (suc (length bytes)) (suc position + 1 + header % 16 + header / 16 % 16)
        ≡ ltb (length bytes) (position + 1 + header % 16 + header / 16 % 16) =
      ground arith in
    rw (same, read_data_run-cons (header % 16) (header / 16 % 16) b bytes position) refl

parse_entry-cons :
    (b : ℕ) (bytes : Bytes) (position : ℕ)
    → parse_entry (b ∷ bytes) (suc position) ≡ parse_entry bytes position
unfolding parse_entry
parse_entry-cons b bytes position =
    ap (λ read. byte bytes position >>= read)
      (fun_ext (λ header. read_entry-cons header b bytes position))

-- A byte in front changes nothing.
pub parse_from-cons :
    (fuel b : ℕ) (bytes : Bytes) (position : ℕ)
    → parse_from fuel (b ∷ bytes) (suc position) ≡ parse_from fuel bytes position
unfolding parse_from
parse_from-cons zero b bytes position = refl
parse_from-cons (suc fuel) b bytes position =
    let again : (size : ℕ)
        → parse_from fuel (b ∷ bytes) (suc position + size)
          ≡ parse_from fuel bytes (position + size) =
      λ size.
        let next : suc position + size ≡ suc (position + size) = omega arith in
        ap (parse_from fuel (b ∷ bytes)) next ∙ parse_from-cons fuel b bytes (position + size) in
    ap (λ entry. after_entry entry (λ size. parse_from fuel (b ∷ bytes) (suc position + size)))
      (parse_entry-cons b bytes position)
    ∙ ap (after_entry (parse_entry bytes position)) (fun_ext again)

pub parse_from-append :
    (fuel : ℕ) (before bytes : Bytes) (position : ℕ)
    → parse_from fuel (before ++ bytes) (length before + position) ≡ parse_from fuel bytes position
parse_from-append fuel [] bytes position =
    let same : 0 + position ≡ position = omega arith in rw same refl
parse_from-append fuel (b ∷ before) bytes position =
    let next : suc (length before) + position ≡ suc (length before + position) = omega arith in
    rw next (
      parse_from-cons fuel b (before ++ bytes) (length before + position)
      ∙ parse_from-append fuel before bytes position)
