-- ===== src/Carving/Streaming.antt =====
-- carving/streaming.py: `StreamingScanner.scan`, which carves an image window by window.
use recoverx_cli.Prelude.{
  ℕ, zero, suc, ◌+◌, ◌-◌, ◌*◌, ◌/◌, ◌%◌, ◌^◌, ◌≤◌, ◌<◌, min, max, ◌≡◌, refl, sym, ap, ◌∙◌, subst,
  fun_ext, ◌≢◌, ◌↔◌, ◌⊎◌, inl, inr, Bool, true, false, not, ◌&&◌, ◌||◌, Option, none, some, List,
  [], ◌∷◌, ◌++◌, map, append-nil, append_assoc, arith, ltb, leb, ◌==◌, if◌then◌else◌, ltb→lt,
  lt→ltb, leb→le, ==_iff, Bool-cases, Option-cases, length, get_elem?, get_or, take, drop,
  replicate, concat, length-append, length-take, length-drop, length-replicate, length-map,
  take-zero, take-nil, drop-nil, take_of_length-le, take-append, take-take, take-replicate,
  replicate-add, drop-drop, take-add, get_elem?-append,
}
use recoverx_cli.Prelude.Int.{
  ℤ, pos, negsuc, pos_part, neg_part, sub_ℕ, ◌+ℤ◌, ◌-ℤ◌, ◌*ℤ◌, ◌≤ℤ◌, ◌<ℤ◌, leb_ℤ, ltb_ℤ, +ℤ_parts,
  -ℤ_parts, eq_of_parts, int_laws, pos-*, pos-+,
}
pub mod Windows
pub mod Offsets
pub mod Dropped
use recoverx_cli.Utils.RawReader.{Bytes, read_bytes}
use recoverx_cli.Carving.{CarvedFile}

-- `carve` of a carver, whichever subclass of `BaseCarver` it is.
abbrev pub CarveFunction : Type 0
CarveFunction = Bytes → List CarvedFile

unfoldable pub absolute : ℕ → CarvedFile → CarvedFile
absolute base file = record file {
  offset_start = base + file.offset_start;
  offset_end = base + file.offset_end;
}

-- The loop over the results of a carver, from `last_found_end` on: the files that it adds, and
-- `last_found_end` behind it.
unfoldable pub accept : ℕ → ℕ → List CarvedFile → List CarvedFile × ℕ
accept base last [] = ([], last)
accept base last (result ∷ results) =
    let skipped = ltb (absolute base result).offset_start last in
    let (files, end) =
      accept base (if skipped then last else (absolute base result).offset_end) results in
    (if skipped then files else absolute base result ∷ files, end)

-- the loop over the carvers
unfoldable pub accept_all : ℕ → ℕ → List CarveFunction → Bytes → List CarvedFile × ℕ
accept_all base last [] window = ([], last)
accept_all base last (carver ∷ carvers) window =
    let (files, end) = accept base last (carver window) in
    let (more, final) = accept_all base end carvers window in (files ++ more, final)

-- `buffer[-n:]`
unfoldable pub last_bytes : ℕ → Bytes → Bytes
last_bytes n buffer = if n == 0 then buffer else drop (length buffer - n) buffer

-- the slide of the window
unfoldable pub slide : ℕ → Bytes → Bytes
slide overlap buffer = if ltb overlap (length buffer) then last_bytes overlap buffer else buffer

unfoldable pub slide_base : ℕ → Bytes → ℕ → ℕ → ℕ
slide_base overlap buffer base cursor =
    if ltb overlap (length buffer) then cursor - overlap else base

abbrev pub prepend : List CarvedFile → Option (List CarvedFile) → Option (List CarvedFile)
prepend files none = none
prepend files (some more) = some (files ++ more)

module _ (image : Bytes) (carvers : List CarveFunction) (chunk_size overlap : ℕ) where
  -- The rounds of the `while` loop of `scan`; `none` is a loop that needs more of them.
  unfoldable pub scan_from : ℕ → Bytes → ℕ → ℕ → ℕ → Option (List CarvedFile)
  unfolding read_bytes accept_all slide slide_base
  scan_from zero buffer base cursor last = none
  scan_from (suc fuel) buffer base cursor last =
      let step = λ (chunk : Bytes).
        let window = buffer ++ chunk in
        let after = cursor + length chunk in
        let (files, end) = accept_all base last carvers window in
        prepend files (
          scan_from fuel (slide overlap window) (slide_base overlap window base after) after end) in
      if ltb cursor (length image)
      then elim (read_bytes image cursor (min chunk_size (length image - cursor))) [
        | [] ↦ some []
        | b ∷ chunk ↦ step (b ∷ chunk)
      ]
      else some []

  unfoldable pub scan : Option (List CarvedFile)
  unfolding scan_from
  scan = scan_from (length image + 1) [] 0 0 0
