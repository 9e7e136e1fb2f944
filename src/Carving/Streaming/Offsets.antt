-- ===== src/Carving/Streaming/Offsets.antt =====
-- The offsets of the files that the scanner returns.
use recoverx_cli.Prelude.{
  ℕ, zero, suc, ◌+◌, ◌-◌, ◌≤◌, ◌<◌, min, ◌≡◌, refl, ap, ◌∙◌, inl, inr, Option, some, List, [], ◌∷◌,
  ◌++◌, arith, ltb, ltb→lt, Bool-cases, length, take, drop, length-take, length-drop,
}
use recoverx_cli.Utils.RawReader.{Bytes, read_bytes}
use recoverx_cli.Utils.Unpack.{slice, length-slice}
use recoverx_cli.Carving.{Carver, CarvedFile, carve}
use recoverx_cli.Carving.Files.{AreFiles, carve-AreFiles}
use recoverx_cli.Carving.Streaming.{
  CarveFunction, absolute, accept, accept_all, slide, slide_base, prepend, scan_from, scan,
}
use recoverx_cli.Carving.Streaming.Windows.{slice-slice, slice-append, slide-slice}

-- A file that lies in the input, with the bytes of its range.
abbrev pub LiesIn : Bytes → CarvedFile → Type 0
LiesIn input file =
    (file.offset_start < file.offset_end)
    × (file.offset_end ≤ length input)
    × (file.content ≡ slice input file.offset_start file.offset_end)

abbrev pub AllLieIn : Bytes → List CarvedFile → Type 0
AllLieIn input [] = Unit {0}
AllLieIn input (file ∷ files) = LiesIn input file × AllLieIn input files

-- Carvers that return files of their input.
abbrev pub AreSound : List CarveFunction → Type 0
AreSound [] = Unit {0}
AreSound (carver ∷ carvers) = ((input : Bytes) → AllLieIn input (carver input)) × AreSound carvers

-- Files of the input between two places, each behind the one before.
abbrev pub InOrder : Bytes → ℕ → List CarvedFile → ℕ → Type 0
InOrder input from [] to = from ≤ to
InOrder input from (file ∷ files) to =
    (from ≤ file.offset_start) × LiesIn input file × InOrder input file.offset_end files to

InOrder-append :
    (input : Bytes) (from middle to : ℕ) (files more : List CarvedFile)
    → InOrder input from files middle
    → InOrder input middle more to
    → InOrder input from (files ++ more) to
InOrder-append input from middle to [] [] l m = omega arith
InOrder-append input from middle to [] (file ∷ more) l (above, lies, rest) =
    (omega (arith, above), lies, rest)
InOrder-append input from middle to (file ∷ files) more (above, lies, rest) m =
    (above, lies, InOrder-append input file.offset_end middle to files more rest m)

absolute-LiesIn :
    (image : Bytes) (base cursor : ℕ) (file : CarvedFile)
    → base ≤ cursor
    → LiesIn (slice image base cursor) file
    → LiesIn image (absolute base file)
unfolding absolute
absolute-LiesIn image base cursor file l (not_empty, inside, same) =
    let size = length-slice image base cursor in
    (
      omega (arith, not_empty),
      omega (arith, inside, size, not_empty),
      same
          ∙ slice-slice image base cursor file.offset_start file.offset_end
              (omega (arith, inside, size, not_empty)),
    )

accept-InOrder :
    (image : Bytes) (base cursor last : ℕ) (results : List CarvedFile)
    → base ≤ cursor
    → AllLieIn (slice image base cursor) results
    → InOrder image last (accept base last results).0 (accept base last results).1
unfolding accept
accept-InOrder image base cursor last [] l h = omega arith
accept-InOrder image base cursor last (file ∷ files) l (lies, rest) =
    elim (Bool-cases (ltb (absolute base file).offset_start last)) [
      | inl skipped ↦ rw skipped (accept-InOrder image base cursor last files l rest)
      | inr taken ↦ rw taken (
        ground (arith, taken),
        absolute-LiesIn image base cursor file l lies,
        accept-InOrder image base cursor (absolute base file).offset_end files l rest,
      )
    ]

accept_all-InOrder :
    (image : Bytes) (base cursor last : ℕ) (carvers : List CarveFunction)
    → base ≤ cursor
    → AreSound carvers
    → let window = slice image base cursor in
      InOrder image last
        (accept_all base last carvers window).0
        (accept_all base last carvers window).1
unfolding accept_all
accept_all-InOrder image base cursor last [] l h = omega arith
accept_all-InOrder image base cursor last (carver ∷ carvers) l (sound, rest) =
    let window = slice image base cursor in
    let accepted = accept base last (carver window) in
    InOrder-append image last accepted.1 _ accepted.0 _
      (accept-InOrder image base cursor last (carver window) l (sound window))
      (accept_all-InOrder image base cursor accepted.1 carvers l rest)

-- The loop ends with files in order.
abbrev ScansFrom : Bytes → ℕ → Option (List CarvedFile) → Type 0
ScansFrom image last result =
    (files : List CarvedFile) × (to : ℕ) × (result ≡ some files) × InOrder image last files to

ScansFrom-prepend :
    (image : Bytes) (last end : ℕ) (files : List CarvedFile) (rest : Option (List CarvedFile))
    → InOrder image last files end
    → ScansFrom image end rest
    → ScansFrom image last (prepend files rest)
ScansFrom-prepend image last end files rest h (more, to, same, behind) =
    rw same (files ++ more, to, refl, InOrder-append image last end to files more h behind)

module _ (image : Bytes) (carvers : List CarveFunction) (chunk_size overlap : ℕ) where
  -- what the loop does from a later place on
  abbrev Continues : ℕ → ℕ → Type 0
  Continues fuel cursor =
      (base after last : ℕ)
      → base ≤ after
      → after ≤ length image
      → cursor < after
      → ScansFrom image last
          (scan_from image carvers chunk_size overlap fuel (slice image base after) base after last)

  read_size :
      (cursor : ℕ) (chunk : Bytes)
      → read_bytes image cursor (min chunk_size (length image - cursor)) ≡ chunk
      → length chunk ≡ min chunk_size (length image - cursor)
  unfolding read_bytes
  read_size cursor chunk e =
      let size = min chunk_size (length image - cursor) in
      let taken = length-take size (drop cursor image) in
      let same : length (take size (drop cursor image)) ≡ length chunk = ap length e in
      omega (arith, taken, same, length-drop cursor image)

  window_range :
      (base cursor : ℕ) (chunk : Bytes)
      → base ≤ cursor
      → read_bytes image cursor (min chunk_size (length image - cursor)) ≡ chunk
      → slice image base cursor ++ chunk ≡ slice image base (cursor + length chunk)
  unfolding read_bytes
  window_range base cursor chunk l e =
      let joined = slice-append image base cursor (min chunk_size (length image - cursor)) l in
      let size = read_size cursor chunk (unfold read_bytes in e) in rw size (rw e at joined)

  slide_base_le :
      (window : Bytes) (base after : ℕ)
      → base ≤ after
      → slide_base overlap window base after ≤ after
  unfolding slide_base
  slide_base_le window base after l = ground arith

  -- A round of the loop on a window of the image.
  ScansFrom-round :
      0 < overlap
      → AreSound carvers
      → (fuel base cursor last : ℕ) → base ≤ cursor
      → cursor < length image
      → Continues fuel cursor
      → (chunk : Bytes) → read_bytes image cursor (min chunk_size (length image - cursor)) ≡ chunk
      → ScansFrom image last (elim chunk [
        | [] ↦ some []
        | b ∷ bs ↦
            let window = slice image base cursor ++ b ∷ bs in
            let after = cursor + length (b ∷ bs) in
            let (files, end) = accept_all base last carvers window in
            prepend files (
              scan_from image carvers chunk_size overlap fuel
                (slide overlap window)
                (slide_base overlap window base after)
                after
                end)
      ])
  ScansFrom-round positive sound fuel base cursor last l m rest [] e = ([], last, refl, omega arith)
  ScansFrom-round positive sound fuel base cursor last l m rest (b ∷ bs) e =
      let after = cursor + length (b ∷ bs) in
      let inside : after ≤ length image = omega (arith, read_size cursor (b ∷ bs) e) in
      let further : cursor < after = omega arith in
      let window = slice image base after in
      let accepted = accept_all base last carvers window in
      let next = slide_base overlap window base after in
      rw (window_range base cursor (b ∷ bs) l e) (
        ScansFrom-prepend image last accepted.1 accepted.0 _
          (accept_all-InOrder image base after last carvers (omega arith) sound)
          (rw (slide-slice image overlap base after positive (omega arith) inside) (
            rest next after accepted.1 (slide_base_le window base after (omega arith)) inside
              further)))

  scan_from-ScansFrom :
      0 < overlap
      → AreSound carvers
      → (fuel base cursor last : ℕ) → base ≤ cursor
      → cursor ≤ length image
      → length image - cursor < fuel
      → ScansFrom image last (
          scan_from image carvers chunk_size overlap fuel
            (slice image base cursor)
            base
            cursor
            last)
  unfolding scan_from
  scan_from-ScansFrom positive sound zero base cursor last l m n = absurd (omega arith)
  scan_from-ScansFrom positive sound (suc fuel) base cursor last l m n =
      elim (Bool-cases (ltb cursor (length image))) [
        | inl e ↦ rw e (
            ScansFrom-round positive sound fuel base cursor last l (ltb→lt _ _ e)
              (λ next after end l' m' further.
                scan_from-ScansFrom positive sound fuel next after end l' m' (omega arith))
              (read_bytes image cursor (min chunk_size (length image - cursor))) refl)
        | inr e ↦ rw e ([], last, refl, omega arith)
      ]

  -- With a positive overlap and carvers that return files of their input, `scan` ends, at any size of
  -- the chunks, and what it returns are files of the image at file-absolute offsets: each lies in the
  -- image and has the bytes of its range, and none begins before the end of the one before.
  pub scan-InOrder :
      0 < overlap
      → AreSound carvers
      → (files : List CarvedFile) × (to : ℕ) × (scan image carvers chunk_size overlap ≡ some files)
        × InOrder image 0 files to
  unfolding scan slice
  scan-InOrder positive sound =
      scan_from-ScansFrom positive sound (length image + 1) 0 0 0 (omega arith) (omega arith)
        (omega arith)

-- `carve` of a carver of the registry, which always ends.
unfoldable pub carver_function : Carver → CarveFunction
carver_function carver input = (carve-AreFiles carver input).0

AllLieIn-AreFiles :
    (carver : Carver) (input : Bytes) (from : ℕ) (files : List CarvedFile)
    → AreFiles carver input from files
    → AllLieIn input files
AllLieIn-AreFiles carver input from [] h = tt
AllLieIn-AreFiles carver input from (file ∷ files) (above, is_file, rest) = (
  (is_file.not_empty, is_file.inside, is_file.content),
  AllLieIn-AreFiles carver input file.offset_end files rest,
)

-- The carvers of the registry return files of their input.
pub carver_function-AllLieIn :
    (carver : Carver) (input : Bytes)
    → (carve carver input ≡ some (carver_function carver input))
      × AllLieIn input (carver_function carver input)
unfolding carver_function
carver_function-AllLieIn carver input =
    let (files, e, h) = carve-AreFiles carver input in (e, AllLieIn-AreFiles carver input 0 files h)
