-- ===== src/Carving/Greedy.antt =====
-- The loop of the carvers against a greedy search.
use recoverx_cli.Prelude.{
  ℕ, zero, suc, ◌+◌, ◌-◌, ◌≤◌, ◌<◌, ◌≡◌, refl, sym, ◌∙◌, inl, inr, true, false, Option, none, some,
  List, [], ◌∷◌, arith, ltb, leb, ◌==◌, if◌then◌else◌, Bool-cases, length, drop, length-drop,
}
use mathlib.Core.Bool.{false≢true}
use recoverx_cli.Utils.RawReader.{Bytes}
use recoverx_cli.Carving.{
  Carver, CarvedFile, jpeg, png, gif, bmp, pdf, signature, starts_with, find, file_end, carved_file,
  add_file, carve_from, carve,
}
use recoverx_cli.Carving.Find.{starts_with-length, find-some, find-none}
use recoverx_cli.Carving.Ends.{file_end-IsEnd}

-- No file of the format begins at `s`: no header is there, or no end belongs to it.
abbrev pub NoFile : Carver → Bytes → ℕ → Type 0
NoFile carver input s =
    starts_with (signature carver).header (drop s input) ≡ true → file_end carver input s ≡ none

-- The files from a place on, by their starts and ends: each is the first behind the one before.
abbrev pub IsGreedy : Carver → Bytes → ℕ → List (ℕ × ℕ) → Type 0
IsGreedy carver input from [] = (s : ℕ) → from ≤ s → NoFile carver input s
IsGreedy carver input from ((start, end) ∷ files) =
    (from ≤ start)
    × (starts_with (signature carver).header (drop start input) ≡ true)
    × (file_end carver input start ≡ some end)
    × ((s : ℕ) → from ≤ s → s < start → NoFile carver input s)
    × IsGreedy carver input end files

-- Those of them that are large enough, as files.
unfoldable pub recorded : Carver → Bytes → List (ℕ × ℕ) → List CarvedFile
recorded carver input [] = []
recorded carver input ((start, end) ∷ files) =
    let file = carved_file carver input start end in
    let rest = recorded carver input files in
    if leb (signature carver).min_size (length file.content) then file ∷ rest else rest

header_not_nil : (carver : Carver) → 0 < length (signature carver).header
unfolding signature
header_not_nil jpeg = omega arith
header_not_nil png = omega arith
header_not_nil gif = omega arith
header_not_nil bmp = omega arith
header_not_nil pdf = omega arith

IsGreedy-extend :
    (carver : Carver) (input : Bytes) (from next : ℕ) (files : List (ℕ × ℕ))
    → from ≤ next
    → ((s : ℕ) → from ≤ s → s < next → NoFile carver input s)
    → IsGreedy carver input next files
    → IsGreedy carver input from files
IsGreedy-extend carver input from next [] l skipped h = λ s above. elim (Bool-cases (ltb s next)) [
  | inl below ↦ skipped s above (ground arith)
  | inr beyond ↦ h s (ground arith)
]
IsGreedy-extend carver input from next ((start, end) ∷ files) l skipped
      (above, present, e, none_before, rest) =
    (
      omega (arith, above),
      present,
      e,
      (λ s m below. elim (Bool-cases (ltb s next)) [
        | inl before ↦ skipped s m (ground arith)
        | inr beyond ↦ none_before s (ground arith) below
      ]),
      rest,
    )

absent-NoFile :
    (carver : Carver) (input : Bytes) (s : ℕ)
    → starts_with (signature carver).header (drop s input) ≡ false
    → NoFile carver input s
absent-NoFile carver input s absent = λ present. absurd (false≢true (sym absent ∙ present))

outside-NoFile :
    (carver : Carver) (input : Bytes) (s : ℕ) → length input ≤ s → NoFile carver input s
outside-NoFile carver input s l = λ present.
    let fits = starts_with-length (signature carver).header (drop s input) present in
    absurd (omega (arith, fits, length-drop s input, header_not_nil carver))

add_file-recorded :
    (carver : Carver) (input : Bytes) (start end : ℕ) (files : List (ℕ × ℕ))
    → add_file carver (carved_file carver input start end) (some (recorded carver input files))
      ≡ some (recorded carver input ((start, end) ∷ files))
unfolding recorded
add_file-recorded carver input start end files =
    elim (Bool-cases
      (leb (signature carver).min_size (length (carved_file carver input start end).content))) [
        | inl e ↦ rw e refl
        | inr e ↦ rw e refl
      ]

-- The loop has come to its end: what it returns is recorded of greedy files.
abbrev pub CarvesFrom : Carver → Bytes → ℕ → Option (List CarvedFile) → Type 0
CarvesFrom carver input from result =
    (files : List (ℕ × ℕ)) × IsGreedy carver input from files
    × (result ≡ some (recorded carver input files))

-- a round behind a header
CarvesFrom-start :
    (carver : Carver) (input : Bytes) (from start : ℕ) (again : ℕ → Option (List CarvedFile))
    → find (signature carver).header input from ≡ some start
    → ((next : ℕ) → start < next → CarvesFrom carver input next (again next))
    → (r : Option ℕ) → file_end carver input start ≡ r
    → CarvesFrom carver input from (elim r [
      | none ↦ again (start + 1)
      | some end ↦ add_file carver (carved_file carver input start end) (again end)
    ])
CarvesFrom-start carver input from start again found rest none e =
    let (above, present, first) = find-some (signature carver).header input from start found in
    let (files, greedy, same) = rest (start + 1) (omega arith) in
    (
      files,
      IsGreedy-extend carver input from (start + 1) files (omega arith)
          (λ s l m. elim (Bool-cases (s == start)) [
            | inl here ↦ λ p. let at : s ≡ start = ground arith in rw at e
            | inr before ↦ absent-NoFile carver input s (first s l (ground arith))
          ])
          greedy,
      same,
    )
CarvesFrom-start carver input from start again found rest (some end) e =
    let (above, present, first) = find-some (signature carver).header input from start found in
    let (files, greedy, same) = rest end (file_end-IsEnd carver input start end e).0 in
    (
      (start, end) ∷ files,
      (above, present, e, (λ s l m. absent-NoFile carver input s (first s l m)), greedy),
      rw same (add_file-recorded carver input start end files),
    )

CarvesFrom-find :
    (carver : Carver) (input : Bytes) (from : ℕ) (again : ℕ → Option (List CarvedFile))
    → ((next : ℕ) → from < next → CarvesFrom carver input next (again next))
    → (found : Option ℕ) → find (signature carver).header input from ≡ found
    → CarvesFrom carver input from (elim found [
      | none ↦ some []
      | some start ↦ elim (file_end carver input start) [
        | none ↦ again (start + 1)
        | some end ↦ add_file carver (carved_file carver input start end) (again end)
      ]
    ])
CarvesFrom-find carver input from again rest none e = (
  [],
  (λ s l.
      absent-NoFile carver input s
        (find-none (signature carver).header input from s (header_not_nil carver) e l)),
  unfold recorded in refl,
)
CarvesFrom-find carver input from again rest (some start) e =
    let above = (find-some (signature carver).header input from start e).0 in
    CarvesFrom-start carver input from start again e (λ next l. rest next (omega (arith, above)))
      (file_end carver input start) refl

shrinks :
    (from next size fuel : ℕ)
    → ltb from size ≡ true
    → size - from < suc fuel
    → from < next
    → size - next < fuel
shrinks from next size fuel e l m = ground arith

carve_from-CarvesFrom :
    (carver : Carver) (input : Bytes) (fuel from : ℕ)
    → length input - from < fuel
    → CarvesFrom carver input from (carve_from carver input fuel from)
unfolding carve_from
carve_from-CarvesFrom carver input zero from l = absurd (omega arith)
carve_from-CarvesFrom carver input (suc fuel) from l = elim (Bool-cases (ltb from (length input))) [
  | inl e ↦ rw e (
      CarvesFrom-find carver input from (carve_from carver input fuel)
        (λ next m.
          carve_from-CarvesFrom carver input fuel next
            (shrinks from next (length input) fuel e l m))
        (find (signature carver).header input from) refl)
  | inr e ↦
      rw e ([], (λ s m. outside-NoFile carver input s (ground arith)), unfold recorded in refl)
]

-- `carve` ends, and the files that it returns are the ones that a greedy search from the left gives,
-- less those that are below the minimum size: the first place with a header and an end that belongs
-- to it is the first file, and the search goes on behind its end.
pub carve-IsGreedy :
    (carver : Carver) (input : Bytes)
    → (files : List (ℕ × ℕ)) × IsGreedy carver input 0 files
      × (carve carver input ≡ some (recorded carver input files))
unfolding carve
carve-IsGreedy carver input = carve_from-CarvesFrom carver input (length input + 1) 0 (omega arith)
