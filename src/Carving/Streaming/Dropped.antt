-- ===== src/Carving/Streaming/Dropped.antt =====
-- The files that the scanner drops when several carvers run on one window.
use recoverx_cli.Prelude.{
  ℕ, ◌+◌, ◌≤◌, ◌≡◌, refl, inl, inr, false, List, [], ◌∷◌, ◌++◌, map, arith, ltb, if◌then◌else◌,
  Bool-cases,
}
use recoverx_cli.Utils.RawReader.{Bytes}
use recoverx_cli.Carving.{CarvedFile}
use recoverx_cli.Carving.Streaming.{CarveFunction, absolute, accept, accept_all}

-- No file ends before it begins.
abbrev pub AreOrdered : List CarvedFile → Type 0
AreOrdered [] = Unit {0}
AreOrdered (file ∷ files) = (file.offset_start ≤ file.offset_end) × AreOrdered files

abbrev pub AllOrdered : List CarveFunction → Bytes → Type 0
AllOrdered [] window = Unit {0}
AllOrdered (carver ∷ carvers) window = AreOrdered (carver window) × AllOrdered carvers window

-- Every file begins at a place or behind it.
abbrev pub AllBeginFrom : ℕ → List CarvedFile → Type 0
AllBeginFrom place [] = Unit {0}
AllBeginFrom place (file ∷ files) = (place ≤ file.offset_start) × AllBeginFrom place files

-- The end of the last file, or a place where there is none.
unfoldable pub end_of : ℕ → List CarvedFile → ℕ
end_of place [] = place
end_of place (file ∷ files) = end_of file.offset_end files

-- Without the files of a window at `base` that begin in front of a place of the image.
unfoldable pub without_begun : ℕ → ℕ → List CarvedFile → List CarvedFile
without_begun base place [] = []
without_begun base place (file ∷ files) =
    let rest = without_begun base place files in
    if ltb (base + file.offset_start) place then rest else file ∷ rest

-- The same of the results of a carver.
abbrev pub only_from : ℕ → ℕ → CarveFunction → CarveFunction
only_from base place carver window = without_begun base place (carver window)

module _ (base place : ℕ) where
  accept-without_begun :
      (last : ℕ) (files : List CarvedFile)
      → place ≤ last
      → AreOrdered files
      → (accept base last files ≡ accept base last (without_begun base place files))
        × (place ≤ (accept base last files).1)
        × AllBeginFrom place (accept base last files).0
  unfolding accept absolute without_begun
  accept-without_begun last [] h o = (refl, h, tt)
  accept-without_begun last (file ∷ files) h (ordered, others) =
      elim (Bool-cases (ltb (base + file.offset_start) last)) [
        | inl skipped ↦
            let rest = accept-without_begun last files h others in
            elim (Bool-cases (ltb (base + file.offset_start) place)) [
              | inl begun ↦ rw (skipped, begun) rest
              | inr behind ↦ rw (skipped, behind, skipped, ← rest.0) (refl, rest.1, rest.2)
            ]
        | inr kept ↦
            let behind : ltb (base + file.offset_start) place ≡ false = ground arith in
            let rest = accept-without_begun (base + file.offset_end) files (ground arith) others in
            rw (kept, behind, kept, ← rest.0) (refl, rest.1, (ground arith, rest.2))
      ]

  AllBeginFrom-append :
      (xs ys : List CarvedFile)
      → AllBeginFrom place xs
      → AllBeginFrom place ys
      → AllBeginFrom place (xs ++ ys)
  AllBeginFrom-append [] ys h k = k
  AllBeginFrom-append (x ∷ xs) ys h k = (h.0, AllBeginFrom-append xs ys h.1 k)

  -- The loop over carvers, from a position on that is not in front of the place.
  accept_all-only_from :
      (last : ℕ) (carvers : List CarveFunction) (window : Bytes)
      → place ≤ last
      → AllOrdered carvers window
      → (accept_all base last carvers window
          ≡ accept_all base last (map (only_from base place) carvers) window)
        × AllBeginFrom place (accept_all base last carvers window).0
  unfolding accept_all
  accept_all-only_from last [] window h o = (refl, tt)
  accept_all-only_from last (carver ∷ carvers) window h (ordered, others) =
      let first = accept-without_begun last (carver window) h ordered in
      let end = (accept base last (carver window)).1 in
      let rest = accept_all-only_from end carvers window first.1 others in
      (
        rw (← first.0, ← rest.0) refl,
        AllBeginFrom-append (accept base last (carver window)).0
            (accept_all base end carvers window).0 first.2 rest.1,
      )

accept-end_of :
    (base last : ℕ) (files : List CarvedFile)
    → (accept base last files).1 ≡ end_of last (accept base last files).0
unfolding accept absolute end_of
accept-end_of base last [] = refl
accept-end_of base last (file ∷ files) = elim (Bool-cases (ltb (base + file.offset_start) last)) [
  | inl skipped ↦ rw skipped (accept-end_of base last files)
  | inr kept ↦ rw kept (accept-end_of base (base + file.offset_end) files)
]

-- Carvers run on one window, and no file of the later ones ends before it begins. The result is what
-- the first carver adds, and then what the others give when all their files are removed that begin
-- before the end of the last file added by the first, or before `last` where it adds none. So these
-- files are dropped, also those that lie wholly in front of that file, and none of theirs in the
-- result begins before that end.
pub accept_all-drops :
    (base last : ℕ) (first : CarveFunction) (carvers : List CarveFunction) (window : Bytes)
    → AllOrdered carvers window
    → let files = (accept base last (first window)).0 in
      let end = end_of last files in
      let later = (accept_all base end (map (only_from base end) carvers) window).0 in
      ((accept_all base last (first ∷ carvers) window).0 ≡ files ++ later) × AllBeginFrom end later
unfolding accept_all
accept_all-drops base last first carvers window o =
    let end = end_of last (accept base last (first window)).0 in
    let (same, behind) = accept_all-only_from base end end carvers window (omega arith) o in
    rw (accept-end_of base last (first window), ← same) (refl, behind)
