-- ===== src/Carving/Files.antt =====
-- The files that a carver returns.
use recoverx_cli.Prelude.{
  ℕ, ◌≤◌, ◌<◌, ◌≡◌, refl, inl, inr, true, some, List, [], ◌∷◌, arith, leb, leb→le, Bool-cases,
  length, drop,
}
use recoverx_cli.Utils.RawReader.{Bytes}
use recoverx_cli.Utils.Unpack.{slice}
use recoverx_cli.Carving.{Carver, CarvedFile, signature, starts_with, carved_file, carve}
use recoverx_cli.Carving.Ends.{IsEnd, file_end-IsEnd}
use recoverx_cli.Carving.Greedy.{IsGreedy, recorded, carve-IsGreedy}

-- A file of the carver's format in the input: where it lies, its bytes, and what is around them.
pub record IsFile (carver : Carver) (input : Bytes) (file : CarvedFile) : Type 0 where
  pub not_empty : file.offset_start < file.offset_end
  pub inside : file.offset_end ≤ length input
  pub content : file.content ≡ slice input file.offset_start file.offset_end
  pub large : (signature carver).min_size ≤ length file.content
  pub header : starts_with (signature carver).header (drop file.offset_start input) ≡ true
  pub ending : IsEnd carver input file.offset_start file.offset_end

-- Files in order, each behind the one before.
abbrev pub AreFiles : Carver → Bytes → ℕ → List CarvedFile → Type 0
AreFiles carver input from [] = Unit {0}
AreFiles carver input from (file ∷ files) =
    (from ≤ file.offset_start)
    × IsFile carver input file
    × AreFiles carver input file.offset_end files

AreFiles-extend :
    (carver : Carver) (input : Bytes) (from next : ℕ) (files : List CarvedFile)
    → from ≤ next
    → AreFiles carver input next files
    → AreFiles carver input from files
AreFiles-extend carver input from next [] l h = tt
AreFiles-extend carver input from next (file ∷ files) l (above, is_file, rest) =
    (omega (arith, above), is_file, rest)

recorded-AreFiles :
    (carver : Carver) (input : Bytes) (from : ℕ) (files : List (ℕ × ℕ))
    → IsGreedy carver input from files
    → AreFiles carver input from (recorded carver input files)
unfolding recorded carved_file
recorded-AreFiles carver input from [] h = tt
recorded-AreFiles carver input from ((start, end) ∷ files) (above, present, e, none_before, rest) =
    let (not_empty, inside, ending) = file_end-IsEnd carver input start end e in
    let behind = recorded-AreFiles carver input end files rest in
    elim (Bool-cases (leb (signature carver).min_size (length (slice input start end)))) [
      | inl large ↦ rw large (
        above,
        (record {
          not_empty = not_empty;
          inside = inside;
          content = refl;
          large = leb→le _ _ large;
          header = present;
          ending = ending;
        }),
        behind,
      )
      | inr small ↦
          rw small
            (AreFiles-extend carver input from end _ (omega (arith, above, not_empty)) behind)
    ]

pub carve-AreFiles :
    (carver : Carver) (input : Bytes)
    → (files : List CarvedFile) × (carve carver input ≡ some files) × AreFiles carver input 0 files
carve-AreFiles carver input =
    let (files, greedy, e) = carve-IsGreedy carver input in
    (recorded carver input files, e, recorded-AreFiles carver input 0 files greedy)
