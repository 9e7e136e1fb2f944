-- ===== src/Tests/Carving.antt =====
-- A GIF file in a small image.
use recoverx_cli.Prelude.{
  ℕ, ◌+◌, ◌≤◌, ◌≡◌, refl, none, some, List, [], ◌∷◌, ◌++◌, map, arith, drop, replicate,
}
use recoverx_cli.Utils.RawReader.{Bytes, read_bytes}
use recoverx_cli.Utils.Text.{text, text_eq}
use recoverx_cli.Utils.Unpack.{slice}
use recoverx_cli.Carving.{
  CarvedFile, gif, pdf, signature, carve, carve_from, find, find_in, starts_with, file_end, gif_end,
  footer_end, carved_file,
}
use recoverx_cli.Carving.Greedy.{IsGreedy, recorded, carve-IsGreedy}
use recoverx_cli.Carving.Streaming.{
  CarveFunction, scan, scan_from, accept_all, accept, absolute, slide, slide_base, last_bytes,
}
use recoverx_cli.Carving.Streaming.Offsets.{
  AreSound, InOrder, scan-InOrder, carver_function, carver_function-AllLieIn,
}
use recoverx_cli.Carving.Streaming.Dropped.{end_of, without_begun, accept_all-drops}

-- a GIF file of 48 bytes behind a byte
abbrev image : Bytes
image = 7 ∷ (text "GIF87a" ++ (replicate 40 1 ++ 0 ∷ 0x3B ∷ []))

program : Unit {0}
unfolding signature carve carve_from find find_in starts_with file_end gif_end footer_end
    carved_file text_eq slice scan scan_from accept_all accept absolute slide slide_base last_bytes
    read_bytes
program = tt

carves_gif :
    carve gif image
    ≡ some (
        record {
          content = drop 1 image;
          offset_start = 1;
          offset_end = 49;
          signature_name = "GIF";
          extension = "gif";
        }
        ∷ [])
unfolding program
carves_gif = refl

carve-IsGreedy_example :
    (files : List (ℕ × ℕ)) × IsGreedy gif image 0 files
    × (carve gif image ≡ some (recorded gif image files))
carve-IsGreedy_example = carve-IsGreedy gif image

abbrev carvers : List CarveFunction
carvers = carver_function gif ∷ carver_function pdf ∷ []

carvers-AreSound : AreSound carvers
carvers-AreSound = (
  (λ input. (carver_function-AllLieIn gif input).1),
  ((λ input. (carver_function-AllLieIn pdf input).1), tt),
)

scan-InOrder_example :
    (files : List CarvedFile) × (to : ℕ) × (scan image carvers 16 40 ≡ some files)
    × InOrder image 0 files to
scan-InOrder_example = scan-InOrder image carvers 16 40 (omega arith) carvers-AreSound

abbrev file : ℕ → ℕ → CarvedFile
file start end = record {
  content = slice image start end;
  offset_start = start;
  offset_end = end;
  signature_name = "";
  extension = "";
}

-- a carver that finds the bytes 7 in its input
abbrev find_sevens : CarveFunction
find_sevens input = elim (find (7 ∷ []) input 0) [
  | none ↦ []
  | some start ↦ record (file start (start + 1)) { content = slice input start (start + 1) } ∷ []
]

-- With no overlap, `buffer[-0:]` keeps the whole window, and its base moves on: the byte at 1 is
-- found again at 3, where the image has another.
scan_without_overlap :
    (files : List CarvedFile) × (scan (5 ∷ 7 ∷ 6 ∷ 6 ∷ []) (find_sevens ∷ []) 2 0 ≡ some files)
    × (map (λ f. f.offset_start) files ≡ 1 ∷ 3 ∷ [])
unfolding program
scan_without_overlap = (_, refl, refl)

-- At 100, behind 110, the first carver has a file at 30. Of the second only the file at 45 is left.
abbrev second : CarveFunction
second window = file 2 9 ∷ file 35 44 ∷ file 45 50 ∷ []

accept_all-drops_example :
    ((accept_all 100 110 ((λ window. file 30 40 ∷ []) ∷ second ∷ []) image).0
      ≡ absolute 100 (file 30 40) ∷ absolute 100 (file 45 50) ∷ [])
    × ((140 ≤ 145) × Unit {0})
unfolding program end_of without_begun
accept_all-drops_example =
    accept_all-drops 100 110 (λ window. file 30 40 ∷ []) (second ∷ []) image
      ((omega arith, (omega arith, (omega arith, tt))), tt)
