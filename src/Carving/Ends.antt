-- ===== src/Carving/Ends.antt =====
-- The end of a carved file.
use recoverx_cli.Prelude.{
  ℕ, ◌+◌, ◌≤◌, ◌<◌, ◌≡◌, refl, Bool, true, false, Option, none, some, arith, if◌then◌else◌, length,
  drop,
}
use recoverx_cli.Utils.RawReader.{Bytes}
use recoverx_cli.Utils.Unpack.{u32}
use recoverx_cli.Carving.{
  Carver, jpeg, png, gif, bmp, pdf, jpeg_footer, png_footer, gif_footer, pdf_footer, starts_with,
  find, footer_end, jpeg_end, png_end, pdf_end, gif_end, declared_end, bmp_end, file_end,
}
use recoverx_cli.Carving.Find.{find-some, find-inside}

-- The first footer from a place on ends at `end`.
abbrev pub FooterAt : Bytes → Bytes → ℕ → ℕ → Type 0
FooterAt footer input from end =
    (k : ℕ) × (from ≤ k)
    × (end ≡ k + length footer)
    × (starts_with footer (drop k input) ≡ true)
    × ((j : ℕ) → from ≤ j → j < k → starts_with footer (drop j input) ≡ false)

-- What the end of a file is: that of its first footer, or that which the file declares.
abbrev pub IsEnd : Carver → Bytes → ℕ → ℕ → Type 0
IsEnd jpeg input start end = FooterAt jpeg_footer input (start + 3) end
IsEnd png input start end = FooterAt png_footer input (start + 8) end
IsEnd gif input start end = FooterAt gif_footer input (start + 6) end
IsEnd pdf input start end = FooterAt pdf_footer input (start + 4) end
IsEnd bmp input start end =
    (declared : ℕ) × (u32 input (start + 2) ≡ some declared) × (end ≡ start + declared)

footer_end-some :
    (limit : Option ℕ) (footer : Bytes) (found : Option ℕ) (end : ℕ)
    → footer_end limit footer found ≡ some end
    → (k : ℕ) × (found ≡ some k) × (end ≡ k + length footer)
unfolding footer_end
footer_end-some limit footer none end h = absurd (cc)
footer_end-some none footer (some k) end h = (k, refl, ground arith)
footer_end-some (some limit) footer (some k) end h = (k, refl, ground arith)

FooterAt-footer_end :
    (limit : Option ℕ) (footer input : Bytes) (start width end : ℕ)
    → 0 < length footer
    → footer_end limit footer (find footer input (start + width)) ≡ some end
    → (start < end) × (end ≤ length input) × FooterAt footer input (start + width) end
FooterAt-footer_end limit footer input start width end l h =
    let (k, found, e) = footer_end-some limit footer (find footer input (start + width)) end h in
    let (above, s, first) = find-some footer input (start + width) k found in
    let inside = find-inside footer input (start + width) k found l in
    (omega (arith, above), omega (arith, inside), (k, above, e, s, first))

declared_end-some :
    (input : Bytes) (start declared end : ℕ)
    → declared_end input start declared ≡ some end
    → (start < end) × (end ≤ length input) × (end ≡ start + declared)
unfolding declared_end
declared_end-some input start declared end h = ground arith

-- the tests before the end is taken
behind_test :
    (c : Bool) (x : Option ℕ) (end : ℕ) → (if c then none else x) ≡ some end → x ≡ some end
behind_test c x end h = ground arith

under_test : (c : Bool) (x : Option ℕ) (end : ℕ) → (if c then x else none) ≡ some end → x ≡ some end
under_test c x end h = ground arith

declared_by :
    (input : Bytes) (start end : ℕ) (r : Option ℕ)
    → elim r [ none ↦ none | some declared ↦ declared_end input start declared ] ≡ some end
    → (declared : ℕ) × (r ≡ some declared) × (declared_end input start declared ≡ some end)
declared_by input start end none h = absurd (cc)
declared_by input start end (some declared) h = (declared, refl, h)

bmp_end-some :
    (input : Bytes) (start end : ℕ)
    → bmp_end input start ≡ some end
    → (start < end) × (end ≤ length input) × IsEnd bmp input start end
unfolding bmp_end
bmp_end-some input start end h =
    let (declared, read, e) =
      declared_by input start end (u32 input (start + 2)) (behind_test _ _ end h) in
    let (above, inside, same) = declared_end-some input start declared end e in
    (above, inside, (declared, read, same))

pub file_end-IsEnd :
    (carver : Carver) (input : Bytes) (start end : ℕ)
    → file_end carver input start ≡ some end
    → (start < end) × (end ≤ length input) × IsEnd carver input start end
unfolding file_end jpeg_end png_end pdf_end gif_end
file_end-IsEnd jpeg input start end h =
    FooterAt-footer_end _ jpeg_footer input start 3 end (omega arith) h
file_end-IsEnd png input start end h =
    FooterAt-footer_end _ png_footer input start 8 end (omega arith) h
file_end-IsEnd gif input start end h =
    FooterAt-footer_end _ gif_footer input start 6 end (omega arith)
      (under_test _ _ end (behind_test _ _ end h))
file_end-IsEnd bmp input start end h = bmp_end-some input start end h
file_end-IsEnd pdf input start end h =
    FooterAt-footer_end _ pdf_footer input start 4 end (omega arith) h
