-- ===== src/Carving.antt =====
-- carving: signatures.py, base.py and the carvers. The five classes have the same loop.
use recoverx_cli.Prelude.{
  ℕ, zero, suc, ◌+◌, ◌-◌, ◌*◌, ◌/◌, ◌%◌, ◌^◌, ◌≤◌, ◌<◌, min, max, ◌≡◌, refl, sym, ap, ◌∙◌, subst,
  fun_ext, ◌≢◌, ◌↔◌, ◌⊎◌, inl, inr, Bool, true, false, not, ◌&&◌, ◌||◌, Option, none, some, List,
  [], ◌∷◌, ◌++◌, map, append-nil, append_assoc, arith, ltb, leb, ◌==◌, if◌then◌else◌, ltb→lt,
  lt→ltb, leb→le, ==_iff, Bool-cases, Option-cases, length, get_elem?, get_or, take, drop,
  replicate, concat, length-append, length-take, length-drop, length-replicate, length-map,
  take-zero, take-nil, drop-nil, take_of_length-le, take-append, take-take, take-replicate,
  replicate-add, drop-drop, take-add, get_elem?-append,
}
use recoverx_cli.Prelude.Int.{
  ℤ, pos, negsuc, pos_part, neg_part, sub_ℕ, ◌+ℤ◌, ◌-ℤ◌, ◌*ℤ◌, ◌≤ℤ◌, ◌<ℤ◌, leb_ℤ, ltb_ℤ, +ℤ_parts,
  -ℤ_parts, eq_of_parts, int_laws, pos-*, pos-+,
}
pub mod Find
pub mod Ends
pub mod Greedy
pub mod Files
pub mod Streaming
use Prim.Native.String.{String}
use recoverx_cli.Utils.RawReader.{Bytes}
use recoverx_cli.Utils.Unpack.{u32, slice}
use recoverx_cli.Utils.Text.{text, text_eq}

pub record CarvedFile : Type 0 where
  pub content : Bytes
  pub offset_start : ℕ
  pub offset_end : ℕ
  pub signature_name : String
  pub extension : String

pub record FileSignature : Type 0 where
  pub name : String
  pub extension : String
  pub header : Bytes
  pub footer : Option Bytes
  pub min_size : ℕ

-- One of the subclasses of `BaseCarver`.
pub data Carver : Type 0 where
  jpeg png gif bmp pdf : Carver

abbrev pub jpeg_footer : Bytes
jpeg_footer = 0xFF ∷ 0xD9 ∷ []

abbrev pub png_footer : Bytes
png_footer = 0 ∷ 0 ∷ 0 ∷ 0 ∷ (text "IEND" ++ 0xAE ∷ 0x42 ∷ 0x60 ∷ 0x82 ∷ [])

abbrev pub gif_footer : Bytes
gif_footer = 0 ∷ 0x3B ∷ []

abbrev pub pdf_footer : Bytes
pdf_footer = text "%%EOF"

-- SIGNATURES
unfoldable pub signature : Carver → FileSignature
signature jpeg = record {
  name = "JPEG";
  extension = "jpg";
  header = 0xFF ∷ 0xD8 ∷ 0xFF ∷ [];
  footer = some jpeg_footer;
  min_size = 128;
}
signature png = record {
  name = "PNG";
  extension = "png";
  header = 0x89 ∷ (text "PNG\r\n" ++ 0x1A ∷ 0x0A ∷ []);
  footer = some png_footer;
  min_size = 67;
}
signature gif = record {
  name = "GIF";
  extension = "gif";
  header = text "GIF8";
  footer = some gif_footer;
  min_size = 43;
}
signature bmp = record {
  name = "BMP";
  extension = "bmp";
  header = text "BM";
  footer = none;
  min_size = 54;
}
signature pdf = record {
  name = "PDF";
  extension = "pdf";
  header = text "%PDF";
  footer = some pdf_footer;
  min_size = 1024;
}

unfoldable pub starts_with : Bytes → Bytes → Bool
starts_with [] input = true
starts_with (p ∷ ps) [] = false
starts_with (p ∷ ps) (b ∷ bs) = p == b && starts_with ps bs

-- The first place of the pattern in bytes whose first one has the index `i`.
unfoldable pub find_in : Bytes → ℕ → Bytes → Option ℕ
unfolding starts_with
find_in pattern i [] = if starts_with pattern [] then some i else none
find_in pattern i (b ∷ bs) =
    let rest = find_in pattern (i + 1) bs in if starts_with pattern (b ∷ bs) then some i else rest

-- `data.find(pattern, offset)`; `none` is -1
unfoldable pub find : Bytes → Bytes → ℕ → Option ℕ
unfolding find_in
find pattern input offset =
    if ltb (length input) offset then none else find_in pattern offset (drop offset input)

-- The end of a file whose footer was found, not behind the limit if there is one.
unfoldable pub footer_end : Option ℕ → Bytes → Option ℕ → Option ℕ
footer_end limit footer none = none
footer_end none footer (some end) = some (end + length footer)
footer_end (some limit) footer (some end) =
    if ltb limit end then none else some (end + length footer)

-- What the carvers do behind a header at `start`: `none` is `offset = start + 1; continue`.
unfoldable pub jpeg_end : Bytes → Bytes → ℕ → Option ℕ
jpeg_end footer input start =
    footer_end (some (start + 4 * 1024 * 1024)) footer (find footer input (start + 3))

unfoldable pub png_end : Bytes → Bytes → ℕ → Option ℕ
png_end footer input start =
    footer_end (some (start + 8 * 1024 * 1024)) footer (find footer input (start + 8))

unfoldable pub pdf_end : Bytes → Bytes → ℕ → Option ℕ
pdf_end footer input start = footer_end none footer (find footer input (start + 4))

unfoldable pub gif_end : Bytes → Bytes → ℕ → Option ℕ
gif_end footer input start =
    if leb (length input) (start + 5)
    then none
    else let version = slice input (start + 3) (start + 6) in
      if text_eq version (text "87a") || text_eq version (text "89a")
      then footer_end (some (start + 4 * 1024 * 1024)) footer (find footer input (start + 6))
      else none

-- the tests of a declared size
unfoldable pub declared_end : Bytes → ℕ → ℕ → Option ℕ
declared_end input start declared =
    if (leb declared 54 || ltb (length input - start) declared) && ltb (4 * 1024 * 1024) declared
    then none
    else if ltb (length input) (start + declared) || leb (start + declared) start
    then none
    else some (start + declared)

-- `unpack_from` cannot fail: there are six bytes.
unfoldable pub bmp_end : Bytes → ℕ → Option ℕ
bmp_end input start = if ltb (length input - start) 6 then none else (elim (u32 input (start + 2)) [
  | none ↦ none
  | some declared ↦ declared_end input start declared
])

unfoldable pub file_end : Carver → Bytes → ℕ → Option ℕ
file_end jpeg input start = jpeg_end jpeg_footer input start
file_end png input start = png_end png_footer input start
file_end gif input start = gif_end gif_footer input start
file_end bmp input start = bmp_end input start
file_end pdf input start = pdf_end pdf_footer input start

unfoldable pub carved_file : Carver → Bytes → ℕ → ℕ → CarvedFile
carved_file carver input start end = record {
  content = slice input start end;
  offset_start = start;
  offset_end = end;
  signature_name = (signature carver).name;
  extension = (signature carver).extension;
}

-- `results.append` where the file is large enough
abbrev pub add_file : Carver → CarvedFile → Option (List CarvedFile) → Option (List CarvedFile)
add_file carver file none = none
add_file carver file (some files) =
    if leb (signature carver).min_size (length file.content)
    then some (file ∷ files)
    else some files

-- The `while` loop of `carve`, which all carvers share; `none` is a loop that needs more rounds.
unfoldable pub carve_from : Carver → Bytes → ℕ → ℕ → Option (List CarvedFile)
carve_from carver input zero offset = none
carve_from carver input (suc fuel) offset =
    let again = λ (next : ℕ). carve_from carver input fuel next in
    if ltb offset (length input)
    then elim (find (signature carver).header input offset) [
      | none ↦ some []
      | some start ↦ elim (file_end carver input start) [
        | none ↦ again (start + 1)
        | some end ↦ add_file carver (carved_file carver input start end) (again end)
      ]
    ]
    else some []

unfoldable pub carve : Carver → Bytes → Option (List CarvedFile)
carve carver input = carve_from carver input (length input + 1) 0
