-- ===== src/Utils/Text.antt =====
-- What the parsers use of Python texts: a text is the list of its code points.
use recoverx_cli.Prelude.{
  ℕ, ◌+◌, ◌/◌, ◌%◌, ◌≡◌, refl, subst, ◌↔◌, Bool, true, false, ◌&&◌, ◌||◌, List, [], ◌∷◌, arith, ltb,
  leb, ◌==◌, if◌then◌else◌,
}
use Prim.Native.Char.{code}
use Prim.Native.String.{String}
use recoverx_cli.Utils.RawReader.{Bytes}

abbrev pub Text : Type 0
Text = List ℕ

-- The code points of a literal.
abbrev pub text : String → Text
text String.[] = []
text (String.◌∷◌ c s) = code c ∷ text s

unfoldable pub text_eq : Text → Text → Bool
text_eq [] [] = true
text_eq [] (y ∷ ys) = false
text_eq (x ∷ xs) [] = false
text_eq (x ∷ xs) (y ∷ ys) = x == y && text_eq xs ys

-- `bytes.decode("ascii", errors="replace")`
unfoldable pub decode_ascii : Bytes → Text
decode_ascii [] = []
decode_ascii (b ∷ bs) = (if ltb b 128 then b else 0xFFFD) ∷ decode_ascii bs

-- `str.isspace` of a character: ASCII white space, and the other white space of Unicode
unfoldable pub is_space : ℕ → Bool
is_space c =
    (leb 9 c && leb c 13)
    || (leb 28 c && leb c 32)
    || c == 0x85
    || c == 0xA0
    || c == 0x1680
    || (leb 0x2000 c && leb c 0x200A)
    || c == 0x2028
    || c == 0x2029
    || c == 0x202F
    || c == 0x205F
    || c == 0x3000

unfoldable pub drop_while : (ℕ → Bool) → Text → Text
drop_while test [] = []
drop_while test (c ∷ s) = let rest = drop_while test s in if test c then rest else c ∷ s

unfoldable pub drop_while_end : (ℕ → Bool) → Text → Text
drop_while_end test [] = []
drop_while_end test (c ∷ s) =
    let rest = drop_while_end test s in
    elim rest [ [] ↦ if test c then [] else c ∷ [] | r ∷ rs ↦ c ∷ r ∷ rs ]

-- `s.strip()`, `s.rstrip()` and `s.rstrip(chars)`
unfoldable pub strip : Text → Text
strip s = drop_while_end is_space (drop_while is_space s)

unfoldable pub rstrip : Text → Text
rstrip = drop_while_end is_space

unfoldable pub rstrip_char : ℕ → Text → Text
rstrip_char c = drop_while_end (λ x. x == c)

unfoldable pub hex_digit : ℕ → ℕ
hex_digit n = if ltb n 10 then n + 48 else n + 55

-- `bytes.hex().upper()`
unfoldable pub hex_upper : Bytes → Text
hex_upper [] = []
hex_upper (b ∷ bs) = hex_digit (b / 16) ∷ hex_digit (b % 16) ∷ hex_upper bs

pub text_eq→eq : (s t : Text) → text_eq s t ≡ true → s ≡ t
unfolding text_eq
text_eq→eq [] [] h = refl
text_eq→eq [] (y ∷ ys) h = absurd (cc)
text_eq→eq (x ∷ xs) [] h = absurd (cc)
text_eq→eq (x ∷ xs) (y ∷ ys) h = ground (arith, text_eq→eq xs ys)

pub text_eq_refl : (s : Text) → text_eq s s ≡ true
unfolding text_eq
text_eq_refl [] = refl
text_eq_refl (x ∷ xs) = ground (arith, text_eq_refl xs)

pub text_eq_iff : (s t : Text) → (text_eq s t ≡ true) ↔ (s ≡ t)
text_eq_iff s t = (text_eq→eq s t, λ e. subst (λ u. text_eq s u ≡ true) e (text_eq_refl s))
