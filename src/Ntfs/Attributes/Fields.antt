-- ===== src/Ntfs/Attributes/Fields.antt =====
-- Numbers in little-endian bytes, and offsets in two's complement.
use recoverx_cli.Prelude.{
  ℕ, zero, suc, ◌+◌, ◌-◌, ◌*◌, ◌/◌, ◌%◌, ◌^◌, ◌≤◌, ◌<◌, ◌≡◌, refl, sym, ap, ◌∙◌, subst, false, some,
  [], ◌∷◌, ◌++◌, arith, leb, ◌==◌, if◌then◌else◌, length,
}
use recoverx_cli.Prelude.Int.{ℤ, pos, negsuc, sub_ℕ}
use recoverx_cli.Utils.RawReader.{Bytes}
use recoverx_cli.Utils.Unpack.{uint}
use recoverx_cli.Ntfs.Attributes.{signed}
use recoverx_cli.Ntfs.Attributes.Shift.{uint-cons}

unfoldable pub le_bytes : ℕ → ℕ → Bytes
le_bytes zero n = []
le_bytes (suc width) n = n % 256 ∷ le_bytes width (n / 256)

-- An offset in two's complement, in `width` bytes.
unfoldable pub unsigned : ℕ → ℤ → ℕ
unsigned width (pos n) = n
unsigned width (negsuc n) = 2 ^ (width * 8) - suc n

-- An offset that fits into `width` bytes; into none, the offset 0.
abbrev pub OffsetFits : ℕ → ℤ → Type 0
OffsetFits width (pos n) = n < 2 ^ (width * 8 - 1)
OffsetFits width (negsuc n) = (0 < width) × (suc n ≤ 2 ^ (width * 8 - 1))

pub length-le_bytes : (width n : ℕ) → length (le_bytes width n) ≡ width
unfolding le_bytes
length-le_bytes zero n = refl
length-le_bytes (suc width) n = ap suc (length-le_bytes width (n / 256))

pub uint-le_bytes :
    (width n : ℕ) (rest : Bytes)
    → n < 256 ^ width
    → uint width (le_bytes width n ++ rest) 0 ≡ some n
unfolding le_bytes uint
uint-le_bytes zero n rest l = let none_left : n ≡ 0 = omega arith in ap some (sym none_left)
uint-le_bytes (suc width) n rest l =
    let high : uint width (le_bytes width (n / 256) ++ rest) 0 ≡ some (n / 256) =
      uint-le_bytes width (n / 256) rest (omega arith) in
    let same : n % 256 + 256 * (n / 256) ≡ n = omega arith in
    rw (uint-cons width (n % 256) (le_bytes width (n / 256) ++ rest) 0, high, same) refl

pub uint-append :
    (width : ℕ) (before bytes : Bytes) (position : ℕ)
    → uint width (before ++ bytes) (length before + position) ≡ uint width bytes position
uint-append width [] bytes position =
    let same : 0 + position ≡ position = omega arith in rw same refl
uint-append width (b ∷ before) bytes position =
    let next : suc (length before) + position ≡ suc (length before + position) = omega arith in
    rw next (
      uint-cons width b (before ++ bytes) (length before + position)
      ∙ uint-append width before bytes position)

-- Half the range of an offset is negative.
signed_half :
    (half full : ℕ) (n : ℕ)
    → full ≡ half + half
    → suc n ≤ half
    → (if leb half (full - suc n) then sub_ℕ (full - suc n) full else pos (full - suc n)) ≡ negsuc n
signed_half half full n e l = ground arith

pow_double : (k : ℕ) → 2 ^ suc k ≡ 2 ^ k + 2 ^ k
pow_double k = omega arith

signed-unsigned :
    (width : ℕ) (offset : ℤ)
    → OffsetFits width offset
    → signed width (unsigned width offset) ≡ offset
unfolding signed unsigned
signed-unsigned width (pos n) l = ground arith
signed-unsigned width (negsuc n) (positive, l) =
    let bits : width * 8 ≡ suc (width * 8 - 1) = omega arith in
    let full : 2 ^ (width * 8) ≡ 2 ^ (width * 8 - 1) + 2 ^ (width * 8 - 1) =
      ap (λ k. 2 ^ k) bits ∙ pow_double (width * 8 - 1) in
    signed_half (2 ^ (width * 8 - 1)) (2 ^ (width * 8)) n full l

pow_nibble : (k : ℕ) → 2 ^ (k + 4) ≡ 2 ^ k * 16
pow_nibble k =
    let place : k + 4 ≡ suc (suc (suc (suc k))) = omega arith in
    ap (λ n. 2 ^ n) place
    ∙ omega (
      arith,
      pow_double k,
      pow_double (suc k),
      pow_double (suc (suc k)),
      pow_double (suc (suc (suc k))),
    )

pow_byte : (k : ℕ) → 2 ^ (k + 8) ≡ 2 ^ k * 256
pow_byte k =
    let place : k + 8 ≡ k + 4 + 4 = omega arith in
    ap (λ n. 2 ^ n) place ∙ omega (arith, pow_nibble k, pow_nibble (k + 4))

pow256 : (width : ℕ) → 256 ^ width ≡ 2 ^ (width * 8)
pow256 zero = refl
pow256 (suc width) =
    let rest : 256 ^ width ≡ 2 ^ (width * 8) = pow256 width in
    let bits : suc width * 8 ≡ width * 8 + 8 = omega arith in
    let bigger : 2 ^ (width * 8 + 8) ≡ 2 ^ (width * 8) * 256 = pow_byte (width * 8) in
    let next : 256 ^ suc width ≡ 256 ^ width * 256 = omega arith in
    next ∙ ap (λ n. n * 256) rest ∙ sym bigger ∙ ap (λ k. 2 ^ k) (sym bits)

below_full : (half full n : ℕ) → full ≡ half + half → n < half → n < full
below_full half full n e l = omega arith

pub unsigned_bound :
    (width : ℕ) (offset : ℤ) → OffsetFits width offset → unsigned width offset < 256 ^ width
unfolding unsigned
unsigned_bound zero (pos n) l = omega arith
unsigned_bound zero (negsuc n) (positive, l) = absurd (omega arith)
unsigned_bound (suc width) (pos n) l =
    let bits : suc width * 8 ≡ suc (suc width * 8 - 1) = omega arith in
    let full : 2 ^ (suc width * 8) ≡ 2 ^ (suc width * 8 - 1) + 2 ^ (suc width * 8 - 1) =
      ap (λ k. 2 ^ k) bits ∙ pow_double (suc width * 8 - 1) in
    let below = below_full (2 ^ (suc width * 8 - 1)) (2 ^ (suc width * 8)) n full l in
    subst (λ bound. n < bound) (sym (pow256 (suc width))) below
unsigned_bound (suc width) (negsuc n) (positive, l) =
    let bits : suc width * 8 ≡ suc (suc width * 8 - 1) = omega arith in
    let full : 2 ^ (suc width * 8) ≡ 2 ^ (suc width * 8 - 1) + 2 ^ (suc width * 8 - 1) =
      ap (λ k. 2 ^ k) bits ∙ pow_double (suc width * 8 - 1) in
    let below : 2 ^ (suc width * 8) - suc n < 2 ^ (suc width * 8) = omega (arith, full, l) in
    subst (λ bound. 2 ^ (suc width * 8) - suc n < bound) (sym (pow256 (suc width))) below

pub offset_field :
    (width : ℕ) (offset : ℤ)
    → OffsetFits width offset
    → (if width == 0 then pos 0 else signed width (unsigned width offset)) ≡ offset
offset_field zero (pos n) l = let none_left : 0 ≡ n = omega arith in ap pos none_left
offset_field zero (negsuc n) (positive, l) = absurd (omega arith)
offset_field (suc width) offset l =
    let nonzero : (suc width == 0) ≡ false = ground arith in
    rw nonzero (signed-unsigned (suc width) offset l)
