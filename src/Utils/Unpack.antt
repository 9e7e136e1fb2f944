-- ===== src/Utils/Unpack.antt =====
-- What the parsers use of Python's `struct` and of indexing: `none` is `struct.error` or
-- `IndexError`, a read past the end of the data.
use recoverx_cli.Prelude.{
  ℕ, zero, suc, ◌+◌, ◌-◌, ◌*◌, ◌≤◌, ◌<◌, min, ◌≡◌, refl, Bool, true, false, if◌then◌else◌, Option,
  none, some, [], ◌∷◌, arith, length, get_elem?, take, drop, length-take, length-drop,
}
use recoverx_cli.Utils.RawReader.{Bytes}

infixl 5 ◌>>=◌
abbrev pub ◌>>=◌ {ℓ κ} : {A : Type ℓ} {B : Type κ} → Option A → (A → Option B) → Option B
none >>= f = none
some a >>= f = f a

-- A chain that gives a result is taken apart at its first step.
pub bind-through {ℓ κ ρ} :
    {A : Type ℓ} {B : Type κ} {P : Type ρ} (o : Option A) {f : A → Option B} {b : B}
    → (o >>= f) ≡ some b
    → ((a : A) → o ≡ some a → f a ≡ some b → P)
    → P
bind-through none h p = absurd (cc)
bind-through (some a) h p = p a refl h

-- The same at an early return of None.
pub unless-through {ℓ ρ} :
    {A : Type ℓ} {P : Type ρ} (test : Bool) {o : Option A} {a : A}
    → (if test then none else o) ≡ some a
    → (test ≡ false → o ≡ some a → P)
    → P
unless-through true h p = absurd (cc)
unless-through false h p = p refl h

pub when-through {ℓ ρ} :
    {A : Type ℓ} {P : Type ρ} (test : Bool) {o : Option A} {a : A}
    → (if test then o else none) ≡ some a
    → (test ≡ true → o ≡ some a → P)
    → P
when-through true h p = p refl h
when-through false h p = absurd (cc)

-- `data[offset]`
abbrev pub byte : Bytes → ℕ → Option ℕ
byte bytes offset = get_elem? bytes offset

-- The little-endian number in the `width` bytes at an offset.
unfoldable pub uint : ℕ → Bytes → ℕ → Option ℕ
uint zero bytes offset = some 0
uint (suc width) bytes offset = do
  low ← byte bytes offset
  high ← uint width bytes (offset + 1)
  some (low + 256 * high)

-- `struct.unpack_from("<H", …)`, `"<I"` and `"<Q"`
abbrev pub u16 : Bytes → ℕ → Option ℕ
u16 = uint 2

abbrev pub u32 : Bytes → ℕ → Option ℕ
u32 = uint 4

abbrev pub u64 : Bytes → ℕ → Option ℕ
u64 = uint 8

-- `data[first : last]`
unfoldable pub slice : Bytes → ℕ → ℕ → Bytes
slice bytes first last = take (last - first) (drop first bytes)

pub byte_in_range :
    (bytes : Bytes) (offset : ℕ) → offset < length bytes → (b : ℕ) × (byte bytes offset ≡ some b)
byte_in_range [] offset h = absurd (omega arith)
byte_in_range (x ∷ xs) zero h = (x, refl)
byte_in_range (x ∷ xs) (suc offset) h = byte_in_range xs offset (omega arith)

-- A number within the data is read.
pub uint_in_range :
    (width : ℕ) (bytes : Bytes) (offset : ℕ)
    → offset + width ≤ length bytes
    → (n : ℕ) × (uint width bytes offset ≡ some n)
unfolding uint
uint_in_range zero bytes offset h = (0, refl)
uint_in_range (suc width) bytes offset h =
    let (low, e) = byte_in_range bytes offset (omega arith) in
    let (high, f) = uint_in_range width bytes (offset + 1) (omega arith) in
    (low + 256 * high, rw (e, f))

pub length-slice :
    (bytes : Bytes) (first last : ℕ)
    → length (slice bytes first last) ≡ min (last - first) (length bytes - first)
unfolding slice
length-slice bytes first last =
    omega (arith, length-take (last - first) (drop first bytes), length-drop first bytes)
