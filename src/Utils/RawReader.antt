-- ===== src/Utils/RawReader.antt =====
-- src/recoverx/core/utils/raw_reader.py. The file behind the handle is its bytes; `seek` moves
-- the position, `read` stops at the end of the file.
use recoverx_cli.Prelude.{
  ℕ, zero, suc, ◌+◌, ◌-◌, ◌*◌, ◌/◌, ◌≤◌, ◌≡◌, ◌&&◌, ltb, leb, if◌then◌else◌, Option, none, some,
  List, [], ◌∷◌, min, max, Bool, ◌||◌, arith, length, take, drop, length-take, length-drop, ◌++◌,
  take-add, drop-drop,
}
use recoverx_cli.Prelude.Int.{ℤ, pos, negsuc}

abbrev pub Bytes : Type 0
Bytes = List ℕ

pub data ReadError : Type 0 where
  not_open : ReadError
  -- `seek` refuses a negative position, and `seek` and `read` a number of more than 63 bits
  invalid_seek : ReadError

pub data Result {ℓ} (A : Type ℓ) : Type ℓ where
  ok : A → Result A
  raise : ReadError → Result A

infixl 5 ◌>>=◌
abbrev pub ◌>>=◌ {ℓ κ} : {A : Type ℓ} {B : Type κ} → Result A → (A → Result B) → Result B
ok a >>= f = f a
raise e >>= f = raise e

pub record RawReader : Type 0 where
  pub sector_size : ℕ
  pub handle : Option Bytes
  pub size : ℕ

-- __init__ with the path's content left to `open`
abbrev pub new : ℕ → RawReader
new sector_size = record { sector_size = sector_size; handle = none; size = 0 }

-- open(): the size is the position after a seek to the end
abbrev pub open_file : Bytes → RawReader → RawReader
open_file content r = record r { handle = some content; size = length content }

abbrev pub close : RawReader → RawReader
close r = record r { handle = none }

-- `seek(offset)` and `read(size)` on an open file
unfoldable pub read_bytes : Bytes → ℕ → ℕ → Bytes
read_bytes content offset size = take size (drop offset content)

-- A number that `seek` and `read` refuse.
abbrev pub too_large : Bytes → ℕ → Bool
too_large content n = ltb (length content) n && leb 0x8000000000000000 n

-- The same at a Python integer. `seek` and `read` raise an exception for numbers from 2 ^ 63 on. No
-- file is that long, so an offset within the file, or a size that is not above that of the file, is
-- never refused. (A file system may refuse smaller offsets too, where the file has no bytes.)
unfoldable pub seek_read : Bytes → ℤ → ℕ → Result Bytes
unfolding read_bytes
seek_read content (pos offset) size =
    if too_large content offset || too_large content size
    then raise invalid_seek
    else ok (read_bytes content offset size)
seek_read content (negsuc n) size = raise invalid_seek

-- A seek within the file, or to its end, is not refused, nor is a read of a size that the file or
-- 63 bits have.
pub seek_read-inside :
    (content : Bytes) (offset size : ℕ)
    → offset ≤ length content
    → size ≤ max (length content) 0x7FFFFFFFFFFFFFFF
    → seek_read content (pos offset) size ≡ ok (read_bytes content offset size)
unfolding seek_read
seek_read-inside content offset size h s = ground arith

unfoldable pub read_at : RawReader → ℤ → ℕ → Result Bytes
unfolding seek_read
read_at r offset size = elim r.handle [
  | none ↦ raise not_open
  | some content ↦ seek_read content offset size
]

unfoldable pub sector_count : RawReader → ℕ
sector_count r = r.size / r.sector_size

unfoldable pub read_sector : RawReader → ℕ → Result Bytes
unfolding read_at
read_sector r sector = read_at r (pos (sector * r.sector_size)) r.sector_size

-- the sectors start, start + 1, …: one for each of the rounds
unfoldable pub sectors_from : RawReader → ℕ → ℕ → Result (List (ℕ × Bytes))
unfolding read_sector
sectors_from r start zero = ok []
sectors_from r start (suc n) = do
  sector ← read_sector r start
  rest ← sectors_from r (start + 1) n
  ok ((start, sector) ∷ rest)

unfoldable pub iter_sectors : RawReader → ℕ → Option ℕ → Result (List (ℕ × Bytes))
unfolding sectors_from sector_count
iter_sectors r start none = sectors_from r start (sector_count r - start)
iter_sectors r start (some count) =
    sectors_from r start (min (start + count) (sector_count r) - start)

pub length-read_bytes :
    (content : Bytes) (offset size : ℕ)
    → length (read_bytes content offset size) ≡ min size (length content - offset)
unfolding read_bytes
length-read_bytes content offset size =
    omega (arith, length-take size (drop offset content), length-drop offset content)

-- A read of n + m bytes is a read of n and one of m behind it.
pub read_bytes-add :
    (content : Bytes) (offset n m : ℕ)
    → read_bytes content offset (n + m)
      ≡ read_bytes content offset n ++ read_bytes content (offset + n) m
unfolding read_bytes
read_bytes-add content offset n m =
    rw (take-add n m (drop offset content), drop-drop n offset content)
