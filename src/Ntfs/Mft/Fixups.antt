-- ===== src/Ntfs/Mft/Fixups.antt =====
-- ntfs/mft.py: where the fixups of a record change its bytes.
use recoverx_cli.Prelude.{
  ℕ, zero, suc, ◌+◌, ◌-◌, ◌*◌, ◌/◌, ◌%◌, ◌≤◌, ◌<◌, ◌≡◌, refl, ◌∙◌, inl, inr, ◌&&◌, Option, none,
  some, List, [], ◌∷◌, arith, ltb, leb, ◌==◌, if◌then◌else◌, Bool-cases, length, get_elem?, take,
  drop, length-append, length-take, length-drop,
}
use recoverx_cli.Utils.RawReader.{Bytes}
use recoverx_cli.Ntfs.Mft.{
  MftRecordHeader, fixup_values, pack_u16, fix_sector, fix_sectors, fix_with, apply_fixups,
}
use recoverx_cli.Utils.Unpack.{u16, uint_in_range}

-- What stands at a position once the last two bytes of a sector hold a value.
unfoldable pub ending : Option ℕ → ℕ → Option ℕ → Option ℕ
ending none position old = old
ending (some value) position old =
    if position % 512 == 510
    then some (value % 256)
    else if position % 512 == 511
    then some (value / 256 % 256)
    else old

-- The value for the sector of a position, where the values start with that of sector `i` and
-- the sector ends within `size` bytes.
unfoldable pub sector_value : List ℕ → ℕ → ℕ → ℕ → Option ℕ
sector_value values i size position =
    if leb i (position / 512 + 1) && leb ((position / 512 + 1) * 512) size
    then get_elem? values (position / 512 + 1 - i)
    else none

-- Two bytes are replaced, and the others stay.
get_elem?-pack_u16 :
    (input : Bytes) (offset value position : ℕ)
    → offset + 2 ≤ length input
    → get_elem? (pack_u16 input offset value) position ≡ (
        if position == offset
        then some (value % 256)
        else if position == offset + 1
        then some (value / 256 % 256)
        else get_elem? input position)
unfolding pack_u16
get_elem?-pack_u16 [] offset value position h = absurd (omega arith)
get_elem?-pack_u16 (x ∷ []) offset value position h = absurd (omega arith)
get_elem?-pack_u16 (x ∷ (y ∷ rest)) zero value zero h = refl
get_elem?-pack_u16 (x ∷ (y ∷ rest)) zero value (suc zero) h = ground arith
get_elem?-pack_u16 (x ∷ (y ∷ rest)) zero value (suc (suc position)) h = ground arith
get_elem?-pack_u16 (x ∷ (y ∷ rest)) (suc offset) value zero h = ground arith
get_elem?-pack_u16 (x ∷ (y ∷ rest)) (suc offset) value (suc position) h =
    ground (arith, get_elem?-pack_u16 (y ∷ rest) offset value position (omega arith))

pub length-pack_u16 :
    (input : Bytes) (offset value : ℕ)
    → offset + 2 ≤ length input
    → length (pack_u16 input offset value) ≡ length input
unfolding pack_u16
length-pack_u16 input offset value h = omega (
  arith,
  length-append (take offset input) (value % 256 ∷ value / 256 % 256 ∷ drop (offset + 2) input),
  length-take offset input,
  length-drop (offset + 2) input,
)

length-fix_sector : (value i : ℕ) (input : Bytes) → length (fix_sector value i input) ≡ length input
unfolding fix_sector
length-fix_sector value i input = ground (arith, length-pack_u16 input (i * 512 - 2) value)

pub length-fix_sectors :
    (values : List ℕ) (i : ℕ) (input : Bytes) → length (fix_sectors values i input) ≡ length input
unfolding fix_sectors
length-fix_sectors [] i input = refl
length-fix_sectors (value ∷ values) i input =
    length-fix_sectors values (i + 1) (fix_sector value i input) ∙ length-fix_sector value i input

get_elem?-cons :
    (value : ℕ) (values : List ℕ) (i : ℕ)
    → get_elem? (value ∷ values) i ≡ (if i == 0 then some value else get_elem? values (i - 1))
get_elem?-cons value values zero = refl
get_elem?-cons value values (suc i) = ground arith

get_elem?-fix_sector :
    (value i : ℕ) (input : Bytes) (position : ℕ)
    → 0 < i
    → get_elem? (fix_sector value i input) position
      ≡ ending
          (sector_value (value ∷ []) i (length input) position)
          position
          (get_elem? input position)
unfolding fix_sector ending sector_value
get_elem?-fix_sector value i input position h =
    let at = get_elem?-pack_u16 input (i * 512 - 2) value position in
    ground (arith, at, get_elem?-cons value [] (position / 512 + 1 - i))

-- What the loop leaves at each position, a sector at a time.
pub get_elem?-fix_sectors :
    (values : List ℕ) (i : ℕ) (input : Bytes) (position : ℕ)
    → 0 < i
    → get_elem? (fix_sectors values i input) position
      ≡ ending (sector_value values i (length input) position) position (get_elem? input position)
unfolding fix_sectors ending sector_value
get_elem?-fix_sectors [] i input position h = ground arith
get_elem?-fix_sectors (value ∷ values) i input position h =
    let rest =
      get_elem?-fix_sectors values (i + 1) (fix_sector value i input) position (omega arith) in
    let first = get_elem?-fix_sector value i input position h in
    let n = length-fix_sector value i input in
    ground (
      arith,
      rest,
      first,
      n,
      get_elem?-cons value [] (position / 512 + 1 - i),
      get_elem?-cons value values (position / 512 + 1 - i),
    )

-- The values are those of the array, which lies within the record.
fixup_values-array :
    (count : ℕ) (input : Bytes) (offset : ℕ)
    → offset + 2 * count ≤ length input
    → (values : List ℕ) × (fixup_values count input offset ≡ some values)
      × ((k : ℕ) → get_elem? values k ≡ (if ltb k count then u16 input (offset + 2 * k) else none))
unfolding fixup_values
fixup_values-array zero input offset h = ([], refl, λ k. ground arith)
fixup_values-array (suc count) input offset h =
    let (value, read) = uint_in_range 2 input offset (omega arith) in
    let (values, more, at) = fixup_values-array count input (offset + 2) (omega arith) in
    (
      value ∷ values,
      rw (read, more),
      λ k.
          let e : offset + 2 + 2 * (k - 1) ≡ (if k == 0 then offset + 2 else offset + 2 * k) =
            ground arith in
          let z : offset + 2 * 0 ≡ offset = omega arith in
          ground (arith, get_elem?-cons value values k, at (k - 1), read, e, z),
    )

-- The value in the array for the sector of a position, when the array has one and the sector ends
-- within the record.
unfoldable pub stored_value : Bytes → MftRecordHeader → ℕ → Option ℕ
stored_value input header position =
    let sector = position / 512 + 1 in
    if ltb sector header.fixup_count && leb (sector * 512) (length input)
    then u16 input (header.fixup_offset + 2 * sector)
    else none

fix_with-values :
    (values : List ℕ) (input : Bytes) (position : ℕ)
    → (length (fix_with (some values) input) ≡ length input)
      × (get_elem? (fix_with (some values) input) position
          ≡ ending
              (if leb ((position / 512 + 1) * 512) (length input)
                then get_elem? values (position / 512 + 1)
                else none)
              position
              (get_elem? input position))
unfolding sector_value ending
fix_with-values [] input position = (refl, ground arith)
fix_with-values (first ∷ values) input position =
    let at = get_elem?-fix_sectors values 1 input position (omega arith) in
    let skip = get_elem?-cons first values (position / 512 + 1) in
    (length-fix_sectors values 1 input, ground (arith, at, skip))

-- Where the array of fixups lies within the record, the last two bytes of each sector that the
-- array has a value for, and that ends within the record, become that value. Every other byte stays,
-- and so does the length.
pub get_elem?-apply_fixups :
    (input : Bytes) (header : MftRecordHeader) (position : ℕ)
    → 0 < header.fixup_offset
    → header.fixup_offset + 2 * header.fixup_count ≤ length input
    → (length (apply_fixups input header) ≡ length input)
      × (get_elem? (apply_fixups input header) position
          ≡ ending (stored_value input header position) position (get_elem? input position))
unfolding apply_fixups stored_value ending
get_elem?-apply_fixups input header position h fits =
    let (values, read, at) = fixup_values-array header.fixup_count input header.fixup_offset fits in
    let (n, bytes) = fix_with-values values input position in
    let stored = at (position / 512 + 1) in
    elim (Bool-cases (header.fixup_count == 0)) [
      | inl none_stored ↦ ground arith
      | inr some_stored ↦ (ground (arith, read, n), ground (arith, read, bytes, stored))
    ]
