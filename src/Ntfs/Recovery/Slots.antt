-- ===== src/Ntfs/Recovery/Slots.antt =====
-- ntfs/recovery.py: which records the walk over the master file table returns.
use recoverx_cli.Prelude.{
  ℕ, zero, suc, ◌+◌, ◌-◌, ◌*◌, ◌/◌, ◌≤◌, ◌<◌, min, ◌≡◌, refl, ap, ◌⊎◌, inl, inr, false, ◌||◌, some,
  List, [], ◌++◌, arith, ltb, leb, ◌==◌, Bool-cases, length,
}
use native.Mathlib.Nat.{mul-le-mul_right, div-mul-le_self, div-eq_of_lt}
use recoverx_cli.Utils.RawReader.{Bytes, read_bytes, length-read_bytes}
use recoverx_cli.Utils.Unpack.{byte, slice}
use recoverx_cli.Utils.Text.{Text, text_eq}
use recoverx_cli.Ntfs.BootSector.{
  NtfsBootSector, parse_boot_sector, bytes_per_file_record, mft_byte_offset,
}
use recoverx_cli.Ntfs.BootSector.RecordSize.{AreBytes, bytes_per_file_record-eq-zero}
use recoverx_cli.Ntfs.Mft.{MftRecord}
use recoverx_cli.Ntfs.Recovery.{records, zero_division, slot, walk_from, walk_mft}

-- The slots that are counted lie behind the start of the table and within the image.
slots_fit :
    (image_size offset size : ℕ)
    → 0 < size
    → let slots = min ((image_size - offset) / size) 100_000 in
      slots ≡ 0 ⊎ offset + (0 + slots) * size ≤ image_size
slots_fit image_size offset size positive =
    let slots = (image_size - offset) / size in
    let all = div-mul-le_self (image_size - offset) size in
    let fewer : min slots 100_000 * size ≤ slots * size = mul-le-mul_right size (omega arith) in
    let zeroth : (0 + min slots 100_000) * size ≡ min slots 100_000 * size =
      ap (λ n. n * size) (omega arith) in
    elim (Bool-cases (leb offset image_size)) [
      | inl inside ↦ inr (ground arith)
      | inr beyond ↦
          let small : image_size - offset < size = ground arith in
          inl (omega (arith, div-eq_of_lt small))
    ]

module _ (decode_utf16 : Bytes → Text) (image : Bytes) where
  -- The records in the slots of the table from number `i` on.
  unfoldable pub table_slots : ℕ → ℕ → ℕ → ℕ → List MftRecord
  table_slots mft_offset record_size i zero = []
  table_slots mft_offset record_size i (suc rounds) =
      slot decode_utf16 (read_bytes image (mft_offset + i * record_size) record_size)
      ++ table_slots mft_offset record_size (i + 1) rounds

  -- Within the image no round breaks.
  walk_from-table_slots :
      (mft_offset record_size i rounds : ℕ)
      → rounds ≡ 0 ⊎ mft_offset + (i + rounds) * record_size ≤ length image
      → walk_from decode_utf16 image mft_offset record_size i rounds
        ≡ table_slots mft_offset record_size i rounds
  unfolding walk_from table_slots
  walk_from-table_slots mft_offset record_size i zero h = refl
  walk_from-table_slots mft_offset record_size i (suc rounds) (inl h) = absurd (omega arith)
  walk_from-table_slots mft_offset record_size i (suc rounds) (inr h) =
      let next : (i + 1 + rounds) * record_size ≡ (i + suc rounds) * record_size =
        ap (λ n. n * record_size) (omega arith) in
      let split : (i + suc rounds) * record_size
          ≡ i * record_size + record_size + rounds * record_size =
        grind arith in
      let rest =
        walk_from-table_slots mft_offset record_size (i + 1) rounds (inr (omega (arith, next))) in
      let n = length-read_bytes image (mft_offset + i * record_size) record_size in
      let whole : (ltb (length image) (mft_offset + i * record_size + record_size)
            || ltb (length (read_bytes image (mft_offset + i * record_size) record_size))
                record_size)
          ≡ false =
        ground arith in
      rw (whole, rest)

  -- A read of no bytes has no signature.
  slot-nil : slot decode_utf16 [] ≡ []
  unfolding slot slice text_eq
  slot-nil = refl

  walk_from-zero :
      (mft_offset i rounds : ℕ) → walk_from decode_utf16 image mft_offset 0 i rounds ≡ []
  unfolding walk_from read_bytes
  walk_from-zero mft_offset i zero = refl
  walk_from-zero mft_offset i (suc rounds) =
      rw (slot-nil, walk_from-zero mft_offset (i + 1) rounds) (ground arith)

  -- Where the size of a record is not 0, the walk without a limit reads every slot of the table that
  -- lies in the image, up to 100000 of them, and returns the records in their order: no slot that is
  -- damaged or free ends it early.
  pub walk_mft-table_slots :
      (bpb : NtfsBootSector)
      → 0 < bytes_per_file_record bpb
      → walk_mft decode_utf16 image bpb 0
        ≡ records (
            table_slots
              (mft_byte_offset bpb)
              (bytes_per_file_record bpb)
              0
              (min ((length image - mft_byte_offset bpb) / bytes_per_file_record bpb) 100_000))
  unfolding walk_mft
  walk_mft-table_slots bpb positive =
      let size = bytes_per_file_record bpb in
      let offset = mft_byte_offset bpb in
      let slots = min ((length image - offset) / size) 100_000 in
      let some_size : (size == 0) ≡ false = ground arith in
      let fits = slots_fit (length image) offset size positive in
      rw (some_size, walk_from-table_slots offset size 0 slots fits)

  -- A boot sector that is parsed and gives the size of a file record by a byte from 0x98 on, as the
  -- usual 0xF6 for 1024 does, makes the walk without a limit raise ZeroDivisionError, and the walk
  -- with any limit return no record.
  pub walk_mft-zero_division :
      (sector : Bytes) (bpb : NtfsBootSector) (raw : ℕ)
      → AreBytes sector
      → parse_boot_sector sector ≡ some bpb
      → byte sector 64 ≡ some raw
      → 152 ≤ raw
      → (walk_mft decode_utf16 image bpb 0 ≡ zero_division)
        × ((max_records : ℕ)
            → 0 < max_records
            → walk_mft decode_utf16 image bpb max_records ≡ records [])
  unfolding walk_mft
  walk_mft-zero_division sector bpb raw h parsed e l =
      let z = bytes_per_file_record-eq-zero sector bpb raw h parsed e l in
      (
        rw z,
        λ max_records positive.
            let given : (max_records == 0) ≡ false = ground arith in
            rw (given, z, walk_from-zero (mft_byte_offset bpb) 0 (min max_records 100_000)),
      )
