-- ===== src/Ntfs/BootSector/RecordSize.antt =====
-- The size of a file record, as the boot sector gives it.
use recoverx_cli.Prelude.{
  ℕ, zero, suc, ◌+◌, ◌-◌, ◌*◌, ◌^◌, ◌≤◌, ◌<◌, ◌≡◌, refl, Option, none, some, [], ◌∷◌, arith,
}
use recoverx_cli.Prelude.Int.{negsuc}
use native.Mathlib.Nat.{pow-le-pow_right, div-eq_of_lt}
use recoverx_cli.Utils.RawReader.{Bytes}
use recoverx_cli.Utils.Unpack.{byte, uint, u16, ◌>>=◌}
use recoverx_cli.Ntfs.BootSector.{
  NtfsBootSector, cluster_size, shifted, bytes_per_file_record, signed_count, read_fields,
  parse_boot_sector,
}

-- Every number of the list is a byte.
abbrev pub AreBytes : Bytes → Type 0
AreBytes [] = Unit {0}
AreBytes (b ∷ bs) = (b < 256) × AreBytes bs

byte_bound : (bytes : Bytes) (i b : ℕ) → AreBytes bytes → byte bytes i ≡ some b → b < 256
byte_bound [] i b h e = absurd (cc)
byte_bound (x ∷ xs) zero b h e = ground (arith, h.0)
byte_bound (x ∷ xs) (suc i) b h e = byte_bound xs i b h.1 e

two_bytes :
    (x y : Option ℕ) (n : ℕ)
    → ((a : ℕ) → x ≡ some a → a < 256)
    → ((b : ℕ) → y ≡ some b → b < 256)
    → (do
      low ← x
      high ← (do first ← y; rest ← some 0; some (first + 256 * rest))
      some (low + 256 * high))
      ≡ some n
    → n < 65536
two_bytes none y n p q h = absurd (cc)
two_bytes (some a) none n p q h = absurd (cc)
two_bytes (some a) (some b) n p q h = ground (arith, p a refl, q b refl)

u16_bound : (bytes : Bytes) (i n : ℕ) → AreBytes bytes → u16 bytes i ≡ some n → n < 65536
unfolding uint
u16_bound bytes i n h e =
    two_bytes (byte bytes i) (byte bytes (i + 1)) n (λ a f. byte_bound bytes i a h f)
      (λ b f. byte_bound bytes (i + 1) b h f) e

-- What the boot sector's fields are read from.
fields_read :
    (sector : Bytes) (bpb : NtfsBootSector) (raw : ℕ)
    → read_fields sector ≡ some bpb
    → byte sector 64 ≡ some raw
    → (u16 sector 11 ≡ some bpb.bytes_per_sector)
      × (byte sector 13 ≡ some bpb.sectors_per_cluster)
      × (bpb.clusters_per_file_record ≡ signed_count raw)
unfolding read_fields
fields_read sector bpb raw h e = ground arith

parsed_fields :
    (sector : Bytes) (bpb : NtfsBootSector)
    → parse_boot_sector sector ≡ some bpb
    → read_fields sector ≡ some bpb
unfolding parse_boot_sector
parsed_fields sector bpb h = ground arith

cluster_size_bound : (sectors bytes : ℕ) → bytes < 65536 → sectors < 256 → bytes * sectors < 2 ^ 24
cluster_size_bound sectors bytes l m = grind arith

-- A size that is shifted right by more bits than it has.
shifted_out :
    (size raw : ℕ) → size < 2 ^ 24 → 152 ≤ raw → raw < 256 → shifted size (signed_count raw) ≡ 0
unfolding shifted signed_count
shifted_out size raw l m n =
    let count : signed_count raw ≡ negsuc (raw - 129) = unfold signed_count in ground arith in
    let bits : 24 ≤ suc (raw - 129) = omega arith in
    let wide : 2 ^ 24 ≤ 2 ^ suc (raw - 129) = pow-le-pow_right (omega arith) bits in
    let below : size < 2 ^ suc (raw - 129) = omega (arith, wide) in rw count (div-eq_of_lt below)

-- A boot sector gives the size of a file record as a power of two by the byte 256 - k for 2 ^ k, such
-- as 0xF6 for 1024. Of every boot sector that is parsed and has a byte from 0x98 on there, that is a
-- size of at most 2 ^ 104 bytes, `bytes_per_file_record` is 0.
pub bytes_per_file_record-eq-zero :
    (sector : Bytes) (bpb : NtfsBootSector) (raw : ℕ)
    → AreBytes sector
    → parse_boot_sector sector ≡ some bpb
    → byte sector 64 ≡ some raw
    → 152 ≤ raw
    → bytes_per_file_record bpb ≡ 0
unfolding bytes_per_file_record cluster_size
bytes_per_file_record-eq-zero sector bpb raw h parsed e l =
    let (bytes, sectors, count) = fields_read sector bpb raw (parsed_fields sector bpb parsed) e in
    let small =
      cluster_size_bound bpb.sectors_per_cluster bpb.bytes_per_sector
        (u16_bound sector 11 bpb.bytes_per_sector h bytes)
        (byte_bound sector 13 bpb.sectors_per_cluster h sectors) in
    rw count (
      shifted_out (bpb.bytes_per_sector * bpb.sectors_per_cluster) raw small l
        (byte_bound sector 64 raw h e))
