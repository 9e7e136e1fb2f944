-- ===== src/Fat32/BootSector.antt =====
-- fat32/boot_sector.py, and `Fat32BootSector` of fat32/structures.py.
use recoverx_cli.Prelude.{
  ℕ, ◌+◌, ◌-◌, ◌*◌, ◌/◌, ◌%◌, Bool, not, ◌||◌, Option, none, some, List, [], ◌∷◌, ◌++◌, ltb, leb,
  ◌==◌, if◌then◌else◌, length,
}
use recoverx_cli.Prelude.Int.{ℤ, pos, negsuc, ltb_ℤ}
use recoverx_cli.Utils.RawReader.{Bytes}
use Prim.Native.Nat.{bit_and}
use recoverx_cli.Utils.Unpack.{byte, u16, u32, slice, ◌>>=◌}
use recoverx_cli.Utils.Text.{Text, text, decode_ascii, strip, hex_upper}

pub record Fat32BootSector : Type 0 where
  pub bytes_per_sector : ℕ
  pub sectors_per_cluster : ℕ
  pub reserved_sectors : ℕ
  pub fat_count : ℕ
  pub fat_size_sectors : ℕ
  pub root_cluster : ℕ
  pub total_sectors : ℕ
  pub fs_info_sector : ℕ
  pub backup_boot_sector : ℕ
  pub media_descriptor : ℕ
  pub volume_id : Text
  pub volume_label : Text
  pub oem_id : Text
  pub active_fat : ℕ
  pub mirrroring_enabled : Bool
  pub fs_version : ℕ
  pub signature_valid : Bool
  pub hidden_sectors : ℕ
  pub boot_sector_copy_count : ℕ

unfoldable pub cluster_size : Fat32BootSector → ℕ
cluster_size bpb = bpb.bytes_per_sector * bpb.sectors_per_cluster

unfoldable pub fat_start : Fat32BootSector → ℕ
fat_start bpb = bpb.reserved_sectors * bpb.bytes_per_sector

unfoldable pub data_start : Fat32BootSector → ℕ
data_start bpb =
    (bpb.reserved_sectors + bpb.fat_count * bpb.fat_size_sectors) * bpb.bytes_per_sector

-- `data_sectors // sectors_per_cluster`. Python floors: a negative number of data sectors gives a
-- negative quotient. The callers have a positive divisor.
unfoldable pub total_clusters : Fat32BootSector → ℤ
total_clusters bpb =
    let used = bpb.reserved_sectors + bpb.fat_count * bpb.fat_size_sectors in
    if leb used bpb.total_sectors
    then pos ((bpb.total_sectors - used) / bpb.sectors_per_cluster)
    else negsuc ((used - bpb.total_sectors - 1) / bpb.sectors_per_cluster)

-- The body of the `try` block: `none` where it raises, `some none` where it returns None.
unfoldable pub read_fields : Bool → Bytes → Option (Option Fat32BootSector)
read_fields signature_valid sector = do
  bytes_per_sector ← u16 sector 11
  sectors_per_cluster ← byte sector 13
  reserved_sectors ← u16 sector 14
  fat_count ← byte sector 16
  total_sectors_16 ← u16 sector 19
  media_descriptor ← byte sector 21
  hidden_sectors ← u32 sector 28
  total_sectors_32 ← u32 sector 32
  sectors_per_fat_32 ← u32 sector 36
  mirroring_flags ← u16 sector 40
  fs_version ← u16 sector 42
  root_cluster ← u32 sector 44
  fs_info_sector ← u16 sector 48
  backup_boot_sector ← u16 sector 50
  let vol_id_raw = slice sector 67 71
  if sectors_per_fat_32 == 0
      then some none
      else some (
          some (record {
            bytes_per_sector = bytes_per_sector;
            sectors_per_cluster = sectors_per_cluster;
            reserved_sectors = reserved_sectors;
            fat_count = fat_count;
            fat_size_sectors = sectors_per_fat_32;
            root_cluster = if root_cluster == 0 then 2 else root_cluster;
            total_sectors = if total_sectors_32 == 0 then total_sectors_16 else total_sectors_32;
            fs_info_sector = fs_info_sector;
            backup_boot_sector = backup_boot_sector;
            media_descriptor = media_descriptor;
            volume_id =
                hex_upper (slice vol_id_raw 0 2) ++ text "-" ++ hex_upper (slice vol_id_raw 2 4);
            volume_label = strip (decode_ascii (slice sector 71 82));
            oem_id = strip (decode_ascii (slice sector 3 11));
            active_fat = mirroring_flags % 16;
            mirrroring_enabled = mirroring_flags / 128 % 2 == 0;
            fs_version = fs_version;
            signature_valid = signature_valid;
            hidden_sectors = hidden_sectors;
            boot_sector_copy_count = 1;
          }))

-- `except (struct.error, IndexError): return None`
abbrev pub or_none {ℓ} : {A : Type ℓ} → Option (Option A) → Option A
or_none none = none
or_none (some result) = result

-- The signature is read outside the `try`; the length test makes it safe.
unfoldable pub parse_boot_sector : Bytes → Option Fat32BootSector
parse_boot_sector sector =
    if ltb (length sector) 512
    then none
    else do sig ← u16 sector 510; or_none (read_fields (sig == 0xAA55) sector)

pub data Issue : Type 0 where
  unusual_bytes_per_sector sectors_per_cluster_not_power_of_2 unusual_fat_count : Issue
  fat_size_is_zero invalid_root_cluster no_signature sectors_per_cluster_is_zero : Issue
  too_few_clusters : Issue

abbrev pub report : Bool → Issue → List Issue
report test i = if test then i ∷ [] else []

-- `n == 0 or (n & (n - 1)) != 0`
unfoldable pub not_power_of_2 : ℕ → Bool
not_power_of_2 n = n == 0 || not (bit_and n (n - 1) == 0)

unfoldable pub is_sector_size : ℕ → Bool
is_sector_size n = n == 512 || (n == 1024 || (n == 2048 || n == 4096))

unfoldable pub validate_boot_sector : Fat32BootSector → List Issue
unfolding is_sector_size
validate_boot_sector bpb =
    report (not (is_sector_size bpb.bytes_per_sector)) unusual_bytes_per_sector
    ++ (report (not_power_of_2 bpb.sectors_per_cluster) sectors_per_cluster_not_power_of_2
        ++ (report (ltb bpb.fat_count 1 || ltb 2 bpb.fat_count) unusual_fat_count
            ++ (report (bpb.fat_size_sectors == 0) fat_size_is_zero
                ++ (report (ltb bpb.root_cluster 2) invalid_root_cluster
                    ++ (report (not bpb.signature_valid) no_signature
                        ++ (if bpb.sectors_per_cluster == 0
                            then sectors_per_cluster_is_zero ∷ []
                            else report (ltb_ℤ (total_clusters bpb) (pos 65525))
                                too_few_clusters))))))
