-- ===== src/Ntfs/BootSector.antt =====
-- ntfs/boot_sector.py, with the `NTFSBootSector` of ntfs/structures.py.
use recoverx_cli.Prelude.{
  ℕ, zero, suc, ◌+◌, ◌-◌, ◌*◌, ◌/◌, ◌%◌, ◌^◌, ◌≤◌, ◌<◌, min, max, ◌≡◌, refl, sym, ap, ◌∙◌, subst,
  fun_ext, ◌≢◌, ◌↔◌, ◌⊎◌, inl, inr, Bool, true, false, not, ◌&&◌, ◌||◌, Option, none, some, List,
  [], ◌∷◌, ◌++◌, map, append-nil, append_assoc, arith, ltb, leb, ◌==◌, if◌then◌else◌, ltb→lt,
  lt→ltb, leb→le, ==_iff, Bool-cases, Option-cases, length, get_elem?, get_or, take, drop,
  replicate, concat, length-append, length-take, length-drop, length-replicate, length-map,
  take-zero, take-nil, drop-nil, take_of_length-le, take-append, take-take, take-replicate,
  replicate-add, drop-drop, take-add, get_elem?-append,
}
use recoverx_cli.Prelude.Int.{
  ℤ, pos, negsuc, pos_part, neg_part, sub_ℕ, ◌+ℤ◌, ◌-ℤ◌, ◌*ℤ◌, ◌≤ℤ◌, ◌<ℤ◌, leb_ℤ, ltb_ℤ, +ℤ_parts,
  -ℤ_parts, eq_of_parts, int_laws, pos-*, pos-+,
}
pub mod RecordSize
use recoverx_cli.Utils.RawReader.{Bytes}
use recoverx_cli.Utils.Unpack.{byte, u16, u64, slice, ◌>>=◌}
use recoverx_cli.Utils.Text.{Text, text, text_eq, hex_upper}
use recoverx_cli.Fat32.BootSector.{not_power_of_2}

-- `oem_id` keeps its default.
pub record NtfsBootSector : Type 0 where
  pub bytes_per_sector : ℕ
  pub sectors_per_cluster : ℕ
  pub total_sectors : ℕ
  pub mft_cluster : ℕ
  pub mft_mirror_cluster : ℕ
  pub clusters_per_file_record : ℤ
  pub clusters_per_index_block : ℤ
  pub volume_serial : Text
  pub media_descriptor : ℕ
  pub signature_valid : Bool

unfoldable pub cluster_size : NtfsBootSector → ℕ
cluster_size bpb = bpb.bytes_per_sector * bpb.sectors_per_cluster

-- `size << n` for n from 0 on, else `size >> -n`
unfoldable pub shifted : ℕ → ℤ → ℕ
shifted size (pos n) = size * 2 ^ n
shifted size (negsuc n) = size / 2 ^ suc n

unfoldable pub bytes_per_file_record : NtfsBootSector → ℕ
unfolding shifted cluster_size
bytes_per_file_record bpb = shifted (cluster_size bpb) bpb.clusters_per_file_record

unfoldable pub mft_byte_offset : NtfsBootSector → ℕ
unfolding cluster_size
mft_byte_offset bpb = bpb.mft_cluster * cluster_size bpb

unfoldable pub total_size : NtfsBootSector → ℕ
total_size bpb = bpb.total_sectors * bpb.bytes_per_sector

-- `-(raw & 0x7F)` where the top bit is set
unfoldable pub signed_count : ℕ → ℤ
signed_count raw = if raw / 128 % 2 == 1 then sub_ℕ 0 (raw % 128) else pos raw

unfoldable pub serial_text : Bytes → Text
serial_text serial =
    hex_upper (slice serial 0 4)
    ++ (text "-" ++ (hex_upper (slice serial 4 6) ++ (text "-" ++ hex_upper (slice serial 6 8))))

-- `none` is None, which an exception of the `try` block gives too.
unfoldable pub read_fields : Bytes → Option NtfsBootSector
read_fields sector = do
  sig ← u16 sector 510
  bytes_per_sector ← u16 sector 11
  sectors_per_cluster ← byte sector 13
  total_sectors ← u64 sector 40
  mft_cluster ← u64 sector 48
  mft_mirror_cluster ← u64 sector 56
  file_record ← byte sector 64
  index_block ← byte sector 68
  media_descriptor ← byte sector 21
  some (record {
    bytes_per_sector = bytes_per_sector;
    sectors_per_cluster = sectors_per_cluster;
    total_sectors = total_sectors;
    mft_cluster = mft_cluster;
    mft_mirror_cluster = mft_mirror_cluster;
    clusters_per_file_record = signed_count file_record;
    clusters_per_index_block = signed_count index_block;
    volume_serial = serial_text (slice sector 72 80);
    media_descriptor = media_descriptor;
    signature_valid = sig == 0xAA55;
  })

unfoldable pub parse_boot_sector : Bytes → Option NtfsBootSector
parse_boot_sector sector =
    if ltb (length sector) 512
    then none
    else if not (text_eq (slice sector 3 11) (text "NTFS    "))
    then none
    else read_fields sector

pub data Issue : Type 0 where
  unusual_bytes_per_sector sectors_per_cluster_not_power_of_2 no_signature : Issue
  mft_cluster_is_zero total_sectors_is_zero : Issue

abbrev pub report : Bool → Issue → List Issue
report test i = if test then i ∷ [] else []

unfoldable pub is_sector_size : ℕ → Bool
is_sector_size n = n == 256 || (n == 512 || (n == 1024 || (n == 2048 || n == 4096)))

unfoldable pub validate_boot_sector : NtfsBootSector → List Issue
validate_boot_sector bpb =
    report (not (is_sector_size bpb.bytes_per_sector)) unusual_bytes_per_sector
    ++ (report (not_power_of_2 bpb.sectors_per_cluster) sectors_per_cluster_not_power_of_2
        ++ (report (not bpb.signature_valid) no_signature
            ++ (report (bpb.mft_cluster == 0) mft_cluster_is_zero
                ++ report (bpb.total_sectors == 0) total_sectors_is_zero)))

-- `NTFSRecovery.detect` on an open image
unfoldable pub detect : Bytes → Bool
detect image =
    if ltb (length image) 512
    then false
    else text_eq (slice (take 512 image) 3 11) (text "NTFS    ")
