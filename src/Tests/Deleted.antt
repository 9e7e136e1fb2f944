-- ===== src/Tests/Deleted.antt =====
-- A deleted file of a FAT32 volume.
use recoverx_cli.Prelude.{◌≡◌, refl, ◌↔◌, true, false, [], ◌∷◌, ◌++◌, arith, length, replicate}
use recoverx_cli.Utils.RawReader.{Bytes, read_bytes}
use recoverx_cli.Utils.Unpack.{uint}
use recoverx_cli.Utils.Text.{Text, text, drop_while, drop_while_end, is_space}
use recoverx_cli.Fat32.BootSector.{Fat32BootSector, cluster_size, fat_start, data_start}
use recoverx_cli.Fat32.FatTable.{
  get_next_cluster, ok, rounds_of, read_cluster_chain, chain_from, contains, stop_status,
  is_end_of_chain, is_bad_cluster, is_free_cluster, is_valid_data_cluster, cluster_offset,
  read_cluster_data, read_chain_data,
}
use recoverx_cli.Fat32.DirEntry.{parse_attributes}
use recoverx_cli.Fat32.Directory.{
  FatDirEntry, no_timestamp, lfn_chars, lfn_entry, lfn_reversed, parse_lfn_entries,
}
use recoverx_cli.Fat32.Directory.Deleted.{recovered, recover_deleted_file}
use recoverx_cli.Fat32.Directory.Deleted.Recovered.{recover_deleted_file-recovered}

abbrev same_bytes : Bytes → Text
same_bytes bytes = bytes

abbrev bpb : Fat32BootSector
bpb = record {
  bytes_per_sector = 8;
  sectors_per_cluster = 1;
  reserved_sectors = 0;
  fat_count = 1;
  fat_size_sectors = 3;
  root_cluster = 2;
  total_sectors = 5;
  fs_info_sector = 1;
  backup_boot_sector = 6;
  media_descriptor = 0xF8;
  volume_id = [];
  volume_label = [];
  oem_id = [];
  active_fat = 0;
  mirrroring_enabled = true;
  fs_version = 0;
  signature_valid = true;
  hidden_sectors = 0;
  boot_sector_copy_count = 1;
}

-- 2 → 3 → end, and the two clusters
abbrev image : Bytes
image =
    replicate 8 0
    ++ ((3 ∷ 0 ∷ 0 ∷ 0 ∷ 0xFF ∷ 0xFF ∷ 0xFF ∷ 0x0F ∷ [])
        ++ (replicate 8 0 ++ (replicate 8 7 ++ replicate 8 9)))

abbrev entry : FatDirEntry
entry = record {
  name = text "?A";
  extension = [];
  short_name = text "?A";
  long_name = [];
  attributes = parse_attributes 0x20;
  deleted = true;
  is_directory = false;
  is_volume_label = false;
  start_cluster = 2;
  file_size = 11;
  created = no_timestamp;
  last_accessed = no_timestamp;
  last_modified = no_timestamp;
  offset_in_image = 0;
  original_raw = [];
}

program : Unit {0}
unfolding read_cluster_chain chain_from rounds_of get_next_cluster contains stop_status
    is_end_of_chain is_bad_cluster is_free_cluster is_valid_data_cluster fat_start data_start
    cluster_size read_bytes uint read_chain_data read_cluster_data cluster_offset
program = tt

chain_of_entry : read_cluster_chain image bpb 2 0 ≡ (2 ∷ 3 ∷ [], ok)
unfolding program
chain_of_entry = refl

recover_deleted_file-recovered_example :
    let file = recover_deleted_file same_bytes image bpb entry in
    (file.data_bytes ≡ 7 ∷ 7 ∷ 7 ∷ 7 ∷ 7 ∷ 7 ∷ 7 ∷ 7 ∷ 9 ∷ 9 ∷ 9 ∷ [])
    × ((file.recovery_status ≡ recovered) ↔ (length file.data_bytes ≡ 11))
unfolding program
recover_deleted_file-recovered_example =
    recover_deleted_file-recovered same_bytes image bpb entry 2 (3 ∷ []) ok refl (omega arith)
      (omega arith) chain_of_entry

-- "Añ" in two code units, an end mark and padding
abbrev long_name : Bytes
long_name = 0x41 ∷ 65 ∷ 0 ∷ 0xF1 ∷ 0 ∷ 0 ∷ 0 ∷ replicate 25 0xFF

long_name_read : parse_lfn_entries (long_name ∷ []) ≡ 65 ∷ 0xF1 ∷ []
unfolding parse_lfn_entries lfn_reversed lfn_entry lfn_chars drop_while drop_while_end is_space
long_name_read = refl
