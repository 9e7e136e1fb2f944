-- ===== src/Tests/Fat32.antt =====
-- A FAT of eight entries, and boot sectors.
use recoverx_cli.Prelude.{ℕ, ◌+◌, ◌≤◌, ◌<◌, ◌≡◌, refl, true, [], ◌∷◌, ◌++◌, arith, length}
use recoverx_cli.Utils.RawReader.{Bytes, read_bytes}
use recoverx_cli.Utils.Unpack.{uint}
use recoverx_cli.Fat32.BootSector.{
  Fat32BootSector, cluster_size, fat_start, total_clusters, validate_boot_sector, not_power_of_2,
}
use recoverx_cli.Fat32.Geometry.{cluster_offset_bounds}
use recoverx_cli.Fat32.FatTable.{
  get_next_cluster, Status, ok, rounds_of, read_cluster_chain, chain_from, contains, stop_status,
  is_end_of_chain, is_valid_data_cluster, cluster_offset,
}
use recoverx_cli.Fat32.FatTable.Walk.{Leads, IsWalk}
use recoverx_cli.Fat32.FatTable.Chain.{
  read_cluster_chain-IsWalk, length-read_cluster_chain, read_cluster_chain_complete,
}

abbrev bpb : Fat32BootSector
bpb = record {
  bytes_per_sector = 512;
  sectors_per_cluster = 8;
  reserved_sectors = 0;
  fat_count = 2;
  fat_size_sectors = 600;
  root_cluster = 2;
  total_sectors = 600000;
  fs_info_sector = 1;
  backup_boot_sector = 6;
  media_descriptor = 0xF8;
  volume_id = [];
  volume_label = [];
  oem_id = [];
  active_fat = 0;
  mirrroring_enabled = true;
  fs_version = 0;
  signature_valid = true;
  hidden_sectors = 0;
  boot_sector_copy_count = 1;
}

abbrev entry : ℕ → Bytes
entry n = n ∷ 0 ∷ 0 ∷ 0 ∷ []

abbrev last_entry : Bytes
last_entry = 0xFF ∷ 0xFF ∷ 0xFF ∷ 0x0F ∷ []

-- 2 → 4 → 3 → end
abbrev fat : Bytes
fat = entry 0 ++ entry 0 ++ entry 4 ++ last_entry ++ entry 3 ++ entry 5

program : Unit {0}
unfolding read_cluster_chain chain_from rounds_of get_next_cluster contains stop_status
    is_end_of_chain is_valid_data_cluster fat_start read_bytes uint
program = tt

read_chain : read_cluster_chain fat bpb 2 20 ≡ (2 ∷ 4 ∷ 3 ∷ [], ok)
unfolding program
read_chain = refl

read_loop : read_cluster_chain fat bpb 5 20 ≡ (5 ∷ [], Status.loop_detected)
unfolding program
read_loop = refl

read_cluster_chain-IsWalk_example :
    (stop : ℕ) × IsWalk
      (get_next_cluster fat bpb)
      2
      (rounds_of 20)
      (read_cluster_chain fat bpb 2 20)
      stop
read_cluster_chain-IsWalk_example = read_cluster_chain-IsWalk fat bpb 2 20

length-read_cluster_chain_example : length (read_cluster_chain fat bpb 2 0).0 ≤ 7
length-read_cluster_chain_example = length-read_cluster_chain fat bpb 2 0

read_cluster_chain_complete_example :
    (stop : ℕ) × Leads (get_next_cluster fat bpb) 2 (2 ∷ 4 ∷ 3 ∷ []) stop
    × (is_end_of_chain stop ≡ true)
unfolding program
read_cluster_chain_complete_example = read_cluster_chain_complete fat bpb 2 20 (omega arith) refl

accepted : validate_boot_sector bpb ≡ []
unfolding validate_boot_sector not_power_of_2 total_clusters
accepted = refl

cluster_offset_bounds_example :
    (fat_start bpb + 614400 ≤ cluster_offset bpb 74851)
    × (cluster_offset bpb 74851 + cluster_size bpb ≤ 307200000)
    × (cluster_offset bpb 74851 + cluster_size bpb ≡ cluster_offset bpb 74852)
    × (0 < cluster_size bpb)
cluster_offset_bounds_example =
    cluster_offset_bounds bpb 74851 74850 accepted (unfold total_clusters in refl) (omega arith)
      (omega arith)
