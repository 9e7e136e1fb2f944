-- ===== src/Fat32/FatTable.antt =====
-- fat32/fat_table.py: the chain of clusters that the FAT links. The reader is open: `image` is the
-- file behind it, and its size is `length image`.
pub mod Walk
pub mod Pigeonhole
pub mod Chain
use recoverx_cli.Prelude.{
  ℕ, zero, suc, ◌+◌, ◌-◌, ◌*◌, ◌/◌, ◌%◌, ◌^◌, ◌≤◌, ◌<◌, min, max, ◌≡◌, refl, sym, ap, ◌∙◌, subst,
  fun_ext, ◌≢◌, ◌↔◌, ◌⊎◌, inl, inr, Bool, true, false, not, ◌&&◌, ◌||◌, Option, none, some, List,
  [], ◌∷◌, ◌++◌, map, append-nil, append_assoc, arith, ltb, leb, ◌==◌, if◌then◌else◌, ltb→lt,
  lt→ltb, leb→le, ==_iff, Bool-cases, Option-cases, length, get_elem?, get_or, take, drop,
  replicate, concat, length-append, length-take, length-drop, length-replicate, length-map,
  take-zero, take-nil, drop-nil, take_of_length-le, take-append, take-take, take-replicate,
  replicate-add, drop-drop, take-add, get_elem?-append,
}
use recoverx_cli.Prelude.Int.{
  ℤ, pos, negsuc, pos_part, neg_part, sub_ℕ, ◌+ℤ◌, ◌-ℤ◌, ◌*ℤ◌, ◌≤ℤ◌, ◌<ℤ◌, leb_ℤ, ltb_ℤ, +ℤ_parts,
  -ℤ_parts, eq_of_parts, int_laws, pos-*, pos-+,
}
use recoverx_cli.Utils.RawReader.{Bytes, read_bytes}
use recoverx_cli.Utils.Unpack.{uint, u32}
use recoverx_cli.Fat32.BootSector.{Fat32BootSector, cluster_size, fat_start, data_start}

abbrev pub eoc_min : ℕ
eoc_min = 0x0FFFFFF8

abbrev pub eoc_max : ℕ
eoc_max = 0x0FFFFFFF

abbrev pub bad_cluster_mark : ℕ
bad_cluster_mark = 0x0FFFFFF7

unfoldable pub is_end_of_chain : ℕ → Bool
is_end_of_chain value = leb eoc_min value && leb value eoc_max

unfoldable pub is_bad_cluster : ℕ → Bool
is_bad_cluster value = value == bad_cluster_mark

unfoldable pub is_free_cluster : ℕ → Bool
is_free_cluster value = value == 0

unfoldable pub is_valid_data_cluster : ℕ → Bool
is_valid_data_cluster value = leb 2 value && leb value 0x0FFFFFF6

-- `struct.unpack_from` on four bytes does not raise; `none` would be its error
abbrev masked : Option ℕ → ℕ
masked none = eoc_max
masked (some raw) = raw % 2 ^ 28

unfoldable pub get_next_cluster : Bytes → Fat32BootSector → ℕ → ℕ
get_next_cluster image bpb cluster =
    let fat_offset = fat_start bpb + cluster * 4 in
    let entry = read_bytes image fat_offset 4 in
    if ltb (length image) (fat_offset + 4)
    then eoc_max
    else if ltb (length entry) 4
    then eoc_max
    else masked (u32 entry 0)

pub data Status : Type 0 where
  ok bad_cluster truncated_free free_start invalid_cluster loop_detected zero_next : Status

-- `cluster in chain`
unfoldable pub contains : ℕ → List ℕ → Bool
contains c [] = false
contains c (x ∷ xs) = c == x || contains c xs

-- the status where the cluster is not a valid data cluster
unfoldable pub stop_status : ℕ → List ℕ → Status
stop_status cluster chain =
    if is_end_of_chain cluster
    then ok
    else if is_bad_cluster cluster
    then bad_cluster
    else if is_free_cluster cluster
    then elim chain [ [] ↦ free_start | c ∷ cs ↦ truncated_free ]
    else invalid_cluster

-- The `for` loop, on the rounds left; `next` is `get_next_cluster`.
unfoldable pub chain_from : (ℕ → ℕ) → ℕ → ℕ → List ℕ → List ℕ × Status
chain_from next zero cluster chain = (chain, ok)
chain_from next (suc rounds) cluster chain =
    let after = chain ++ cluster ∷ [] in
    let rest = chain_from next rounds (next cluster) after in
    if not (is_valid_data_cluster cluster)
    then (chain, stop_status cluster chain)
    else if contains cluster chain
    then (chain, loop_detected)
    else if next cluster == 0
    then (after, zero_next)
    else rest

unfoldable pub rounds_of : ℕ → ℕ
rounds_of max_clusters = if ltb 0 max_clusters then max_clusters else 10_000_000

unfoldable pub read_cluster_chain : Bytes → Fat32BootSector → ℕ → ℕ → List ℕ × Status
read_cluster_chain image bpb start_cluster max_clusters =
    chain_from (get_next_cluster image bpb) (rounds_of max_clusters) start_cluster []

unfoldable pub cluster_offset : Fat32BootSector → ℕ → ℕ
cluster_offset bpb cluster = data_start bpb + (cluster - 2) * cluster_size bpb

unfoldable pub read_cluster_data : Bytes → Fat32BootSector → ℕ → Bytes
read_cluster_data image bpb cluster =
    if ltb cluster 2 then [] else read_bytes image (cluster_offset bpb cluster) (cluster_size bpb)

unfoldable pub read_chain_data : Bytes → Fat32BootSector → List ℕ → Bytes
read_chain_data image bpb [] = []
read_chain_data image bpb (cluster ∷ chain) =
    read_cluster_data image bpb cluster ++ read_chain_data image bpb chain
