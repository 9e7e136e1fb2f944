-- ===== src/Fat32/Directory/Deleted.antt =====
-- fat32/recovery.py: the deleted files of a directory, and what is recovered of them.
use recoverx_cli.Prelude.{
  ℕ, zero, suc, ◌+◌, ◌-◌, ◌*◌, ◌/◌, ◌%◌, ◌^◌, ◌≤◌, ◌<◌, min, max, ◌≡◌, refl, sym, ap, ◌∙◌, subst,
  fun_ext, ◌≢◌, ◌↔◌, ◌⊎◌, inl, inr, Bool, true, false, not, ◌&&◌, ◌||◌, Option, none, some, List,
  [], ◌∷◌, ◌++◌, map, append-nil, append_assoc, arith, ltb, leb, ◌==◌, if◌then◌else◌, ltb→lt,
  lt→ltb, leb→le, ==_iff, Bool-cases, Option-cases, length, get_elem?, get_or, take, drop,
  replicate, concat, length-append, length-take, length-drop, length-replicate, length-map,
  take-zero, take-nil, drop-nil, take_of_length-le, take-append, take-take, take-replicate,
  replicate-add, drop-drop, take-add, get_elem?-append,
}
use recoverx_cli.Prelude.Int.{
  ℤ, pos, negsuc, pos_part, neg_part, sub_ℕ, ◌+ℤ◌, ◌-ℤ◌, ◌*ℤ◌, ◌≤ℤ◌, ◌<ℤ◌, leb_ℤ, ltb_ℤ, +ℤ_parts,
  -ℤ_parts, eq_of_parts, int_laws, pos-*, pos-+,
}
pub mod Recovered
use recoverx_cli.Utils.RawReader.{Bytes}
use recoverx_cli.Utils.Text.{Text}
use recoverx_cli.Fat32.BootSector.{Fat32BootSector}
use recoverx_cli.Fat32.FatTable.{Status, read_cluster_chain, read_chain_data}
use recoverx_cli.Fat32.DirEntry.{FatTimestamp, FatAttributes}
use recoverx_cli.Fat32.Directory.{FatDirEntry, full_name, parse_directory_entries}

unfoldable pub deleted_files : List FatDirEntry → List FatDirEntry
deleted_files [] = []
deleted_files (entry ∷ entries) =
    let rest = deleted_files entries in
    if entry.deleted && not entry.is_directory then entry ∷ rest else rest

abbrev pub deleted_of_chain : Bytes → Fat32BootSector → List ℕ → List FatDirEntry
deleted_of_chain image bpb [] = []
deleted_of_chain image bpb (c ∷ chain) =
    deleted_files (parse_directory_entries (read_chain_data image bpb (c ∷ chain)) 0)

-- `cluster if cluster is not None else root_cluster`
abbrev pub or_root : Fat32BootSector → Option ℕ → ℕ
or_root bpb none = bpb.root_cluster
or_root bpb (some cluster) = cluster

unfoldable pub find_deleted_entries : Bytes → Fat32BootSector → Option ℕ → ℕ → List FatDirEntry
unfolding deleted_files parse_directory_entries read_chain_data read_cluster_chain
find_deleted_entries image bpb cluster max_clusters =
    deleted_of_chain image bpb (read_cluster_chain image bpb (or_root bpb cluster) max_clusters).0

pub data RecoveryStatus : Type 0 where
  recovered skipped_directory no_start_cluster empty_chain truncated : RecoveryStatus

-- The texts of `recovery_notes`, by what they say.
pub data RecoveryNote : Type 0 where
  invalid_start : ℕ → RecoveryNote
  chain_empty : Status → RecoveryNote
  size_was_zero : RecoveryNote
  truncated_to : ℕ → ℕ → RecoveryNote

-- `deleted` is always True.
pub record RecoveredFile : Type 0 where
  pub name : Text
  pub extension : Text
  pub original_name : Text
  pub is_directory : Bool
  pub start_cluster : ℕ
  pub cluster_chain : List ℕ
  pub file_size : ℕ
  pub data_bytes : Bytes
  pub sha256 : Text
  pub created : FatTimestamp
  pub last_modified : FatTimestamp
  pub last_accessed : FatTimestamp
  pub attributes : FatAttributes
  pub recovery_status : RecoveryStatus
  pub recovery_notes : List RecoveryNote

unfoldable pub new_recovered : FatDirEntry → RecoveredFile
unfolding full_name
new_recovered entry = record {
  name = entry.short_name;
  extension = entry.extension;
  original_name = full_name entry;
  is_directory = entry.is_directory;
  start_cluster = entry.start_cluster;
  cluster_chain = [];
  file_size = entry.file_size;
  data_bytes = [];
  sha256 = [];
  created = entry.created;
  last_modified = entry.last_modified;
  last_accessed = entry.last_accessed;
  attributes = entry.attributes;
  recovery_status = recovered;
  recovery_notes = [];
}

-- the data of the chain, cut to the size of the file
unfoldable pub cut_to_size : ℕ → Bytes → Bytes
cut_to_size file_size input =
    if ltb 0 file_size && ltb file_size (length input) then take file_size input else input

abbrev pub note_when : Bool → RecoveryNote → List RecoveryNote
note_when test note = if test then note ∷ [] else []

-- `sha256` of core/utils/hashing.py is a parameter.
module _ (sha256 : Bytes → Text) where
  -- the part behind the chain, whose data are `input`
  unfoldable pub finish_recovery : List ℕ → Bytes → RecoveredFile → RecoveredFile
  unfolding cut_to_size
  finish_recovery chain input file =
      let content = cut_to_size file.file_size input in
      let short = ltb 0 file.file_size && ltb (length content) file.file_size in
      record file {
        cluster_chain = chain;
        data_bytes = content;
        sha256 = sha256 content;
        recovery_status = if short then truncated else recovered;
        recovery_notes =
            note_when (file.file_size == 0 && ltb 0 (length input)) size_was_zero
            ++ note_when short (truncated_to file.file_size (length content));
      }

  abbrev pub recover_chain :
      Bytes → Fat32BootSector → List ℕ × Status → RecoveredFile → RecoveredFile
  recover_chain image bpb ([], status) file = record file {
    recovery_status = empty_chain;
    recovery_notes = chain_empty status ∷ [];
  }
  recover_chain image bpb (c ∷ chain, status) file =
      finish_recovery (c ∷ chain) (read_chain_data image bpb (c ∷ chain)) file

  unfoldable pub recover_deleted_file : Bytes → Fat32BootSector → FatDirEntry → RecoveredFile
  unfolding new_recovered
  recover_deleted_file image bpb entry =
      let file = new_recovered entry in
      if entry.is_directory
      then (record file { recovery_status = skipped_directory })
      else if ltb entry.start_cluster 2
      then (record file {
        recovery_status = no_start_cluster;
        recovery_notes = invalid_start entry.start_cluster ∷ [];
      })
      else recover_chain image bpb (read_cluster_chain image bpb entry.start_cluster 0) file
