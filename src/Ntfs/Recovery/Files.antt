-- ===== src/Ntfs/Recovery/Files.antt =====
-- ntfs/recovery.py: the file that is recovered from a record.
use recoverx_cli.Prelude.{
  ℕ, Bool, true, false, Option, none, some, List, [], ◌∷◌, ◌++◌, map, ltb, if◌then◌else◌, length,
}
use recoverx_cli.Prelude.Int.{ℤ}
use recoverx_cli.Utils.RawReader.{Bytes, ReadError, Result, ok, raise}
use recoverx_cli.Utils.Text.{Text}
use recoverx_cli.Ntfs.BootSector.{NtfsBootSector, cluster_size}
use recoverx_cli.Ntfs.Attributes.Header.{NonResident}
use recoverx_cli.Ntfs.Mft.{MftRecord, StandardInformation, is_directory, is_deleted}
use recoverx_cli.Ntfs.Runlist.Mapping.{RawRun}
use recoverx_cli.Ntfs.Runlist.Executor.{execute, execute_sparse_aware}
use recoverx_cli.Ntfs.Runlist.Validation.{is_sparse_runlist}
use recoverx_cli.Ntfs.Recovery.{name}

pub data Status : Type 0 where
  recovered no_non_resident_data no_resident_data execution_error : Status

-- The texts of `recovery_notes`, by what they say.
pub data Note : Type 0 where
  has_no_non_resident_data has_no_resident_data has_sparse_regions from_deleted_record : Note
  execution_failed : ReadError → Note
  from_fragments : ℕ → Note

-- an entry of `runs`; its "vcn" is always 0
pub record RunEntry : Type 0 where
  pub lcn : ℤ
  pub clusters : ℕ

-- A time is in microseconds, where the source keeps its text.
pub record RecoveredNtfsFile : Type 0 where
  pub name : Text
  pub deleted : Bool
  pub is_directory : Bool
  pub mft_record : ℕ
  pub file_size : ℕ
  pub data_bytes : Bytes
  pub sha256 : Text
  pub created : Option ℕ
  pub modified : Option ℕ
  pub mft_modified : Option ℕ
  pub accessed : Option ℕ
  pub is_resident : Bool
  pub fragmented : Bool
  pub sparse : Bool
  pub run_count : ℕ
  pub runs : List RunEntry
  pub recovery_status : Status
  pub recovery_notes : List Note

-- the constructor call that both functions start with
unfoldable pub new_file : MftRecord → ℕ → Bytes → Bool → RecoveredNtfsFile
new_file entry file_size data_bytes is_resident = record {
  name = name entry;
  deleted = is_deleted entry.header;
  is_directory = is_directory entry.header;
  mft_record = entry.header.mft_record_number;
  file_size = file_size;
  data_bytes = data_bytes;
  sha256 = [];
  created = none;
  modified = none;
  mft_modified = none;
  accessed = none;
  is_resident = is_resident;
  fragmented = false;
  sparse = false;
  run_count = 0;
  runs = [];
  recovery_status = recovered;
  recovery_notes = [];
}

abbrev pub fail_with : Status → Note → RecoveredNtfsFile → RecoveredNtfsFile
fail_with status note file = record file {
  recovery_status = status;
  recovery_notes = file.recovery_notes ++ note ∷ [];
}

unfoldable pub set_times : Option StandardInformation → RecoveredNtfsFile → RecoveredNtfsFile
set_times none file = file
set_times (some si) file = record file {
  created = si.created;
  modified = si.modified;
  mft_modified = si.mft_modified;
  accessed = si.accessed;
}

abbrev pub note_if : Bool → Note → List Note
note_if test note = if test then note ∷ [] else []

abbrev pub run_entry : RawRun → RunEntry
run_entry run = record { lcn = run.cluster_offset; clusters = run.cluster_count }

-- the executor's call inside the `try` block
unfoldable pub run_executor : Bytes → NtfsBootSector → NonResident → ℕ → Result Bytes
unfolding is_sparse_runlist execute_sparse_aware execute cluster_size
run_executor image bpb nr max_bytes =
    if is_sparse_runlist nr.data_runs
    then execute_sparse_aware image (cluster_size bpb) nr.data_runs nr.real_size max_bytes
    else execute image (cluster_size bpb) nr.data_runs nr.real_size max_bytes

-- `sha256` of core/utils/hashing.py is a parameter.
module _ (sha256 : Bytes → Text) where
  -- the part behind the `try` block
  unfoldable pub finish_non_resident :
      MftRecord → NonResident → Bytes → RecoveredNtfsFile → RecoveredNtfsFile
  unfolding set_times is_sparse_runlist
  finish_non_resident entry nr content file =
      let fragmented = ltb 1 (length nr.data_runs) in
      let sparse = is_sparse_runlist nr.data_runs in
      let timed = set_times entry.standard_info file in
      record timed {
        data_bytes = content;
        sha256 = sha256 content;
        fragmented = fragmented;
        sparse = sparse;
        run_count = length nr.data_runs;
        runs = map run_entry nr.data_runs;
        recovery_status = recovered;
        recovery_notes =
            file.recovery_notes
            ++ (note_if fragmented (from_fragments (length nr.data_runs))
                ++ (note_if sparse has_sparse_regions ++ note_if file.deleted from_deleted_record));
      }

  abbrev pub recover_runs :
      MftRecord → NonResident → Result Bytes → RecoveredNtfsFile → RecoveredNtfsFile
  recover_runs entry nr (raise e) file = fail_with execution_error (execution_failed e) file
  recover_runs entry nr (ok content) file = finish_non_resident entry nr content file

  unfoldable pub recover_non_resident_file :
      Bytes → NtfsBootSector → MftRecord → ℕ → RecoveredNtfsFile
  unfolding new_file run_executor finish_non_resident
  recover_non_resident_file image bpb entry max_bytes = elim entry.data_non_resident [
    | none ↦ fail_with no_non_resident_data has_no_non_resident_data (new_file entry 0 [] false)
    | some nr ↦
        recover_runs entry nr (run_executor image bpb nr max_bytes)
          (new_file entry nr.real_size [] false)
  ]

  abbrev pub recover_bytes : MftRecord → Bytes → RecoveredNtfsFile → RecoveredNtfsFile
  recover_bytes entry [] file = fail_with no_resident_data has_no_resident_data file
  recover_bytes entry (b ∷ rest) file =
      let timed = set_times entry.standard_info file in
      record timed {
        data_bytes = b ∷ rest;
        sha256 = sha256 (b ∷ rest);
        recovery_status = recovered;
        recovery_notes = file.recovery_notes ++ note_if file.deleted from_deleted_record;
      }

  unfoldable pub recover_resident_file : MftRecord → RecoveredNtfsFile
  unfolding new_file set_times
  recover_resident_file entry =
      recover_bytes entry entry.data_resident
        (new_file entry (length entry.data_resident) entry.data_resident true)
