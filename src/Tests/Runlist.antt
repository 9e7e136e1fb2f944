-- ===== src/Tests/Runlist.antt =====
-- Runs of the runlist modules at small images.
use recoverx_cli.Prelude.{◌<◌, ◌≡◌, refl, true, false, List, [], ◌∷◌, arith, length, concat}
use recoverx_cli.Prelude.Int.{pos, negsuc, ◌+ℤ◌, ◌-ℤ◌, ◌*ℤ◌, ◌<ℤ◌}
use recoverx_cli.Utils.RawReader.{Bytes, ok, read_bytes}
use recoverx_cli.Ntfs.Runlist.Mapping.{
  RawRun, DataRun, resolve_run, resolve_from, next_lcn, resolve_runlist, vcn_to_lcn,
}
use recoverx_cli.Ntfs.Runlist.Translation.{
  row, run_layout, layout, answer, vcn_to_lcn-resolve_runlist,
}
use recoverx_cli.Ntfs.Runlist.Reading.{AllWithin, file_bytes, cluster_bytes, execute-file_bytes}
use recoverx_cli.Ntfs.Runlist.Executor.{
  execute, execute_sparse_aware, read_resolved_sparse, estimate_recoverable_bytes, estimate_runs,
  estimate_run,
}
use recoverx_cli.Ntfs.Runlist.Estimate.{read_resolved_sparse-estimate, execute_sparse_aware-execute}
use recoverx_cli.Ntfs.Runlist.Chunked.{chunks, running, execute_chunked, read_chunked}
use recoverx_cli.Ntfs.Runlist.Chunked.Whole.{execute_chunked-concat, read_chunked-running}
use recoverx_cli.Ntfs.Runlist.Validation.{
  validate_runlist, validate_from, run_issues, lcn_issues, lcn_end, overlaps, next_vcn_end,
  next_seen, last_vcn_end, vcn_overlap,
}
use recoverx_cli.Ntfs.Runlist.WellFormed.{
  All, RunIsValid, Increasing, PairwiseApart, validate_runlist-eq-nil,
}
use recoverx_cli.Ntfs.Runlist.Resolved.{NoneWith, NoneWith-validate_runlist}

-- Two clusters from LCN 1 on, a hole of one, and one cluster at LCN 0.
abbrev runs : List RawRun
runs =
    record { cluster_count = 2; cluster_offset = pos 1; is_sparse = false }
    ∷ record { cluster_count = 1; cluster_offset = pos 0; is_sparse = true }
    ∷ record { cluster_count = 1; cluster_offset = negsuc 0; is_sparse = false }
    ∷ []

abbrev image : Bytes
image = 10 ∷ 11 ∷ 12 ∷ 13 ∷ 14 ∷ 15 ∷ []

abbrev resolved : List DataRun
resolved =
    record {
      vcn_start = 0;
      vcn_end = pos 1;
      lcn = pos 1;
      cluster_count = 2;
      is_sparse = false;
      relative_offset = pos 1;
    }
    ∷ record {
      vcn_start = 2;
      vcn_end = pos 2;
      lcn = negsuc 0;
      cluster_count = 1;
      is_sparse = true;
      relative_offset = pos 0;
    }
    ∷ record {
      vcn_start = 3;
      vcn_end = pos 3;
      lcn = pos 0;
      cluster_count = 1;
      is_sparse = false;
      relative_offset = negsuc 0;
    }
    ∷ []

resolve_runs : resolve_runlist runs ≡ resolved
unfolding resolve_runlist resolve_from resolve_run next_lcn ◌+ℤ◌
resolve_runs = refl

vcn_to_lcn-resolve_runlist_example : vcn_to_lcn (pos 3) (resolve_runlist runs) ≡ pos 0
unfolding layout run_layout row answer next_lcn ◌+ℤ◌
vcn_to_lcn-resolve_runlist_example = vcn_to_lcn-resolve_runlist runs 3

runs_within : AllWithin image 2 (resolve_runlist runs)
unfolding resolve_runlist resolve_from resolve_run next_lcn ◌+ℤ◌
runs_within =
    ((λ e. (refl, omega arith)), ((λ e. absurd (ground arith)), ((λ e. (refl, omega arith)), tt)))

execute-file_bytes_example : execute image 2 runs 7 0 ≡ ok (12 ∷ 13 ∷ 14 ∷ 15 ∷ 0 ∷ 0 ∷ 10 ∷ [])
unfolding layout run_layout row next_lcn ◌+ℤ◌ file_bytes cluster_bytes read_bytes
execute-file_bytes_example = execute-file_bytes image 2 runs 7 runs_within

execute_chunked-concat_example :
    (cs : List Bytes) × (execute_chunked image 2 3 8 runs 7 ≡ chunks cs)
    × (concat cs ≡ 12 ∷ 13 ∷ 14 ∷ 15 ∷ 0 ∷ 0 ∷ 10 ∷ [])
unfolding layout run_layout row next_lcn ◌+ℤ◌ file_bytes cluster_bytes read_bytes
execute_chunked-concat_example =
    execute_chunked-concat image 2 3 8 runs 7 (omega arith) (omega arith) runs_within

abbrev past_end : DataRun
past_end = record {
  vcn_start = 0;
  vcn_end = pos 1;
  lcn = pos 2;
  cluster_count = 2;
  is_sparse = false;
  relative_offset = pos 2;
}

read_chunked-running_example : read_chunked image 2 3 1000 4 (past_end ∷ []) ≡ running
read_chunked-running_example =
    read_chunked-running image 2 3 1000 4 past_end [] 2 (omega arith) refl refl (omega arith)
      (omega arith)

read_resolved_sparse-estimate_example :
    (bytes : Bytes) × (read_resolved_sparse image 2 (past_end ∷ []) 4 0 ≡ ok bytes)
    × (length bytes ≡ 2)
unfolding estimate_recoverable_bytes estimate_runs estimate_run ◌*ℤ◌
read_resolved_sparse-estimate_example =
    read_resolved_sparse-estimate image 2 (past_end ∷ []) 4 ((λ _ _. omega arith), tt)

execute_sparse_aware-execute_example :
    execute_sparse_aware image 2 runs 7 5 ≡ execute image 2 runs 7 5
execute_sparse_aware-execute_example = execute_sparse_aware-execute image 2 runs 7 5 runs_within

no_issues : validate_runlist resolved 4 3 ≡ []
unfolding validate_runlist validate_from run_issues lcn_issues lcn_end overlaps next_vcn_end
    next_seen last_vcn_end ◌+ℤ◌ ◌-ℤ◌
no_issues = refl

validate_runlist-eq-nil_example :
    All (RunIsValid 3) resolved
    × Increasing (negsuc 0) resolved
    × PairwiseApart resolved
    × (0 < 4 → pos 3 <ℤ pos 4)
unfolding last_vcn_end
validate_runlist-eq-nil_example = validate_runlist-eq-nil _ _ 4 3 no_issues

NoneWith-validate_runlist_example :
    NoneWith vcn_overlap (validate_runlist (resolve_runlist runs) 4 1)
NoneWith-validate_runlist_example = NoneWith-validate_runlist runs 4 1
