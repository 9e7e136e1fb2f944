-- ===== src/Ntfs/Recovery/Classified.antt =====
-- ntfs/recovery.py: what it means that a file is called recoverable.
use recoverx_cli.Prelude.{
  ℕ, ◌+◌, ◌*◌, ◌/◌, ◌<◌, ◌≡◌, refl, inl, inr, false, some, List, [], ◌∷◌, ◌++◌, arith, ◌==◌,
  Bool-cases, length, take, min, length-take,
}
use recoverx_cli.Prelude.Int.{ℤ, pos, negsuc, pos_part, leb_ℤ, pos-*}
use recoverx_cli.Utils.RawReader.{Bytes, ok}
use recoverx_cli.Utils.Text.{Text}
use recoverx_cli.Ntfs.BootSector.{NtfsBootSector, cluster_size}
use recoverx_cli.Ntfs.Attributes.Header.{NonResident}
use recoverx_cli.Ntfs.Mft.{MftRecord}
use recoverx_cli.Ntfs.Runlist.Mapping.{DataRun, resolve_runlist}
use recoverx_cli.Ntfs.Runlist.Translation.{layout}
use recoverx_cli.Ntfs.Runlist.Executor.{
  Estimate, estimate_run, estimate_runs, estimate_recoverable_bytes,
}
use recoverx_cli.Ntfs.Runlist.Reading.{
  WithinImage, AllWithin, file_bytes, length-file_bytes, execute-file_bytes,
}
use recoverx_cli.Ntfs.Runlist.Estimate.{execute_sparse_aware-execute}
use recoverx_cli.Ntfs.Runlist.WellFormed.{All}
use recoverx_cli.Ntfs.Runlist.Validation.{
  RunlistIssue, run_issues, next_vcn_end, next_seen, validate_from, validate_runlist,
}
use recoverx_cli.Ntfs.Recovery.{
  recoverable, has_errors, classify_bytes, classify_runs, classify_recoverability, total_clusters,
}
use recoverx_cli.Ntfs.Recovery.Files.{
  recovered, run_executor, finish_non_resident, recover_non_resident_file,
}

has_errors-append :
    (xs ys : List RunlistIssue)
    → has_errors (xs ++ ys) ≡ false
    → (has_errors xs ≡ false) × (has_errors ys ≡ false)
unfolding has_errors
has_errors-append [] ys h = (refl, h)
has_errors-append (x ∷ xs) ys h = ground (arith, has_errors-append xs ys)

-- Without an error no run has zero clusters.
run_issues-some_clusters :
    (volume_clusters i : ℕ) (prev : ℤ) (seen : List (ℤ × ℤ)) (run : DataRun)
    → has_errors (run_issues volume_clusters i prev seen run) ≡ false
    → 0 < run.cluster_count
unfolding run_issues has_errors
run_issues-some_clusters volume_clusters i prev seen run h =
    elim (Bool-cases (run.cluster_count == 0)) [
      | inl empty ↦ ground (arith, h)
      | inr some_clusters ↦ ground arith
    ]

validate_from-some_clusters :
    (volume_clusters i : ℕ) (prev : ℤ) (seen : List (ℤ × ℤ)) (runs : List DataRun)
    → has_errors (validate_from volume_clusters i prev seen runs) ≡ false
    → All (λ run. 0 < run.cluster_count) runs
unfolding validate_from
validate_from-some_clusters volume_clusters i prev seen [] h = tt
validate_from-some_clusters volume_clusters i prev seen (run ∷ runs) h =
    let (first, rest) = has_errors-append (run_issues volume_clusters i prev seen run) _ h in
    (
      run_issues-some_clusters volume_clusters i prev seen run first,
      validate_from-some_clusters volume_clusters (i + 1) (next_vcn_end prev run)
          (next_seen seen run) runs rest,
    )

validate_runlist-some_clusters :
    (runs : List DataRun) (total volume_clusters : ℕ)
    → has_errors (validate_runlist runs total volume_clusters) ≡ false
    → All (λ run. 0 < run.cluster_count) runs
unfolding validate_runlist
validate_runlist-some_clusters [] total volume_clusters h = tt
validate_runlist-some_clusters (run ∷ runs) total volume_clusters h =
    let rounds =
      has_errors-append (validate_from volume_clusters 0 (negsuc 0) [] (run ∷ runs)) _ h in
    validate_from-some_clusters volume_clusters 0 (negsuc 0) [] (run ∷ runs) rounds.0

-- Where nothing is lost in all, nothing is lost of a run.
estimate_runs-lost :
    (size cluster_bytes : ℕ) (runs : List DataRun) (e : Estimate)
    → (estimate_runs size cluster_bytes e runs).lost ≡ 0
    → (e.lost ≡ 0) × All (λ run. (estimate_run size cluster_bytes run).lost ≡ 0) runs
unfolding estimate_runs
estimate_runs-lost size cluster_bytes [] e h = (h, tt)
estimate_runs-lost size cluster_bytes (run ∷ runs) e h =
    let (sum, rest) = estimate_runs-lost size cluster_bytes runs _ h in
    (omega (arith, sum), (omega (arith, sum), rest))

module _ (image : Bytes) (cluster_bytes : ℕ) where
  -- A run with clusters of which nothing is lost lies in the image.
  estimate_run-WithinImage :
      (run : DataRun)
      → 0 < cluster_bytes
      → 0 < run.cluster_count
      → (estimate_run (length image) cluster_bytes run).lost ≡ 0
      → WithinImage image cluster_bytes run
  unfolding estimate_run
  estimate_run-WithinImage run some_bytes some_clusters h allocated =
      let k = pos_part run.lcn * cluster_bytes in
      let n = run.cluster_count * cluster_bytes in
      let whole : 0 < n = grind arith in
      let sum : (pos_part run.lcn + run.cluster_count) * cluster_bytes ≡ k + n = grind arith in
      elim (Bool-cases (leb_ℤ (pos 0) run.lcn)) [
        | inr negative ↦ ground (arith, h)
        | inl positive ↦
            let l : run.lcn ≡ pos (pos_part run.lcn) = ground arith in
            let byte_offset = pos-* (pos_part run.lcn) cluster_bytes in
            (l, ground (arith, h, byte_offset))
      ]

  AllWithin-lost :
      (runs : List DataRun)
      → 0 < cluster_bytes
      → All (λ run. 0 < run.cluster_count) runs
      → All (λ run. (estimate_run (length image) cluster_bytes run).lost ≡ 0) runs
      → AllWithin image cluster_bytes runs
  AllWithin-lost [] some_bytes clusters lost = tt
  AllWithin-lost (run ∷ runs) some_bytes clusters lost = (
    estimate_run-WithinImage run some_bytes clusters.0 lost.0,
    AllWithin-lost runs some_bytes clusters.1 lost.1,
  )

-- What `recoverable` says of the issues and of the estimate.
classify_runs-recoverable :
    (image : Bytes) (cluster_bytes : ℕ) (nr : NonResident)
    → 0 < cluster_bytes
    → classify_runs (length image) cluster_bytes nr ≡ recoverable
    → AllWithin image cluster_bytes (resolve_runlist nr.data_runs)
unfolding classify_runs classify_bytes estimate_recoverable_bytes
classify_runs-recoverable image cluster_bytes nr some_bytes h =
    let resolved = resolve_runlist nr.data_runs in
    let volume = length image / cluster_bytes in
    let estimate = estimate_recoverable_bytes (length image) cluster_bytes resolved nr.real_size in
    let clean : has_errors (validate_runlist resolved (total_clusters nr) volume) ≡ false =
      ground (arith, h) in
    let lost : estimate.2 ≡ 0 = ground (arith, h, clean) in
    let start : Estimate = record { total = 0; recoverable = 0; lost = 0 } in
    let (_, runs_lost) = estimate_runs-lost (length image) cluster_bytes resolved start lost in
    AllWithin-lost image cluster_bytes resolved some_bytes
      (validate_runlist-some_clusters resolved (total_clusters nr) volume clean) runs_lost

run_executor-file_bytes :
    (image : Bytes) (bpb : NtfsBootSector) (nr : NonResident)
    → AllWithin image (cluster_size bpb) (resolve_runlist nr.data_runs)
    → run_executor image bpb nr 0
      ≡ ok (take nr.real_size (file_bytes image (cluster_size bpb) (layout (pos 0) nr.data_runs)))
unfolding run_executor
run_executor-file_bytes image bpb nr within =
    let same =
      execute_sparse_aware-execute image (cluster_size bpb) nr.data_runs nr.real_size 0 within in
    let all = execute-file_bytes image (cluster_size bpb) nr.data_runs nr.real_size within in
    ground (arith, same, all)

-- A file that `classify_recoverability` calls recoverable is recovered as far as its runs go: the
-- status is `recovered`, and the data are the first `real_size` bytes of its clusters in the order of
-- their VCNs, as many as `real_size`, or all bytes of the clusters where these are fewer.
pub recover_non_resident_file-recoverable :
    (sha256 : Bytes → Text) (image : Bytes) (bpb : NtfsBootSector) (entry : MftRecord)
    (nr : NonResident)
    → entry.data_non_resident ≡ some nr
    → classify_recoverability image bpb entry ≡ some recoverable
    → let file = recover_non_resident_file sha256 image bpb entry 0 in
      (file.recovery_status ≡ recovered)
      × (file.data_bytes
          ≡ take nr.real_size (file_bytes image (cluster_size bpb) (layout (pos 0) nr.data_runs)))
      × (length file.data_bytes
          ≡ min nr.real_size (length (layout (pos 0) nr.data_runs) * cluster_size bpb))
unfolding classify_recoverability recover_non_resident_file finish_non_resident
recover_non_resident_file-recoverable sha256 image bpb entry nr e h =
    let some_bytes : 0 < cluster_size bpb = ground (arith, e, h) in
    let verdict : classify_runs (length image) (cluster_size bpb) nr ≡ recoverable =
      ground (arith, e, h) in
    let within = classify_runs-recoverable image (cluster_size bpb) nr some_bytes verdict in
    let read = run_executor-file_bytes image bpb nr within in
    let bytes = file_bytes image (cluster_size bpb) (layout (pos 0) nr.data_runs) in
    (
      rw (e, read),
      rw (e, read),
      rw (e, read)
          (omega (
            arith,
            length-take nr.real_size bytes,
            length-file_bytes image (cluster_size bpb) nr.data_runs within,
          )),
    )
