-- ===== src/Ntfs/Runlist/Validation.antt =====
-- runlists/validation.py and runlists/sparse.py: the checks on a resolved runlist, and its sums. An
-- issue keeps its code, its severity and the number of its run; the message text is left out.
use recoverx_cli.Prelude.{
  ℕ, zero, suc, ◌+◌, ◌*◌, Bool, true, false, not, ◌&&◌, ◌||◌, List, [], ◌∷◌, ◌++◌, ltb, ◌==◌,
  if◌then◌else◌,
}
use recoverx_cli.Prelude.Int.{ℤ, pos, negsuc, pos_part, ◌+ℤ◌, ◌-ℤ◌, ◌*ℤ◌, leb_ℤ, ltb_ℤ}
use recoverx_cli.Ntfs.Runlist.Mapping.{RawRun, DataRun}

pub data IssueCode : Type 0 where
  empty_runlist zero_cluster_count impossible_size vcn_overlap invalid_lcn : IssueCode
  lcn_out_of_bounds vcn_exceeds_total circular_run : IssueCode
  real_size_exceeds_virtual initialised_exceeds_real : IssueCode
  -- with the number of the run that is overlapped among the allocated ones
  lcn_overlap : ℕ → IssueCode

pub data Severity : Type 0 where
  error warning : Severity

pub record RunlistIssue : Type 0 where
  pub code : IssueCode
  pub run : ℕ
  pub severity : Severity

abbrev pub issue : IssueCode → ℕ → RunlistIssue
issue code i = record { code = code; run = i; severity = error }

abbrev pub report : Bool → RunlistIssue → List RunlistIssue
report test i = if test then i ∷ [] else []

-- `run.lcn + run.cluster_count - 1`
unfoldable pub lcn_end : DataRun → ℤ
lcn_end run = run.lcn +ℤ pos run.cluster_count -ℤ pos 1

-- the inner loop over `seen_lcn_ranges`, from number `j` on
unfoldable pub overlaps : ℕ → ℕ → ℤ → ℤ → List (ℤ × ℤ) → List RunlistIssue
overlaps i j first last [] = []
overlaps i j first last ((seen_start, seen_end) ∷ seen) =
    report (leb_ℤ first seen_end && leb_ℤ seen_start last) (issue (lcn_overlap j) i)
    ++ overlaps i (j + 1) first last seen

-- what a round reports of an allocated run's LCNs
unfoldable pub lcn_issues : ℕ → ℕ → List (ℤ × ℤ) → DataRun → List RunlistIssue
lcn_issues volume_clusters i seen run =
    report (ltb_ℤ run.lcn (pos 0)) (issue invalid_lcn i)
    ++ (report (ltb 0 volume_clusters && leb_ℤ (pos volume_clusters) (lcn_end run))
          (issue lcn_out_of_bounds i)
        ++ overlaps i 0 run.lcn (lcn_end run) seen)

-- what a round reports
unfoldable pub run_issues : ℕ → ℕ → ℤ → List (ℤ × ℤ) → DataRun → List RunlistIssue
run_issues volume_clusters i prev_vcn_end seen run =
    if run.cluster_count == 0
    then issue zero_cluster_count i ∷ []
    else report (ltb 1_000_000 run.cluster_count) (issue impossible_size i)
      ++ (report (leb_ℤ (pos run.vcn_start) prev_vcn_end) (issue vcn_overlap i)
          ++ (if run.is_sparse then [] else lcn_issues volume_clusters i seen run))

-- `prev_vcn_end` and `seen_lcn_ranges` after a round
unfoldable pub next_vcn_end : ℤ → DataRun → ℤ
next_vcn_end prev_vcn_end run = if run.cluster_count == 0 then prev_vcn_end else run.vcn_end

unfoldable pub next_seen : List (ℤ × ℤ) → DataRun → List (ℤ × ℤ)
next_seen seen run =
    if run.cluster_count == 0 || run.is_sparse then seen else seen ++ (run.lcn, lcn_end run) ∷ []

unfoldable pub validate_from : ℕ → ℕ → ℤ → List (ℤ × ℤ) → List DataRun → List RunlistIssue
validate_from volume_clusters i prev_vcn_end seen [] = []
validate_from volume_clusters i prev_vcn_end seen (run ∷ runs) =
    run_issues volume_clusters i prev_vcn_end seen run
    ++ validate_from volume_clusters (i + 1) (next_vcn_end prev_vcn_end run) (next_seen seen run)
        runs

-- `resolved[-1].vcn_end` of a list that is not empty
unfoldable pub last_vcn_end : DataRun → List DataRun → ℤ
last_vcn_end run [] = run.vcn_end
last_vcn_end run (next ∷ runs) = last_vcn_end next runs

unfoldable pub validate_runlist : List DataRun → ℕ → ℕ → List RunlistIssue
validate_runlist [] total_clusters volume_clusters = issue empty_runlist 0 ∷ []
validate_runlist (run ∷ runs) total_clusters volume_clusters =
    validate_from volume_clusters 0 (negsuc 0) [] (run ∷ runs)
    ++ report (ltb 0 total_clusters && leb_ℤ (pos total_clusters) (last_vcn_end run runs))
        (issue vcn_exceeds_total 0)

-- `c in seen_lcns`
unfoldable pub contains : ℕ → List ℕ → Bool
contains c [] = false
contains c (x ∷ xs) = c == x || contains c xs

-- The loop over `count` clusters from `c` on: whether one was seen, and the clusters seen then.
unfoldable pub scan_clusters : ℕ → ℕ → List ℕ → Bool × List ℕ
scan_clusters zero c seen = (false, seen)
scan_clusters (suc count) c seen =
    let rest = scan_clusters count (c + 1) (c ∷ seen) in
    if contains c seen then (true, seen) else rest

-- `run.is_sparse or run.lcn < 0`
unfoldable pub is_skipped : DataRun → Bool
is_skipped run = run.is_sparse || ltb_ℤ run.lcn (pos 0)

unfoldable pub circular_from : ℕ → List ℕ → List DataRun → List RunlistIssue
circular_from i seen [] = []
circular_from i seen (run ∷ runs) =
    let scan = scan_clusters run.cluster_count (pos_part run.lcn) seen in
    let after = if is_skipped run then (false, seen) else scan in
    report after.0 (issue circular_run i) ++ circular_from (i + 1) after.1 runs

unfoldable pub check_circular_runs : List DataRun → List RunlistIssue
check_circular_runs = circular_from 0 []

-- `(resolved[-1].vcn_end + 1) * cluster_size`, 0 for no runs
unfoldable pub compute_virtual_size : ℕ → List DataRun → ℤ
compute_virtual_size cluster_size [] = pos 0
compute_virtual_size cluster_size (run ∷ runs) = (last_vcn_end run runs +ℤ pos 1) *ℤ cluster_size

unfoldable pub validate_data_run_integrity : List DataRun → ℕ → ℕ → ℕ → List RunlistIssue
validate_data_run_integrity resolved real_size initialised_size cluster_size =
    report (ltb_ℤ (compute_virtual_size cluster_size resolved) (pos real_size))
      (issue real_size_exceeds_virtual 0)
    ++ report (ltb real_size initialised_size)
        (record { code = initialised_exceeds_real; run = 0; severity = warning })

-- `sum(f(r) for r in runs if test(r))`
unfoldable pub sum_where : (DataRun → Bool) → (DataRun → ℕ) → List DataRun → ℕ
sum_where test f [] = 0
sum_where test f (run ∷ runs) = (if test run then f run else 0) + sum_where test f runs

unfoldable pub count_sparse_regions : List DataRun → ℕ
count_sparse_regions = sum_where (λ r. r.is_sparse) (λ r. 1)

unfoldable pub count_allocated_regions : List DataRun → ℕ
count_allocated_regions = sum_where (λ r. not r.is_sparse) (λ r. 1)

unfoldable pub sparse_fill_size : List DataRun → ℕ
sparse_fill_size = sum_where (λ r. r.is_sparse) (λ r. r.cluster_count)

unfoldable pub allocated_cluster_count : List DataRun → ℕ
allocated_cluster_count = sum_where (λ r. not r.is_sparse) (λ r. r.cluster_count)

unfoldable pub compute_allocated_size : ℕ → List DataRun → ℕ
compute_allocated_size cluster_size =
    sum_where (λ r. not r.is_sparse) (λ r. r.cluster_count * cluster_size)

unfoldable pub total_cluster_count : List DataRun → ℕ
total_cluster_count = sum_where (λ r. true) (λ r. r.cluster_count)

-- Every dict of `parse_runlist` has the key "is_sparse".
unfoldable pub is_sparse_runlist : List RawRun → Bool
is_sparse_runlist [] = false
is_sparse_runlist (r ∷ rs) = r.is_sparse || is_sparse_runlist rs
