-- ===== src/Ntfs/Runlist/Resolved.antt =====
-- The issues of validation.py that the output of `resolve_runlist` cannot have.
use recoverx_cli.Prelude.{
  ℕ, ◌+◌, ◌≡◌, ◌≢◌, inl, inr, Bool, true, false, ◌&&◌, List, [], ◌∷◌, ◌++◌, arith, ltb, ◌==◌,
  if◌then◌else◌, Bool-cases,
}
use recoverx_cli.Prelude.Int.{ℤ, pos, negsuc, ◌<ℤ◌, leb_ℤ, ltb_ℤ}
use recoverx_cli.Ntfs.Runlist.Mapping.{
  RawRun, DataRun, resolve_runlist, resolve_from, resolve_run, next_lcn,
}
use recoverx_cli.Ntfs.Runlist.WellFormed.{All}
use recoverx_cli.Ntfs.Runlist.Validation.{
  RunlistIssue, IssueCode, issue, report, impossible_size, vcn_overlap, invalid_lcn,
  lcn_out_of_bounds, vcn_exceeds_total, lcn_overlap, lcn_end, overlaps, lcn_issues, run_issues,
  next_vcn_end, next_seen, validate_from, validate_runlist,
}

-- The range of a resolved run starts where the loop stands, and the loop goes on behind its end.
vcn_end-resolve_run :
    (vcn : ℕ) (lcn : ℤ) (r : RawRun) (prev : ℤ)
    → prev <ℤ pos vcn
    → ((resolve_run vcn lcn r).vcn_start ≡ vcn)
      × (next_vcn_end prev (resolve_run vcn lcn r) <ℤ pos (vcn + r.cluster_count))
unfolding resolve_run next_vcn_end
vcn_end-resolve_run vcn lcn r prev h = ground arith

-- No issue of a list has the code.
abbrev pub NoneWith : IssueCode → List RunlistIssue → Type 0
NoneWith code = All (λ i. i.code ≢ code)

NoneWith-append :
    (code : IssueCode) (xs ys : List RunlistIssue)
    → NoneWith code xs
    → NoneWith code ys
    → NoneWith code (xs ++ ys)
NoneWith-append code [] ys h k = k
NoneWith-append code (x ∷ xs) ys h k = (h.0, NoneWith-append code xs ys h.1 k)

NoneWith-report :
    (code other : IssueCode) (test : Bool) (i : ℕ)
    → other ≢ code
    → NoneWith code (report test (issue other i))
NoneWith-report code other true i h = (h, tt)
NoneWith-report code other false i h = tt

NoneWith-if :
    (code : IssueCode) (test : Bool) (xs ys : List RunlistIssue)
    → NoneWith code xs
    → NoneWith code ys
    → NoneWith code (if test then xs else ys)
NoneWith-if code true xs ys h k = h
NoneWith-if code false xs ys h k = k

NoneWith-overlaps :
    (i j : ℕ) (first last : ℤ) (seen : List (ℤ × ℤ))
    → NoneWith vcn_overlap (overlaps i j first last seen)
unfolding overlaps
NoneWith-overlaps i j first last [] = tt
NoneWith-overlaps i j first last (range ∷ seen) =
    NoneWith-append vcn_overlap
      (report (leb_ℤ first range.1 && leb_ℤ range.0 last) (issue (lcn_overlap j) i))
      (overlaps i (j + 1) first last seen)
      (NoneWith-report vcn_overlap (lcn_overlap j) _ i (λ e. cc))
      (NoneWith-overlaps i (j + 1) first last seen)

NoneWith-lcn_issues :
    (volume_clusters i : ℕ) (seen : List (ℤ × ℤ)) (run : DataRun)
    → NoneWith vcn_overlap (lcn_issues volume_clusters i seen run)
unfolding lcn_issues
NoneWith-lcn_issues volume_clusters i seen run =
    NoneWith-append vcn_overlap (report (ltb_ℤ run.lcn (pos 0)) (issue invalid_lcn i)) _
      (NoneWith-report vcn_overlap invalid_lcn _ i (λ e. cc))
      (NoneWith-append vcn_overlap
        (report (ltb 0 volume_clusters && leb_ℤ (pos volume_clusters) (lcn_end run))
          (issue lcn_out_of_bounds i))
        _ (NoneWith-report vcn_overlap lcn_out_of_bounds _ i (λ e. cc))
        (NoneWith-overlaps i 0 run.lcn (lcn_end run) seen))

NoneWith-run_issues :
    (volume_clusters i : ℕ) (prev : ℤ) (seen : List (ℤ × ℤ)) (run : DataRun)
    → prev <ℤ pos run.vcn_start
    → NoneWith vcn_overlap (run_issues volume_clusters i prev seen run)
unfolding run_issues
NoneWith-run_issues volume_clusters i prev seen run h =
    let in_order : leb_ℤ (pos run.vcn_start) prev ≡ false = ground arith in
    elim (Bool-cases (run.cluster_count == 0)) [
      | inl e ↦ rw e ((λ p. cc), tt)
      | inr e ↦
          rw (e, in_order)
            (NoneWith-append vcn_overlap
              (report (ltb 1_000_000 run.cluster_count) (issue impossible_size i)) _
              (NoneWith-report vcn_overlap impossible_size _ i (λ p. cc))
              (NoneWith-if vcn_overlap run.is_sparse [] _ tt
                (NoneWith-lcn_issues volume_clusters i seen run)))
    ]

NoneWith-validate_from :
    (volume_clusters i : ℕ) (prev : ℤ) (seen : List (ℤ × ℤ)) (rs : List RawRun) (vcn : ℕ) (lcn : ℤ)
    → prev <ℤ pos vcn
    → NoneWith vcn_overlap (validate_from volume_clusters i prev seen (resolve_from vcn lcn rs))
unfolding validate_from resolve_from
NoneWith-validate_from volume_clusters i prev seen [] vcn lcn h = tt
NoneWith-validate_from volume_clusters i prev seen (r ∷ rs) vcn lcn h =
    let run = resolve_run vcn lcn r in
    let (start, next) = vcn_end-resolve_run vcn lcn r prev h in
    NoneWith-append vcn_overlap (run_issues volume_clusters i prev seen run) _
      (NoneWith-run_issues volume_clusters i prev seen run (omega (arith, start)))
      (NoneWith-validate_from volume_clusters (i + 1) (next_vcn_end prev run) (next_seen seen run)
        rs (vcn + r.cluster_count) (next_lcn lcn r) next)

-- Whatever runs a runlist names, its resolved form has no overlap of VCNs: `validate_runlist` never
-- reports VCN_OVERLAP of an output of `resolve_runlist`.
pub NoneWith-validate_runlist :
    (rs : List RawRun) (total_clusters volume_clusters : ℕ)
    → NoneWith vcn_overlap (validate_runlist (resolve_runlist rs) total_clusters volume_clusters)
unfolding resolve_runlist validate_runlist resolve_from
NoneWith-validate_runlist [] total_clusters volume_clusters = ((λ e. cc), tt)
NoneWith-validate_runlist (r ∷ rs) total_clusters volume_clusters =
    NoneWith-append vcn_overlap
      (validate_from volume_clusters 0 (negsuc 0) [] (resolve_from 0 (pos 0) (r ∷ rs))) _
      (NoneWith-validate_from volume_clusters 0 (negsuc 0) [] (r ∷ rs) 0 (pos 0) (omega arith))
      (NoneWith-report vcn_overlap vcn_exceeds_total _ 0 (λ e. cc))
