-- ===== src/Ntfs/Runlist/WellFormed.antt =====
-- What it means that `validate_runlist` reports nothing, and which issues a resolved runlist cannot have.
use mathlib.Core.Bool.{false≢true}
use recoverx_cli.Prelude.{
  ℕ, ◌+◌, ◌≤◌, ◌<◌, ◌≡◌, refl, sym, ◌∙◌, ◌⊎◌, inl, inr, true, false, List, [], ◌∷◌, ◌++◌, arith,
  Bool-cases,
}
use recoverx_cli.Prelude.Int.{ℤ, pos, negsuc, ◌≤ℤ◌, ◌<ℤ◌}
use recoverx_cli.Ntfs.Runlist.Mapping.{DataRun}
use recoverx_cli.Ntfs.Runlist.Validation.{
  lcn_end, overlaps, lcn_issues, run_issues, next_vcn_end, next_seen, validate_from, last_vcn_end,
  validate_runlist,
}

abbrev pub All : {A : Type 0} → (A → Type 0) → List A → Type 0
All P [] = Unit {0}
All P (x ∷ xs) = P x × All P xs

-- A run in itself: some clusters, at most a million, and if allocated in the volume.
pub record RunIsValid (volume_clusters : ℕ) (run : DataRun) : Type 0 where
  pub some_clusters : 0 < run.cluster_count
  pub possible : run.cluster_count ≤ 1_000_000
  pub positive : run.is_sparse ≡ false → pos 0 ≤ℤ run.lcn
  pub in_volume : run.is_sparse ≡ false → 0 < volume_clusters → lcn_end run <ℤ pos volume_clusters

-- Two ranges of clusters do not meet.
abbrev pub Apart : ℤ → ℤ → ℤ → ℤ → Type 0
Apart first last first' last' = (last <ℤ first') ⊎ (last' <ℤ first)

-- Two runs share no cluster of the volume.
abbrev pub RunsApart : DataRun → DataRun → Type 0
RunsApart a b =
    a.is_sparse ≡ false → b.is_sparse ≡ false → Apart a.lcn (lcn_end a) b.lcn (lcn_end b)

abbrev pub PairwiseApart : List DataRun → Type 0
PairwiseApart [] = Unit {0}
PairwiseApart (run ∷ runs) = All (RunsApart run) runs × PairwiseApart runs

-- Each run starts behind the VCN that the one before it ends at.
abbrev pub Increasing : ℤ → List DataRun → Type 0
Increasing vcn [] = Unit {0}
Increasing vcn (run ∷ runs) = (vcn <ℤ pos run.vcn_start) × Increasing run.vcn_end runs

-- An allocated run is apart from the ranges seen.
abbrev ApartFromSeen : List (ℤ × ℤ) → DataRun → Type 0
ApartFromSeen seen run =
    run.is_sparse ≡ false → All (λ range. Apart range.0 range.1 run.lcn (lcn_end run)) seen

append-eq-nil : {A : Type 0} (xs ys : List A) → xs ++ ys ≡ [] → (xs ≡ []) × (ys ≡ [])
append-eq-nil [] ys h = (refl, h)
append-eq-nil (x ∷ xs) ys h = absurd (cc)

overlaps-eq-nil :
    (i j : ℕ) (first last : ℤ) (seen : List (ℤ × ℤ))
    → overlaps i j first last seen ≡ []
    → All (λ range. Apart range.0 range.1 first last) seen
unfolding overlaps
overlaps-eq-nil i j first last [] h = tt
overlaps-eq-nil i j first last ((seen_start, seen_end) ∷ seen) h =
    (ground arith, overlaps-eq-nil i (j + 1) first last seen (append-eq-nil _ _ h).1)

run_issues-eq-nil :
    (volume_clusters i : ℕ) (prev : ℤ) (seen : List (ℤ × ℤ)) (run : DataRun)
    → run_issues volume_clusters i prev seen run ≡ []
    → RunIsValid volume_clusters run × (prev <ℤ pos run.vcn_start) × ApartFromSeen seen run
unfolding run_issues lcn_issues
run_issues-eq-nil volume_clusters i prev seen run h =
    (ground arith, ground arith, λ e. overlaps-eq-nil i 0 run.lcn (lcn_end run) seen (ground arith))

next_vcn_end_lem :
    (prev : ℤ) (run : DataRun) → 0 < run.cluster_count → next_vcn_end prev run ≡ run.vcn_end
unfolding next_vcn_end
next_vcn_end_lem prev run c = ground arith

All-append_left : {A : Type 0} (P : A → Type 0) (xs ys : List A) → All P (xs ++ ys) → All P xs
All-append_left P [] ys h = tt
All-append_left P (x ∷ xs) ys h = (h.0, All-append_left P xs ys h.1)

All-append_right : {A : Type 0} (P : A → Type 0) (xs ys : List A) → All P (xs ++ ys) → All P ys
All-append_right P [] ys h = h
All-append_right P (x ∷ xs) ys h = All-append_right P xs ys h.1

next_seen_sparse :
    (seen : List (ℤ × ℤ)) (run : DataRun) → run.is_sparse ≡ true → next_seen seen run ≡ seen
unfolding next_seen
next_seen_sparse seen run e = ground arith

next_seen_allocated :
    (seen : List (ℤ × ℤ)) (run : DataRun)
    → 0 < run.cluster_count
    → run.is_sparse ≡ false
    → next_seen seen run ≡ seen ++ (run.lcn, lcn_end run) ∷ []
unfolding next_seen
next_seen_allocated seen run c e = ground arith

-- A later run is apart from what was seen before this run, and from this run.
apart_later :
    (seen : List (ℤ × ℤ)) (run later : DataRun)
    → 0 < run.cluster_count
    → ApartFromSeen (next_seen seen run) later
    → ApartFromSeen seen later × RunsApart run later
apart_later seen run later c h = elim (Bool-cases run.is_sparse) [
  | inl sparse ↦
      ((rw (next_seen_sparse seen run sparse) at h), (λ e. absurd (false≢true (sym e ∙ sparse))))
  | inr allocated ↦
      let range = (run.lcn, lcn_end run) ∷ [] in
      let all = rw (next_seen_allocated seen run c allocated) at h in
      (
        (λ e. All-append_left _ seen range (all e)),
        (λ e e'. (All-append_right _ seen range (all e')).0),
      )
]

apart_after :
    (seen : List (ℤ × ℤ)) (run : DataRun) (runs : List DataRun)
    → 0 < run.cluster_count
    → All (ApartFromSeen (next_seen seen run)) runs
    → All (ApartFromSeen seen) runs × All (RunsApart run) runs
apart_after seen run [] c h = (tt, tt)
apart_after seen run (later ∷ runs) c h =
    let (a, b) = apart_later seen run later c h.0 in
    let (as', bs) = apart_after seen run runs c h.1 in ((a, as'), (b, bs))

validate_from-eq-nil :
    (volume_clusters i : ℕ) (prev : ℤ) (seen : List (ℤ × ℤ)) (runs : List DataRun)
    → validate_from volume_clusters i prev seen runs ≡ []
    → All (RunIsValid volume_clusters) runs
      × Increasing prev runs
      × All (ApartFromSeen seen) runs
      × PairwiseApart runs
unfolding validate_from
validate_from-eq-nil volume_clusters i prev seen [] h = (tt, tt, tt, tt)
validate_from-eq-nil volume_clusters i prev seen (run ∷ runs) h =
    let (here, after) = append-eq-nil _ _ h in
    let (valid, later, apart) = run_issues-eq-nil volume_clusters i prev seen run here in
    let (valids, increasing, aparts, pairwise) =
      validate_from-eq-nil volume_clusters (i + 1) (next_vcn_end prev run) (next_seen seen run) runs
        after in
    let (before, from_run) = apart_after seen run runs valid.some_clusters aparts in
    (
      (valid, valids),
      (later, (rw (next_vcn_end_lem prev run valid.some_clusters) at increasing)),
      (apart, before),
      (from_run, pairwise),
    )

-- A runlist that is not empty and for which `validate_runlist` reports no issue is well formed: each
-- run has between one and a million clusters, each starts behind the VCN that the one before ends at,
-- the allocated ones have LCNs from 0 on and, where the size of the volume is given, in the volume,
-- no two of them share a cluster, and the last VCN is below the given total, if there is one.
pub validate_runlist-eq-nil :
    (run : DataRun) (runs : List DataRun) (total_clusters volume_clusters : ℕ)
    → validate_runlist (run ∷ runs) total_clusters volume_clusters ≡ []
    → All (RunIsValid volume_clusters) (run ∷ runs)
      × Increasing (negsuc 0) (run ∷ runs)
      × PairwiseApart (run ∷ runs)
      × (0 < total_clusters → last_vcn_end run runs <ℤ pos total_clusters)
unfolding validate_runlist
validate_runlist-eq-nil run runs total_clusters volume_clusters h =
    let (rounds, end) = append-eq-nil _ _ h in
    let (valid, increasing, _, pairwise) =
      validate_from-eq-nil volume_clusters 0 (negsuc 0) [] (run ∷ runs) rounds in
    (valid, increasing, pairwise, λ t. ground arith)
