-- ===== src/Ntfs/Runlist/Reading.antt =====
-- What the executor reads: the clusters of the file in the order of their VCNs.
use native.Mathlib.Nat.{zero-mul}
use recoverx_cli.Prelude.{
  ℕ, zero, suc, ◌+◌, ◌-◌, ◌*◌, ◌≤◌, min, ◌≡◌, refl, sym, ap, ◌∙◌, inl, inr, false, List, [], ◌∷◌,
  ◌++◌, append_assoc, arith, if◌then◌else◌, Bool-cases, length, take, drop, replicate, length-take,
  length-replicate, length-append, take-zero, take-nil, take-append, take-take, take-replicate,
  replicate-add,
}
use recoverx_cli.Prelude.Int.{ℤ, pos, pos_part, pos-*, pos-+}
use recoverx_cli.Utils.RawReader.{Bytes, ok, read_bytes, length-read_bytes, read_bytes-add}
use recoverx_cli.Ntfs.Runlist.Mapping.{
  RawRun, DataRun, next_lcn, resolve_run, resolve_from, resolve_runlist,
}
use recoverx_cli.Ntfs.Runlist.Translation.{
  Placement, hole, at, row, run_layout, layout, length-run_layout, fields-resolve_run,
}
use recoverx_cli.Ntfs.Runlist.Executor.{read_runs, read_limit, read_run, read_resolved, execute}

module _ (image : Bytes) (cluster_size : ℕ) where
  -- An allocated run lies in the image, from an LCN that is not negative.
  abbrev pub WithinImage : DataRun → Type 0
  WithinImage run =
      run.is_sparse ≡ false
      → (run.lcn ≡ pos (pos_part run.lcn))
        × ((pos_part run.lcn + run.cluster_count) * cluster_size ≤ length image)

  abbrev pub AllWithin : List DataRun → Type 0
  AllWithin [] = Unit {0}
  AllWithin (run ∷ runs) = WithinImage run × AllWithin runs

  -- The bytes of a run, and of a runlist.
  unfoldable pub run_content : DataRun → Bytes
  run_content run =
      if run.is_sparse
      then replicate (run.cluster_count * cluster_size) 0
      else read_bytes image (pos_part run.lcn * cluster_size) (run.cluster_count * cluster_size)

  unfoldable pub content : List DataRun → Bytes
  content [] = []
  content (run ∷ runs) = run_content run ++ content runs

  pub length-run_content :
      (run : DataRun)
      → WithinImage run
      → length (run_content run) ≡ run.cluster_count * cluster_size
  unfolding run_content
  length-run_content run w = ground (
    arith,
    length-replicate {A = ℕ} (run.cluster_count * cluster_size) 0,
    length-read_bytes image (pos_part run.lcn * cluster_size) (run.cluster_count * cluster_size),
  )

  pub take-read_bytes :
      (offset n m : ℕ) → read_bytes image offset (min n m) ≡ take m (read_bytes image offset n)
  unfolding read_bytes
  take-read_bytes offset n m =
      let e : min n m ≡ min m n = omega arith in rw e (sym (take-take m n (drop offset image)))

  -- A run in the image begins in it, and is not longer.
  run_start : (k n : ℕ) → (k + n) * cluster_size ≤ length image → k * cluster_size ≤ length image
  run_start k n h = grind arith

  run_size : (k n : ℕ) → (k + n) * cluster_size ≤ length image → n * cluster_size ≤ length image
  run_size k n h = grind arith

  read_run-content :
      (remaining : ℕ) (run : DataRun)
      → WithinImage run
      → read_run image cluster_size remaining run ≡ ok (take remaining (run_content run))
  unfolding read_run run_content
  read_run-content remaining run w = elim (Bool-cases run.is_sparse) [
    | inl e ↦ ground (arith, take-replicate {A = ℕ} remaining (run.cluster_count * cluster_size) 0)
    | inr e ↦ ground (
      arith,
      w e,
      pos-* (pos_part run.lcn) cluster_size,
      run_start (pos_part run.lcn) run.cluster_count (w e).1,
      run_size (pos_part run.lcn) run.cluster_count (w e).1,
      take-read_bytes (pos_part run.lcn * cluster_size) (run.cluster_count * cluster_size)
          remaining,
    )
  ]

  cut : (n m : ℕ) → n - min n m ≡ n - m
  cut n m = omega arith

  -- Each round appends what is still wanted of its run.
  pub read_runs-content :
      (runs : List DataRun) (remaining : ℕ)
      → AllWithin runs
      → read_runs (read_run image cluster_size) remaining runs ≡ ok (take remaining (content runs))
  unfolding read_runs content
  read_runs-content [] remaining w = ap ok (take-nil remaining)
  read_runs-content (run ∷ runs) remaining w =
      let n = run.cluster_count * cluster_size in
      ground (
        arith,
        take-zero remaining (run_content run ++ content runs),
        read_run-content remaining run w.0,
        read_runs-content runs (remaining - length (take remaining (run_content run))) w.1,
        take-append remaining (run_content run) (content runs),
        length-take remaining (run_content run),
        cut remaining (length (run_content run)),
      )

  pub read_resolved-content :
      (runs : List DataRun) (real_size max_bytes : ℕ)
      → AllWithin runs
      → read_resolved image cluster_size runs real_size max_bytes
        ≡ ok (take real_size (take (read_limit real_size max_bytes) (content runs)))
  unfolding read_resolved
  read_resolved-content runs real_size max_bytes w =
      rw (read_runs-content runs (read_limit real_size max_bytes) w)

  -- The bytes of one cluster of the file.
  unfoldable pub cluster_bytes : Placement → Bytes
  cluster_bytes hole = replicate cluster_size 0
  cluster_bytes (at lcn) = read_bytes image (pos_part lcn * cluster_size) cluster_size

  -- The bytes of the file that a runlist describes.
  unfoldable pub file_bytes : List Placement → Bytes
  file_bytes [] = []
  file_bytes (p ∷ ps) = cluster_bytes p ++ file_bytes ps

  -- In the image, the content of resolved runs is as long as their clusters.
  length-content :
      (rs : List RawRun) (vcn : ℕ) (lcn : ℤ)
      → AllWithin (resolve_from vcn lcn rs)
      → length (content (resolve_from vcn lcn rs)) ≡ length (layout lcn rs) * cluster_size
  unfolding content layout resolve_from
  length-content [] vcn lcn w = rw zero-mul
  length-content (r ∷ rs) vcn lcn w =
      let f = fields-resolve_run vcn lcn r in
      let n : length (run_content (resolve_run vcn lcn r)) ≡ r.cluster_count * cluster_size =
        ground (arith, f, length-run_content (resolve_run vcn lcn r) w.0) in
      let rest = length-content rs (vcn + r.cluster_count) (next_lcn lcn r) w.1 in
      let before = length-run_layout lcn r in
      let whole = length (layout (next_lcn lcn r) rs) in
      let sum : (r.cluster_count + whole) * cluster_size
          ≡ r.cluster_count * cluster_size + whole * cluster_size =
        grind arith in
      let both = length-append (run_layout lcn r) (layout (next_lcn lcn r) rs) in
      rw (
        length-append (run_content (resolve_run vcn lcn r))
            (content (resolve_from (vcn + r.cluster_count) (next_lcn lcn r) rs)),
        n,
        rest,
        both,
        before,
        sum,
      )

  file_bytes-append :
      (ps qs : List Placement) → file_bytes (ps ++ qs) ≡ file_bytes ps ++ file_bytes qs
  unfolding file_bytes
  file_bytes-append [] qs = refl
  file_bytes-append (p ∷ ps) qs = rw (file_bytes-append ps qs, append_assoc)

  file_bytes-holes : (n : ℕ) → replicate (n * cluster_size) 0 ≡ file_bytes (replicate n hole)
  unfolding file_bytes cluster_bytes
  file_bytes-holes zero = rw zero-mul
  file_bytes-holes (suc n) =
      let e : suc n * cluster_size ≡ cluster_size + n * cluster_size = omega arith in
      rw (e, replicate-add {A = ℕ} cluster_size (n * cluster_size) 0, file_bytes-holes n)

  file_bytes-row :
      (n k : ℕ)
      → read_bytes image (k * cluster_size) (n * cluster_size) ≡ file_bytes (row n (pos k))
  unfolding file_bytes cluster_bytes row
  file_bytes-row zero k = rw zero-mul (unfold read_bytes in refl)
  file_bytes-row (suc n) k =
      let next : k * cluster_size + cluster_size ≡ (k + 1) * cluster_size = omega arith in
      let e : suc n * cluster_size ≡ cluster_size + n * cluster_size = omega arith in
      rw (
        e,
        read_bytes-add image (k * cluster_size) cluster_size (n * cluster_size),
        pos-+ k 1,
        ← file_bytes-row n (k + 1),
        next,
      )

  run_content-layout :
      (vcn : ℕ) (lcn : ℤ) (r : RawRun)
      → WithinImage (resolve_run vcn lcn r)
      → run_content (resolve_run vcn lcn r) ≡ file_bytes (run_layout lcn r)
  unfolding run_content run_layout
  run_content-layout vcn lcn r w =
      let f = fields-resolve_run vcn lcn r in
      elim (Bool-cases r.is_sparse) [
        | inl e ↦ ground (arith, f, file_bytes-holes r.cluster_count)
        | inr e ↦
            ground
              (arith, f, w (f.0 ∙ e), file_bytes-row r.cluster_count (pos_part (next_lcn lcn r)))
      ]

  -- The bytes of the resolved runs are the clusters of the layout, in the order of their VCNs.
  pub content-layout :
      (rs : List RawRun) (vcn : ℕ) (lcn : ℤ)
      → AllWithin (resolve_from vcn lcn rs)
      → content (resolve_from vcn lcn rs) ≡ file_bytes (layout lcn rs)
  unfolding content layout resolve_from
  content-layout [] vcn lcn w = unfold file_bytes in refl
  content-layout (r ∷ rs) vcn lcn w = rw (
    file_bytes-append (run_layout lcn r) (layout (next_lcn lcn r) rs),
    run_content-layout vcn lcn r w.0,
    content-layout rs (vcn + r.cluster_count) (next_lcn lcn r) w.1,
  )

  -- The bytes of the file are as many as its clusters have, where these lie in the image.
  pub length-file_bytes :
      (rs : List RawRun)
      → AllWithin (resolve_runlist rs)
      → length (file_bytes (layout (pos 0) rs)) ≡ length (layout (pos 0) rs) * cluster_size
  unfolding resolve_runlist
  length-file_bytes rs w =
      ap length (sym (content-layout rs 0 (pos 0) w)) ∙ length-content rs 0 (pos 0) w

  -- `execute` without a byte limit returns the first `real_size` bytes of the file's clusters, in the
  -- order of their VCNs, where every allocated run lies in the image.
  pub execute-file_bytes :
      (rs : List RawRun) (real_size : ℕ)
      → AllWithin (resolve_runlist rs)
      → execute image cluster_size rs real_size 0
        ≡ ok (take real_size (file_bytes (layout (pos 0) rs)))
  unfolding execute read_limit resolve_runlist
  execute-file_bytes rs real_size w =
      let e : min real_size real_size ≡ real_size = omega arith in
      rw
        (
          read_resolved-content (resolve_from 0 (pos 0) rs) real_size 0 w,
          content-layout rs 0 (pos 0) w,
        )
        (ground (arith, take-take real_size real_size (file_bytes (layout (pos 0) rs))))
