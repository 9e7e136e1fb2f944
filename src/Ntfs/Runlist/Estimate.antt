-- ===== src/Ntfs/Runlist/Estimate.antt =====
-- The sparse-aware read of the executor, and what `estimate_recoverable_bytes` says of it.
use recoverx_cli.Prelude.{
  ℕ, ◌+◌, ◌-◌, ◌*◌, ◌≤◌, min, ◌≡◌, refl, inl, inr, true, false, List, [], ◌∷◌, ◌++◌, arith, ltb,
  leb, if◌then◌else◌, leb→le, Bool-cases, length, take, replicate, length-append, length-take,
  length-replicate,
}
use recoverx_cli.Prelude.Int.{pos, pos_part, leb_ℤ, pos-*}
use recoverx_cli.Utils.RawReader.{Bytes, ok, ◌>>=◌, read_bytes, seek_read, length-read_bytes}
use recoverx_cli.Ntfs.Runlist.Mapping.{RawRun, DataRun, resolve_runlist}
use recoverx_cli.Ntfs.Runlist.Reading.{AllWithin, WithinImage}
use recoverx_cli.Ntfs.Runlist.Executor.{
  read_runs, read_limit, read_run, read_resolved, execute, read_run_sparse, read_resolved_sparse,
  execute_sparse_aware, Estimate, estimate_run, estimate_runs, estimate_recoverable_bytes,
}

-- The recoverable bytes of the runs, added up.
unfoldable pub recoverable_sum : ℕ → ℕ → List DataRun → ℕ
recoverable_sum size cluster_size [] = 0
recoverable_sum size cluster_size (run ∷ runs) =
    (estimate_run size cluster_size run).recoverable + recoverable_sum size cluster_size runs

estimate_run-le :
    (size cluster_size : ℕ) (run : DataRun)
    → (estimate_run size cluster_size run).recoverable ≤ (estimate_run size cluster_size run).total
unfolding estimate_run
estimate_run-le size cluster_size run = ground arith

estimate_runs-sums :
    (size cluster_size : ℕ) (e : Estimate) (runs : List DataRun)
    → ((estimate_runs size cluster_size e runs).recoverable
        ≡ e.recoverable + recoverable_sum size cluster_size runs)
      × (e.total + recoverable_sum size cluster_size runs
          ≤ (estimate_runs size cluster_size e runs).total)
unfolding estimate_runs recoverable_sum
estimate_runs-sums size cluster_size e [] = omega arith
estimate_runs-sums size cluster_size e (run ∷ runs) =
    let d = estimate_run size cluster_size run in
    let (r, t) =
      estimate_runs-sums size cluster_size
        (record {
          total = e.total + d.total;
          recoverable = e.recoverable + d.recoverable;
          lost = e.lost + d.lost;
        })
        runs in
    (omega (arith, r), omega (arith, t, estimate_run-le size cluster_size run))

module _ (image : Bytes) (cluster_size : ℕ) where
  -- An allocated run whose LCN is not negative begins in the image or at its end.
  abbrev pub BeginsWithin : DataRun → Type 0
  BeginsWithin run =
      run.is_sparse ≡ false
      → leb_ℤ (pos 0) run.lcn ≡ true
      → pos_part run.lcn * cluster_size ≤ length image

  abbrev pub AllBeginWithin : List DataRun → Type 0
  AllBeginWithin [] = Unit {0}
  AllBeginWithin (run ∷ runs) = BeginsWithin run × AllBeginWithin runs

  read_run_sparse-length :
      (remaining : ℕ) (run : DataRun)
      → BeginsWithin run
      → (bytes : Bytes) × (read_run_sparse image cluster_size remaining run ≡ ok bytes)
        × (length bytes ≡ min (estimate_run (length image) cluster_size run).recoverable remaining)
  unfolding read_run_sparse estimate_run seek_read
  read_run_sparse-length remaining run begins =
      let n : ℕ = run.cluster_count * cluster_size in
      let k : ℕ = pos_part run.lcn * cluster_size in
      let product = pos-* (pos_part run.lcn) cluster_size in
      elim (Bool-cases run.is_sparse) [
        | inl e ↦ (
          replicate (min n remaining) 0,
          rw e,
          ground (arith, length-replicate {A = ℕ} (min n remaining) 0),
        )
        | inr e ↦ elim (Bool-cases (leb_ℤ (pos 0) run.lcn)) [
          | inr negative ↦ ([], rw (e, negative), ground arith)
          | inl positive ↦
              let l : run.lcn ≡ pos (pos_part run.lcn) = ground arith in
              let start : k ≤ length image = begins e positive in
              elim (Bool-cases (ltb (length image) (k + n))) [
                | inl past ↦ (
                  read_bytes image k (min (length image - k) remaining),
                  ground (arith, product),
                  ground (
                    arith,
                    product,
                    length-read_bytes image k (min (length image - k) remaining),
                  ),
                )
                | inr within ↦ (
                  read_bytes image k (min n remaining),
                  ground (arith, product),
                  ground (arith, product, length-read_bytes image k (min n remaining)),
                )
              ]
        ]
      ]

  read_runs-length :
      (runs : List DataRun) (remaining : ℕ)
      → AllBeginWithin runs
      → (bytes : Bytes) × (read_runs (read_run_sparse image cluster_size) remaining runs ≡ ok bytes)
        × (length bytes ≡ min remaining (recoverable_sum (length image) cluster_size runs))
  unfolding read_runs recoverable_sum
  read_runs-length [] remaining w = ([], refl, omega arith)
  read_runs-length (run ∷ runs) remaining w = elim (Bool-cases (leb remaining 0)) [
    | inl z ↦ ([], rw z, omega (arith, leb→le remaining 0 z))
    | inr go ↦
        let (chunk, read, n) = read_run_sparse-length remaining run w.0 in
        let (rest, tail, m) = read_runs-length runs (remaining - length chunk) w.1 in
        (chunk ++ rest, rw (go, read, tail), omega (arith, n, m, length-append chunk rest))
  ]

  -- Where every allocated run whose LCN is not negative begins in the image or at its end, no seek
  -- and no read of `_read_resolved_sparse` raises, and `estimate_recoverable_bytes` is exact: without
  -- a byte limit as many bytes are returned as the estimate calls recoverable.
  pub read_resolved_sparse-estimate :
      (runs : List DataRun) (real_size : ℕ)
      → AllBeginWithin runs
      → (bytes : Bytes) × (read_resolved_sparse image cluster_size runs real_size 0 ≡ ok bytes)
        × (length bytes ≡ (estimate_recoverable_bytes (length image) cluster_size runs real_size).1)
  unfolding read_resolved_sparse estimate_recoverable_bytes read_limit
  read_resolved_sparse-estimate runs real_size w =
      let (bytes, read, n) = read_runs-length runs real_size w in
      let start : Estimate = record { total = 0; recoverable = 0; lost = 0 } in
      (
        take real_size bytes,
        rw read,
        omega (
          arith,
          n,
          length-take real_size bytes,
          estimate_runs-sums (length image) cluster_size start runs,
        ),
      )

  read_run_sparse-within :
      (remaining : ℕ) (run : DataRun)
      → WithinImage image cluster_size run
      → read_run_sparse image cluster_size remaining run ≡ read_run image cluster_size remaining run
  unfolding read_run_sparse read_run
  read_run_sparse-within remaining run w = elim (Bool-cases run.is_sparse) [
    | inl e ↦ ground arith
    | inr e ↦ ground (arith, w e, pos-* (pos_part run.lcn) cluster_size)
  ]

  read_runs-within :
      (runs : List DataRun) (remaining : ℕ)
      → AllWithin image cluster_size runs
      → read_runs (read_run_sparse image cluster_size) remaining runs
        ≡ read_runs (read_run image cluster_size) remaining runs
  unfolding read_runs
  read_runs-within [] remaining w = refl
  read_runs-within (run ∷ runs) remaining w = rw (read_run_sparse-within remaining run w.0) (λ i.
      if leb remaining 0 then ok [] else do
        chunk ← read_run image cluster_size remaining run
        rest ← read_runs-within runs (remaining - length chunk) w.1 i
        ok (chunk ++ rest))

  -- Where every allocated run lies in the image, the sparse-aware read returns what the plain read
  -- does, at any sizes.
  pub execute_sparse_aware-execute :
      (rs : List RawRun) (real_size max_bytes : ℕ)
      → AllWithin image cluster_size (resolve_runlist rs)
      → execute_sparse_aware image cluster_size rs real_size max_bytes
        ≡ execute image cluster_size rs real_size max_bytes
  unfolding execute_sparse_aware execute read_resolved_sparse read_resolved
  execute_sparse_aware-execute rs real_size max_bytes w =
      rw (read_runs-within (resolve_runlist rs) (read_limit real_size max_bytes) w)
