-- ===== src/Ntfs/Runlist/Chunked/Whole.antt =====
-- The whole of `execute_chunked`: what it yields where the runs lie in the image, and a run for
-- which it does not end.
use native.Mathlib.Decide.{dec_lt}
use native.Mathlib.Nat.{add-zero, sub-zero}
use recoverx_cli.Prelude.{
  ℕ, ◌+◌, ◌-◌, ◌*◌, ◌≤◌, ◌<◌, min, ◌≡◌, refl, sym, ap, ◌∙◌, inl, inr, true, false, List, [], ◌∷◌,
  ◌++◌, append_assoc, arith, leb, Bool-cases, length, take, replicate, concat, take-zero, take-nil,
  take-append, take-replicate,
}
use recoverx_cli.Prelude.Int.{pos, pos_part, pos-*}
use recoverx_cli.Utils.RawReader.{Bytes}
use recoverx_cli.Ntfs.Runlist.Mapping.{RawRun, DataRun, resolve_runlist, resolve_from}
use recoverx_cli.Ntfs.Runlist.Translation.{layout}
use recoverx_cli.Ntfs.Runlist.Reading.{
  WithinImage, AllWithin, run_content, content, content-layout, file_bytes, length-run_content,
  take-read_bytes,
}
use recoverx_cli.Ntfs.Runlist.Chunked.{chunks, running, read_chunked, execute_chunked}
use recoverx_cli.Ntfs.Runlist.Chunked.Run.{read_run_chunks-concat, read_run_chunks-running}

module _ (image : Bytes) (cluster_size chunk_size : ℕ) where
  concat-append : (xs ys : List Bytes) → concat (xs ++ ys) ≡ concat xs ++ concat ys
  concat-append [] ys = refl
  concat-append (x ∷ xs) ys = rw (concat-append xs ys, append_assoc)

  read_chunked_exhausted :
      (fuel remaining : ℕ) (run : DataRun) (runs : List DataRun)
      → remaining ≡ 0
      → read_chunked image cluster_size chunk_size fuel remaining (run ∷ runs) ≡ chunks []
  unfolding read_chunked
  read_chunked_exhausted fuel remaining run runs h =
      let test : leb remaining 0 ≡ true = ground arith in rw test

  -- A round over a run within the image.
  read_chunked-run :
      (fuel remaining : ℕ) (run : DataRun) (runs : List DataRun) (rest : List Bytes)
      → 0 < chunk_size
      → remaining < fuel
      → WithinImage image cluster_size run
      → 0 < remaining
      → read_chunked image cluster_size chunk_size fuel
          (remaining - min (run.cluster_count * cluster_size) remaining)
          runs
        ≡ chunks rest
      → (cs : List Bytes) × (read_chunked image cluster_size chunk_size fuel remaining (run ∷ runs)
          ≡ chunks cs)
        × (concat cs ≡ take remaining (run_content image cluster_size run) ++ concat rest)
  unfolding read_chunked run_content
  read_chunked-run fuel remaining run runs rest c f w r h =
      let n : ℕ = run.cluster_count * cluster_size in
      let b : ℕ = min n remaining in
      let test : leb remaining 0 ≡ false = ground arith in
      elim (Bool-cases run.is_sparse) [
        | inl e ↦ (
          replicate b 0 ∷ rest,
          rw (test, e, h),
          ground (arith, take-replicate {A = ℕ} remaining n 0),
        )
        | inr e ↦
            let (cs, run_chunks, joined) =
              read_run_chunks-concat image cluster_size chunk_size fuel
                (pos_part run.lcn * cluster_size) 0 b c (omega (arith, w e)) (omega arith) in
            (
              cs ++ rest,
              ground (arith, test, w e, pos-* (pos_part run.lcn) cluster_size, run_chunks, h),
              concat-append cs rest
                  ∙ ap (λ x. x ++ concat rest)
                      (joined
                        ∙ ground (
                          arith,
                          add-zero (pos_part run.lcn * cluster_size),
                          sub-zero b,
                          take-read_bytes image cluster_size (pos_part run.lcn * cluster_size) n
                              remaining,
                        )),
            )
      ]

  read_chunked-content :
      (fuel : ℕ) (runs : List DataRun) (remaining : ℕ)
      → 0 < chunk_size
      → remaining < fuel
      → AllWithin image cluster_size runs
      → (cs : List Bytes) × (read_chunked image cluster_size chunk_size fuel remaining runs
          ≡ chunks cs)
        × (concat cs ≡ take remaining (content image cluster_size runs))
  unfolding content
  read_chunked-content fuel [] remaining c f w =
      ([], unfold read_chunked in refl, take-nil remaining)
  read_chunked-content fuel (run ∷ runs) remaining c f w =
      let n : ℕ = run.cluster_count * cluster_size in
      let here = run_content image cluster_size run in
      let after = content image cluster_size runs in
      elim (dec_lt 0 remaining) [
        | no z ↦ (
          [],
          read_chunked_exhausted fuel remaining run runs (omega arith),
          sym (take-zero remaining (here ++ after) (omega arith)),
        )
        | yes p ↦
            let (rest, tail, joined) =
              read_chunked-content fuel runs (remaining - min n remaining) c (omega arith) w.1 in
            let (cs, all, parts) = read_chunked-run fuel remaining run runs rest c f w.0 p tail in
            let m : remaining - min n remaining ≡ remaining - length here =
              omega (arith, length-run_content image cluster_size run w.0) in
            (cs, all, cc (parts, joined, m, take-append remaining here after))
      ]

  -- With a positive chunk size, every allocated run within the image and more fuel than the size,
  -- `execute_chunked` ends, and its chunks join to the first `real_size` bytes of the file's
  -- clusters, in the order of their VCNs.
  pub execute_chunked-concat :
      (fuel : ℕ) (rs : List RawRun) (real_size : ℕ)
      → 0 < chunk_size
      → real_size < fuel
      → AllWithin image cluster_size (resolve_runlist rs)
      → (cs : List Bytes) × (execute_chunked image cluster_size chunk_size fuel rs real_size
          ≡ chunks cs)
        × (concat cs ≡ take real_size (file_bytes image cluster_size (layout (pos 0) rs)))
  unfolding execute_chunked resolve_runlist
  execute_chunked-concat fuel rs real_size c f w =
      let (cs, run, joined) =
        read_chunked-content fuel (resolve_from 0 (pos 0) rs) real_size c f w in
      (cs, run, joined ∙ ap (take real_size) (content-layout image cluster_size rs 0 (pos 0) w))

  -- A first run that begins in the image, or at its end, and passes the end before `real_size` is
  -- reached, and a chunk size below 2 ^ 63: whatever the fuel, `_read_chunked` has not ended.
  pub read_chunked-running :
      (fuel real_size : ℕ) (run : DataRun) (runs : List DataRun) (lcn : ℕ)
      → chunk_size < 0x8000000000000000
      → run.is_sparse ≡ false
      → run.lcn ≡ pos lcn
      → lcn * cluster_size ≤ length image
      → length image < lcn * cluster_size + min (run.cluster_count * cluster_size) real_size
      → read_chunked image cluster_size chunk_size fuel real_size (run ∷ runs) ≡ running
  unfolding read_chunked
  read_chunked-running fuel real_size run runs lcn c e l start past =
      let b : ℕ = min (run.cluster_count * cluster_size) real_size in
      let test : leb real_size 0 ≡ false = ground arith in
      ground (
        arith,
        test,
        e,
        l,
        pos-* lcn cluster_size,
        read_run_chunks-running image cluster_size chunk_size fuel (lcn * cluster_size) 0 b c
            (omega arith) past,
      )
