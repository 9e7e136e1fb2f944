-- ===== src/Ntfs/Runlist/Executor.antt =====
-- runlists/executor.py: the bytes of a file from its resolved runs. The reader is open: `image` is
-- the file behind it, and its size is `length image`.
use recoverx_cli.Prelude.{
  ℕ, ◌+◌, ◌-◌, ◌*◌, min, List, [], ◌∷◌, ◌++◌, ltb, leb, if◌then◌else◌, length, take, replicate,
}
use recoverx_cli.Prelude.Int.{ℤ, pos, pos_part, ◌*ℤ◌, leb_ℤ}
use recoverx_cli.Utils.RawReader.{Bytes, Result, ok, ◌>>=◌, seek_read}
use recoverx_cli.Ntfs.Runlist.Mapping.{RawRun, DataRun, resolve_runlist}

-- The loop that `_read_resolved` and `_read_resolved_sparse` share: `read_run remaining run` is what
-- a round appends to `data`, and `remaining` falls by its length.
unfoldable pub read_runs : (ℕ → DataRun → Result Bytes) → ℕ → List DataRun → Result Bytes
read_runs read_run remaining [] = ok []
read_runs read_run remaining (run ∷ runs) = if leb remaining 0 then ok [] else do
  chunk ← read_run remaining run
  rest ← read_runs read_run (remaining - length chunk) runs
  ok (chunk ++ rest)

-- `limit`
unfoldable pub read_limit : ℕ → ℕ → ℕ
read_limit real_size max_bytes = if ltb 0 max_bytes then max_bytes else real_size

module _ (image : Bytes) (cluster_size : ℕ) where
  -- a round of `_read_resolved`
  unfoldable pub read_run : ℕ → DataRun → Result Bytes
  unfolding seek_read
  read_run remaining run =
      if run.is_sparse
      then ok (replicate (min (run.cluster_count * cluster_size) remaining) 0)
      else seek_read image (run.lcn *ℤ cluster_size)
          (min (run.cluster_count * cluster_size) remaining)

  unfoldable pub read_resolved : List DataRun → ℕ → ℕ → Result Bytes
  read_resolved resolved real_size max_bytes = do
    bytes ← read_runs read_run (read_limit real_size max_bytes) resolved
    ok (take real_size bytes)

  unfoldable pub execute : List RawRun → ℕ → ℕ → Result Bytes
  execute runs real_size max_bytes = read_resolved (resolve_runlist runs) real_size max_bytes

  -- a round of `_read_resolved_sparse`: a read past the end of the image is cut, a negative LCN
  -- adds nothing
  unfoldable pub read_run_sparse : ℕ → DataRun → Result Bytes
  unfolding seek_read
  read_run_sparse remaining run =
      let run_bytes = run.cluster_count * cluster_size in
      let byte_offset = run.lcn *ℤ cluster_size in
      if run.is_sparse
      then ok (replicate (min run_bytes remaining) 0)
      else if leb_ℤ (pos 0) run.lcn
      then if ltb (length image) (pos_part byte_offset + run_bytes)
        then seek_read image byte_offset (min (length image - pos_part byte_offset) remaining)
        else seek_read image byte_offset (min run_bytes remaining)
      else ok []

  unfoldable pub read_resolved_sparse : List DataRun → ℕ → ℕ → Result Bytes
  read_resolved_sparse resolved real_size max_bytes = do
    bytes ← read_runs read_run_sparse (read_limit real_size max_bytes) resolved
    ok (take real_size bytes)

  unfoldable pub execute_sparse_aware : List RawRun → ℕ → ℕ → Result Bytes
  execute_sparse_aware runs real_size max_bytes =
      read_resolved_sparse (resolve_runlist runs) real_size max_bytes

  unfoldable pub byte_offset_from_lcn : ℤ → ℤ
  byte_offset_from_lcn lcn = lcn *ℤ cluster_size

  unfoldable pub read_clusters : ℤ → ℕ → Result Bytes
  unfolding seek_read
  read_clusters start_lcn count = seek_read image (start_lcn *ℤ cluster_size) (count * cluster_size)

  unfoldable pub read_cluster : ℤ → Result Bytes
  unfolding seek_read
  read_cluster lcn = seek_read image (lcn *ℤ cluster_size) cluster_size

-- The three sums of `estimate_recoverable_bytes`.
pub record Estimate : Type 0 where
  pub total : ℕ
  pub recoverable : ℕ
  pub lost : ℕ

-- what a run adds to the sums
unfoldable pub estimate_run : ℕ → ℕ → DataRun → Estimate
estimate_run size cluster_size run =
    let run_bytes = run.cluster_count * cluster_size in
    let byte_offset = pos_part (run.lcn *ℤ cluster_size) in
    if run.is_sparse
    then (record { total = run_bytes; recoverable = run_bytes; lost = 0 })
    else if leb_ℤ (pos 0) run.lcn
    then if leb (byte_offset + run_bytes) size
      then (record { total = run_bytes; recoverable = run_bytes; lost = 0 })
      else (record {
        total = run_bytes;
        recoverable = size - byte_offset;
        lost = run_bytes - (size - byte_offset);
      })
    else (record { total = run_bytes; recoverable = 0; lost = run_bytes })

unfoldable pub estimate_runs : ℕ → ℕ → Estimate → List DataRun → Estimate
estimate_runs size cluster_size e [] = e
estimate_runs size cluster_size e (run ∷ runs) =
    let d = estimate_run size cluster_size run in
    estimate_runs size cluster_size
      (record {
        total = e.total + d.total;
        recoverable = e.recoverable + d.recoverable;
        lost = e.lost + d.lost;
      })
      runs

-- (actual_size, recoverable, lost); `size` is `reader.size`
unfoldable pub estimate_recoverable_bytes : ℕ → ℕ → List DataRun → ℕ → ℕ × ℕ × ℕ
estimate_recoverable_bytes size cluster_size resolved real_size =
    let e =
      estimate_runs size cluster_size (record { total = 0; recoverable = 0; lost = 0 }) resolved in
    let actual_size = min real_size e.total in (actual_size, min e.recoverable actual_size, e.lost)
