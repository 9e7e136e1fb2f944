-- ===== src/Ntfs/Runlist/Chunked.antt =====
-- `execute_chunked` and `_read_chunked` of runlists/executor.py: a generator, taken here with all
-- that it yields. The inner `while` runs on fuel.
mod Run
pub mod Whole
use native.Mathlib.Decide.{dec_lt}
use native.Mathlib.Nat.{add-zero, sub-zero}
use recoverx_cli.Prelude.{
  ℕ, zero, suc, ◌+◌, ◌-◌, ◌*◌, ◌/◌, ◌%◌, ◌^◌, ◌≤◌, ◌<◌, min, max, ◌≡◌, refl, sym, ap, ◌∙◌, subst,
  fun_ext, ◌≢◌, ◌↔◌, ◌⊎◌, inl, inr, Bool, true, false, not, ◌&&◌, ◌||◌, Option, none, some, List,
  [], ◌∷◌, ◌++◌, map, append-nil, append_assoc, arith, ltb, leb, ◌==◌, if◌then◌else◌, ltb→lt,
  lt→ltb, leb→le, ==_iff, Bool-cases, Option-cases, length, get_elem?, get_or, take, drop,
  replicate, concat, length-append, length-take, length-drop, length-replicate, length-map,
  take-zero, take-nil, drop-nil, take_of_length-le, take-append, take-take, take-replicate,
  replicate-add, drop-drop, take-add, get_elem?-append,
}
use recoverx_cli.Prelude.Int.{
  ℤ, pos, negsuc, pos_part, neg_part, sub_ℕ, ◌+ℤ◌, ◌-ℤ◌, ◌*ℤ◌, ◌≤ℤ◌, ◌<ℤ◌, leb_ℤ, ltb_ℤ, +ℤ_parts,
  -ℤ_parts, eq_of_parts, int_laws, pos-*, pos-+,
}
use recoverx_cli.Utils.RawReader.{
  Bytes, ReadError, Result, ok, raise, seek_read, read_bytes, length-read_bytes, read_bytes-add,
}
use recoverx_cli.Ntfs.Runlist.Mapping.{RawRun, DataRun, resolve_runlist, resolve_from}
use recoverx_cli.Ntfs.Runlist.Translation.{layout}
use recoverx_cli.Ntfs.Runlist.Reading.{
  WithinImage, AllWithin, run_content, content, content-layout, file_bytes, length-run_content,
  take-read_bytes,
}

-- All chunks, an exception, or a loop that has not ended.
pub data Yield : Type 0 where
  chunks : List Bytes → Yield
  raised : ReadError → Yield
  running : Yield

-- one more chunk in front of what follows
abbrev pub then_yield : Bytes → Yield → Yield
then_yield chunk (chunks rest) = chunks (chunk ∷ rest)
then_yield chunk (raised e) = raised e
then_yield chunk running = running

-- the chunks of two loops, one after the other
abbrev pub yield_both : Yield → Yield → Yield
yield_both (chunks cs) (chunks ds) = chunks (cs ++ ds)
yield_both (chunks cs) (raised e) = raised e
yield_both (chunks cs) running = running
yield_both (raised e) y = raised e
yield_both running y = running

module _ (image : Bytes) (cluster_size chunk_size : ℕ) where
  -- `while pos < run_bytes`
  unfoldable pub read_run_chunks : ℕ → ℤ → ℕ → ℕ → Yield
  read_run_chunks zero byte_offset position run_bytes = running
  read_run_chunks (suc fuel) byte_offset position run_bytes =
      let step = λ (chunk : Bytes).
        then_yield chunk (read_run_chunks fuel byte_offset (position + length chunk) run_bytes) in
      if ltb position run_bytes
      then elim (seek_read image (byte_offset +ℤ pos position)
          (min chunk_size (run_bytes - position))) [ ok chunk ↦ step chunk | raise e ↦ raised e ]
      else chunks []

  -- the loop over the runs
  unfoldable pub read_chunked : ℕ → ℕ → List DataRun → Yield
  read_chunked fuel remaining [] = chunks []
  read_chunked fuel remaining (run ∷ runs) =
      let run_bytes = min (run.cluster_count * cluster_size) remaining in
      let rest = read_chunked fuel (remaining - run_bytes) runs in
      if leb remaining 0
      then chunks []
      else if run.is_sparse
      then then_yield (replicate run_bytes 0) rest
      else yield_both (read_run_chunks fuel (run.lcn *ℤ cluster_size) 0 run_bytes) rest

  unfoldable pub execute_chunked : ℕ → List RawRun → ℕ → Yield
  execute_chunked fuel runs real_size = read_chunked fuel real_size (resolve_runlist runs)
