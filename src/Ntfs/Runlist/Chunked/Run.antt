-- ===== src/Ntfs/Runlist/Chunked/Run.antt =====
-- The inner loop of `_read_chunked`: the chunks of one run.
use native.Mathlib.Decide.{dec_lt}
use recoverx_cli.Prelude.{
  ℕ, zero, suc, ◌+◌, ◌-◌, ◌≤◌, ◌<◌, min, max, ◌≡◌, refl, ap, ◌∙◌, false, List, [], ◌∷◌, arith, ltb,
  lt→ltb, length, concat,
}
use recoverx_cli.Prelude.Int.{pos, pos-+}
use recoverx_cli.Utils.RawReader.{
  Bytes, seek_read-inside, read_bytes, length-read_bytes, read_bytes-add,
}
use recoverx_cli.Ntfs.Runlist.Chunked.{chunks, running, then_yield, read_run_chunks}

module _ (image : Bytes) (cluster_size chunk_size : ℕ) where
  module _ (offset position run_bytes : ℕ) where
    abbrev next_chunk : Bytes
    next_chunk = read_bytes image (offset + position) (min chunk_size (run_bytes - position))

    read_run_chunks-step :
        (fuel : ℕ)
        → offset + position ≤ length image
        → min chunk_size (run_bytes - position) ≤ max (length image) 0x7FFFFFFFFFFFFFFF
        → position < run_bytes
        → read_run_chunks image cluster_size chunk_size (suc fuel) (pos offset) position run_bytes
          ≡ then_yield next_chunk (
              read_run_chunks image cluster_size chunk_size fuel
                (pos offset)
                (position + length next_chunk)
                run_bytes)
    unfolding read_run_chunks
    read_run_chunks-step fuel inside size h =
        let read =
          seek_read-inside image (offset + position) (min chunk_size (run_bytes - position)) inside
            size in
        rw (lt→ltb position run_bytes h, pos-+ offset position, read)

    length-next_chunk :
        length next_chunk
        ≡ min (min chunk_size (run_bytes - position)) (length image - (offset + position))
    length-next_chunk =
        length-read_bytes image (offset + position) (min chunk_size (run_bytes - position))

    read_run_chunks-done :
        (fuel : ℕ)
        → run_bytes ≤ position
        → read_run_chunks image cluster_size chunk_size (suc fuel) (pos offset) position run_bytes
          ≡ chunks []
    unfolding read_run_chunks
    read_run_chunks-done fuel h = let e : ltb position run_bytes ≡ false = ground arith in rw e

  -- Enough fuel: the chunks of a run that lies in the image join to its bytes.
  pub read_run_chunks-concat :
      (fuel offset position run_bytes : ℕ)
      → 0 < chunk_size
      → offset + run_bytes ≤ length image
      → run_bytes - position < fuel
      → (cs : List Bytes) × (read_run_chunks image cluster_size chunk_size fuel
            (pos offset)
            position
            run_bytes
          ≡ chunks cs)
        × (concat cs ≡ read_bytes image (offset + position) (run_bytes - position))
  read_run_chunks-concat zero offset position run_bytes c h f = absurd (omega arith)
  read_run_chunks-concat (suc fuel) offset position run_bytes c h f =
      elim (dec_lt position run_bytes) [
        | no e ↦ (
          [],
          read_run_chunks-done offset position run_bytes fuel (omega arith),
          (let z : run_bytes - position ≡ 0 = omega arith in rw z (unfold read_bytes in refl)),
        )
        | yes e ↦
            let here = next_chunk offset position run_bytes in
            let n : length here ≡ min chunk_size (run_bytes - position) =
              omega (arith, length-next_chunk offset position run_bytes) in
            let (cs, run, joined) =
              read_run_chunks-concat fuel offset (position + length here) run_bytes c h
                (omega arith) in
            (
              here ∷ cs,
              read_run_chunks-step offset position run_bytes fuel (omega arith) (omega arith) e
                  ∙ ap (then_yield here) run,
              (let m : ℕ = min chunk_size (run_bytes - position) in
                  let a : offset + (position + length here) ≡ offset + position + m = omega arith in
                  let b : run_bytes - (position + length here) ≡ run_bytes - position - m =
                    omega arith in
                  let d : m + (run_bytes - position - m) ≡ run_bytes - position = omega arith in
                  cc (
                    joined,
                    a,
                    b,
                    d,
                    read_bytes-add image (offset + position) m (run_bytes - position - m),
                  )),
            )
      ]

  -- A run that begins in the image and passes its end: there the chunks are empty, the position stays, and
  -- the loop goes on.
  pub read_run_chunks-running :
      (fuel offset position run_bytes : ℕ)
      → chunk_size < 0x8000000000000000
      → offset + position ≤ length image
      → length image < offset + run_bytes
      → read_run_chunks image cluster_size chunk_size fuel (pos offset) position run_bytes ≡ running
  read_run_chunks-running zero offset position run_bytes c i h = unfold read_run_chunks in refl
  read_run_chunks-running (suc fuel) offset position run_bytes c i h =
      let here = next_chunk offset position run_bytes in
      read_run_chunks-step offset position run_bytes fuel i (omega arith) (omega arith)
      ∙ ap (then_yield here) (
          read_run_chunks-running fuel offset (position + length here) run_bytes c
            (omega (arith, length-next_chunk offset position run_bytes)) h)
