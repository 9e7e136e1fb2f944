-- ===== src/Scanner.antt =====
-- scanner/threaded_scanner.py: the partition of an image into regions, one for each thread.
use recoverx_cli.Prelude.{
  ℕ, zero, suc, ◌+◌, ◌-◌, ◌*◌, ◌/◌, ◌≤◌, ◌<◌, min, max, ◌≡◌, inl, inr, Bool, true, false, ◌&&◌,
  ◌||◌, List, [], ◌∷◌, arith, ltb, leb, ◌==◌, if◌then◌else◌, leb→le, Bool-cases,
}

pub record ScanRegion : Type 0 where
  pub start : ℕ
  pub end : ℕ
  pub region_id : ℕ

-- `self.num_threads`
unfoldable pub thread_count : ℕ → ℕ
thread_count num_threads = max 1 (min num_threads 64)

-- `chunk`
unfoldable pub region_size : ℕ → ℕ → ℕ → ℕ
region_size threads overlap size =
    let chunk = size / threads in if ltb chunk overlap then overlap else chunk

-- The loop of `_partition`: `left` rounds from `i` on.
unfoldable pub regions_from : ℕ → ℕ → ℕ → ℕ → ℕ → ℕ → List ScanRegion
regions_from threads overlap size chunk zero i = []
regions_from threads overlap size chunk (suc left) i =
    let start = i * chunk in
    let end = if ltb i (threads - 1) then min (start + chunk + overlap) size else size in
    let rest = regions_from threads overlap size chunk left (i + 1) in
    if leb size start then [] else record { start = start; end = end; region_id = i } ∷ rest

unfoldable pub partition : ℕ → ℕ → ℕ → List ScanRegion
unfolding regions_from region_size
partition threads overlap size =
    if size == 0
    then []
    else if leb threads 1 || ltb size (overlap * 2)
    then record { start = 0; end = size; region_id = 0 } ∷ []
    else regions_from threads overlap size (region_size threads overlap size) threads 0

-- A range lies in one of the regions.
unfoldable pub in_a_region : ℕ → ℕ → List ScanRegion → Bool
in_a_region start end [] = false
in_a_region start end (r ∷ regions) =
    (leb r.start start && leb end r.end) || in_a_region start end regions

regions_from-in_a_region :
    (threads overlap size chunk left i start end : ℕ)
    → i + suc left ≡ threads
    → i * chunk ≤ start
    → start < size
    → end ≤ size
    → end ≤ start + overlap
    → in_a_region start end (regions_from threads overlap size chunk (suc left) i) ≡ true
unfolding in_a_region regions_from
regions_from-in_a_region threads overlap size chunk zero i start end count l m n o =
    let inside : leb size (i * chunk) ≡ false = ground arith in
    let final : ltb i (threads - 1) ≡ false = ground arith in rw (inside, final) (ground arith)
regions_from-in_a_region threads overlap size chunk (suc left) i start end count l m n o =
    let next : (i + 1) * chunk ≡ i * chunk + chunk = ground arith in
    let inside : leb size (i * chunk) ≡ false = ground arith in
    let not_final : ltb i (threads - 1) ≡ true = ground arith in
    elim (Bool-cases (leb ((i + 1) * chunk) start)) [
      | inl behind ↦
          let later =
            regions_from-in_a_region threads overlap size chunk left (i + 1) start end (omega arith)
              (leb→le _ _ behind) m n o in
          rw inside (ground (arith, later))
      | inr here ↦ rw (inside, not_final) (ground (arith, next))
    ]

all_regions-in_a_region :
    (threads left overlap size chunk start end : ℕ)
    → threads ≡ suc left
    → start < size
    → end ≤ size
    → end ≤ start + overlap
    → in_a_region start end (regions_from threads overlap size chunk threads 0) ≡ true
all_regions-in_a_region threads left overlap size chunk start end e l m n = rw e (
    regions_from-in_a_region (suc left) overlap size chunk left 0 start end (omega arith)
      (ground arith) l m n)

at_least_one : (num_threads : ℕ) → (left : ℕ) × (thread_count num_threads ≡ suc left)
unfolding thread_count
at_least_one num_threads = (max 1 (min num_threads 64) - 1, omega arith)

-- The regions of the scanner overlap enough: a range of the image that is not longer than the overlap
-- lies in one of the regions as a whole, whatever the number of threads.
pub partition-in_a_region :
    (num_threads overlap size start end : ℕ)
    → start < size
    → end ≤ size
    → end ≤ start + overlap
    → in_a_region start end (partition (thread_count num_threads) overlap size) ≡ true
unfolding partition
partition-in_a_region num_threads overlap size start end l m n =
    let threads = thread_count num_threads in
    let some_image : (size == 0) ≡ false = ground arith in
    elim (Bool-cases (leb threads 1 || ltb size (overlap * 2))) [
      | inl single ↦ rw (some_image, single) (unfold in_a_region in ground arith)
      | inr several ↦
          let (left, e) = at_least_one num_threads in
          rw (some_image, several)
            (all_regions-in_a_region threads left overlap size (region_size threads overlap size)
              start end e l m n)
    ]
