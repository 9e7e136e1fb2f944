-- ===== src/Tests/Indexing.antt =====
-- A cache of two entries, and the regions of three threads.
use recoverx_cli.Prelude.{ℕ, ◌≤◌, ◌≡◌, refl, true, some, List, [], ◌∷◌, map, arith, length}
use Prim.Native.String.{String}
use recoverx_cli.Utils.Dict.{lookup, put, remove}
use recoverx_cli.Indexing.Cache.{
  set, get, evict, move_to_end, set-newest, set_many, update, move_all,
}
use recoverx_cli.Scanner.{
  partition, in_a_region, thread_count, partition-in_a_region, regions_from, region_size,
}

program : Unit {0}
unfolding set get evict move_to_end lookup put remove partition thread_count in_a_region
    regions_from region_size set_many update move_all
program = tt

abbrev full : List (String × ℕ)
full = ("a", 1) ∷ ("b", 2) ∷ []

sets_in_use : set 2 "c" 3 (get "a" full).1 ≡ ("a", 1) ∷ ("c", 3) ∷ []
unfolding program
sets_in_use = refl

-- `set_many` with a key that it has already
sets_many : set_many 2 (("a", 5) ∷ ("d", 4) ∷ []) full ≡ ("a", 5) ∷ ("d", 4) ∷ []
unfolding program
sets_many = refl

set-newest_example :
    let after = set 2 "c" 3 full in
    (length after ≤ 2) × (after ≡ ("b", 2) ∷ ("c", 3) ∷ []) × (lookup "c" after ≡ some 3)
unfolding remove
set-newest_example = set-newest 2 "c" 3 full (omega arith)

three_regions : map {B = ℕ} (λ r. r.end) (partition 3 10 100) ≡ 43 ∷ 76 ∷ 100 ∷ []
unfolding program
three_regions = refl

partition-in_a_region_example : in_a_region 30 40 (partition (thread_count 3) 10 100) ≡ true
partition-in_a_region_example =
    partition-in_a_region 3 10 100 30 40 (omega arith) (omega arith) (omega arith)
