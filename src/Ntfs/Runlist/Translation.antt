-- ===== src/Ntfs/Runlist/Translation.antt =====
-- The translation of mapping.py against the list of clusters that the runs lay out.
use native.Mathlib.Nat.{sub-zero}
use recoverx_cli.Prelude.{
  ℕ, zero, suc, ◌+◌, ◌-◌, ◌≤◌, ◌<◌, ◌≡◌, refl, ap, ◌∙◌, Option, none, some, List, [], ◌∷◌, ◌++◌,
  arith, ltb, if◌then◌else◌, length, get_elem?, replicate, length-replicate, get_elem?-append,
}
use recoverx_cli.Prelude.Int.{ℤ, pos, negsuc, ◌+ℤ◌, ◌-ℤ◌, +ℤ_parts, eq_of_parts}
use recoverx_cli.Ntfs.Runlist.Mapping.{
  RawRun, next_lcn, resolve_run, resolve_from, resolve_runlist, covers, vcn_to_lcn,
}

-- What a virtual cluster holds: a hole of a sparse file, or a cluster of the volume.
pub data Placement : Type 0 where
  hole : Placement
  at : ℤ → Placement

-- `n` clusters in a row
unfoldable pub row : ℕ → ℤ → List Placement
row zero lcn = []
row (suc n) lcn = at lcn ∷ row n (lcn +ℤ pos 1)

-- The clusters of a run, from the LCN that it resolves to.
unfoldable pub run_layout : ℤ → RawRun → List Placement
run_layout lcn r =
    if r.is_sparse then replicate r.cluster_count hole else row r.cluster_count (next_lcn lcn r)

-- The file, cluster by cluster: entry v is the place of VCN v.
unfoldable pub layout : ℤ → List RawRun → List Placement
layout lcn [] = []
layout lcn (r ∷ rs) = run_layout lcn r ++ layout (next_lcn lcn r) rs

-- The answers of `vcn_to_lcn`.
unfoldable pub answer : Option Placement → ℤ
answer none = negsuc 1
answer (some hole) = negsuc 0
answer (some (at lcn)) = lcn

length-row : (n : ℕ) (lcn : ℤ) → length (row n lcn) ≡ n
unfolding row
length-row zero lcn = refl
length-row (suc n) lcn = ap suc (length-row n (lcn +ℤ pos 1))

get_elem?-row :
    (n : ℕ) (lcn : ℤ) (i : ℕ) → i < n → get_elem? (row n lcn) i ≡ some (at (lcn +ℤ pos i))
unfolding row
get_elem?-row zero lcn i h = absurd (omega arith)
get_elem?-row (suc n) lcn zero h =
    ap (λ l. some (at l)) (eq_of_parts _ _ (omega (arith, +ℤ_parts lcn (pos 0))))
get_elem?-row (suc n) lcn (suc i) h =
    get_elem?-row n (lcn +ℤ pos 1) i (omega arith)
    ∙ ap (λ l. some (at l))
        (eq_of_parts _ _ (
          omega (
            arith,
            +ℤ_parts (lcn +ℤ pos 1) (pos i),
            +ℤ_parts lcn (pos 1),
            +ℤ_parts lcn (pos (suc i)),
          )))

get_elem?-replicate :
    {A : Type 0} (n : ℕ) (a : A) (i : ℕ) → i < n → get_elem? (replicate n a) i ≡ some a
get_elem?-replicate zero a i h = absurd (omega arith)
get_elem?-replicate (suc n) a zero h = refl
get_elem?-replicate (suc n) a (suc i) h = get_elem?-replicate n a i (omega arith)

pub length-run_layout : (lcn : ℤ) (r : RawRun) → length (run_layout lcn r) ≡ r.cluster_count
unfolding run_layout
length-run_layout lcn r =
    ground (
      arith,
      length-replicate {0} r.cluster_count hole,
      length-row r.cluster_count (next_lcn lcn r),
    )

covers-resolve_run :
    (base v : ℕ) (lcn : ℤ) (r : RawRun)
    → base ≤ v
    → covers (resolve_run base lcn r) (pos v) ≡ ltb (v - base) r.cluster_count
unfolding covers resolve_run
covers-resolve_run base v lcn r h = ground arith

pos-sub : (base v : ℕ) → base ≤ v → (pos v -ℤ pos base) ≡ pos (v - base)
unfolding ◌-ℤ◌
pos-sub base v h = ground arith

sub_sub : (v base n : ℕ) → v - (base + n) ≡ v - base - n
sub_sub v base n = omega arith

pub fields-resolve_run :
    (base : ℕ) (lcn : ℤ) (r : RawRun)
    → ((resolve_run base lcn r).is_sparse ≡ r.is_sparse)
      × ((resolve_run base lcn r).vcn_start ≡ base)
      × ((resolve_run base lcn r).lcn ≡ (if r.is_sparse then negsuc 0 else next_lcn lcn r))
      × ((resolve_run base lcn r).cluster_count ≡ r.cluster_count)
unfolding resolve_run
fields-resolve_run base lcn r = ground arith

-- Within a run.
answer-run_layout :
    (base v : ℕ) (lcn : ℤ) (r : RawRun)
    → base ≤ v
    → v - base < r.cluster_count
    → answer (get_elem? (run_layout lcn r) (v - base))
      ≡ (if r.is_sparse then negsuc 0 else next_lcn lcn r +ℤ (pos v -ℤ pos base))
unfolding run_layout answer
answer-run_layout base v lcn r h k = ground (
  arith,
  get_elem?-replicate r.cluster_count hole (v - base) k,
  get_elem?-row r.cluster_count (next_lcn lcn r) (v - base) k,
  pos-sub base v h,
)

-- The translation from any point of the loop on.
vcn_to_lcn-resolve_from :
    (rs : List RawRun) (base v : ℕ) (lcn : ℤ)
    → base ≤ v
    → vcn_to_lcn (pos v) (resolve_from base lcn rs) ≡ answer (get_elem? (layout lcn rs) (v - base))
unfolding resolve_from vcn_to_lcn layout answer
vcn_to_lcn-resolve_from [] base v lcn h = refl
vcn_to_lcn-resolve_from (r ∷ rs) base v lcn h = ground (
  arith,
  covers-resolve_run base v lcn r h,
  fields-resolve_run base lcn r,
  answer-run_layout base v lcn r h,
  get_elem?-append (run_layout lcn r) (layout (next_lcn lcn r) rs) (v - base),
  length-run_layout lcn r,
  vcn_to_lcn-resolve_from rs (base + r.cluster_count) v (next_lcn lcn r),
  sub_sub v base r.cluster_count,
)

-- For every VCN, `vcn_to_lcn` on the resolved runlist gives the place of that cluster in the layout
-- of the runs: the LCN where it is allocated, -1 in a sparse run, -2 past the end.
pub vcn_to_lcn-resolve_runlist :
    (rs : List RawRun) (v : ℕ)
    → vcn_to_lcn (pos v) (resolve_runlist rs) ≡ answer (get_elem? (layout (pos 0) rs) v)
unfolding resolve_runlist
vcn_to_lcn-resolve_runlist rs v =
    rw sub-zero at (vcn_to_lcn-resolve_from rs 0 v (pos 0) (omega arith))
