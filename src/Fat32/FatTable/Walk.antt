-- ===== src/Fat32/FatTable/Walk.antt =====
-- What a walk along the links of the FAT is, and what the loop of `read_cluster_chain` keeps.
use recoverx_cli.Prelude.{
  ℕ, zero, suc, ◌+◌, ◌≤◌, ◌<◌, ◌≡◌, refl, sym, ◌≢◌, ◌⊎◌, inl, inr, true, false, ◌||◌, List, [], ◌∷◌,
  ◌++◌, arith, ◌==◌, ==_iff, Bool-cases, length, length-append,
}
use recoverx_cli.Fat32.FatTable.{
  is_end_of_chain, is_bad_cluster, is_free_cluster, is_valid_data_cluster, bad_cluster_mark,
  eoc_max, eoc_min, Status, ok, bad_cluster, truncated_free, free_start, invalid_cluster,
  loop_detected, zero_next, contains, stop_status, chain_from,
}

-- From `start`, the clusters of the chain one after the other lead to `stop`.
abbrev pub Leads : (ℕ → ℕ) → ℕ → List ℕ → ℕ → Type 0
Leads next start [] stop = start ≡ stop
Leads next start (c ∷ chain) stop = (c ≡ start) × Leads next (next c) chain stop

abbrev pub AllValid : List ℕ → Type 0
AllValid [] = Unit {0}
AllValid (c ∷ chain) = (2 ≤ c) × (c ≤ 0x0FFFFFF6) × AllValid chain

abbrev pub Distinct : List ℕ → Type 0
Distinct [] = Unit {0}
Distinct (c ∷ chain) = (contains c chain ≡ false) × Distinct chain

-- What a status says of the chain, of the cluster at which the loop stops and of the rounds.
abbrev pub Means : Status → List ℕ → ℕ → ℕ → Type 0
Means ok chain stop rounds = ((eoc_min ≤ stop) × (stop ≤ eoc_max)) ⊎ (length chain ≡ rounds)
Means bad_cluster chain stop rounds = stop ≡ bad_cluster_mark
Means truncated_free chain stop rounds = ⊥
Means free_start chain stop rounds = (stop ≡ 0) × (chain ≡ [])
Means invalid_cluster chain stop rounds = (stop ≡ 1) ⊎ (eoc_max < stop)
Means loop_detected chain stop rounds = contains stop chain ≡ true
Means zero_next chain stop rounds = (stop ≡ 0) × (0 < length chain)

-- What holds of the result of a walk.
pub record IsWalk (next : ℕ → ℕ) (start rounds : ℕ) (result : List ℕ × Status) (stop : ℕ)
    : Type 0 where
  pub leads : Leads next start result.0 stop
  pub valid : AllValid result.0
  pub distinct : Distinct result.0
  pub bounded : length result.0 ≤ rounds
  pub meaning : Means result.1 result.0 stop rounds

pub Leads-snoc :
    (next : ℕ → ℕ) (start : ℕ) (chain : List ℕ) (c : ℕ)
    → Leads next start chain c
    → Leads next start (chain ++ c ∷ []) (next c)
Leads-snoc next start [] c h = (sym h, refl)
Leads-snoc next start (d ∷ chain) c h = (h.0, Leads-snoc next (next d) chain c h.1)

pub AllValid-snoc :
    (chain : List ℕ) (c : ℕ)
    → AllValid chain
    → is_valid_data_cluster c ≡ true
    → AllValid (chain ++ c ∷ [])
unfolding is_valid_data_cluster
AllValid-snoc [] c h v = ground arith
AllValid-snoc (d ∷ chain) c h v = (h.0, h.1, AllValid-snoc chain c h.2 v)

contains-snoc :
    (d : ℕ) (chain : List ℕ) (c : ℕ) → contains d (chain ++ c ∷ []) ≡ contains d chain || d == c
unfolding contains
contains-snoc d [] c = ground arith
contains-snoc d (x ∷ chain) c = ground (arith, contains-snoc d chain c)

pub Distinct-snoc :
    (chain : List ℕ) (c : ℕ)
    → Distinct chain
    → contains c chain ≡ false
    → Distinct (chain ++ c ∷ [])
unfolding contains
Distinct-snoc [] c h v = (refl, tt)
Distinct-snoc (d ∷ chain) c h v =
    (ground (arith, contains-snoc d chain c), Distinct-snoc chain c h.1 (ground arith))

stop_status-Means :
    (cluster : ℕ) (chain : List ℕ) (rounds : ℕ)
    → is_valid_data_cluster cluster ≡ false
    → (chain ≡ []) ⊎ (cluster ≢ 0)
    → Means (stop_status cluster chain) chain cluster rounds
unfolding stop_status is_end_of_chain is_bad_cluster is_free_cluster is_valid_data_cluster
stop_status-Means cluster [] rounds v h = ground arith
stop_status-Means cluster (c ∷ chain) rounds v h = ground arith

-- The loop, from a chain that leads to its cluster; only the first cluster may be 0.
pub chain_from-IsWalk :
    (next : ℕ → ℕ) (start total rounds cluster : ℕ) (chain : List ℕ)
    → Leads next start chain cluster
    → AllValid chain
    → Distinct chain
    → length chain + rounds ≡ total
    → (chain ≡ []) ⊎ (cluster ≢ 0)
    → (stop : ℕ) × IsWalk next start total (chain_from next rounds cluster chain) stop
unfolding chain_from
chain_from-IsWalk next start total zero cluster chain l v d n z = (
  cluster,
  record { leads = l; valid = v; distinct = d; bounded = omega arith; meaning = inr (omega arith) },
)
chain_from-IsWalk next start total (suc rounds) cluster chain l v d n z =
    elim (Bool-cases (is_valid_data_cluster cluster)) [
      | inr stopped ↦ (
        cluster,
        rw stopped (record {
          leads = l;
          valid = v;
          distinct = d;
          bounded = omega arith;
          meaning = stop_status-Means cluster chain total stopped z;
        }),
      )
      | inl good ↦ elim (Bool-cases (contains cluster chain)) [
        | inl seen ↦ (
          cluster,
          rw (good, seen)
              (record {
                leads = l;
                valid = v;
                distinct = d;
                bounded = omega arith;
                meaning = seen;
              }),
        )
        | inr fresh ↦ elim (Bool-cases (next cluster == 0)) [
          | inl ends ↦ (
            next cluster,
            rw (good, fresh, ends)
                (record {
                  leads = Leads-snoc next start chain cluster l;
                  valid = AllValid-snoc chain cluster v good;
                  distinct = Distinct-snoc chain cluster d fresh;
                  bounded = omega (arith, length-append chain (cluster ∷ []));
                  meaning =
                      ((==_iff _ _).0 ends, omega (arith, length-append chain (cluster ∷ [])));
                }),
          )
          | inr goes ↦
              rw (good, fresh, goes)
                (chain_from-IsWalk next start total rounds (next cluster) (chain ++ cluster ∷ [])
                  (Leads-snoc next start chain cluster l) (AllValid-snoc chain cluster v good)
                  (Distinct-snoc chain cluster d fresh)
                  (omega (arith, length-append chain (cluster ∷ []))) (inr (ground arith)))
        ]
      ]
    ]
