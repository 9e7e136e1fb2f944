-- ===== src/Fat32/FatTable/Chain.antt =====
-- What `read_cluster_chain` returns.
use recoverx_cli.Prelude.{
  ℕ, suc, ◌/◌, ◌≤◌, ◌<◌, ◌≡◌, refl, subst, inl, true, false, List, [], ◌∷◌, arith, length,
}
use recoverx_cli.Utils.RawReader.{Bytes}
use recoverx_cli.Fat32.BootSector.{Fat32BootSector}
use recoverx_cli.Fat32.FatTable.{
  get_next_cluster, ok, contains, rounds_of, read_cluster_chain, is_end_of_chain,
}
use recoverx_cli.Fat32.FatTable.Walk.{Leads, AllValid, Distinct, Means, IsWalk, chain_from-IsWalk}
use recoverx_cli.Fat32.FatTable.Pigeonhole.{AllBelow, length-le_of_Distinct}

-- The result of `read_cluster_chain` is a walk along the FAT: its clusters are valid data clusters,
-- no two are equal, the first is the start, each is linked to the next and the last to a cluster at
-- which the walk stops, their number is at most the bound, and the status says why it stopped.
-- In particular the status "truncated_free" is never returned.
pub read_cluster_chain-IsWalk :
    (image : Bytes) (bpb : Fat32BootSector) (start max_clusters : ℕ)
    → (stop : ℕ) × IsWalk
        (get_next_cluster image bpb)
        start
        (rounds_of max_clusters)
        (read_cluster_chain image bpb start max_clusters)
        stop
unfolding read_cluster_chain
read_cluster_chain-IsWalk image bpb start max_clusters =
    chain_from-IsWalk (get_next_cluster image bpb) start (rounds_of max_clusters)
      (rounds_of max_clusters) start [] refl tt tt (omega arith) (inl refl)

init : List ℕ → List ℕ
init [] = []
init (c ∷ []) = []
init (c ∷ d ∷ chain) = c ∷ init (d ∷ chain)

length-init : (chain : List ℕ) → length chain ≤ suc (length (init chain))
unfolding init
length-init [] = omega arith
length-init (c ∷ []) = omega arith
length-init (c ∷ d ∷ chain) = omega (arith, length-init (d ∷ chain))

contains-init :
    (x : ℕ) (chain : List ℕ) → contains x chain ≡ false → contains x (init chain) ≡ false
unfolding init contains
contains-init x [] h = refl
contains-init x (c ∷ []) h = refl
contains-init x (c ∷ d ∷ chain) h = ground (arith, contains-init x (d ∷ chain))

init-Distinct : (chain : List ℕ) → Distinct chain → Distinct (init chain)
unfolding init
init-Distinct [] h = tt
init-Distinct (c ∷ []) h = tt
init-Distinct (c ∷ d ∷ chain) h = (contains-init c (d ∷ chain) h.0, init-Distinct (d ∷ chain) h.1)

module _ (image : Bytes) (bpb : Fat32BootSector) where
  -- A cluster that is linked to a data cluster has its entry in the image.
  entry_in_image : (c : ℕ) → get_next_cluster image bpb c ≤ 0x0FFFFFF6 → c < length image / 4
  unfolding get_next_cluster
  entry_in_image c h = ground arith

  init-AllBelow :
      (start : ℕ) (chain : List ℕ) (stop : ℕ)
      → Leads (get_next_cluster image bpb) start chain stop
      → AllValid chain
      → AllBelow (length image / 4) (init chain)
  unfolding init
  init-AllBelow start [] stop l v = tt
  init-AllBelow start (c ∷ []) stop l v = tt
  init-AllBelow start (c ∷ d ∷ chain) stop l v = (
    entry_in_image c (omega (arith, l.1.0, v.2.1)),
    init-AllBelow (get_next_cluster image bpb c) (d ∷ chain) stop l.1 v.2,
  )

  -- A chain is not longer than one more than the entries that the image can hold.
  pub length-read_cluster_chain :
      (start max_clusters : ℕ)
      → length (read_cluster_chain image bpb start max_clusters).0 ≤ suc (length image / 4)
  length-read_cluster_chain start max_clusters =
      let (stop, w) = read_cluster_chain-IsWalk image bpb start max_clusters in
      let chain = (read_cluster_chain image bpb start max_clusters).0 in
      omega (
        arith,
        length-init chain,
        length-le_of_Distinct (length image / 4) (init chain) (init-Distinct chain w.distinct)
            (init-AllBelow start chain stop w.leads w.valid),
      )

  -- Where the bound is more than one over the entries that the image can hold, the loop ends by its
  -- own tests: with the status "ok" the chain leads to an end-of-chain mark.
  pub read_cluster_chain_complete :
      (start max_clusters : ℕ)
      → suc (length image / 4) < rounds_of max_clusters
      → (read_cluster_chain image bpb start max_clusters).1 ≡ ok
      → (stop : ℕ) × Leads
          (get_next_cluster image bpb)
          start
          (read_cluster_chain image bpb start max_clusters).0
          stop
        × (is_end_of_chain stop ≡ true)
  unfolding is_end_of_chain
  read_cluster_chain_complete start max_clusters enough status =
      let (stop, w) = read_cluster_chain-IsWalk image bpb start max_clusters in
      let chain = (read_cluster_chain image bpb start max_clusters).0 in
      let meaning : Means ok chain stop (rounds_of max_clusters) =
        subst (λ s. Means s chain stop (rounds_of max_clusters)) status w.meaning in
      (stop, w.leads, ground (arith, meaning, length-read_cluster_chain start max_clusters))
