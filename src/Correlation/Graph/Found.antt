-- ===== src/Correlation/Graph/Found.antt =====
-- correlation/graph.py: the search ends, and finds a path where there is one.
use recoverx_cli.Prelude.{
  ℕ, zero, suc, ◌+◌, ◌*◌, ◌≤◌, ◌≡◌, refl, sym, ◌∙◌, subst, ◌⊎◌, inl, inr, true, false, not, ◌&&◌,
  ◌||◌, some, List, [], ◌∷◌, ◌++◌, append-nil, arith, Bool-cases, length, length-append,
}
use recoverx_cli.Utils.Text.{Text, text_eq, text_eq_iff, text_eq_refl}
use recoverx_cli.Correlation.Graph.{
  CorrelationEdge, CorrelationGraph, Queue, seen, step, steps, search, find_path,
}
use recoverx_cli.Correlation.Graph.Search.{
  IsEdge, queued, unseen, potential, queued-append, seen_same, queued-steps, steps-potential,
}

-- Edges of the graph that lead from a node to another, each taken in either direction.
abbrev pub IsPath : List CorrelationEdge → Text → List CorrelationEdge → Text → Type 0
IsPath edges from_id [] to_id = from_id ≡ to_id
IsPath edges from_id (e ∷ path) to_id =
    IsEdge e edges
    × (((e.source_id ≡ from_id) × IsPath edges e.target_id path to_id)
        ⊎ ((e.target_id ≡ from_id) × IsPath edges e.source_id path to_id))

IsPath-snoc :
    (edges : List CorrelationEdge) (from_id : Text) (path : List CorrelationEdge) (to_id : Text)
    (e : CorrelationEdge) (next : Text)
    → IsPath edges from_id path to_id
    → IsEdge e edges
    → ((e.source_id ≡ to_id) × (e.target_id ≡ next))
      ⊎ ((e.target_id ≡ to_id) × (e.source_id ≡ next))
    → IsPath edges from_id (path ++ e ∷ []) next
IsPath-snoc edges from_id [] to_id e next p i (inl (s, t)) = (i, inl (s ∙ sym p, t))
IsPath-snoc edges from_id [] to_id e next p i (inr (s, t)) = (i, inr (s ∙ sym p, t))
IsPath-snoc edges from_id (x ∷ path) to_id e next (j, inl (s, p)) i d =
    (j, inl (s, IsPath-snoc edges x.target_id path to_id e next p i d))
IsPath-snoc edges from_id (x ∷ path) to_id e next (j, inr (s, p)) i d =
    (j, inr (s, IsPath-snoc edges x.source_id path to_id e next p i d))

module _ (edges : List CorrelationEdge) (from_id : Text) where
  -- Each entry of the queue has a path to its node.
  AllPaths : Queue → Type 0
  AllPaths [] = Unit {0}
  AllPaths ((node, path) ∷ queue) = IsPath edges from_id path node × AllPaths queue

  AllPaths-append : (q r : Queue) → AllPaths q → AllPaths r → AllPaths (q ++ r)
  unfolding AllPaths
  AllPaths-append [] r h k = k
  AllPaths-append ((node, path) ∷ q) r h k = (h.0, AllPaths-append q r h.1 k)

  AllPaths-step :
      (current : Text) (path : List CorrelationEdge) (visited : List Text) (e : CorrelationEdge)
      → IsPath edges from_id path current
      → IsEdge e edges
      → AllPaths (step current path visited e)
  unfolding step AllPaths
  AllPaths-step current path visited e p i =
      elim (Bool-cases (text_eq e.source_id current && not (seen e.target_id visited))) [
        | inl forth ↦
            let s : e.source_id ≡ current =
              (text_eq_iff e.source_id current).0 (ground (arith, forth)) in
            rw forth (IsPath-snoc edges from_id path current e e.target_id p i (inl (s, refl)), tt)
        | inr not_forth ↦
            elim (Bool-cases (text_eq e.target_id current && not (seen e.source_id visited))) [
              | inl back ↦
                  let t : e.target_id ≡ current =
                    (text_eq_iff e.target_id current).0 (ground (arith, back)) in
                  rw (not_forth, back)
                    (IsPath-snoc edges from_id path current e e.source_id p i (inr (t, refl)), tt)
              | inr not_back ↦ rw (not_forth, not_back) tt
            ]
      ]

  AllPaths-steps :
      (current : Text) (path : List CorrelationEdge) (visited : List Text)
      (es : List CorrelationEdge)
      → IsPath edges from_id path current
      → ((e : CorrelationEdge) → IsEdge e es → IsEdge e edges)
      → AllPaths (steps current path visited es)
  unfolding steps
  AllPaths-steps current path visited [] p among = unfold AllPaths in tt
  AllPaths-steps current path visited (e ∷ es) p among =
      AllPaths-append (step current path visited e) (steps current path visited es)
        (AllPaths-step current path visited e p (among e (inl refl)))
        (AllPaths-steps current path visited es p (λ x i. among x (inr i)))

  -- An edge of a visited node leads to a node that is visited too, or in the queue.
  Follows : CorrelationEdge → List Text → Queue → Type 0
  Follows e visited queue =
      (seen e.source_id visited ≡ true
        → (seen e.target_id visited || queued e.target_id queue) ≡ true)
      × (seen e.target_id visited ≡ true
          → (seen e.source_id visited || queued e.source_id queue) ≡ true)

  IsClosed : List Text → Queue → Type 0
  IsClosed visited queue = (e : CorrelationEdge) → IsEdge e edges → Follows e visited queue

  -- With an empty queue no path leads out of the visited nodes.
  IsClosed-path :
      (visited : List Text)
      → IsClosed visited []
      → (path : List CorrelationEdge) (a b : Text) → IsPath edges a path b
      → seen a visited ≡ true
      → seen b visited ≡ true
  unfolding IsClosed Follows queued
  IsClosed-path visited closed [] a b p s = subst (λ n. seen n visited ≡ true) p s
  IsClosed-path visited closed (e ∷ path) a b (i, inl (same, p)) s =
      let forth = (closed e i).0 (subst (λ n. seen n visited ≡ true) (sym same) s) in
      IsClosed-path visited closed path e.target_id b p (ground (arith, forth))
  IsClosed-path visited closed (e ∷ path) a b (i, inr (same, p)) s =
      let back = (closed e i).1 (subst (λ n. seen n visited ≡ true) (sym same) s) in
      IsClosed-path visited closed path e.source_id b p (ground (arith, back))

  IsClosed-known :
      (visited : List Text) (current : Text) (path : List CorrelationEdge) (queue : Queue)
      → seen current visited ≡ true
      → IsClosed visited ((current, path) ∷ queue)
      → IsClosed visited queue
  unfolding IsClosed Follows queued
  IsClosed-known visited current path queue known closed e i =
      let here = closed e i in
      let s = seen_same e.source_id current visited in
      let t = seen_same e.target_id current visited in ground (arith, here, s, t, known)

  IsClosed-new :
      (visited : List Text) (current : Text) (path : List CorrelationEdge) (queue : Queue)
      → IsClosed visited ((current, path) ∷ queue)
      → IsClosed (current ∷ visited) (queue ++ steps current path (current ∷ visited) edges)
  unfolding IsClosed Follows queued seen
  IsClosed-new visited current path queue closed e i =
      let here = closed e i in
      let pushed = steps current path (current ∷ visited) edges in
      let there = queued-steps current path visited edges e i in
      let s = queued-append e.source_id queue pushed in
      let t = queued-append e.target_id queue pushed in ground (arith, here, there, s, t)

  -- What a search shall return.
  IsAnswer : Text → List CorrelationEdge → Type 0
  IsAnswer to_id path =
      IsPath edges from_id path to_id
      ⊎ ((path ≡ []) × ((other : List CorrelationEdge) → IsPath edges from_id other to_id → ⊥))

  search-IsAnswer :
      (to_id : Text) (rounds : ℕ) (queue : Queue) (visited : List Text)
      → AllPaths queue
      → IsClosed visited queue
      → seen to_id visited ≡ false
      → (seen from_id visited || queued from_id queue) ≡ true
      → length queue + potential visited edges ≤ rounds
      → (path : List CorrelationEdge) × (search edges to_id rounds queue visited ≡ some path)
        × IsAnswer to_id path
  unfolding search queued IsAnswer AllPaths seen
  search-IsAnswer to_id rounds [] visited paths closed missing start enough = (
    [],
    refl,
    inr (
      refl,
      λ other p.
          let reached =
            IsClosed-path visited closed other from_id to_id p (ground (arith, start)) in
          absurd (ground (arith, reached, missing)),
    ),
  )
  search-IsAnswer to_id zero ((current, path) ∷ queue) visited paths closed missing start enough =
      absurd (omega arith)
  search-IsAnswer to_id (suc rounds) ((current, path) ∷ queue) visited paths closed missing start
        enough =
      elim (Bool-cases (text_eq current to_id)) [
        | inl here ↦
            let arrived = (text_eq_iff current to_id).0 here in
            (path, rw here, inl (subst (IsPath edges from_id path) arrived paths.0))
        | inr away ↦ elim (Bool-cases (seen current visited)) [
          | inl known ↦
              let begin = seen_same from_id current visited in
              rw (away, known, append-nil)
                (search-IsAnswer to_id rounds queue visited paths.1
                  (IsClosed-known visited current path queue known closed) missing
                  (ground (arith, start, begin, known)) (omega arith))
          | inr new ↦
              let pushed = steps current path (current ∷ visited) edges in
              let there = text_eq_iff current to_id in
              let back = text_eq_iff to_id current in
              rw (away, new)
                (search-IsAnswer to_id rounds (queue ++ pushed) (current ∷ visited)
                  (AllPaths-append queue pushed paths.1
                    (AllPaths-steps current path (current ∷ visited) edges paths.0 (λ e i. i)))
                  (IsClosed-new visited current path queue closed)
                  (ground (arith, missing, away, there, back))
                  (ground (arith, start, queued-append from_id queue pushed))
                  (omega (
                    arith,
                    length-append queue pushed,
                    steps-potential current path visited edges new,
                  )))
        ]
      ]

-- Nothing is visited at first.
potential_nil : (es : List CorrelationEdge) → potential [] es ≡ 2 * length es
unfolding potential unseen seen
potential_nil [] = refl
potential_nil (e ∷ es) = ground (arith, potential_nil es)

-- `find_path` ends. It returns edges of the graph that lead from the first node to the second, each
-- taken in either direction, or no edges, and then the nodes are the same or no edges lead from one
-- to the other.
pub find_path-IsPath :
    (from_id to_id : Text) (g : CorrelationGraph)
    → (path : List CorrelationEdge) × (find_path from_id to_id g ≡ some path)
      × (IsPath g.edges from_id path to_id
          ⊎ ((path ≡ [])
              × ((other : List CorrelationEdge) → IsPath g.edges from_id other to_id → ⊥)))
unfolding find_path AllPaths IsClosed Follows IsAnswer queued seen
find_path-IsPath from_id to_id g =
    let start = text_eq_refl from_id in
    search-IsAnswer g.edges from_id to_id (2 * length g.edges + 1) ((from_id, []) ∷ []) []
      (refl, tt) (λ e i. (λ h. absurd (cc), λ h. absurd (cc))) refl (ground (arith, start))
      (omega (arith, potential_nil g.edges))
