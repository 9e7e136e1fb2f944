-- ===== src/Correlation/Graph/Search.antt =====
-- correlation/graph.py: what a round of the search adds to the queue.
use recoverx_cli.Prelude.{
  ℕ, ◌+◌, ◌≤◌, ◌≡◌, refl, sym, ap, subst, ◌⊎◌, inl, inr, Bool, true, false, ◌||◌, List, [], ◌∷◌,
  ◌++◌, arith, if◌then◌else◌, length, length-append,
}
use recoverx_cli.Utils.Text.{Text, text_eq, text_eq_iff, text_eq_refl}
use recoverx_cli.Correlation.Graph.{CorrelationEdge, Queue, seen, step, steps}

-- An edge of the graph.
abbrev pub IsEdge : CorrelationEdge → List CorrelationEdge → Type 0
IsEdge e [] = ⊥
IsEdge e (x ∷ edges) = (e ≡ x) ⊎ IsEdge e edges

unfoldable pub queued : Text → Queue → Bool
queued node [] = false
queued node ((n, path) ∷ queue) = text_eq node n || queued node queue

pub queued-append :
    (node : Text) (q r : Queue) → queued node (q ++ r) ≡ (queued node q || queued node r)
unfolding queued
queued-append node [] r = refl
queued-append node ((n, path) ∷ q) r = ground (arith, queued-append node q r)

pub seen_same :
    (a b : Text) (visited : List Text) → text_eq a b ≡ true → seen a visited ≡ seen b visited
seen_same a b visited h = ap (λ n. seen n visited) ((text_eq_iff a b).0 h)

-- A round at a node puts its neighbours into the queue, but for those that were visited.
queued-step :
    (current : Text) (path : List CorrelationEdge) (visited : List Text) (e : CorrelationEdge)
    → let pushed = step current path (current ∷ visited) e in
      (text_eq e.source_id current ≡ true
        → (seen e.target_id (current ∷ visited) || queued e.target_id pushed) ≡ true)
      × (text_eq e.target_id current ≡ true
          → (seen e.source_id (current ∷ visited) || queued e.source_id pushed) ≡ true)
unfolding step queued seen
queued-step current path visited e =
    let t = text_eq_refl e.target_id in let s = text_eq_refl e.source_id in ground (arith, t, s)

pub queued-steps :
    (current : Text) (path : List CorrelationEdge) (visited : List Text) (es : List CorrelationEdge)
    (e : CorrelationEdge)
    → IsEdge e es
    → let pushed = steps current path (current ∷ visited) es in
      (text_eq e.source_id current ≡ true
        → (seen e.target_id (current ∷ visited) || queued e.target_id pushed) ≡ true)
      × (text_eq e.target_id current ≡ true
          → (seen e.source_id (current ∷ visited) || queued e.source_id pushed) ≡ true)
unfolding steps
queued-steps current path visited [] e i = elim i [ ]
queued-steps current path visited (x ∷ es) e (inl same) =
    let first = step current path (current ∷ visited) x in
    let rest = steps current path (current ∷ visited) es in
    let here = queued-step current path visited x in
    subst
      (λ y.
        (text_eq y.source_id current ≡ true
          → (seen y.target_id (current ∷ visited) || queued y.target_id (first ++ rest)) ≡ true)
        × (text_eq y.target_id current ≡ true
            → (seen y.source_id (current ∷ visited) || queued y.source_id (first ++ rest)) ≡ true))
      (sym same)
      (ground
        (arith, here, queued-append x.target_id first rest, queued-append x.source_id first rest))
queued-steps current path visited (x ∷ es) e (inr i) =
    let first = step current path (current ∷ visited) x in
    let rest = steps current path (current ∷ visited) es in
    let later = queued-steps current path visited es e i in
    ground
      (arith, later, queued-append e.target_id first rest, queued-append e.source_id first rest)

-- The ends of edges that were not visited.
unfoldable pub unseen : Text → List Text → ℕ
unseen node visited = if seen node visited then 0 else 1

unfoldable pub potential : List Text → List CorrelationEdge → ℕ
potential visited [] = 0
potential visited (e ∷ es) =
    unseen e.source_id visited + unseen e.target_id visited + potential visited es

step-potential :
    (current : Text) (path : List CorrelationEdge) (visited : List Text) (e : CorrelationEdge)
    → seen current visited ≡ false
    → length (step current path (current ∷ visited) e)
        + (unseen e.source_id (current ∷ visited) + unseen e.target_id (current ∷ visited))
      ≤ unseen e.source_id visited + unseen e.target_id visited
unfolding step unseen seen
step-potential current path visited e new =
    let s = seen_same e.source_id current visited in
    let t = seen_same e.target_id current visited in ground (arith, s, t, new)

pub steps-potential :
    (current : Text) (path : List CorrelationEdge) (visited : List Text) (es : List CorrelationEdge)
    → seen current visited ≡ false
    → length (steps current path (current ∷ visited) es) + potential (current ∷ visited) es
      ≤ potential visited es
unfolding steps potential
steps-potential current path visited [] new = omega arith
steps-potential current path visited (e ∷ es) new = omega (
  arith,
  step-potential current path visited e new,
  steps-potential current path visited es new,
  length-append (step current path (current ∷ visited) e)
      (steps current path (current ∷ visited) es),
)
