-- ===== src/Distributed/Queue/Order.antt =====
-- The entry that `pop` takes: the first of the pending ones.
use mathlib.Core.Bool.{false≢true}
use recoverx_cli.Prelude.{
  ℕ, ◌≤◌, ◌<◌, ◌≡◌, refl, sym, ◌∙◌, ◌⊎◌, inl, inr, true, false, Option, none, some, List, [], ◌∷◌,
  arith, Bool-cases,
}
use recoverx_cli.Distributed.Models.{Store, is_pending}
use recoverx_cli.Distributed.Queue.{Entry, before, heappush, pop_from}

-- Every entry of a list comes behind the given one.
abbrev pub AllAfter : Entry → List Entry → Type 0
AllAfter e [] = Unit {0}
AllAfter e (f ∷ fs) = (before e f ≡ true) × AllAfter e fs

abbrev pub IsSorted : List Entry → Type 0
IsSorted [] = Unit {0}
IsSorted (e ∷ es) = AllAfter e es × IsSorted es

-- The numbers of the entries are at most the counter.
abbrev pub AllNumbered : ℕ → List Entry → Type 0
AllNumbered n [] = Unit {0}
AllNumbered n (e ∷ es) = (e.order ≤ n) × AllNumbered n es

before_trans : (a b c : Entry) → before a b ≡ true → before b c ≡ true → before a c ≡ true
unfolding before
before_trans a b c h k = ground arith

-- A new number makes the order of two entries decided.
before_total : (a b : Entry) → b.order < a.order → before a b ≡ false → before b a ≡ true
unfolding before
before_total a b h k = ground arith

AllAfter-trans : (a b : Entry) (es : List Entry) → before a b ≡ true → AllAfter b es → AllAfter a es
AllAfter-trans a b [] h k = tt
AllAfter-trans a b (e ∷ es) h k = (before_trans a b e h k.0, AllAfter-trans a b es h k.1)

AllAfter-heappush :
    (a e : Entry) (es : List Entry) → before a e ≡ true → AllAfter a es → AllAfter a (heappush e es)
unfolding heappush
AllAfter-heappush a e [] h k = (h, tt)
AllAfter-heappush a e (f ∷ fs) h k = elim (Bool-cases (before e f)) [
  | inl c ↦ rw c (h, k)
  | inr c ↦ rw c (k.0, AllAfter-heappush a e fs h k.1)
]

pub heappush-IsSorted :
    (n : ℕ) (e : Entry) (es : List Entry)
    → n < e.order
    → AllNumbered n es
    → IsSorted es
    → IsSorted (heappush e es)
unfolding heappush
heappush-IsSorted n e [] l h s = (tt, tt)
heappush-IsSorted n e (f ∷ fs) l h s = elim (Bool-cases (before e f)) [
  | inl c ↦ rw c ((c, AllAfter-trans e f fs c s.0), s)
  | inr c ↦ rw c (
    AllAfter-heappush f e fs (before_total e f (omega (arith, h.0)) c) s.0,
    heappush-IsSorted n e fs l h.1 s.1,
  )
]

pub heappush-AllNumbered :
    (n : ℕ) (e : Entry) (es : List Entry)
    → e.order ≤ n
    → AllNumbered n es
    → AllNumbered n (heappush e es)
unfolding heappush
heappush-AllNumbered n e [] l h = (l, tt)
heappush-AllNumbered n e (f ∷ fs) l h = elim (Bool-cases (before e f)) [
  | inl c ↦ rw c (l, h)
  | inr c ↦ rw c (h.0, heappush-AllNumbered n e fs l h.1)
]

pub AllNumbered-mono : (n m : ℕ) (es : List Entry) → n ≤ m → AllNumbered n es → AllNumbered m es
AllNumbered-mono n m [] l h = tt
AllNumbered-mono n m (e ∷ es) l h = (omega (arith, h.0), AllNumbered-mono n m es l h.1)

-- Every pending entry of a list comes behind the given one.
abbrev pub PendingAfter : Store → Entry → List Entry → Type 0
PendingAfter tasks e [] = Unit {0}
PendingAfter tasks e (f ∷ fs) =
    (is_pending (tasks f.task).state ≡ true → (f ≡ e) ⊎ (before e f ≡ true))
    × PendingAfter tasks e fs

abbrev pub NonePending : Store → List Entry → Type 0
NonePending tasks [] = Unit {0}
NonePending tasks (e ∷ es) = (is_pending (tasks e.task).state ≡ false) × NonePending tasks es

-- The entry is one of the list.
abbrev pub Stands : Entry → List Entry → Type 0
Stands e [] = ⊥
Stands e (f ∷ fs) = (f ≡ e) ⊎ Stands e fs

-- What `pop_from` returns of a sorted list.
abbrev pub IsFirst : Store → List Entry → Option Entry × List Entry → Type 0
IsFirst tasks es (none, rest) = NonePending tasks es × (rest ≡ [])
IsFirst tasks es (some e, rest) =
    (is_pending (tasks e.task).state ≡ true) × Stands e es × PendingAfter tasks e es × IsSorted rest

AllAfter-PendingAfter :
    (tasks : Store) (e : Entry) (es : List Entry) → AllAfter e es → PendingAfter tasks e es
AllAfter-PendingAfter tasks e [] h = tt
AllAfter-PendingAfter tasks e (f ∷ fs) h = ((λ p. inr h.0), AllAfter-PendingAfter tasks e fs h.1)

pub pop_from-IsFirst :
    (tasks : Store) (es : List Entry) → IsSorted es → IsFirst tasks es (pop_from tasks es)
unfolding pop_from
pop_from-IsFirst tasks [] s = (tt, refl)
pop_from-IsFirst tasks (e ∷ es) s = elim (Bool-cases (is_pending (tasks e.task).state)) [
  | inl p ↦ rw p (p, inl refl, ((λ q. inl refl), AllAfter-PendingAfter tasks e es s.0), s.1)
  | inr p ↦ rw p (skip tasks e es p (pop_from tasks es) (pop_from-IsFirst tasks es s.1))
]
  where
    skip :
        (tasks : Store) (e : Entry) (es : List Entry)
        → is_pending (tasks e.task).state ≡ false
        → (r : Option Entry × List Entry) → IsFirst tasks es r
        → IsFirst tasks (e ∷ es) r
    skip tasks e es p (none, rest) h = ((p, h.0), h.1)
    skip tasks e es p (some f, rest) h =
        (h.0, inr h.1, ((λ q. absurd (false≢true (sym p ∙ q))), h.2), h.3)
