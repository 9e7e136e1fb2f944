-- ===== src/Forensics/Timeline/Sorted.antt =====
-- forensics/timeline.py: the order of the events.
use recoverx_cli.Prelude.{
  ℕ, ◌≡◌, refl, ◌↔◌, inl, inr, true, false, ◌||◌, Option, none, some, List, [], ◌∷◌, arith,
  Bool-cases,
}
use recoverx_cli.Forensics.{ForensicEvent}
use recoverx_cli.Forensics.Timeline.{time_le, time_eq, key_le, insert, sort, is_seen, same_key}

pub time_eq_iff : (s t : Option ℕ) → (time_eq s t ≡ true) ↔ (s ≡ t)
unfolding time_eq
time_eq_iff none none = ground arith
time_eq_iff none (some t) = ground arith
time_eq_iff (some s) none = ground arith
time_eq_iff (some s) (some t) = ground arith

-- The order of the keys is total and transitive.
key_le_total : (a b : ForensicEvent) → key_le a b ≡ false → key_le b a ≡ true
unfolding key_le time_eq time_le
key_le_total a b h = ground (arith, h)

key_le_trans : (a b c : ForensicEvent) → key_le a b ≡ true → key_le b c ≡ true → key_le a c ≡ true
unfolding key_le time_eq time_le
key_le_trans a b c h k = ground (arith, h, k)

abbrev pub All {ℓ} : (ForensicEvent → Type ℓ) → List ForensicEvent → Type ℓ
All P [] = Unit
All P (e ∷ events) = P e × All P events

-- Each event's key is at most those of the events behind it.
abbrev pub IsSorted : List ForensicEvent → Type 0
IsSorted [] = Unit {0}
IsSorted (e ∷ events) = All (λ x. key_le e x ≡ true) events × IsSorted events

All-insert {ℓ} :
    (P : ForensicEvent → Type ℓ) (e : ForensicEvent) (events : List ForensicEvent)
    → P e
    → All P events
    → All P (insert e events)
unfolding insert
All-insert P e [] p h = (p, tt)
All-insert P e (x ∷ xs) p h = elim (Bool-cases (key_le e x)) [
  | inl le ↦ rw le (p, h)
  | inr gt ↦ rw gt (h.0, All-insert P e xs p h.1)
]

pub All-sort {ℓ} :
    (P : ForensicEvent → Type ℓ) (events : List ForensicEvent) → All P events → All P (sort events)
unfolding sort
All-sort P [] h = tt
All-sort P (e ∷ events) h = All-insert P e (sort events) h.0 (All-sort P events h.1)

All-le :
    (e x : ForensicEvent) (xs : List ForensicEvent)
    → key_le e x ≡ true
    → All (λ y. key_le x y ≡ true) xs
    → All (λ y. key_le e y ≡ true) xs
All-le e x [] h k = tt
All-le e x (y ∷ ys) h k = (key_le_trans e x y h k.0, All-le e x ys h k.1)

insert-IsSorted :
    (e : ForensicEvent) (events : List ForensicEvent) → IsSorted events → IsSorted (insert e events)
unfolding insert
insert-IsSorted e [] h = (tt, tt)
insert-IsSorted e (x ∷ xs) h = elim (Bool-cases (key_le e x)) [
  | inl le ↦ rw le ((le, All-le e x xs le h.0), h)
  | inr gt ↦
      rw gt (
        All-insert (λ y. key_le x y ≡ true) e xs (key_le_total e x gt) h.0,
        insert-IsSorted e xs h.1,
      )
]

pub sort-IsSorted : (events : List ForensicEvent) → IsSorted (sort events)
unfolding sort
sort-IsSorted [] = tt
sort-IsSorted (e ∷ events) = insert-IsSorted e (sort events) (sort-IsSorted events)

-- Sorting keeps the keys.
is_seen-insert :
    (a e : ForensicEvent) (events : List ForensicEvent)
    → is_seen a (insert e events) ≡ (same_key a e || is_seen a events)
unfolding is_seen insert
is_seen-insert a e [] = refl
is_seen-insert a e (x ∷ xs) = ground (arith, is_seen-insert a e xs)

pub is_seen-sort :
    (a : ForensicEvent) (events : List ForensicEvent) → is_seen a (sort events) ≡ is_seen a events
unfolding is_seen sort
is_seen-sort a [] = refl
is_seen-sort a (e ∷ events) =
    ground (arith, is_seen-insert a e (sort events), is_seen-sort a events)
