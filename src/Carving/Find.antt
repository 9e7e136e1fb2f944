-- ===== src/Carving/Find.antt =====
-- What `bytes.find` returns.
use recoverx_cli.Prelude.{
  ℕ, suc, ◌+◌, ◌-◌, ◌≤◌, ◌<◌, ◌≡◌, subst, ◌≢◌, ◌⊎◌, inl, inr, Bool, true, false, Option, none, some,
  [], ◌∷◌, arith, ltb, ◌==◌, if◌then◌else◌, Bool-cases, length, drop, length-drop, drop-nil,
  drop-drop,
}
use mathlib.Core.Bool.{false≢true}
use recoverx_cli.Utils.RawReader.{Bytes}
use recoverx_cli.Carving.{starts_with, find_in, find}

pub starts_with-length : (p d : Bytes) → starts_with p d ≡ true → length p ≤ length d
unfolding starts_with
starts_with-length [] d h = omega arith
starts_with-length (p ∷ ps) [] h = absurd (false≢true h)
starts_with-length (p ∷ ps) (b ∷ bs) h = ground (arith, starts_with-length ps bs)

-- The result of a round of the search.
found_here :
    (c : Bool) (i k : ℕ) (rest : Option ℕ)
    → (if c then some i else rest) ≡ some k
    → ((c ≡ true) × (k ≡ i)) ⊎ ((c ≡ false) × (rest ≡ some k))
found_here c i k rest h = ground arith

find_in-some :
    (p : Bytes) (i : ℕ) (d : Bytes) (k : ℕ)
    → find_in p i d ≡ some k
    → (i ≤ k) × (starts_with p (drop (k - i) d) ≡ true)
unfolding find_in
find_in-some p i [] k h = elim (found_here (starts_with p []) i k none h) [
  | inl (s, same) ↦ (omega arith, rw (drop-nil {A = ℕ} (k - i)) s)
  | inr (s, e) ↦ absurd (cc)
]
find_in-some p i (b ∷ bs) k h =
    elim (found_here (starts_with p (b ∷ bs)) i k (find_in p (i + 1) bs) h) [
      | inl (s, same) ↦ let zero_sub : k - i ≡ 0 = omega arith in (omega arith, rw zero_sub s)
      | inr (s, e) ↦
          let (l, t) = find_in-some p (i + 1) bs k e in
          let suc_sub : k - i ≡ suc (k - (i + 1)) = omega arith in (omega arith, rw suc_sub t)
    ]

-- No place before the one that is found has the pattern.
find_in-first :
    (p : Bytes) (i : ℕ) (d : Bytes) (k j : ℕ)
    → find_in p i d ≡ some k
    → i ≤ j
    → j < k
    → starts_with p (drop (j - i) d) ≡ false
unfolding find_in
find_in-first p i [] k j h l m = elim (found_here (starts_with p []) i k none h) [
  | inl (s, same) ↦ absurd (omega arith)
  | inr (s, e) ↦ absurd (cc)
]
find_in-first p i (b ∷ bs) k j h l m =
    elim (found_here (starts_with p (b ∷ bs)) i k (find_in p (i + 1) bs) h) [
      | inl (s, same) ↦ absurd (omega arith)
      | inr (s, e) ↦ elim (Bool-cases (i == j)) [
        | inl here ↦ let zero_sub : j - i ≡ 0 = ground arith in rw zero_sub s
        | inr later ↦
            let suc_sub : j - i ≡ suc (j - (i + 1)) = ground arith in
            let t = find_in-first p (i + 1) bs k j e (ground arith) m in rw suc_sub t
      ]
    ]

find_in-none :
    (p : Bytes) (i : ℕ) (d : Bytes) (j : ℕ)
    → find_in p i d ≡ none
    → i ≤ j
    → starts_with p (drop (j - i) d) ≡ false
unfolding find_in
find_in-none p i [] j h l = rw (drop-nil {A = ℕ} (j - i)) (ground arith)
find_in-none p i (b ∷ bs) j h l = elim (Bool-cases (starts_with p (b ∷ bs))) [
  | inl s ↦
      absurd (some≢none i (subst (λ c. (if c then some i else find_in p (i + 1) bs) ≡ none) s h))
  | inr s ↦
      let e : find_in p (i + 1) bs ≡ none =
        subst (λ c. (if c then some i else find_in p (i + 1) bs) ≡ none) s h in
      elim (Bool-cases (i == j)) [
        | inl here ↦ let zero_sub : j - i ≡ 0 = ground arith in rw zero_sub s
        | inr later ↦
            let suc_sub : j - i ≡ suc (j - (i + 1)) = ground arith in
            let t = find_in-none p (i + 1) bs j e (ground arith) in rw suc_sub t
      ]
]
  where
    some≢none : (i : ℕ) → some i ≢ none
    some≢none i h = cc

-- What is found starts with the pattern, at or behind the offset, and is the first such place.
pub find-some :
    (p d : Bytes) (o k : ℕ)
    → find p d o ≡ some k
    → (o ≤ k)
      × (starts_with p (drop k d) ≡ true)
      × ((j : ℕ) → o ≤ j → j < k → starts_with p (drop j d) ≡ false)
unfolding find
find-some p d o k h =
    let e = found_in p d o k h in
    let (l, s) = find_in-some p o (drop o d) k e in
    (
      l,
      at_place p d o k l true s,
      λ j above below.
          at_place p d o j above false (find_in-first p o (drop o d) k j e above below),
    )
  where
    found_in :
        (p d : Bytes) (o k : ℕ)
        → (if ltb (length d) o then none else find_in p o (drop o d)) ≡ some k
        → find_in p o (drop o d) ≡ some k
    found_in p d o k h = ground arith

    at_place :
        (p d : Bytes) (o j : ℕ)
        → o ≤ j
        → (b : Bool) → starts_with p (drop (j - o) (drop o d)) ≡ b
        → starts_with p (drop j d) ≡ b
    at_place p d o j l b h =
        let same : o + (j - o) ≡ j = omega arith in
        let dropped : drop (j - o) (drop o d) ≡ drop j d = rw same at (drop-drop (j - o) o d) in
        rw dropped at h

-- The pattern that is found lies within the bytes.
pub find-inside :
    (p d : Bytes) (o k : ℕ) → find p d o ≡ some k → 0 < length p → k + length p ≤ length d
find-inside p d o k h l =
    let (above, s, first) = find-some p d o k h in
    let fits = starts_with-length p (drop k d) s in omega (arith, fits, length-drop k d)

-- Where nothing is found, no place from the offset on has the pattern.
pub find-none :
    (p d : Bytes) (o j : ℕ)
    → 0 < length p
    → find p d o ≡ none
    → o ≤ j
    → starts_with p (drop j d) ≡ false
unfolding find
find-none p d o j l h above = elim (Bool-cases (starts_with p (drop j d))) [
  | inl s ↦
      let fits = starts_with-length p (drop j d) s in
      let inside : o ≤ length d = omega (arith, fits, length-drop j d) in
      let searched : find_in p o (drop o d) ≡ none = ground (arith, inside) in
      let same : o + (j - o) ≡ j = omega arith in
      let dropped : drop (j - o) (drop o d) ≡ drop j d = rw same at (drop-drop (j - o) o d) in
      rw dropped at (find_in-none p o (drop o d) j searched above)
  | inr s ↦ s
]
