-- ===== src/Fat32/FatTable/Pigeonhole.antt =====
-- A list of distinct numbers below n has at most n members.
use recoverx_cli.Prelude.{
  ℕ, zero, suc, ◌≤◌, ◌<◌, ◌≡◌, refl, inl, inr, false, List, [], ◌∷◌, arith, ◌==◌, if◌then◌else◌,
  ==_iff, Bool-cases, length,
}
use recoverx_cli.Fat32.FatTable.{contains}
use recoverx_cli.Fat32.FatTable.Walk.{Distinct}

abbrev pub AllBelow : ℕ → List ℕ → Type 0
AllBelow n [] = Unit {0}
AllBelow n (x ∷ xs) = (x < n) × AllBelow n xs

without : ℕ → List ℕ → List ℕ
without n [] = []
without n (x ∷ xs) = let rest = without n xs in if x == n then rest else x ∷ rest

contains-without :
    (n c : ℕ) (xs : List ℕ) → contains c xs ≡ false → contains c (without n xs) ≡ false
unfolding contains without
contains-without n c [] h = refl
contains-without n c (x ∷ xs) h = ground (arith, contains-without n c xs)

without-Distinct : (n : ℕ) (xs : List ℕ) → Distinct xs → Distinct (without n xs)
unfolding without
without-Distinct n [] h = tt
without-Distinct n (x ∷ xs) h = elim (Bool-cases (x == n)) [
  | inl e ↦ rw e (without-Distinct n xs h.1)
  | inr e ↦ rw e (contains-without n x xs h.0, without-Distinct n xs h.1)
]

without-AllBelow : (n : ℕ) (xs : List ℕ) → AllBelow (suc n) xs → AllBelow n (without n xs)
unfolding without
without-AllBelow n [] h = tt
without-AllBelow n (x ∷ xs) h = elim (Bool-cases (x == n)) [
  | inl e ↦ rw e (without-AllBelow n xs h.1)
  | inr e ↦ rw e (ground arith, without-AllBelow n xs h.1)
]

without_absent : (n : ℕ) (xs : List ℕ) → contains n xs ≡ false → without n xs ≡ xs
unfolding contains without
without_absent n [] h = refl
without_absent n (x ∷ xs) h = ground (arith, without_absent n xs)

length-without : (n : ℕ) (xs : List ℕ) → Distinct xs → length xs ≤ suc (length (without n xs))
unfolding without
length-without n [] h = omega arith
length-without n (x ∷ xs) h = elim (Bool-cases (x == n)) [
  | inl e ↦
      let here : x ≡ n = (==_iff x n).0 e in
      let gone = without_absent n xs (rw (← here) h.0) in rw (e, gone) (omega arith)
  | inr e ↦ rw e (omega (arith, length-without n xs h.1))
]

pub length-le_of_Distinct : (n : ℕ) (xs : List ℕ) → Distinct xs → AllBelow n xs → length xs ≤ n
length-le_of_Distinct zero [] h b = omega arith
length-le_of_Distinct zero (x ∷ xs) h b = absurd (omega arith)
length-le_of_Distinct (suc n) xs h b = omega (
  arith,
  length-without n xs h,
  length-le_of_Distinct n (without n xs) (without-Distinct n xs h) (without-AllBelow n xs b),
)
