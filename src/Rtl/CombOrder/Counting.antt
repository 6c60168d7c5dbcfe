-- ===== src/Rtl/CombOrder/Counting.antt =====
-- Counting the numbers below a bound that pass a test, for the in-degrees of the sort.
use zuspec_be_sw.Prelude.{
  ℕ, zero, suc, ◌+◌, ◌<◌, ◌≡◌, ◌≢◌, refl, Bool, true, false, inl, inr, arith, ltb, ◌==◌, bit,
  if◌then◌else◌, Bool-cases, count,
}
use zuspec_be_sw.Rtl.CombOrder.{range_from}

abbrev pub count_below : ℕ → (ℕ → Bool) → ℕ
count_below zero p = 0
count_below (suc n) p = bit (p n) + count_below n p

pub count_below-congr :
    (n : ℕ) (p q : ℕ → Bool) → ((i : ℕ) → i < n → p i ≡ q i) → count_below n p ≡ count_below n q
count_below-congr zero p q h = refl
count_below-congr (suc n) p q h =
    ground (arith, h n (omega arith), count_below-congr n p q (λ i l. h i (omega arith)))

-- Taking one number out of the test lowers the count by one.
pub count_below-remove :
    (n i : ℕ) (p q : ℕ → Bool)
    → i < n
    → p i ≡ true
    → q i ≡ false
    → ((k : ℕ) → k ≢ i → p k ≡ q k)
    → count_below n p ≡ suc (count_below n q)
count_below-remove zero i p q l pi qi h = absurd (omega arith)
count_below-remove (suc n) i p q l pi qi h = elim (Bool-cases (i == n)) [
  | inl e ↦
      let same : i ≡ n = ground arith in
      ground (arith, count_below-congr n p q (λ k b. h k (omega arith)))
  | inr e ↦
      let other : i < n = ground arith in
      ground (arith, count_below-remove n i p q other pi qi h, h n (ground arith))
]

-- A count of zero is the failure of every test.
pub count_below-zero : (n i : ℕ) (p : ℕ → Bool) → count_below n p ≡ 0 → i < n → p i ≡ false
count_below-zero zero i p e l = absurd (omega arith)
count_below-zero (suc n) i p e l = elim (Bool-cases (i == n)) [
  | inl s ↦ let same : i ≡ n = ground arith in ground arith
  | inr s ↦
      let rest : count_below n p ≡ 0 = ground arith in count_below-zero n i p rest (ground arith)
]

pub count_below-none :
    (n : ℕ) (p : ℕ → Bool) → ((i : ℕ) → i < n → p i ≡ false) → count_below n p ≡ 0
count_below-none zero p h = refl
count_below-none (suc n) p h =
    ground (arith, h n (omega arith), count_below-none n p (λ i l. h i (omega arith)))

pub count-range_from :
    (a lo n : ℕ) → count a (range_from lo n) ≡ bit (if ltb a lo then false else ltb a (lo + n))
unfolding range_from
count-range_from a lo zero = ground arith
count-range_from a lo (suc n) = ground (arith, count-range_from a (lo + 1) n)
