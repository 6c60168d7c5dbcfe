-- ===== src/Rtl/CombOrder/Draining.antt =====
-- The `while queue` loop: its invariant, that it keeps it, and that it ends.
use zuspec_be_sw.Prelude.{
  ℕ, zero, suc, ◌+◌, ◌-◌, ◌≤◌, ◌<◌, ◌≡◌, refl, Bool, true, ◌&&◌, inl, inr, List, [], ◌∷◌, ◌++◌,
  some, arith, ltb, ◌==◌, bit, if◌then◌else◌, Bool-cases, length, count, count-append,
  length-append,
}
use zuspec_be_sw.Rtl.CombOrder.{update, relax, drain}
use zuspec_be_sw.Rtl.CombOrder.Counting.{
  count_below, count_below-congr, count_below-remove, count_below-zero,
}

-- The inner loop over distinct processes whose in-degrees are positive.
relax-degree :
    (js queue : List ℕ) (deg : ℕ → ℕ) (k : ℕ) → (relax js queue deg).1 k ≡ deg k - count k js
unfolding relax
relax-degree [] queue deg k = omega arith
relax-degree (j ∷ js) queue deg k = ground (
  arith,
  relax-degree js (if deg j == 1 then queue ++ (j ∷ []) else queue) (update deg j (deg j - 1)) k,
)

relax-queue :
    (js queue : List ℕ) (deg : ℕ → ℕ) (k : ℕ)
    → ((m : ℕ) → count m js ≤ 1)
    → count k (relax js queue deg).0 ≡ count k queue + bit ((count k js == 1) && (deg k == 1))
unfolding relax
relax-queue [] queue deg k h = ground arith
relax-queue (j ∷ js) queue deg k h = ground (
  arith,
  relax-queue js (if deg j == 1 then queue ++ (j ∷ []) else queue) (update deg j (deg j - 1)) k
      (λ m. ground (arith, h m)),
  h j,
  h k,
  count-append queue k (j ∷ []),
)

module _ (edge : ℕ → ℕ → Bool) (n : ℕ) where
  -- Process `i` has not been taken from the queue.
  abbrev pub is_left : List ℕ → ℕ → Bool
  is_left order i = count i order == 0

  -- How many processes that `k` depends on are left.
  abbrev pub pending : List ℕ → ℕ → ℕ
  pending order k = count_below n (λ i. edge i k && is_left order i)

  -- Every process in `order` stands behind all that it depends on.
  abbrev pub Respects : List ℕ → List ℕ → Type 0
  Respects seen [] = Unit
  Respects seen (j ∷ order) =
      ((i : ℕ) → i < n → edge i j ≡ true → 0 < count i seen) × Respects (j ∷ seen) order

  Respects-snoc :
      (order seen : List ℕ) (j : ℕ)
      → Respects seen order
      → ((i : ℕ) → i < n → edge i j ≡ true → 0 < count i seen + count i order)
      → Respects seen (order ++ (j ∷ []))
  Respects-snoc [] seen j r h = ((λ i l e. omega (arith, h i l e)), tt)
  Respects-snoc (o ∷ order) seen j r h =
      (r.0, Respects-snoc order (o ∷ seen) j r.1 (λ i l e. omega (arith, h i l e)))

  pub record Inv (queue order : List ℕ) (deg : ℕ → ℕ) : Type 0 where
    pub degrees : (k : ℕ) → k < n → deg k ≡ pending order k
    pub found : (k : ℕ) → count k order + count k queue ≡ bit (ltb k n && (pending order k == 0))
    pub ordered : Respects [] order
    pub total : length order + count_below n (is_left order) ≡ n

  pending-snoc :
      (order : List ℕ) (i k : ℕ)
      → i < n
      → count i order ≡ 0
      → pending order k ≡ pending (order ++ (i ∷ [])) k + bit (edge i k)
  pending-snoc order i k l absent = elim (Bool-cases (edge i k)) [
    | inl e ↦ ground (
      arith,
      count_below-remove n i (λ m. edge m k && is_left order m)
          (λ m. edge m k && is_left (order ++ (i ∷ [])) m) l (ground arith)
          (ground (arith, count-append order i (i ∷ [])))
          (λ m ne. ground (arith, count-append order m (i ∷ []))),
    )
    | inr e ↦ ground (
      arith,
      count_below-congr n (λ m. edge m k && is_left order m)
          (λ m. edge m k && is_left (order ++ (i ∷ [])) m)
          (λ m b. ground (arith, count-append order m (i ∷ []))),
    )
  ]

  module _ (adj : ℕ → List ℕ)
      (adj_lem : (i m : ℕ) → count m (adj i) ≡ bit (ltb i n && (ltb m n && edge i m))) where
    -- The head of the queue is a process, not yet taken, with nothing left to wait for.
    head_facts :
        (i : ℕ) (queue order : List ℕ) (deg : ℕ → ℕ)
        → Inv (i ∷ queue) order deg
        → (i < n) × (count i order ≡ 0) × (pending order i ≡ 0)
    head_facts i queue order deg inv = ground (arith, inv.found i)

    count-adj-le : (i m : ℕ) → count m (adj i) ≤ 1
    count-adj-le i m = ground (arith, adj_lem i m)

    step-degrees :
        (i : ℕ) (queue order : List ℕ) (deg : ℕ → ℕ)
        → Inv (i ∷ queue) order deg
        → (k : ℕ) → k < n
        → (relax (adj i) queue deg).1 k ≡ pending (order ++ (i ∷ [])) k
    step-degrees i queue order deg inv k l =
        let (h, absent, ready) = head_facts i queue order deg inv in
        ground (
          arith,
          relax-degree (adj i) queue deg k,
          inv.degrees k l,
          pending-snoc order i k h absent,
          adj_lem i k,
        )

    step-found :
        (i : ℕ) (queue order : List ℕ) (deg : ℕ → ℕ)
        → Inv (i ∷ queue) order deg
        → (k : ℕ)
        → count k (order ++ (i ∷ [])) + count k (relax (adj i) queue deg).0
          ≡ bit (ltb k n && (pending (order ++ (i ∷ [])) k == 0))
    step-found i queue order deg inv k =
        let (h, absent, ready) = head_facts i queue order deg inv in
        ground (
          arith,
          relax-queue (adj i) queue deg k (count-adj-le i),
          inv.degrees k,
          inv.found k,
          pending-snoc order i k h absent,
          adj_lem i k,
          count-append order k (i ∷ []),
        )

    step-ordered :
        (i : ℕ) (queue order : List ℕ) (deg : ℕ → ℕ)
        → Inv (i ∷ queue) order deg
        → Respects [] (order ++ (i ∷ []))
    step-ordered i queue order deg inv =
        let (h, absent, ready) = head_facts i queue order deg inv in
        Respects-snoc order [] i inv.ordered
          λ m l e. ground (arith, count_below-zero n m (λ r. edge r i && is_left order r) ready l)

    step-total :
        (i : ℕ) (queue order : List ℕ) (deg : ℕ → ℕ)
        → Inv (i ∷ queue) order deg
        → (length (order ++ (i ∷ [])) + count_below n (is_left (order ++ (i ∷ []))) ≡ n)
          × (count_below n (is_left order) ≡ suc (count_below n (is_left (order ++ (i ∷ [])))))
    step-total i queue order deg inv =
        let (h, absent, ready) = head_facts i queue order deg inv in
        let fewer : count_below n (is_left order)
            ≡ suc (count_below n (is_left (order ++ (i ∷ [])))) =
          count_below-remove n i (is_left order) (is_left (order ++ (i ∷ []))) h (ground arith)
            (ground (arith, count-append order i (i ∷ [])))
            (λ m ne. ground (arith, count-append order m (i ∷ []))) in
        (omega (arith, inv.total, length-append order (i ∷ [])), fewer)

    step-Inv :
        (i : ℕ) (queue order : List ℕ) (deg : ℕ → ℕ)
        → Inv (i ∷ queue) order deg
        → Inv (relax (adj i) queue deg).0 (order ++ (i ∷ [])) (relax (adj i) queue deg).1
    step-Inv i queue order deg inv = record {
      degrees = step-degrees i queue order deg inv;
      found = step-found i queue order deg inv;
      ordered = step-ordered i queue order deg inv;
      total = (step-total i queue order deg inv).0;
    }

    -- With as much fuel as there are processes left the loop ends, and its invariant holds.
    pub drain-Inv :
        (fuel : ℕ) (queue order : List ℕ) (deg : ℕ → ℕ)
        → count_below n (is_left order) ≤ fuel
        → Inv queue order deg
        → (final : List ℕ) × (last : ℕ → ℕ) × (drain adj fuel queue order deg ≡ some final)
          × Inv [] final last
    unfolding drain
    drain-Inv fuel [] order deg enough inv = (order, deg, refl, inv)
    drain-Inv zero (i ∷ queue) order deg enough inv =
        absurd (omega (arith, (step-total i queue order deg inv).1))
    drain-Inv (suc fuel) (i ∷ queue) order deg enough inv =
        drain-Inv fuel (relax (adj i) queue deg).0 (order ++ (i ∷ [])) (relax (adj i) queue deg).1
          (omega (arith, (step-total i queue order deg inv).1)) (step-Inv i queue order deg inv)
