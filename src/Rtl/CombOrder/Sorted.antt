-- ===== src/Rtl/CombOrder/Sorted.antt =====
-- The sort of src/zuspec/be/sw/passes/rtl/comb_order.py along the dependencies that the pass finds.
use zuspec_be_sw.Prelude.{
  ℕ, zero, suc, ◌+◌, ◌<◌, ◌≡◌, ◌≢◌, refl, ◌∙◌, Bool, true, false, ◌&&◌, inl, inr, ◌⊎◌, ◌↔◌, sym,
  subst, ==_iff, List, [], ◌∷◌, some, arith, ltb, ◌==◌, bit, if◌then◌else◌, Bool-cases, length,
  count,
}
use zuspec_be_sw.Rtl.CombOrder.{
  range_from, sources, drain, sorted, value_error, stuck, finish, topo_sort, Func, depends, run,
}
use zuspec_be_sw.Rtl.CombOrder.Counting.{
  count_below, count_below-congr, count_below-zero, count_below-none, count-range_from,
}
use zuspec_be_sw.Rtl.CombOrder.Building.{graph, in_degree-graph, count-adj-graph, count-sources}
use zuspec_be_sw.Rtl.CombOrder.Draining.{is_left, pending, Respects, Inv, drain-Inv}

-- No chain of dependencies closes: some ranking puts each process above those it depends on.
abbrev pub IsAcyclic : (ℕ → ℕ → Bool) → ℕ → Type 0
IsAcyclic edge n = (rank : ℕ → ℕ) × ((i j : ℕ) → i < n → j < n → edge i j ≡ true → rank i < rank j)

-- Where a process stands.
abbrev pub position : ℕ → List ℕ → ℕ
position k [] = 0
position k (x ∷ xs) = if k == x then 0 else suc (position k xs)

module _ (edge : ℕ → ℕ → Bool) (n : ℕ) where
  pending-nil : (k : ℕ) → pending edge n [] k ≡ count_below n (λ i. edge i k)
  pending-nil k =
      count_below-congr n (λ i. edge i k && is_left edge n [] i) (λ i. edge i k)
        (λ i l. ground arith)

  left-nil : count_below n (is_left edge n []) ≡ n
  left-nil = all n
    where
      all : (m : ℕ) → count_below m (is_left edge n []) ≡ m
      all zero = refl
      all (suc m) = omega (arith, all m)

  abbrev first_queue : List ℕ
  first_queue = sources (graph edge n).in_degree (range_from 0 n)

  start-Inv : Inv edge n first_queue [] (graph edge n).in_degree
  start-Inv = record {
    degrees = λ k l. ground (arith, in_degree-graph edge n k l, pending-nil k);
    found = λ k. ground (
      arith,
      count-sources (graph edge n).in_degree k (range_from 0 n),
      count-range_from k 0 n,
      in_degree-graph edge n k,
      pending-nil k,
    );
    ordered = tt;
    total = omega (arith, left-nil);
  }

  record Ended (final : List ℕ) : Type 0 where
    result : topo_sort edge n ≡ finish n (some final)
    found : (k : ℕ) → count k final ≡ bit (ltb k n && (pending edge n final k == 0))
    ordered : Respects edge n [] final
    total : length final + count_below n (is_left edge n final) ≡ n

  -- The loop ends with the fuel that it has.
  ended : (final : List ℕ) × Ended final
  unfolding topo_sort
  ended =
      let (final, last, e, inv) =
        drain-Inv edge n (graph edge n).adj (count-adj-graph edge n) n first_queue []
          (graph edge n).in_degree (omega (arith, left-nil)) start-Inv in
      (
        final,
        record {
          result = ap_finish e;
          found = λ k. omega (arith, inv.found k);
          ordered = inv.ordered;
          total = inv.total;
        },
      )
    where
      ap_finish :
          {final : List ℕ}
          → drain (graph edge n).adj n first_queue [] (graph edge n).in_degree ≡ some final
          → topo_sort edge n ≡ finish n (some final)
      ap_finish e = λ i. finish n (e i)

  topo_sort_cases :
      ((order : List ℕ) × (topo_sort edge n ≡ sorted order)) ⊎ (topo_sort edge n ≡ value_error)
  topo_sort_cases = let (final, e) = ended in pick final e (Bool-cases (length final == n))
    where
      pick :
          (final : List ℕ)
          → Ended final
          → ((length final == n) ≡ true) ⊎ ((length final == n) ≡ false)
          → ((order : List ℕ) × (topo_sort edge n ≡ sorted order))
            ⊎ (topo_sort edge n ≡ value_error)
      pick final e (inl h) = inl (final, rw h at e.result)
      pick final e (inr h) = inr (rw h at e.result)

  -- A sorted outcome is the list that the loop ended with, and it is complete.
  sorted_facts :
      (order : List ℕ)
      → topo_sort edge n ≡ sorted order
      → ((k : ℕ) → count k order ≡ bit (ltb k n)) × Respects edge n [] order
  sorted_facts order s =
      let (final, e) = ended in
      let outcome : finish n (some final) ≡ sorted order = sym e.result ∙ s in
      let full : length final ≡ n = ground arith in
      let same : final ≡ order = ground arith in
      let once : (k : ℕ) → count k final ≡ bit (ltb k n) = λ k. ground (
        arith,
        e.found k,
        e.total,
        count_below-zero n k (is_left edge n final) (omega (arith, e.total)),
      ) in
      ((λ k. rw (← same) (once k)), subst (Respects edge n []) same e.ordered)

  module _ (acyclic : IsAcyclic edge n) where
    -- Along the ranking, no process is left when the loop has ended.
    placed :
        (final : List ℕ) → Ended final → (r k : ℕ) → k < n → acyclic.0 k < r → count k final ≡ 1
    placed final e zero k l below = absurd (omega arith)
    placed final e (suc r) k l below = ground (
      arith,
      e.found k,
      count_below-none n (λ i. edge i k && is_left edge n final i)
          λ i li. elim (Bool-cases (edge i k)) [
            | inl d ↦
                let lower : acyclic.0 i < r = omega (arith, acyclic.1 i k li l d) in
                ground (arith, placed final e r i li lower)
            | inr d ↦ rw d
          ],
    )

    acyclic-sorts : (order : List ℕ) × (topo_sort edge n ≡ sorted order)
    acyclic-sorts =
        let (final, e) = ended in
        let none_left : count_below n (is_left edge n final) ≡ 0 =
          count_below-none n (is_left edge n final)
            λ i l. ground (arith, placed final e (suc (acyclic.0 i)) i l (omega arith)) in
        let full : (length final == n) ≡ true = ground (arith, e.total) in
        (final, rw full at e.result)

  -- In a respecting order whatever a process depends on has the smaller position.
  Respects-position :
      (order seen : List ℕ) (i j : ℕ)
      → Respects edge n seen order
      → i < n
      → edge i j ≡ true
      → 0 < count j order
      → (0 < count i seen) ⊎ (position i order < position j order)
  Respects-position [] seen i j r l d h = absurd (omega arith)
  Respects-position (o ∷ order) seen i j r l d h = elim (Bool-cases (j == o)) [
    | inl s ↦ let same : j ≡ o = (==_iff j o).0 s in inl (r.0 i l (rw same at d))
    | inr s ↦ ground (arith, Respects-position order (o ∷ seen) i j r.1 l d (ground arith))
  ]

  sorted→IsAcyclic : (order : List ℕ) → topo_sort edge n ≡ sorted order → IsAcyclic edge n
  sorted→IsAcyclic order s =
      let (once, respects) = sorted_facts order s in
      (
        (λ k. position k order),
        λ i j li lj d.
            ground (arith, Respects-position order [] i j respects li d (ground (arith, once j))),
      )

run-eq-topo_sort : (funcs : List Func) → run funcs ≡ topo_sort (depends funcs) (length funcs)
unfolding run
run-eq-topo_sort [] = refl
run-eq-topo_sort (f ∷ fs) = refl

-- When `run` returns an order, each process stands in it exactly once and nothing else does, after
-- those that it depends on.
pub run-Respects :
    (funcs : List Func) (order : List ℕ)
    → run funcs ≡ sorted order
    → ((k : ℕ) → count k order ≡ bit (ltb k (length funcs)))
      × Respects (depends funcs) (length funcs) [] order
run-Respects funcs order e =
    sorted_facts (depends funcs) (length funcs) order (sym (run-eq-topo_sort funcs) ∙ e)

pub run_positions :
    (funcs : List Func) (order : List ℕ)
    → run funcs ≡ sorted order
    → ((k : ℕ) → count k order ≡ bit (ltb k (length funcs)))
      × ((i j : ℕ)
          → i < length funcs
          → j < length funcs
          → depends funcs i j ≡ true
          → position i order < position j order)
run_positions funcs order e =
    let (once, respects) = run-Respects funcs order e in
    (
      once,
      λ i j li lj d. ground (
        arith,
        Respects-position (depends funcs) (length funcs) order [] i j respects li d
            (ground (arith, once j)),
      ),
    )

-- `run` returns an order when the dependencies of the processes have no cycle.
pub run_acyclic :
    (funcs : List Func)
    → IsAcyclic (depends funcs) (length funcs)
    → (order : List ℕ) × (run funcs ≡ sorted order)
run_acyclic funcs acyclic =
    let (order, e) = acyclic-sorts (depends funcs) (length funcs) acyclic in
    (order, run-eq-topo_sort funcs ∙ e)

-- `run` raises `ValueError` exactly when the dependencies of the processes have a cycle, that is,
-- when no ranking puts every process above those it depends on.
pub run_value_error_lem :
    (funcs : List Func) → (run funcs ≡ value_error) ↔ (¬ IsAcyclic (depends funcs) (length funcs))
run_value_error_lem funcs = (
  (λ e acyclic. let (order, s) = run_acyclic funcs acyclic in cc),
  λ cyclic. elim (topo_sort_cases (depends funcs) (length funcs)) [
    | inl found ↦ absurd (cyclic (sorted→IsAcyclic (depends funcs) (length funcs) found.0 found.1))
    | inr e ↦ run-eq-topo_sort funcs ∙ e
  ],
)

-- `run` ends: its loop never runs out of the fuel of one round for each process.
pub run-ne-stuck : (funcs : List Func) → run funcs ≢ stuck
run-ne-stuck funcs e =
    let same = run-eq-topo_sort funcs in
    elim (topo_sort_cases (depends funcs) (length funcs)) [
      | inl found ↦ cc found.1
      | inr raised ↦ cc
    ]
