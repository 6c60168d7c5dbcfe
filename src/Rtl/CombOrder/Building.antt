-- ===== src/Rtl/CombOrder/Building.antt =====
-- What the nested loops of `run` leave in `adj` and `in_degree`.
use zuspec_be_sw.Prelude.{
  ℕ, zero, suc, ◌+◌, ◌*◌, ◌<◌, ◌≡◌, refl, Bool, inl, inr, List, [], ◌∷◌, arith, ltb, ◌==◌, bit,
  if◌then◌else◌, Bool-cases, count, count-append, ◌&&◌,
}
use zuspec_be_sw.Rtl.CombOrder.{range_from, Graph, add_edge, build_row, build, no_edges, sources}
use zuspec_be_sw.Rtl.CombOrder.Counting.{count_below, count-range_from}

-- How many members of a list pass a test.
abbrev pub count_in : (ℕ → Bool) → List ℕ → ℕ
count_in p [] = 0
count_in p (x ∷ xs) = bit (p x) + count_in p xs

count_in-range_snoc :
    (p : ℕ → Bool) (lo n : ℕ)
    → count_in p (range_from lo (suc n)) ≡ count_in p (range_from lo n) + bit (p (lo + n))
unfolding range_from
count_in-range_snoc p lo zero = let e : lo + 0 ≡ lo = omega arith in ground arith
count_in-range_snoc p lo (suc n) =
    let e : lo + suc n ≡ lo + 1 + n = omega arith in
    ground (arith, count_in-range_snoc p (lo + 1) n)

count_in-range : (p : ℕ → Bool) (n : ℕ) → count_in p (range_from 0 n) ≡ count_below n p
unfolding range_from
count_in-range p zero = refl
count_in-range p (suc n) =
    let e : 0 + n ≡ n = omega arith in ground (arith, count_in-range_snoc p 0 n, count_in-range p n)

module _ (edge : ℕ → ℕ → Bool) where
  in_degree-build_row :
      (i k : ℕ) (js : List ℕ) (g : Graph)
      → (build_row edge i js g).in_degree k ≡ g.in_degree k + (if edge i k then count k js else 0)
  unfolding build_row
  in_degree-build_row i k [] g = ground arith
  in_degree-build_row i k (j ∷ js) g =
      ground (arith, in_degree-build_row i k js (if edge i j then add_edge edge i j g else g))

  count-adj-build_row :
      (i k m : ℕ) (js : List ℕ) (g : Graph)
      → count m ((build_row edge i js g).adj k)
        ≡ count m (g.adj k) + (if (k == i) && edge i m then count m js else 0)
  unfolding build_row
  count-adj-build_row i k m [] g = ground arith
  count-adj-build_row i k m (j ∷ js) g = ground (
    arith,
    count-adj-build_row i k m js (if edge i j then add_edge edge i j g else g),
    count-append (g.adj i) m (j ∷ []),
  )

  in_degree-build :
      (k : ℕ) (is js : List ℕ) (g : Graph)
      → count k js ≡ 1
      → (build edge is js g).in_degree k ≡ g.in_degree k + count_in (λ i. edge i k) is
  unfolding build
  in_degree-build k [] js g h = omega arith
  in_degree-build k (i ∷ is) js g h =
      ground
        (arith, in_degree-build k is js (build_row edge i js g) h, in_degree-build_row i k js g)

  count-adj-build :
      (k m : ℕ) (is js : List ℕ) (g : Graph)
      → count m ((build edge is js g).adj k)
        ≡ count m (g.adj k) + (if edge k m then count k is * count m js else 0)
  unfolding build
  count-adj-build k m [] js g = ground arith
  count-adj-build k m (i ∷ is) js g = elim (Bool-cases (k == i)) [
    | inl e ↦
        let same : k ≡ i = ground arith in
        grind
          (arith, count-adj-build k m is js (build_row edge i js g), count-adj-build_row i k m js g)
    | inr e ↦
        ground
          (arith, count-adj-build k m is js (build_row edge i js g), count-adj-build_row i k m js g)
  ]

  abbrev pub graph : ℕ → Graph
  graph n = build edge (range_from 0 n) (range_from 0 n) no_edges

  -- `in_degree[k]` starts as the number of processes that process `k` depends on.
  pub in_degree-graph : (n k : ℕ) → k < n → (graph n).in_degree k ≡ count_below n (λ i. edge i k)
  in_degree-graph n k h = ground (
    arith,
    in_degree-build k (range_from 0 n) (range_from 0 n) no_edges
        (ground (arith, count-range_from k 0 n)),
    count_in-range (λ i. edge i k) n,
  )

  -- `adj[k]` holds each process that depends on process `k`, once.
  pub count-adj-graph :
      (n k m : ℕ) → count m ((graph n).adj k) ≡ bit (ltb k n && (ltb m n && edge k m))
  count-adj-graph n k m = ground (
    arith,
    count-adj-build k m (range_from 0 n) (range_from 0 n) no_edges,
    count-range_from k 0 n,
    count-range_from m 0 n,
  )

pub count-sources :
    (deg : ℕ → ℕ) (k : ℕ) (is : List ℕ)
    → count k (sources deg is) ≡ (if deg k == 0 then count k is else 0)
unfolding sources
count-sources deg k [] = ground arith
count-sources deg k (i ∷ is) = ground (arith, count-sources deg k is)
