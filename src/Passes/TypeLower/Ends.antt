-- ===== src/Passes/TypeLower/Ends.antt =====
-- `_topological_sort` of src/zuspec/be/sw/passes/type_lower.py ends, with each named type once.
use mathlib.Core.List.{Memᴰ}
use zuspec_be_sw.Prelude.{
  ℕ, zero, suc, ◌+◌, ◌<◌, ◌≤◌, ◌≡◌, refl, ap, inl, inr, true, false, not, ==_refl, bit, some, List,
  [], ◌∷◌, ◌++◌, arith, length, count, Bool-cases,
}
use zuspec_be_sw.Passes.TypeLower.Syntax.{DataType, key}
use zuspec_be_sw.Passes.TypeLower.Visits.{
  mem, Visiting, then_visit, visit_each, place, deps, visit, named_types, topological_sort,
}
use zuspec_be_sw.Passes.TypeLower.Ordered.{
  keys, AllVisited, AllVisited-grows, visit_each-Grew, entered, visit-Grew,
}

-- The types that are not visited yet.
unfoldable unvisited : List ℕ → List DataType → ℕ
unvisited v [] = 0
unvisited v (t ∷ ts) = bit (not (mem (key t) v)) + unvisited v ts

unvisited-length : (v : List ℕ) (ts : List DataType) → unvisited v ts ≤ length ts
unfolding unvisited
unvisited-length v [] = omega arith
unvisited-length v (t ∷ ts) = ground (arith, unvisited-length v ts)

unvisited-grows :
    (v w : List ℕ) (ts : List DataType)
    → ((k : ℕ) → mem k v ≡ true → mem k w ≡ true)
    → unvisited w ts ≤ unvisited v ts
unfolding unvisited
unvisited-grows v w [] h = omega arith
unvisited-grows v w (t ∷ ts) h = ground (arith, unvisited-grows v w ts h, h (key t))

unvisited-mem :
    (t : DataType) (v : List ℕ) (ts : List DataType)
    → Memᴰ t ts
    → mem (key t) v ≡ false
    → unvisited (key t ∷ v) ts < unvisited v ts
unfolding unvisited mem
unvisited-mem t v [] k h = elim k [ ]
unvisited-mem t v (u ∷ ts) (Memᴰ.head e) h =
    ground
      (arith, ap key e, ==_refl (key t), unvisited-grows v (key t ∷ v) ts (λ k m. ground arith))
unvisited-mem t v (u ∷ ts) (Memᴰ.tail k) h = ground (arith, unvisited-mem t v ts k h)

pub count-mem : (k : ℕ) (l : List ℕ) → 0 < count k l → mem k l ≡ true
unfolding mem
count-mem k [] h = absurd (omega arith)
count-mem k (m ∷ l) h = ground (arith, count-mem k l)

pub mem-count : (k : ℕ) (l : List ℕ) → mem k l ≡ true → 0 < count k l
unfolding mem
mem-count k [] h = absurd (cc)
mem-count k (m ∷ l) h = ground (arith, mem-count k l)

-- The types that the sort may visit: the named ones, and the dependencies of each.
module _ (type_m : List (ℕ × DataType)) (universe : List DataType)
    (closed : (t d : DataType) → Memᴰ t universe → Memᴰ d (deps type_m t) → Memᴰ d universe) where
  visit_each-ends :
      (n : ℕ) (ds : List DataType) (st : Visiting)
      → ((d : DataType) (a : Visiting)
          → Memᴰ d universe
          → unvisited a.visited universe < n
          → (b : Visiting) × (visit type_m n d a ≡ some b))
      → ((d : DataType) → Memᴰ d ds → Memᴰ d universe)
      → unvisited st.visited universe < n
      → (st' : Visiting) × (visit_each (visit type_m n) ds st ≡ some st')
  unfolding visit_each then_visit
  visit_each-ends n [] st h all l = (st, refl)
  visit_each-ends n (d ∷ ds) st h all l =
      let (mid, first) = h d st (all d (Memᴰ.head refl)) l in
      let (grew, here) = visit-Grew type_m n d st mid first in
      let less = unvisited-grows st.visited mid.visited universe grew.grows in
      let (end, rest) =
        visit_each-ends n ds mid h (λ e k. all e (Memᴰ.tail k)) (omega (arith, less)) in
      (end, rw first rest)

  visit-ends :
      (n : ℕ) (t : DataType) (st : Visiting)
      → Memᴰ t universe
      → unvisited st.visited universe < n
      → (st' : Visiting) × (visit type_m n t st ≡ some st')
  unfolding visit place
  visit-ends zero t st k l = absurd (omega arith)
  visit-ends (suc n) t st k l = elim (Bool-cases (mem (key t) st.visited)) [
    | inl q ↦ (st, rw q refl)
    | inr q ↦
        let less = unvisited-mem t st.visited universe k q in
        let (end, e) =
          visit_each-ends n (deps type_m t) (entered t st) (visit-ends n) (λ d m. closed t d k m)
            (omega (arith, less)) in
        (record { visited = end.visited; order = end.order ++ (t ∷ []) }, rw q (rw e refl))
  ]

  module _ (named_known : (t : DataType) → Memᴰ t (named_types type_m) → Memᴰ t universe) where
    -- With one step of fuel more than there are types to visit, the sort ends, has every named type
    -- of the model, and no name twice.
    pub topological_sort-once :
        (fuel : ℕ)
        → length universe < fuel
        → (st : Visiting) × (topological_sort type_m fuel ≡ some st)
          × ((k : ℕ) → count k (keys st.order) ≤ 1)
          × AllVisited (named_types type_m) (keys st.order)
    unfolding topological_sort mem
    topological_sort-once fuel l =
        let start : Visiting = record { visited = []; order = [] } in
        let (st, e) =
          visit_each-ends fuel (named_types type_m) start (visit-ends fuel) named_known
            (omega (arith, unvisited-length [] universe)) in
        let (grew, all) =
          visit_each-Grew (visit type_m fuel) (named_types type_m) start st (visit-Grew type_m fuel)
            e in
        (
          st,
          e,
          λ k. ground (arith, grew.counts k),
          AllVisited-grows (named_types type_m) st.visited (keys st.order)
              (λ k v. count-mem k (keys st.order) (ground (arith, grew.counts k))) all,
        )
