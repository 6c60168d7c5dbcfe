-- ===== src/Passes/TypeLower/Tests.antt =====
-- Structs that hold each other, and the theorems on src/zuspec/be/sw/passes/type_lower.py at them.
use mathlib.Core.List.{Memᴰ}
use zuspec_be_sw.Prelude.{ℕ, ◌≤◌, ◌≡◌, refl, subst, false, none, some, List, [], ◌∷◌, arith, count}
use zuspec_be_sw.Passes.TypeLower.Syntax.{
  DataType, typed, struct, component, array, int_shape, type_ref, no_fields, field_then, key,
  is_named, identity, shape_fields, fields, lookup,
}
use zuspec_be_sw.Passes.TypeLower.Visits.{
  mem, Visiting, resolve_ref, add_dep, deps_of, deps, then_visit, visit_each, place, visit,
  named_types, topological_sort,
}
use zuspec_be_sw.Passes.TypeLower.Ordered.{keys, AllVisited}
use zuspec_be_sw.Passes.TypeLower.Ends.{topological_sort-once}

abbrev byte : DataType
byte = typed 10 none (int_shape (some 8) false)

abbrev leaf : DataType
leaf = typed 11 (some 1) (struct (field_then 20 byte no_fields))

abbrev branch : DataType
branch = typed 12 (some 2) (struct (field_then 21 leaf no_fields))

abbrev root : DataType
root = typed 13 (some 3) (
    component (
      field_then 22 (typed 14 none (type_ref 2))
        (field_then 23 leaf (field_then 24 (typed 15 none (array leaf 4)) no_fields))))

abbrev type_m : List (ℕ × DataType)
type_m = (3, root) ∷ (2, branch) ∷ (1, leaf) ∷ []

abbrev universe : List DataType
universe = root ∷ branch ∷ leaf ∷ []

named_universe : named_types type_m ≡ universe
unfolding named_types is_named key
named_universe = refl

deps-root : deps type_m root ≡ branch ∷ leaf ∷ []
unfolding deps deps_of add_dep resolve_ref fields shape_fields lookup is_named identity key
deps-root = refl

deps-branch : deps type_m branch ≡ leaf ∷ []
unfolding deps deps_of add_dep resolve_ref fields shape_fields lookup is_named identity key
deps-branch = refl

deps-leaf : deps type_m leaf ≡ []
unfolding deps deps_of add_dep resolve_ref fields shape_fields lookup is_named identity key
deps-leaf = refl

order_is :
    topological_sort type_m 4
    ≡ some (record { visited = 1 ∷ 2 ∷ 3 ∷ []; order = leaf ∷ branch ∷ root ∷ [] })
unfolding topological_sort visit visit_each then_visit place mem named_types deps deps_of add_dep
    resolve_ref fields shape_fields lookup is_named identity key
order_is = refl

nothing : (d : DataType) → ¬ Memᴰ d []
nothing d k = elim k [ ]

closed : (t d : DataType) → Memᴰ t universe → Memᴰ d (deps type_m t) → Memᴰ d universe
closed t d (Memᴰ.head e) k = Memᴰ.tail (subst (λ l. Memᴰ d l) (rw e deps-root) k)
closed t d (Memᴰ.tail (Memᴰ.head e)) k =
    Memᴰ.tail (Memᴰ.tail (subst (λ l. Memᴰ d l) (rw e deps-branch) k))
closed t d (Memᴰ.tail (Memᴰ.tail (Memᴰ.head e))) k =
    absurd (nothing d (subst (λ l. Memᴰ d l) (rw e deps-leaf) k))
closed t d (Memᴰ.tail (Memᴰ.tail (Memᴰ.tail j))) k = elim j [ ]

known : (t : DataType) → Memᴰ t (named_types type_m) → Memᴰ t universe
known t k = subst (λ l. Memᴰ t l) named_universe k

abbrev rank : ℕ → ℕ
rank n = n

topological_sort-once_example :
    (st : Visiting) × (topological_sort type_m 4 ≡ some st)
    × ((k : ℕ) → count k (keys st.order) ≤ 1)
    × AllVisited (named_types type_m) (keys st.order)
topological_sort-once_example = topological_sort-once type_m universe closed known 4 (omega arith)
