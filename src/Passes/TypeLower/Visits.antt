-- ===== src/Passes/TypeLower/Visits.antt =====
-- `_topological_sort`, `_deps` and `_resolve_ref` of src/zuspec/be/sw/passes/type_lower.py.
use zuspec_be_sw.Prelude.{
  ℕ, zero, suc, Bool, false, not, ◌&&◌, ◌||◌, if◌then◌else◌, ◌==◌, Option, none, some, List, [],
  ◌∷◌, ◌++◌,
}
use zuspec_be_sw.Passes.TypeLower.Syntax.{
  DataType, typed, type_ref, Fields, no_fields, field_then, key, is_named, identity, fields, lookup,
}

unfoldable pub mem : ℕ → List ℕ → Bool
mem n [] = false
mem n (m ∷ ms) = n == m || mem n ms

-- `visited` and `order`.
pub record Visiting : Type 0 where
  pub visited : List ℕ
  pub order : List DataType

unfoldable pub then_visit : Option Visiting → (Visiting → Option Visiting) → Option Visiting
then_visit none f = none
then_visit (some st) f = f st

unfoldable pub visit_each :
    (DataType → Visiting → Option Visiting) → List DataType → Visiting → Option Visiting
visit_each rec [] st = some st
visit_each rec (d ∷ ds) st = then_visit (rec d st) (visit_each rec ds)

-- The type comes after its dependencies.
unfoldable pub place : DataType → Option Visiting → Option Visiting
place t none = none
place t (some st) = some (record { visited = st.visited; order = st.order ++ (t ∷ []) })

unfoldable pub named_types : List (ℕ × DataType) → List DataType
named_types [] = []
named_types ((k, t) ∷ r) = if is_named t then t ∷ named_types r else named_types r

module _ (type_m : List (ℕ × DataType)) where
  unfoldable pub resolve_ref : DataType → Option DataType
  resolve_ref (typed i n (type_ref r)) = lookup r type_m
  resolve_ref t = some t

  -- A dependency is named and another object than its user.
  unfoldable pub add_dep : DataType → Option DataType → List DataType → List DataType
  add_dep t none rest = rest
  add_dep t (some d) rest = if is_named d && not (identity d == identity t) then d ∷ rest else rest

  unfoldable pub deps_of : DataType → Fields → List DataType
  deps_of t no_fields = []
  deps_of t (field_then n ft fs) = add_dep t (resolve_ref ft) (deps_of t fs)

  unfoldable pub deps : DataType → List DataType
  deps t = deps_of t (fields t)

  -- `visit`; the result is `none` where the recursion goes deeper than the fuel.
  unfoldable pub visit : ℕ → DataType → Visiting → Option Visiting
  visit zero t st = none
  visit (suc n) t st =
      if mem (key t) st.visited
      then some st
      else place t (
          visit_each (visit n) (deps t) (record { visited = key t ∷ st.visited; order = st.order }))

  -- `_topological_sort`
  unfoldable pub topological_sort : ℕ → Option Visiting
  topological_sort fuel =
      visit_each (visit fuel) (named_types type_m) (record { visited = []; order = [] })
