-- ===== src/Passes/TypeLower/Sorted.antt =====
-- `_topological_sort` of src/zuspec/be/sw/passes/type_lower.py puts each type after its
-- dependencies, where no type contains itself.
use mathlib.Core.List.{Memᴰ}
use zuspec_be_sw.Prelude.{ℕ, ◌+◌, ◌<◌, ◌≤◌, ◌≡◌, ◌⊎◌, true, ◌||◌, List, [], ◌∷◌, ◌++◌, arith}
use zuspec_be_sw.Passes.TypeLower.Syntax.{DataType, key}
use zuspec_be_sw.Passes.TypeLower.Visits.{mem, Visiting, deps}
use zuspec_be_sw.Passes.TypeLower.Ordered.{keys, AllVisited}

-- Whether each type is in one of two lists.
abbrev AllEither : List DataType → List ℕ → List ℕ → Type 0
AllEither [] a b = Unit
AllEither (d ∷ ds) a b = ((mem (key d) a || mem (key d) b) ≡ true) × AllEither ds a b

keys-end :
    (k : ℕ) (a : List DataType) (t : DataType)
    → mem k (keys a) ≡ true
    → mem k (keys (a ++ (t ∷ []))) ≡ true
unfolding mem
keys-end k [] t h = absurd (cc)
keys-end k (u ∷ a) t h = ground (arith, keys-end k a t)

module _ (type_m : List (ℕ × DataType)) where
  -- Each type of an order stands after its dependencies; those in `before` stand already.
  abbrev pub DepsFirst : List ℕ → List DataType → Type 0
  DepsFirst before [] = Unit
  DepsFirst before (t ∷ ts) = AllVisited (deps type_m t) before × DepsFirst (key t ∷ before) ts

  module _ (rank : ℕ → ℕ) (universe : List DataType)
      (closed : (t d : DataType) → Memᴰ t universe → Memᴰ d (deps type_m t) → Memᴰ d universe)
      (acyclic : (t d : DataType)
        → Memᴰ t universe
        → Memᴰ d (deps type_m t)
        → rank (key d) < rank (key t)) where
    -- What is visited and not yet in the order has at least a rank.
    record Placed (b : ℕ) (st : Visiting) : Type 0 where
      placed : (k : ℕ) → mem k st.visited ≡ true → (mem k (keys st.order) ≡ true) ⊎ (b ≤ rank k)
      sorted : DepsFirst [] st.order

    -- A rank above those of some types.
    abbrev above : List DataType → ℕ
    above [] = 1
    above (t ∷ ts) = rank (key t) + above ts
