-- ===== src/Passes/Elaborate/Paths.antt =====
-- Paths of names from a component down its fields, without the instances of
-- src/zuspec/be/sw/passes/elaborate.py.
use zuspec_be_sw.Prelude.{
  ℕ, ◌≡◌, refl, inl, inr, true, if◌then◌else◌, ◌==◌, ==_refl, ◌&&◌, Option, none, some, List, [],
  ◌∷◌, ◌++◌, arith, Bool-cases,
}
use zuspec_be_sw.Passes.Elaborate.Syntax.{DataType, Field, fields, is_component, ◌>>=◌}
use zuspec_be_sw.Passes.Elaborate.Instances.{InstPath, Index, same_path, lookup_inst, resolve_type}

-- What is left of a path below another one.
unfoldable pub below : InstPath → InstPath → Option InstPath
below [] x = some x
below (n ∷ p) [] = none
below (n ∷ p) (m ∷ x) = if m == n then below p x else none

-- The rest of a path that goes on with a name.
unfoldable pub after : ℕ → Option InstPath → Option InstPath
after n none = none
after n (some []) = none
after n (some (m ∷ x)) = if m == n then some x else none

pub below-append :
    (p : InstPath) (n : ℕ) (x : InstPath) → below (p ++ (n ∷ [])) x ≡ after n (below p x)
unfolding below after
below-append [] n [] = refl
below-append [] n (m ∷ x) = ground arith
below-append (k ∷ p) n [] = refl
below-append (k ∷ p) n (m ∷ x) = ground (arith, below-append p n x)

pub same_path-below : (x p : InstPath) → same_path x p ≡ true → below p x ≡ some []
unfolding same_path below
same_path-below [] [] h = refl
same_path-below [] (n ∷ p) h = ground arith
same_path-below (m ∷ x) [] h = ground arith
same_path-below (m ∷ x) (n ∷ p) h = ground (arith, same_path-below x p)

pub below-same_path : (x p : InstPath) → below p x ≡ some [] → same_path x p ≡ true
unfolding same_path below
below-same_path [] [] h = refl
below-same_path [] (n ∷ p) h = ground arith
below-same_path (m ∷ x) [] h = cc
below-same_path (m ∷ x) (n ∷ p) h = ground (arith, below-same_path x p)

pub below_refl : (p : InstPath) (q : InstPath) → below p (p ++ q) ≡ some q
unfolding below
below_refl [] q = refl
below_refl (n ∷ p) q = ground (arith, ==_refl n, below_refl p q)

pub lookup_inst-append :
    (x : InstPath) (a b : Index)
    → lookup_inst x (a ++ b) ≡ elim (lookup_inst x a) [ some i ↦ some i | none ↦ lookup_inst x b ]
unfolding lookup_inst
lookup_inst-append x [] b = refl
lookup_inst-append x ((p, i) ∷ a) b = elim (Bool-cases (same_path x p)) [
  | inl e ↦ rw e refl
  | inr e ↦ rw e (lookup_inst-append x a b)
]

module _ (type_m : List (ℕ × DataType)) where
  -- The first component field of a name, with its type.
  unfoldable pub child_type : ℕ → List Field → Option DataType
  child_type n [] = none
  child_type n (f ∷ fs) =
      if is_component (resolve_type type_m f.datatype) && (n == f.name)
      then some (resolve_type type_m f.datatype)
      else child_type n fs

  -- The type that the fields lead to along a path.
  unfoldable pub type_at : Option DataType → InstPath → Option DataType
  type_at o [] = o
  type_at o (n ∷ x) = type_at (o >>= λ t. child_type n (fields t)) x

  pub type_at-none : (x : InstPath) → type_at none x ≡ none
  unfolding type_at ◌>>=◌
  type_at-none [] = refl
  type_at-none (n ∷ x) = type_at-none x
