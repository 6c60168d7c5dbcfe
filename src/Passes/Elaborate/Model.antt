-- ===== src/Passes/Elaborate/Model.antt =====
-- A model for src/zuspec/be/sw/passes/elaborate.py in which no component contains itself.
use mathlib.Core.List.{Memᴰ}
use zuspec_be_sw.Prelude.{
  ℕ, ◌<◌, ◌≡◌, sym, ap, subst, ◌∙◌, inl, inr, true, ◌==◌, ◌&&◌, none, some, List, [], ◌∷◌, arith,
  Bool-cases, Option-cases,
}
use zuspec_be_sw.Passes.Elaborate.Syntax.{
  DataType, Field, fields, name_of, is_component, lookup, ◌>>=◌,
}
use zuspec_be_sw.Passes.Elaborate.Instances.{InstPath, resolve_type, components}
use zuspec_be_sw.Passes.Elaborate.Paths.{child_type, type_at, type_at-none}
use zuspec_be_sw.Passes.Elaborate.Indexed.{FieldsDistinct, IsHierarchy}

module _ (type_m : List (ℕ × DataType)) where
  -- The component types of fields are the types of the model under their names, and of lower rank.
  abbrev pub FieldsModelled : (DataType → ℕ) → DataType → List Field → Type 0
  FieldsModelled rank c [] = Unit
  FieldsModelled rank c (f ∷ fs) =
      (is_component (resolve_type type_m f.datatype) ≡ true
        → (rank (resolve_type type_m f.datatype) < rank c)
          × ((n : ℕ) × (name_of (resolve_type type_m f.datatype) ≡ some n)
              × (lookup n type_m ≡ some (resolve_type type_m f.datatype))))
      × FieldsModelled rank c fs

  -- A component stands under its name, its fields have distinct names, and no component contains
  -- itself.
  abbrev pub ComponentModelled : (DataType → ℕ) → DataType → Type 0
  ComponentModelled rank c =
      ((n : ℕ) × (name_of c ≡ some n) × (lookup n type_m ≡ some c))
      × FieldsDistinct type_m (fields c)
      × FieldsModelled rank c (fields c)

  abbrev pub AllModelled : (DataType → ℕ) → List DataType → Type 0
  AllModelled rank [] = Unit
  AllModelled rank (c ∷ cs) = ComponentModelled rank c × AllModelled rank cs

  pub modelled_member :
      (rank : DataType → ℕ) (cs : List DataType) {c : DataType}
      → AllModelled rank cs
      → Memᴰ c cs
      → ComponentModelled rank c
  modelled_member rank [] h k = elim k [ ]
  modelled_member rank (d ∷ cs) (h, hs) (Memᴰ.head e) = subst (ComponentModelled rank) (sym e) h
  modelled_member rank (d ∷ cs) (h, hs) (Memᴰ.tail k) = modelled_member rank cs hs k

  -- A field of a component leads to a component of lower rank that the model holds.
  pub child_modelled :
      (rank : DataType → ℕ) (c : DataType) (n : ℕ) (fs : List Field) (d : DataType)
      → FieldsModelled rank c fs
      → child_type type_m n fs ≡ some d
      → (is_component d ≡ true) × (rank d < rank c) × ((k : ℕ) × (lookup k type_m ≡ some d))
  unfolding child_type
  child_modelled rank c n [] d h e = absurd (cc)
  child_modelled rank c n (f ∷ fs) d (h, hs) e =
      elim (Bool-cases (is_component (resolve_type type_m f.datatype) && (n == f.name))) [
        | inl k ↦
            let comp : is_component (resolve_type type_m f.datatype) ≡ true = ground arith in
            let (low, (m, named, found)) = h comp in
            let same : resolve_type type_m f.datatype ≡ d = ground arith in
            (
              subst (λ t. is_component t ≡ true) same comp,
              subst (λ t. rank t < rank c) same low,
              (m, found ∙ ap some same),
            )
        | inr k ↦ child_modelled rank c n fs d hs (ground arith)
      ]

  pub lookup_member :
      (n : ℕ) (m : List (ℕ × DataType)) (t : DataType)
      → lookup n m ≡ some t
      → is_component t ≡ true
      → Memᴰ t (components m)
  unfolding lookup components
  lookup_member n [] t e k = absurd (cc)
  lookup_member n ((j, u) ∷ m) t e k = elim (Bool-cases (n == j)) [
    | inl q ↦
        let same : t ≡ u = ground arith in
        rw (subst (λ x. is_component x ≡ true) same k) (Memᴰ.head same)
    | inr q ↦ elim (Bool-cases (is_component u)) [
      | inl r ↦ rw r (Memᴰ.tail (lookup_member n m t (ground arith) k))
      | inr r ↦ rw r (lookup_member n m t (ground arith) k)
    ]
  ]

  -- What the fields of a component lead to is a component of the model.
  pub path_member :
      (rank : DataType → ℕ) (t : DataType) (x : InstPath) {u : DataType}
      → AllModelled rank (components type_m)
      → Memᴰ t (components type_m)
      → type_at type_m (some t) x ≡ some u
      → Memᴰ u (components type_m)
  unfolding type_at ◌>>=◌
  path_member rank t [] {u} h k e = subst (λ z. Memᴰ z (components type_m)) (cc) k
  path_member rank t (n ∷ x) {u} h k e = elim (Option-cases (child_type type_m n (fields t))) [
    | inl j ↦
        let none_there : type_at type_m none x ≡ some u = rw (sym j) e in
        absurd (let l = type_at-none type_m x in cc)
    | inr j ↦
        let model = modelled_member rank (components type_m) h k in
        let (comp, low, (m, found)) = child_modelled rank t n (fields t) j.0 (model.2) (j.1) in
        path_member rank j.0 x h (lookup_member m type_m j.0 found comp) (rw (sym (j.1)) e)
  ]

  pub modelled-IsHierarchy :
      (rank : DataType → ℕ) (t : DataType)
      → AllModelled rank (components type_m)
      → Memᴰ t (components type_m)
      → IsHierarchy type_m rank t
  modelled-IsHierarchy rank t h k = record {
    distinct = λ x u e. (modelled_member rank (components type_m) h (path_member rank t x h k e)).1;
    lower = λ x u n c e j.
        (child_modelled rank u n (fields u) c
          (modelled_member rank (components type_m) h (path_member rank t x h k e)).2 j).1;
  }
