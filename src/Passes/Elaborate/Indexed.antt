-- ===== src/Passes/Elaborate/Indexed.antt =====
-- The index of `_instantiate` of src/zuspec/be/sw/passes/elaborate.py has an instance at each path
-- that the fields lead along, and at no other; and the recursion ends.
use zuspec_be_sw.Prelude.{
  ℕ, zero, suc, ◌<◌, ◌≡◌, refl, sym, subst, ◌∙◌, inl, inr, true, false, ◌==◌, ==_refl, Option, none,
  some, List, [], ◌∷◌, ◌++◌, arith, Bool-cases, Option-cases,
}
use zuspec_be_sw.Passes.Elaborate.Syntax.{
  DataType, Field, fields, is_component, name_of, empty_name, or_name, or_else, ◌>>=◌,
}
use zuspec_be_sw.Passes.Elaborate.Instances.{
  InstPath, CompInst, CompInsts, comp_inst, no_insts, inst_then, Index, inst_dtype, same_path,
  lookup_inst, resolve_type, instantiate_fields, instantiate,
}
use zuspec_be_sw.Passes.Elaborate.Paths.{
  below, after, below-append, same_path-below, below-same_path, lookup_inst-append, child_type,
  type_at, type_at-none,
}

-- The type of the instance at a path.
unfoldable pub type_found : InstPath → Index → Option DataType
type_found x m = lookup_inst x m >>= λ i. some (inst_dtype i)

type_found-append :
    (x : InstPath) (a b : Index) → type_found x (a ++ b) ≡ or_else (type_found x a) (type_found x b)
unfolding type_found or_else ◌>>=◌
type_found-append x a b = elim (Option-cases (lookup_inst x a)) [
  | inl e ↦ rw (lookup_inst-append x a b, e) refl
  | inr e ↦ rw (lookup_inst-append x a b, e.1) refl
]

or_none : (a : Option DataType) → or_else a none ≡ a
unfolding or_else
or_none none = refl
or_none (some a) = refl

module _ (type_m : List (ℕ × DataType)) where
  -- No component field has the name of a field before it.
  abbrev pub FieldsDistinct : List Field → Type 0
  FieldsDistinct [] = Unit
  FieldsDistinct (f ∷ fs) = (child_type type_m f.name fs ≡ none) × FieldsDistinct fs

  -- A name that a field before the others does not take leads to the same type with it.
  pub child_type-tail :
      (f : Field) (fs : List Field) (n : ℕ) (c : DataType)
      → child_type type_m f.name fs ≡ none
      → child_type type_m n fs ≡ some c
      → child_type type_m n (f ∷ fs) ≡ some c
  unfolding child_type
  child_type-tail f fs n c d k = elim (Bool-cases (n == f.name)) [
    | inl e ↦
        let same : n ≡ f.name = ground arith in
        let clash = subst (λ m. child_type type_m m fs ≡ some c) same k in cc
    | inr e ↦ elim (Bool-cases (is_component (resolve_type type_m f.datatype))) [
      | inl j ↦ rw (e, j) k
      | inr j ↦ rw (e, j) k
    ]
  ]

  -- Below a type, the names of fields are distinct, and a component field has a type of lower rank.
  pub record IsHierarchy (rank : DataType → ℕ) (top : DataType) : Type 0 where
    pub distinct :
        (x : InstPath) (t : DataType)
        → type_at type_m (some top) x ≡ some t
        → FieldsDistinct (fields t)
    pub lower :
        (x : InstPath) (t : DataType) (n : ℕ) (c : DataType)
        → type_at type_m (some top) x ≡ some t
        → child_type type_m n (fields t) ≡ some c
        → rank c < rank t

  hierarchy_child :
      {rank : DataType → ℕ} (t : DataType) (n : ℕ) (c : DataType)
      → child_type type_m n (fields t) ≡ some c
      → IsHierarchy rank t
      → IsHierarchy rank c
  unfolding type_at ◌>>=◌
  hierarchy_child t n c e h = record {
    distinct = λ x u k. h.distinct (n ∷ x) u (rw e k);
    lower = λ x u m d k. h.lower (n ∷ x) u m d (rw e k);
  }

  unfoldable pub reach : DataType → Option InstPath → Option DataType
  reach t none = none
  reach t (some x) = type_at type_m (some t) x

  unfoldable reach_fields : List Field → Option InstPath → Option DataType
  reach_fields fs none = none
  reach_fields fs (some []) = none
  reach_fields fs (some (n ∷ x)) = type_at type_m (child_type type_m n fs) x

  -- A field that is not in the way of the others.
  reach_fields-skip :
      (f : Field) (fs : List Field) (o : Option InstPath)
      → is_component (resolve_type type_m f.datatype) ≡ false
      → reach_fields (f ∷ fs) o ≡ reach_fields fs o
  unfolding reach_fields child_type
  reach_fields-skip f fs none e = refl
  reach_fields-skip f fs (some []) e = refl
  reach_fields-skip f fs (some (n ∷ x)) e = rw e refl

  reach_fields-step :
      (f : Field) (fs : List Field) (o : Option InstPath)
      → is_component (resolve_type type_m f.datatype) ≡ true
      → child_type type_m f.name fs ≡ none
      → or_else (reach_fields fs o) (reach (resolve_type type_m f.datatype) (after f.name o))
        ≡ reach_fields (f ∷ fs) o
  unfolding reach_fields reach after or_else child_type
  reach_fields-step f fs none e d = refl
  reach_fields-step f fs (some []) e d = refl
  reach_fields-step f fs (some (n ∷ x)) e d = elim (Bool-cases (n == f.name)) [
    | inl k ↦
        let same : n ≡ f.name = ground arith in
        rw (e, k) (rw (same, d) (rw (type_at-none type_m x) refl))
    | inr k ↦ rw (e, k) (or_none (type_at type_m (child_type type_m n fs) x))
  ]

  -- A call ends, and its part of the index is right.
  abbrev pub Instantiates :
      (DataType → InstPath → Option (CompInst × Index)) → DataType → InstPath → Type 0
  Instantiates rec t path =
      (r : CompInst × Index) × (rec t path ≡ some r)
      × (inst_dtype r.0 ≡ t)
      × ((x : InstPath) → type_found x r.1 ≡ reach t (below path x))

  instantiate_fields_lem :
      (rec : DataType → InstPath → Option (CompInst × Index)) (fs : List Field) (path : InstPath)
      → FieldsDistinct fs
      → ((n : ℕ) (c : DataType) (p : InstPath)
          → child_type type_m n fs ≡ some c
          → Instantiates rec c p)
      → (r : CompInsts × Index) × (instantiate_fields type_m rec fs path ≡ some r)
        × ((x : InstPath) → type_found x r.1 ≡ reach_fields fs (below path x))
  unfolding instantiate_fields type_found lookup_inst ◌>>=◌ reach_fields child_type
  instantiate_fields_lem rec [] path d h = ((no_insts, []), refl, λ x. nothing (below path x))
    where
      nothing : (o : Option InstPath) → none ≡ reach_fields [] o
      nothing none = refl
      nothing (some []) = refl
      nothing (some (n ∷ x)) = sym (type_at-none type_m x)
  instantiate_fields_lem rec (f ∷ fs) path (d, ds) h =
      let (later, e, found) =
        instantiate_fields_lem rec fs path ds (λ n c p k. h n c p (child_type-tail f fs n c d k)) in
      elim (Bool-cases (is_component (resolve_type type_m f.datatype))) [
        | inr k ↦
            (later, rw (k, e) refl, λ x. found x ∙ sym (reach_fields-skip f fs (below path x) k))
        | inl k ↦
            let (made, e', same, found') =
              h f.name (resolve_type type_m f.datatype) (path ++ (f.name ∷ [])) (head k) in
            (
              (inst_then made.0 later.0, later.1 ++ made.1),
              rw (k, e', e) refl,
              λ x.
                  type_found-append x later.1 made.1
                  ∙ rw (found x, found' x, below-append path f.name x)
                      (reach_fields-step f fs (below path x) k d),
            )
      ]
    where
      head :
          is_component (resolve_type type_m f.datatype) ≡ true
          → child_type type_m f.name (f ∷ fs) ≡ some (resolve_type type_m f.datatype)
      head k = rw (k, ==_refl f.name) refl

  reach-reach_fields :
      (t : DataType) (o : Option InstPath)
      → (o ≡ some [] → ⊥)
      → reach_fields (fields t) o ≡ reach t o
  unfolding reach reach_fields type_at ◌>>=◌
  reach-reach_fields t none h = refl
  reach-reach_fields t (some []) h = absurd (h refl)
  reach-reach_fields t (some (n ∷ x)) h = refl

  -- The instance of the type itself stands under everything below it.
  own_entry :
      (t : DataType) (inst : CompInst) (path x : InstPath) (a : Option DataType)
      → inst_dtype inst ≡ t
      → a ≡ reach_fields (fields t) (below path x)
      → or_else a (type_found x ((path, inst) ∷ [])) ≡ reach t (below path x)
  unfolding type_found lookup_inst or_else reach reach_fields type_at ◌>>=◌
  own_entry t inst path x a same e = elim (Bool-cases (same_path x path)) [
    | inl k ↦ let o = same_path-below x path k in rw (e, o, k) (rw same refl)
    | inr k ↦
        rw (e, k)
          (or_none _
            ∙ reach-reach_fields t (below path x) (λ o. let l = below-same_path x path o in cc))
  ]

  pub instantiate-reach :
      (fuel : ℕ) (rank : DataType → ℕ) (t : DataType) (path : InstPath)
      → IsHierarchy rank t
      → rank t < fuel
      → Instantiates (instantiate type_m fuel) t path
  unfolding instantiate inst_dtype type_at ◌>>=◌
  instantiate-reach zero rank t path h l = absurd (omega arith)
  instantiate-reach (suc n) rank t path h l =
      let (made, e, found) =
        instantiate_fields_lem (instantiate type_m n) (fields t) path (h.distinct [] t (refl))
          (λ m c p k.
            instantiate-reach n rank c p (hierarchy_child t m c k h)
              (omega (arith, h.lower [] t m c refl k))) in
      let inst = comp_inst (or_name (name_of t) empty_name) path t made.0 in
      (
        (inst, made.1 ++ ((path, inst) ∷ [])),
        rw e refl,
        refl,
        λ x.
            type_found-append x made.1 ((path, inst) ∷ [])
            ∙ own_entry t inst path x (type_found x made.1) refl (found x),
      )
