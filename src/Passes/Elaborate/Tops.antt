-- ===== src/Passes/Elaborate/Tops.antt =====
-- The component that `_find_top` of src/zuspec/be/sw/passes/elaborate.py takes as the top, and the
-- components below it.
use mathlib.Core.List.{Memᴰ}
use zuspec_be_sw.Prelude.{
  ℕ, zero, suc, ◌+◌, ◌<◌, ◌≡◌, refl, sym, ap, subst, ◌∙◌, inl, inr, true, false, ==_refl, Option,
  none, some, List, [], ◌∷◌, ◌++◌, arith, Bool-cases,
}
use zuspec_be_sw.Passes.Elaborate.Syntax.{
  DataType, component, protocol, type_ref, other_type, Field, fields, name_of, is_component, lookup,
  or_else, ◌>>=◌,
}
use zuspec_be_sw.Passes.Elaborate.Instances.{
  InstPath, or_type, resolve_type, components, field_refers, fields_refer, referenced,
  is_referenced, roots, only_component, structural_root, find_top,
}
use zuspec_be_sw.Passes.Elaborate.Paths.{child_type, type_at}
use zuspec_be_sw.Passes.Elaborate.Indexed.{FieldsDistinct, child_type-tail}
use zuspec_be_sw.Passes.Elaborate.Model.{
  FieldsModelled, AllModelled, modelled_member, child_modelled,
}

module _ (type_m : List (ℕ × DataType)) where
  -- The component field by which a component refers to a name.
  record Referrer (n : ℕ) (c : DataType) (fs : List Field) : Type 0 where
    field_name : ℕ
    found : child_type type_m field_name fs ≡ some c

  field_refers-resolve_type :
      (n : ℕ) (c t : DataType)
      → lookup n type_m ≡ some c
      → field_refers n t ≡ true
      → (is_component (resolve_type type_m t) ≡ true
          → (m : ℕ) × (name_of (resolve_type type_m t) ≡ some m)
            × (lookup m type_m ≡ some (resolve_type type_m t)))
      → resolve_type type_m t ≡ c
  unfolding field_refers resolve_type or_type is_component name_of
  field_refers-resolve_type n c (type_ref m) l q h =
      let same : m ≡ n = ground arith in rw (same, l) refl
  field_refers-resolve_type n c (component (some m) fs bs) l q h =
      let same : m ≡ n = ground arith in
      let (k, e, found) = h refl in
      let key : k ≡ n = cc in
      let there : lookup n type_m ≡ some (component (some m) fs bs) = rw (sym key) found in cc
  field_refers-resolve_type n c (component none fs bs) l q h = absurd (cc)
  field_refers-resolve_type n c (protocol m) l q h = absurd (cc)
  field_refers-resolve_type n c (other_type m) l q h = absurd (cc)

  fields_refer-Referrer :
      (rank : DataType → ℕ) (p : DataType) (n : ℕ) (c : DataType) (fs : List Field)
      → name_of c ≡ some n
      → lookup n type_m ≡ some c
      → is_component c ≡ true
      → FieldsDistinct type_m fs
      → FieldsModelled type_m rank p fs
      → fields_refer n fs ≡ true
      → Referrer n c fs
  unfolding fields_refer child_type
  fields_refer-Referrer rank p n c [] e l k d h r = absurd (let no : false ≡ true = r in cc)
  fields_refer-Referrer rank p n c (f ∷ fs) e l k (d, ds) (h, hs) r =
      elim (Bool-cases (field_refers n f.datatype)) [
        | inl q ↦
            let same = field_refers-resolve_type n c f.datatype l q (λ j. (h j).1) in
            let comp = subst (λ t. is_component t ≡ true) (sym same) k in
            record { field_name = f.name; found = rw (comp, ==_refl f.name) (ap some same) }
        | inr q ↦
            let deep = fields_refer-Referrer rank p n c fs e l k ds hs (ground arith) in
            record {
              field_name = deep.field_name;
              found = child_type-tail type_m f fs deep.field_name c d deep.found;
            }
      ]

  -- A component of the model with a field that names another one.
  record Parent (c : DataType) (cs : List DataType) : Type 0 where
    parent : DataType
    member : Memᴰ parent cs
    field_name : ℕ
    found : child_type type_m field_name (fields parent) ≡ some c

  referenced-Parent :
      (rank : DataType → ℕ) (n : ℕ) (c : DataType) (cs : List DataType)
      → name_of c ≡ some n
      → lookup n type_m ≡ some c
      → is_component c ≡ true
      → AllModelled type_m rank cs
      → referenced n cs ≡ true
      → Parent c cs
  unfolding referenced
  referenced-Parent rank n c [] e l k h r = absurd (cc)
  referenced-Parent rank n c (p ∷ cs) e l k (h, hs) r =
      elim (Bool-cases (fields_refer n (fields p))) [
        | inl q ↦
            let ref = fields_refer-Referrer rank p n c (fields p) e l k (h.1) (h.2) q in
            record {
              parent = p;
              member = Memᴰ.head refl;
              field_name = ref.field_name;
              found = ref.found;
            }
        | inr q ↦
            let up = referenced-Parent rank n c cs e l k hs (ground arith) in
            record {
              parent = up.parent;
              member = Memᴰ.tail up.member;
              field_name = up.field_name;
              found = up.found;
            }
      ]

  root_member :
      (all cs : List DataType) (c : DataType)
      → Memᴰ c cs
      → is_referenced all c ≡ false
      → Memᴰ c (roots all cs)
  unfolding roots
  root_member all [] c k e = elim k [ ]
  root_member all (d ∷ cs) c (Memᴰ.head h) e =
      rw (subst (λ t. is_referenced all t ≡ false) h e) (Memᴰ.head h)
  root_member all (d ∷ cs) c (Memᴰ.tail k) e = elim (Bool-cases (is_referenced all d)) [
    | inl q ↦ rw q (root_member all cs c k e)
    | inr q ↦ rw q (Memᴰ.tail (root_member all cs c k e))
  ]

  member_first :
      (t c : DataType) (l : List DataType)
      → is_component t ≡ true
      → (Memᴰ c l → is_component c ≡ true)
      → Memᴰ c (t ∷ l)
      → is_component c ≡ true
  member_first t c l e rest (Memᴰ.head h) = subst (λ u. is_component u ≡ true) (sym h) e
  member_first t c l e rest (Memᴰ.tail j) = rest j

  member_component :
      (m : List (ℕ × DataType)) (c : DataType) → Memᴰ c (components m) → is_component c ≡ true
  unfolding components
  member_component [] c k = elim k [ ]
  member_component ((n, t) ∷ m) c k = elim (Bool-cases (is_component t)) [
    | inl e ↦
        member_first t c (components m) e (member_component m c)
          (subst (λ l. Memᴰ c l) (rw e refl) k)
    | inr e ↦ member_component m c (subst (λ l. Memᴰ c l) (rw e refl) k)
  ]

  type_at-append :
      (o : Option DataType) (x : InstPath) (n : ℕ) (u : DataType)
      → type_at type_m o x ≡ some u
      → type_at type_m o (x ++ (n ∷ [])) ≡ child_type type_m n (fields u)
  unfolding type_at ◌>>=◌
  type_at-append o [] n u e = rw e refl
  type_at-append o (m ∷ x) n u e =
      type_at-append (o >>= λ t. child_type type_m m (fields t)) x n u e

  member_only : {c r : DataType} → Memᴰ c (r ∷ []) → c ≡ r
  member_only (Memᴰ.head e) = e
  member_only (Memᴰ.tail k) = elim k [ ]

  -- Every component stands below the one that no other refers to.
  pub root_reaches :
      (steps bound : ℕ) (rank : DataType → ℕ) (r c : DataType)
      → roots (components type_m) (components type_m) ≡ r ∷ []
      → AllModelled type_m rank (components type_m)
      → ((t : DataType) → Memᴰ t (components type_m) → rank t < bound)
      → Memᴰ c (components type_m)
      → bound < steps + rank c
      → (x : InstPath) × (type_at type_m (some r) x ≡ some c)
  unfolding is_referenced type_at
  root_reaches zero bound rank r c only h b k l = absurd (omega (arith, b c k))
  root_reaches (suc s) bound rank r c only h b k l =
      let all = components type_m in
      let ((n, e, found), ds, model) = modelled_member type_m rank all h k in
      elim (Bool-cases (referenced n all)) [
        | inr q ↦
            let there = root_member all all c k (rw (e, is_referenced) q) in
            ([], ap some (sym (member_only (subst (λ l. Memᴰ c l) only there))))
        | inl q ↦
            let up = referenced-Parent rank n c all e found (member_component type_m c k) h q in
            let above = modelled_member type_m rank all h up.member in
            let below =
              child_modelled type_m rank up.parent up.field_name (fields up.parent) c (above.2)
                up.found in
            let (x, at) =
              root_reaches s bound rank r up.parent only h b up.member (omega (arith, below.1)) in
            (
              x ++ (up.field_name ∷ []),
              type_at-append (some r) x up.field_name up.parent at ∙ up.found,
            )
      ]

  roots_head :
      (all cs : List DataType) (r : DataType) (rs : List DataType)
      → roots all cs ≡ r ∷ rs
      → Memᴰ r cs
  unfolding roots
  roots_head all [] r rs e = absurd (cc)
  roots_head all (c ∷ cs) r rs e = elim (Bool-cases (is_referenced all c)) [
    | inl q ↦ Memᴰ.tail (roots_head all cs r rs (subst (λ l. l ≡ r ∷ rs) (rw q refl) e))
    | inr q ↦
        let f : c ∷ roots all cs ≡ r ∷ rs = subst (λ l. l ≡ r ∷ rs) (rw q refl) e in Memᴰ.head (cc)
  ]

  -- The top is the component that no other refers to.
  pub find_top-roots :
      (r : DataType)
      → roots (components type_m) (components type_m) ≡ r ∷ []
      → (find_top none type_m ≡ some r) × Memᴰ r (components type_m)
  unfolding find_top structural_root only_component or_else
  find_top-roots r e = (
    structural (components type_m) e (roots_head (components type_m) (components type_m) r [] e),
    roots_head (components type_m) (components type_m) r [] e,
  )
    where
      structural :
          (cs : List DataType) → roots cs cs ≡ r ∷ [] → Memᴰ r cs → structural_root cs ≡ some r
      structural [] q k = elim k [ ]
      structural (c ∷ []) q k = ap some (sym (member_only k))
      structural (c ∷ d ∷ cs) q k = rw (q, only_component) refl
