-- ===== src/Passes/Elaborate/Decoded.antt =====
-- What a bind that `_decode_bind` of src/zuspec/be/sw/passes/elaborate.py takes refers to.
use mathlib.Core.List.{Memᴰ}
use zuspec_be_sw.Prelude.{
  ℕ, zero, suc, ◌≡◌, refl, sym, ap, subst, ◌∙◌, Bool, true, false, if◌then◌else◌, ==_refl, Option,
  none, some, List, [], ◌∷◌, get_elem?,
}
use zuspec_be_sw.Passes.Elaborate.Syntax.{
  Bind, DataType, Field, fields, name_of, is_component, empty_name, or_name, >>=-some,
}
use zuspec_be_sw.Passes.Elaborate.Instances.{resolve_type}
use zuspec_be_sw.Passes.Elaborate.Paths.{child_type}
use zuspec_be_sw.Passes.Elaborate.Indexed.{FieldsDistinct, child_type-tail}
use zuspec_be_sw.Passes.Elaborate.Binds.{
  Connection, End, nested_indices, decode_end, decode_bind, add_connection, elaborate_binds,
}

some_injective {ℓ} : {A : Type ℓ} {a b : A} → some a ≡ some b → a ≡ b
some_injective e = cc

only_then {ℓ} :
    {A : Type ℓ} (b : Bool) (o : Option A) (a : A) → (if b then o else none) ≡ some a → b ≡ true
only_then true o a e = refl
only_then false o a e = absurd (cc)

module _ (lower : ℕ → ℕ) (type_m : List (ℕ × DataType)) where
  child_type-get_elem? :
      (fs : List Field) (i : ℕ) (f : Field)
      → FieldsDistinct type_m fs
      → get_elem? fs i ≡ some f
      → is_component (resolve_type type_m f.datatype) ≡ true
      → child_type type_m f.name fs ≡ some (resolve_type type_m f.datatype)
  unfolding child_type
  child_type-get_elem? [] i f d e k = absurd (cc)
  child_type-get_elem? (g ∷ fs) zero f d e k =
      let same : g ≡ f = cc in
      subst (λ h. child_type type_m f.name (h ∷ fs) ≡ some (resolve_type type_m f.datatype))
        (sym same) (rw (k, ==_refl f.name) refl)
  child_type-get_elem? (g ∷ fs) (suc i) f (d, ds) e k =
      child_type-tail type_m g fs f.name (resolve_type type_m f.datatype) d
        (child_type-get_elem? fs i f ds e k)

  -- The sub-component that one side of a bind refers to.
  decode_end-child_type :
      (fs : List Field) (ij : ℕ × ℕ) (e : End)
      → FieldsDistinct type_m fs
      → decode_end lower type_m fs ij ≡ some e
      → child_type type_m e.sub_field.name fs ≡ some e.sub_type
  unfolding decode_end
  decode_end-child_type fs (i, j) e d h =
      let (f, there, h') = >>=-some (get_elem? fs i) _ e h in
      let (p, port, h'') =
        >>=-some
          (if is_component (resolve_type type_m f.datatype)
            then get_elem? (fields (resolve_type type_m f.datatype)) j
            else none)
          _ e h' in
      let comp : is_component (resolve_type type_m f.datatype) ≡ true = only_then _ _ p port in
      subst (λ (z : End). child_type type_m z.sub_field.name fs ≡ some z.sub_type)
        (some_injective h'') (child_type-get_elem? fs i f d there comp)

  -- A bind that is taken, with its two ends.
  pub record Decoded (owner : DataType) (fs : List Field) (conn : Connection) : Type 0 where
    pub initiator : End
    pub target : End
    pub initiator_found : child_type type_m initiator.sub_field.name fs ≡ some initiator.sub_type
    pub target_found : child_type type_m target.sub_field.name fs ≡ some target.sub_type
    pub initiator_path :
        conn.initiator_inst_path
        ≡ lower (or_name (name_of owner) empty_name) ∷ initiator.sub_field.name ∷ []
    pub target_path :
        conn.target_inst_path
        ≡ lower (or_name (name_of owner) empty_name) ∷ target.sub_field.name ∷ []
    pub initiator_type : conn.initiator_component ≡ or_name (name_of initiator.sub_type) empty_name
    pub target_type : conn.target_component ≡ or_name (name_of target.sub_type) empty_name

  decode_bind-Decoded :
      (b : Bind) (owner : DataType) (fs : List Field) (conn : Connection)
      → FieldsDistinct type_m fs
      → decode_bind lower type_m b owner fs ≡ some conn
      → Decoded owner fs conn
  unfolding decode_bind
  decode_bind-Decoded b owner fs conn d h =
      let (lhs, e, h1) = >>=-some (nested_indices b.lhs) _ conn h in
      let (rhs, e', h2) = >>=-some (nested_indices b.rhs) _ conn h1 in
      let (port, left, h3) = >>=-some (decode_end lower type_m fs lhs) _ conn h2 in
      let (export, right, h4) = >>=-some (decode_end lower type_m fs rhs) _ conn h3 in
      let same = some_injective h4 in
      record {
        initiator = port;
        target = export;
        initiator_found = decode_end-child_type fs lhs port d left;
        target_found = decode_end-child_type fs rhs export d right;
        initiator_path = ap (λ (c : Connection). c.initiator_inst_path) (sym same);
        target_path = ap (λ (c : Connection). c.target_inst_path) (sym same);
        initiator_type = ap (λ (c : Connection). c.initiator_component) (sym same);
        target_type = ap (λ (c : Connection). c.target_component) (sym same);
      }

  pub elaborate_binds-Decoded :
      (owner : DataType) (bs : List Bind) (conn : Connection)
      → FieldsDistinct type_m (fields owner)
      → Memᴰ conn (elaborate_binds lower type_m owner bs)
      → Decoded owner (fields owner) conn
  unfolding elaborate_binds add_connection
  elaborate_binds-Decoded owner [] conn d k = elim k [ ]
  elaborate_binds-Decoded owner (b ∷ bs) conn d k =
      go (decode_bind lower type_m b owner (fields owner)) refl k
        (elaborate_binds-Decoded owner bs conn d)
    where
      go :
          (o : Option Connection)
          → decode_bind lower type_m b owner (fields owner) ≡ o
          → Memᴰ conn (add_connection o (elaborate_binds lower type_m owner bs))
          → (Memᴰ conn (elaborate_binds lower type_m owner bs) → Decoded owner (fields owner) conn)
          → Decoded owner (fields owner) conn
      go none e j rest = rest j
      go (some c) e (Memᴰ.head q) rest =
          decode_bind-Decoded b owner (fields owner) conn d (e ∙ ap some (sym q))
      go (some c) e (Memᴰ.tail j) rest = rest j
