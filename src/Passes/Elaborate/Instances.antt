-- ===== src/Passes/Elaborate/Instances.antt =====
-- `_find_top`, `_resolve_type` and `_instantiate` of src/zuspec/be/sw/passes/elaborate.py.
use zuspec_be_sw.Prelude.{
  ℕ, zero, suc, Bool, true, false, not, if◌then◌else◌, ◌==◌, ◌&&◌, ◌||◌, Option, none, some, List,
  [], ◌∷◌, ◌++◌,
}
use zuspec_be_sw.Passes.Elaborate.Syntax.{
  DataType, component, type_ref, Field, fields, name_of, is_component, empty_name, or_name, lookup,
  or_else, ◌>>=◌,
}

-- The segments of an instance path, which the code joins with dots.
abbrev pub InstPath : Type 0
InstPath = List ℕ

-- An instance has its type's name, its path, its type and its children; `active` is true at each.
mutual
  pub data CompInst : Type 0 where
    comp_inst : ℕ → InstPath → DataType → CompInsts → CompInst

  pub data CompInsts : Type 0 where
    no_insts : CompInsts
    inst_then : CompInst → CompInsts → CompInsts

unfoldable pub inst_dtype : CompInst → DataType
inst_dtype (comp_inst n p t cs) = t

unfoldable pub inst_type_name : CompInst → ℕ
inst_type_name (comp_inst n p t cs) = n

-- `inst_m`: its assignments, the newest first. The code enters an instance before its children are
-- appended to it; the entry is the object itself, so that it has them in the end.
abbrev pub Index : Type 0
Index = List (InstPath × CompInst)

unfoldable pub same_path : InstPath → InstPath → Bool
same_path [] [] = true
same_path (x ∷ p) (y ∷ q) = (x == y) && same_path p q
same_path p q = false

unfoldable pub lookup_inst : InstPath → Index → Option CompInst
lookup_inst x [] = none
lookup_inst x ((p, i) ∷ r) = if same_path x p then some i else lookup_inst x r

unfoldable pub or_type : Option DataType → DataType → DataType
or_type none d = d
or_type (some t) d = t

module _ (type_m : List (ℕ × DataType)) where
  unfoldable pub resolve_type : DataType → DataType
  resolve_type (type_ref n) = or_type (lookup n type_m) (type_ref n)
  resolve_type t = t

  unfoldable pub instantiate_fields :
      (DataType → InstPath → Option (CompInst × Index))
      → List Field
      → InstPath
      → Option (CompInsts × Index)
  instantiate_fields rec [] path = some (no_insts, [])
  instantiate_fields rec (f ∷ fs) path =
      let rest = instantiate_fields rec fs path in
      if is_component (resolve_type f.datatype)
      then (do
        made ← rec (resolve_type f.datatype) (path ++ (f.name ∷ []))
        later ← rest
        some (inst_then made.0 later.0, later.1 ++ made.1))
      else rest

  -- The recursion is on fuel; without any left, the code's recursion goes deeper still.
  unfoldable pub instantiate : ℕ → DataType → InstPath → Option (CompInst × Index)
  instantiate zero t path = none
  instantiate (suc n) t path = do
    made ← instantiate_fields (instantiate n) (fields t) path
    let inst = comp_inst (or_name (name_of t) empty_name) path t made.0
    some (inst, made.1 ++ ((path, inst) ∷ []))

unfoldable pub components : List (ℕ × DataType) → List DataType
components [] = []
components ((k, t) ∷ r) = if is_component t then t ∷ components r else components r

unfoldable pub name_is : ℕ → Option ℕ → Bool
name_is n none = false
name_is n (some k) = k == n

unfoldable pub named_component : ℕ → List DataType → Option DataType
named_component n [] = none
named_component n (c ∷ cs) = if name_is n (name_of c) then some c else named_component n cs

-- The name that a field adds to `referenced`.
unfoldable pub field_refers : ℕ → DataType → Bool
field_refers n (type_ref k) = k == n
field_refers n (component (some k) fs bs) = (k == n) && not (k == empty_name)
field_refers n t = false

unfoldable pub fields_refer : ℕ → List Field → Bool
fields_refer n [] = false
fields_refer n (f ∷ fs) = field_refers n f.datatype || fields_refer n fs

unfoldable pub referenced : ℕ → List DataType → Bool
referenced n [] = false
referenced n (c ∷ cs) = fields_refer n (fields c) || referenced n cs

unfoldable pub is_referenced : List DataType → DataType → Bool
is_referenced cs c = elim (name_of c) [ none ↦ false | some n ↦ referenced n cs ]

-- `roots`, for the components `all`.
unfoldable pub roots : List DataType → List DataType → List DataType
roots all [] = []
roots all (c ∷ cs) = if is_referenced all c then roots all cs else c ∷ roots all cs

unfoldable pub last_component : List DataType → Option DataType
last_component [] = none
last_component (c ∷ []) = some c
last_component (c ∷ d ∷ cs) = last_component (d ∷ cs)

unfoldable pub only_component : List DataType → Option DataType
only_component (c ∷ []) = some c
only_component cs = none

unfoldable pub structural_root : List DataType → Option DataType
structural_root cs =
    or_else (only_component cs) (or_else (only_component (roots cs cs)) (last_component cs))

-- `top_name` is `config.get("top")`.
unfoldable pub find_top : Option ℕ → List (ℕ × DataType) → Option DataType
find_top none type_m = structural_root (components type_m)
find_top (some n) type_m =
    if n == empty_name
    then structural_root (components type_m)
    else named_component n (components type_m)
