-- ===== src/Passes/Elaborate/Binds.antt =====
-- `_decode_bind`, `_elaborate_binds` and `run` of src/zuspec/be/sw/passes/elaborate.py.
use zuspec_be_sw.Prelude.{ℕ, if◌then◌else◌, Option, none, some, List, [], ◌∷◌, ◌++◌, get_elem?}
use zuspec_be_sw.Passes.Elaborate.Syntax.{
  Ref, ref_field, Bind, DataType, Field, fields, name_of, binds, is_component, is_protocol,
  empty_name, top_word, or_name, ◌>>=◌,
}
use zuspec_be_sw.Passes.Elaborate.Instances.{
  InstPath, CompInst, Index, resolve_type, components, find_top, instantiate,
}

-- `SwConnection`
pub record Connection : Type 0 where
  pub initiator_component : ℕ
  pub initiator_port : ℕ
  pub initiator_inst_path : InstPath
  pub target_component : ℕ
  pub target_export : ℕ
  pub target_inst_path : InstPath
  pub protocol : Option DataType

-- What the pass reads and writes of `SwContext`.
pub record Context : Type 0 where
  pub type_m : List (ℕ × DataType)
  pub root_inst : Option CompInst
  pub inst_m : Index
  pub connections : List Connection

-- One side of a bind: the field of the sub-component, its type and the port or export in it.
pub record End : Type 0 where
  pub sub_field : Field
  pub sub_type : DataType
  pub port : Field

-- The two indices of a doubly nested `ExprRefField`. What stands below them is not looked at.
unfoldable pub nested_indices : Ref → Option (ℕ × ℕ)
nested_indices (ref_field (ref_field base sub) port) = some (sub, port)
nested_indices r = none

unfoldable pub add_connection : Option Connection → List Connection → List Connection
add_connection none rest = rest
add_connection (some c) rest = c ∷ rest

-- `lower` is `str.lower` on names.
module _ (lower : ℕ → ℕ) (type_m : List (ℕ × DataType)) where
  unfoldable pub decode_end : List Field → ℕ × ℕ → Option End
  decode_end owner_fields (sub, port) = do
    f ← get_elem? owner_fields sub
    let t = resolve_type type_m f.datatype
    p ← (if is_component t then get_elem? (fields t) port else none)
    some (record { sub_field = f; sub_type = t; port = p })

  unfoldable pub protocol_of : Field → Field → Option DataType
  protocol_of port export =
      let shared = resolve_type type_m port.datatype in
      let other = resolve_type type_m export.datatype in
      if is_protocol shared then some shared else (if is_protocol other then some other else none)

  unfoldable pub decode_bind : Bind → DataType → List Field → Option Connection
  decode_bind bind owner owner_fields = do
    lhs ← nested_indices bind.lhs
    rhs ← nested_indices bind.rhs
    port ← decode_end owner_fields lhs
    export ← decode_end owner_fields rhs
    let owner_name = lower (or_name (name_of owner) empty_name)
    some (record {
      initiator_component = or_name (name_of port.sub_type) empty_name;
      initiator_port = port.port.name;
      initiator_inst_path = owner_name ∷ port.sub_field.name ∷ [];
      target_component = or_name (name_of export.sub_type) empty_name;
      target_export = export.port.name;
      target_inst_path = owner_name ∷ export.sub_field.name ∷ [];
      protocol = protocol_of port.port export.port;
    })

  unfoldable pub elaborate_binds : DataType → List Bind → List Connection
  elaborate_binds owner [] = []
  elaborate_binds owner (b ∷ bs) =
      add_connection (decode_bind b owner (fields owner)) (elaborate_binds owner bs)

  unfoldable pub all_binds : List DataType → List Connection
  all_binds [] = []
  all_binds (c ∷ cs) = elaborate_binds c (binds c) ++ all_binds cs

unfoldable pub elaborated : (ℕ → ℕ) → Context → CompInst × Index → Context
elaborated lower ctxt made = record {
  type_m = ctxt.type_m;
  root_inst = some made.0;
  inst_m = made.1 ++ ctxt.inst_m;
  connections = ctxt.connections ++ all_binds lower ctxt.type_m (components ctxt.type_m);
}

-- The result is `none` where the recursion of `_instantiate` goes deeper than the fuel.
unfoldable pub run_top : (ℕ → ℕ) → ℕ → Context → Option DataType → Option Context
run_top lower fuel ctxt none = some ctxt
run_top lower fuel ctxt (some top) = do
  made ← instantiate ctxt.type_m fuel top (lower (or_name (name_of top) top_word) ∷ [])
  some (elaborated lower ctxt made)

unfoldable pub run : (ℕ → ℕ) → Option ℕ → ℕ → Context → Option Context
run lower top_name fuel ctxt = run_top lower fuel ctxt (find_top top_name ctxt.type_m)
