-- ===== src/Passes/Elaborate/Tests.antt =====
-- A top component with two sub-components, one of them by reference, and the theorems at it.
use mathlib.Core.List.{Memᴰ}
use zuspec_be_sw.Prelude.{
  ℕ, ◌-◌, ◌%◌, ◌<◌, ◌≡◌, refl, true, false, Option, none, some, List, [], ◌∷◌, arith,
}
use zuspec_be_sw.Passes.Elaborate.Syntax.{
  ref_field, self_ref, Bind, DataType, component, protocol, type_ref, no_fields, field_then,
  field_list, fields, name_of, binds, is_component, is_protocol, empty_name, or_name, lookup, ◌>>=◌,
}
use zuspec_be_sw.Passes.Elaborate.Instances.{
  or_type, resolve_type, components, field_refers, fields_refer, referenced, is_referenced, roots,
}
use zuspec_be_sw.Passes.Elaborate.Paths.{below, child_type}
use zuspec_be_sw.Passes.Elaborate.Indexed.{type_found, reach}
use zuspec_be_sw.Passes.Elaborate.Model.{AllModelled}
use zuspec_be_sw.Passes.Elaborate.Binds.{
  Connection, Context, nested_indices, decode_end, protocol_of, decode_bind, add_connection,
  elaborate_binds, run,
}
use zuspec_be_sw.Passes.Elaborate.Complete.{
  IsReady, run-reach, run-every_component, run-connections, run-nested_connections,
}

-- `str.lower` on the names here, of which those from 100 on are in upper case.
abbrev lower : ℕ → ℕ
lower n = n % 100

-- A pool with a port of the protocol 50.
abbrev pool : DataType
pool = component (some 141) (field_then 10 (type_ref 50) no_fields) []

-- `self.a.port` bound to `self.b.port`
abbrev bound : Bind
bound = record {
  lhs = ref_field (ref_field self_ref 0) 0;
  rhs = ref_field (ref_field self_ref 1) 0;
}

-- A component with two pools, which it binds.
abbrev core : DataType
core =
    component (some 142) (field_then 20 (type_ref 141) (field_then 21 pool no_fields)) (bound ∷ [])

-- The top, with a core and a pool, which it binds as well.
abbrev root : DataType
root =
    component (some 143)
      (field_then 30 pool (field_then 31 (type_ref 142) (field_then 32 pool no_fields)))
      (record { lhs = ref_field (ref_field self_ref 0) 0; rhs = ref_field (ref_field self_ref 2) 0 }
        ∷ [])

abbrev ctxt : Context
ctxt = record {
  type_m = (50, protocol (some 50)) ∷ (141, pool) ∷ (142, core) ∷ (143, root) ∷ [];
  root_inst = none;
  inst_m = [];
  connections = [];
}

abbrev named_rank : Option ℕ → ℕ
named_rank none = 0
named_rank (some n) = n - 140

abbrev rank : DataType → ℕ
unfolding name_of
rank t = named_rank (name_of t)

only_root : roots (components ctxt.type_m) (components ctxt.type_m) ≡ root ∷ []
unfolding roots components is_referenced referenced fields_refer field_refers fields field_list
    name_of is_component
only_root = refl

all_modelled : AllModelled ctxt.type_m rank (components ctxt.type_m)
unfolding components fields field_list name_of is_component lookup resolve_type or_type child_type
all_modelled = (
  ((141, refl, refl), (refl, tt), ((λ h. absurd (let no : false ≡ true = h in cc)), tt)),
  (
    (
      (142, refl, refl),
      (refl, (refl, tt)),
      ((λ h. (omega arith, (141, refl, refl))), ((λ h. (omega arith, (141, refl, refl))), tt)),
    ),
    (
      (
        (143, refl, refl),
        (refl, (refl, (refl, tt))),
        (
          (λ h. (omega arith, (141, refl, refl))),
          ((λ h. (omega arith, (142, refl, refl))), ((λ h. (omega arith, (141, refl, refl))), tt)),
        ),
      ),
      tt,
    ),
  ),
)

depth : (t : DataType) → Memᴰ t (components ctxt.type_m) → rank t < 4
unfolding components is_component name_of
depth t (Memᴰ.head e) = rw e (omega arith)
depth t (Memᴰ.tail (Memᴰ.head e)) = rw e (omega arith)
depth t (Memᴰ.tail (Memᴰ.tail (Memᴰ.head e))) = rw e (omega arith)
depth t (Memᴰ.tail (Memᴰ.tail (Memᴰ.tail k))) = elim k [ ]

ready : IsReady rank 4 ctxt root
ready = record { only = only_root; modelled = all_modelled; depth = depth; fresh = refl }

run-reach_example :
    (done : Context) × (run lower none 4 ctxt ≡ some done)
    × ((x : List ℕ) → type_found x done.inst_m ≡ reach ctxt.type_m root (below (43 ∷ []) x))
unfolding name_of or_name
run-reach_example = run-reach lower 4 ctxt root ready

run-every_component_example :
    (done : Context) × (x : List ℕ) × (run lower none 4 ctxt ≡ some done)
    × (type_found x done.inst_m ≡ some core)
unfolding components is_component
run-every_component_example =
    run-every_component lower 4 ctxt root ready core (Memᴰ.tail (Memᴰ.head refl))

abbrev conn : Connection
conn = record {
  initiator_component = 141;
  initiator_port = 10;
  initiator_inst_path = 43 ∷ 30 ∷ [];
  target_component = 141;
  target_export = 10;
  target_inst_path = 43 ∷ 32 ∷ [];
  protocol = some (protocol (some 50));
}

abbrev core_conn : Connection
core_conn = record {
  initiator_component = 141;
  initiator_port = 10;
  initiator_inst_path = 42 ∷ 20 ∷ [];
  target_component = 141;
  target_export = 10;
  target_inst_path = 42 ∷ 21 ∷ [];
  protocol = some (protocol (some 50));
}

run-connections_example :
    (done : Context) × (initiator target : DataType) × (run lower none 4 ctxt ≡ some done)
    × (type_found (43 ∷ 30 ∷ []) done.inst_m ≡ some initiator)
    × (or_name (name_of initiator) empty_name ≡ 141)
    × (type_found (43 ∷ 32 ∷ []) done.inst_m ≡ some target)
    × (or_name (name_of target) empty_name ≡ 141)
unfolding binds elaborate_binds add_connection decode_bind decode_end nested_indices protocol_of
    resolve_type or_type lookup fields field_list name_of or_name is_component is_protocol ◌>>=◌
run-connections_example =
    run-connections lower 4 ctxt root ready 143 refl (omega arith) conn (Memᴰ.head refl)

run-nested_connections_example :
    (done : Context) × (run lower none 4 ctxt ≡ some done)
    × (type_found (42 ∷ 20 ∷ []) done.inst_m ≡ none)
    × (type_found (42 ∷ 21 ∷ []) done.inst_m ≡ none)
unfolding binds elaborate_binds add_connection decode_bind decode_end nested_indices protocol_of
    resolve_type or_type lookup fields field_list name_of or_name is_component is_protocol ◌>>=◌
    child_type
run-nested_connections_example =
    run-nested_connections lower 4 ctxt root ready core core_conn (refl, (refl, tt)) (omega arith)
      (Memᴰ.head refl)
