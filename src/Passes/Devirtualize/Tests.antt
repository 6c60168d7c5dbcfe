-- ===== src/Passes/Devirtualize/Tests.antt =====
-- Two ports, one of them bound twice, and a component that binds its two pools, with the theorems on
-- src/zuspec/be/sw/passes/devirtualize.py at them.
use mathlib.Core.List.{Memᴰ}
use zuspec_be_sw.Prelude.{
  ℕ, ◌-◌, ◌%◌, ◌<◌, ◌≡◌, refl, sym, subst, inl, inr, ◌⊎◌, true, false, Option, none, some, List, [],
  ◌∷◌, arith,
}
use zuspec_be_sw.Passes.Elaborate.Syntax.{
  ref_field, self_ref, DataType, component, protocol, type_ref, no_fields, field_then, field_list,
  fields, name_of, binds, is_component, is_protocol, empty_name, or_name, lookup, ◌>>=◌,
}
use zuspec_be_sw.Passes.Elaborate.Instances.{
  or_type, resolve_type, components, field_refers, fields_refer, referenced, is_referenced, roots,
}
use zuspec_be_sw.Passes.Elaborate.Paths.{child_type}
use zuspec_be_sw.Passes.Elaborate.Indexed.{type_found}
use zuspec_be_sw.Passes.Elaborate.Model.{AllModelled}
use zuspec_be_sw.Passes.Elaborate.Binds.{
  Connection, Context, nested_indices, decode_end, protocol_of, decode_bind, add_connection,
  elaborate_binds, all_binds, run,
}
use zuspec_be_sw.Passes.Elaborate.Complete.{IsReady, run-reach, run-all_binds}
use zuspec_be_sw.Passes.Devirtualize.{
  run_devirtualize, direct_call, connections_of, only_or, run_devirtualize-direct_call, port_map,
  add_port, key_of, same_key, record_direct, assign_direct,
}
use zuspec_be_sw.Passes.Devirtualize.Direct.{run_devirtualize-run}

abbrev link : ℕ → ℕ → ℕ → Connection
link source port target = record {
  initiator_component = source;
  initiator_port = port;
  initiator_inst_path = 1 ∷ [];
  target_component = target;
  target_export = 5;
  target_inst_path = 2 ∷ [];
  protocol = none;
}

abbrev links : List Connection
links = link 10 3 20 ∷ link 10 4 21 ∷ link 10 3 22 ∷ link 10 3 23 ∷ []

calls_at_links : run_devirtualize links [] ≡ ((10, 4), link 10 4 21) ∷ []
unfolding run_devirtualize port_map add_port key_of same_key record_direct assign_direct
calls_at_links = refl

run_devirtualize-direct_call_example :
    direct_call (10, 3) (run_devirtualize links [])
    ≡ only_or (connections_of (10, 3) links) (direct_call (10, 3) [])
run_devirtualize-direct_call_example = run_devirtualize-direct_call (10, 3) links []

abbrev lower : ℕ → ℕ
lower n = n % 100

abbrev pool : DataType
pool = component (some 141) (field_then 10 (type_ref 50) no_fields) []

-- `self.a.port` bound to `self.b.port`, where `b` is a reference
abbrev root : DataType
root = component (some 143) (field_then 30 pool (field_then 31 (type_ref 141) no_fields)) (
    record { lhs = ref_field (ref_field self_ref 0) 0; rhs = ref_field (ref_field self_ref 1) 0 }
    ∷ [])

abbrev ctxt : Context
ctxt = record {
  type_m = (50, protocol (some 50)) ∷ (141, pool) ∷ (143, root) ∷ [];
  root_inst = none;
  inst_m = [];
  connections = [];
}

abbrev named_rank : Option ℕ → ℕ
named_rank none = 0
named_rank (some n) = n - 140

abbrev rank : DataType → ℕ
unfolding name_of
rank t = named_rank (name_of t)

only_root : roots (components ctxt.type_m) (components ctxt.type_m) ≡ root ∷ []
unfolding roots components is_referenced referenced fields_refer field_refers fields field_list
    name_of is_component
only_root = refl

all_modelled : AllModelled ctxt.type_m rank (components ctxt.type_m)
unfolding components fields field_list name_of is_component lookup resolve_type or_type child_type
all_modelled = (
  ((141, refl, refl), (refl, tt), ((λ h. absurd (let no : false ≡ true = h in cc)), tt)),
  (
    (
      (143, refl, refl),
      (refl, (refl, tt)),
      ((λ h. (omega arith, (141, refl, refl))), ((λ h. (omega arith, (141, refl, refl))), tt)),
    ),
    tt,
  ),
)

depth : (t : DataType) → Memᴰ t (components ctxt.type_m) → rank t < 4
unfolding components is_component name_of
depth t (Memᴰ.head e) = rw e (omega arith)
depth t (Memᴰ.tail (Memᴰ.head e)) = rw e (omega arith)
depth t (Memᴰ.tail (Memᴰ.tail k)) = elim k [ ]

ready : IsReady rank 4 ctxt root
ready = record { only = only_root; modelled = all_modelled; depth = depth; fresh = refl }

only_top : (c : DataType) → Memᴰ c (components ctxt.type_m) → (c ≡ root) ⊎ (binds c ≡ [])
unfolding components is_component binds
only_top c (Memᴰ.head e) = inr (rw e refl)
only_top c (Memᴰ.tail (Memᴰ.head e)) = inl e
only_top c (Memᴰ.tail (Memᴰ.tail k)) = elim k [ ]

abbrev done : Context
done = (run-reach lower 4 ctxt root ready).0

ended : run lower none 4 ctxt ≡ some done
ended = (run-reach lower 4 ctxt root ready).1

abbrev conn : Connection
conn = record {
  initiator_component = 141;
  initiator_port = 10;
  initiator_inst_path = 43 ∷ 30 ∷ [];
  target_component = 141;
  target_export = 10;
  target_inst_path = 43 ∷ 31 ∷ [];
  protocol = some (protocol (some 50));
}

connections_done : done.connections ≡ conn ∷ []
unfolding all_binds components binds elaborate_binds add_connection decode_bind decode_end
    nested_indices protocol_of resolve_type or_type lookup fields field_list name_of or_name
    is_component is_protocol ◌>>=◌
connections_done = run-all_binds lower 4 ctxt root ready done ended

direct_conn : direct_call (141, 10) (run_devirtualize done.connections []) ≡ some conn
unfolding run_devirtualize port_map add_port key_of same_key record_direct assign_direct direct_call
direct_conn =
    subst (λ l. direct_call (141, 10) (run_devirtualize l []) ≡ some conn) (sym connections_done)
      refl

run_devirtualize-run_example :
    Memᴰ conn done.connections
    × (conn.initiator_component ≡ 141)
    × (conn.initiator_port ≡ 10)
    × (initiator target : DataType) × (type_found (43 ∷ 30 ∷ []) done.inst_m ≡ some initiator)
    × (or_name (name_of initiator) empty_name ≡ 141)
    × (type_found (43 ∷ 31 ∷ []) done.inst_m ≡ some target)
    × (or_name (name_of target) empty_name ≡ 141)
unfolding name_of
run_devirtualize-run_example =
    run_devirtualize-run lower 4 ctxt root 143 (141, 10) conn done ready refl (omega arith) refl
      only_top ended direct_conn
