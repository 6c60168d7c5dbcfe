-- ===== src/Passes/AsyncLower/Lowering.antt =====
-- src/zuspec/be/sw/passes/async_lower.py: `AsyncLowerPass.run`.
use zuspec_be_sw.Prelude.{
  ℕ, Bool, true, false, not, ◌&&◌, Option, none, some, List, [], ◌∷◌, ◌++◌, ◌==◌, if◌then◌else◌,
  count,
}
use zuspec_be_sw.Passes.AsyncLower.Nodes.{is_some_list}
use zuspec_be_sw.Passes.AsyncLower.Classify.{Func, component, TypeMap, Key, SyncMap, classify_all}
use zuspec_be_sw.Passes.AsyncLower.Frames.{SwLocalVar, SwCoroutineFrame, split_at_awaits}

-- What the pass leaves: the functions with `metadata['sync_convertible']`, and the frames that it
-- appends to `ctxt.sw_nodes[type_name]`, in order.
pub record Output : Type 0 where
  pub sync_convertible : List Key
  pub sw_nodes : List (ℕ × SwCoroutineFrame)

abbrev pub empty_output : Output
empty_output = record { sync_convertible = []; sw_nodes = [] }

-- `is_promoted_process`
abbrev pub is_promoted_process : Func → Bool
is_promoted_process f = not f.is_process && (f.is_async && f.process_metadata)

-- `sync_map.get(key)` as a truth value.
abbrev pub is_true : Option Bool → Bool
is_true (some true) = true
is_true _ = false

abbrev pub var_names : List SwLocalVar → List ℕ
var_names [] = []
var_names (v ∷ vs) = v.var_name ∷ var_names vs

-- The loop over the parameters; `existing` is computed before it.
unfoldable pub add_params : List ℕ → List ℕ → List SwLocalVar → List SwLocalVar
add_params existing [] locals = locals
add_params existing (a ∷ args) locals =
    add_params existing args
      (if count a existing == 0 then record { var_name = a; var_type = none } ∷ locals else locals)

unfoldable pub with_params : Func → SwCoroutineFrame → SwCoroutineFrame
unfolding add_params
with_params f frame =
    if is_promoted_process f && is_some_list f.args
    then record {
      func_name = frame.func_name;
      comp_type_name = frame.comp_type_name;
      locals_struct = add_params (var_names frame.locals_struct) f.args frame.locals_struct;
      continuations = frame.continuations;
      process_params = f.args;
      return_dtype = f.returns;
    }
    else frame

abbrev pub mark : Key → Output → Output
mark k out = record { sync_convertible = out.sync_convertible ++ (k ∷ []); sw_nodes = out.sw_nodes }

unfoldable pub frame_of : ℕ → Func → SwCoroutineFrame
unfolding split_at_awaits with_params
frame_of type_name f = with_params f (split_at_awaits f.body type_name f.name)

abbrev pub add_frame : ℕ → Func → Output → Output
add_frame type_name f out = record {
  sync_convertible = out.sync_convertible;
  sw_nodes = out.sw_nodes ++ ((type_name, frame_of type_name f) ∷ []);
}

-- The body of the loop over the functions of a type. Both tests on `sync_map` set the same mark.
unfoldable pub lower_func : SyncMap → ℕ → Func → Output → Output
unfolding frame_of
lower_func sync type_name f out =
    if not f.is_process && not f.is_async
    then out
    else if not f.is_process && is_true (sync (type_name, f.name))
    then mark (type_name, f.name) out
    else if is_some_list f.body
    then add_frame type_name f out
    else out

unfoldable pub lower_funcs : SyncMap → ℕ → List Func → Output → Output
unfolding lower_func
lower_funcs sync type_name [] out = out
lower_funcs sync type_name (f ∷ fs) out =
    lower_funcs sync type_name fs (lower_func sync type_name f out)

unfoldable pub lower_types : SyncMap → TypeMap → Output → Output
unfolding lower_funcs
lower_types sync [] out = out
lower_types sync ((type_name, component functions processes) ∷ types) out =
    lower_types sync types (lower_funcs sync type_name (functions ++ processes) out)
lower_types sync ((type_name, dtype) ∷ types) out = lower_types sync types out

abbrev pub lower_all : TypeMap → Option SyncMap → Option Output
lower_all types none = none
lower_all types (some sync) = some (lower_types sync types empty_output)

-- `AsyncLowerPass.run`
unfoldable pub run : TypeMap → Option Output
unfolding classify_all lower_types
run types = lower_all types (classify_all types)
