-- ===== src/Passes/AsyncLower/Classify.antt =====
-- src/zuspec/be/sw/passes/async_lower.py: the classification of the async functions.
use zuspec_be_sw.Prelude.{
  ℕ, zero, suc, ◌*◌, Bool, true, false, not, ◌&&◌, ◌||◌, Option, none, some, List, [], ◌∷◌, ◌++◌,
  ◌==◌, if◌then◌else◌, length,
}
use zuspec_be_sw.Passes.AsyncLower.Nodes.{Node, called_names, body_awaits}

-- An `ir.Function`, or an `ir.Process` where `is_process` holds. `process_metadata` is
-- `metadata.get("is_process")`, and `args` are the names of the parameters.
pub record Func : Type 0 where
  pub name : ℕ
  pub is_async : Bool
  pub is_import : Bool
  pub is_process : Bool
  pub process_metadata : Bool
  pub args : List ℕ
  pub returns : Option ℕ
  pub body : List Node

-- A value of `ctxt.type_m`: `DataTypeProtocol`, `DataTypeComponent` or `DataTypeClass`, and any
-- other type.
pub data DataType : Type 0 where
  protocol : List ℕ → DataType
  component : List Func → List Func → DataType
  other_type : DataType

-- `ctxt.type_m.items()`
abbrev pub TypeMap : Type 0
TypeMap = List (ℕ × DataType)

-- The key `f"{type_name}.{func.name}"`: no function name has a dot in it.
abbrev pub Key : Type 0
Key = ℕ × ℕ

abbrev pub eq_key : Key → Key → Bool
eq_key k l = (k.0 == l.0) && (k.1 == l.1)

-- `key in keys`
unfoldable pub has_key : Key → List Key → Bool
has_key k [] = false
has_key k (l ∷ ls) = eq_key k l || has_key k ls

-- `sync_map`: `none` is a key that is not in it.
abbrev pub SyncMap : Type 0
SyncMap = Key → Option Bool

abbrev pub set_key : Key → Bool → SyncMap → SyncMap
set_key k v sync l = if eq_key l k then some v else sync l

-- `_build_proto_methods`
abbrev keys_of : ℕ → List ℕ → List Key
keys_of type_name [] = []
keys_of type_name (m ∷ ms) = (type_name, m) ∷ keys_of type_name ms

unfoldable pub build_proto_methods : TypeMap → List Key
build_proto_methods [] = []
build_proto_methods ((type_name, protocol methods) ∷ types) =
    keys_of type_name methods ++ build_proto_methods types
build_proto_methods ((type_name, dtype) ∷ types) = build_proto_methods types

-- `sync_map.get(k) is False`
abbrev pub is_false : Option Bool → Bool
is_false (some false) = true
is_false _ = false

-- `any(sync_map.get(f"{comp_name}.{name}") is False for name in names)`
unfoldable pub calls_async : SyncMap → ℕ → List ℕ → Bool
calls_async sync comp [] = false
calls_async sync comp (n ∷ ns) = is_false (sync (comp, n)) || calls_async sync comp ns

-- What `_classify_function` returns, and stores under the key of the function.
unfoldable pub classify_function : List Key → SyncMap → ℕ → Func → Bool
unfolding has_key body_awaits called_names calls_async
classify_function proto sync comp f =
    if has_key (comp, f.name) proto
    then false
    else if f.is_import
    then false
    else if body_awaits f.body
    then false
    else not (calls_async sync comp (called_names f.body))

-- The async functions that a round of `_classify_all` goes through, with their types.
abbrev pub async_funcs : ℕ → List Func → List (ℕ × Func)
async_funcs type_name [] = []
async_funcs type_name (f ∷ fs) =
    let rest = async_funcs type_name fs in if f.is_async then (type_name, f) ∷ rest else rest

unfoldable pub entries : TypeMap → List (ℕ × Func)
entries [] = []
entries ((type_name, component functions processes) ∷ types) =
    async_funcs type_name functions ++ entries types
entries ((type_name, dtype) ∷ types) = entries types

abbrev pub key : ℕ × Func → Key
key e = (e.0, e.1.name)

abbrev pub eq_value : Option Bool → Option Bool → Bool
eq_value none none = true
eq_value (some true) (some true) = true
eq_value (some false) (some false) = true
eq_value _ _ = false

-- One pass of the two loops: the map, and `changed`.
unfoldable pub round : List Key → List (ℕ × Func) → SyncMap → Bool → SyncMap × Bool
unfolding classify_function
round proto [] sync changed = (sync, changed)
round proto (e ∷ es) sync changed =
    let v = classify_function proto sync e.0 e.1 in
    round proto es (set_key (key e) v sync) (changed || not (eq_value (some v) (sync (key e))))

-- `while changed`, on fuel: `none` means that the fuel ran out.
unfoldable pub rounds : ℕ → List Key → List (ℕ × Func) → SyncMap → Option SyncMap
unfolding round
rounds zero proto es sync = none
rounds (suc fuel) proto es sync =
    let out = round proto es sync false in
    let rest = rounds fuel proto es out.0 in if out.1 then rest else some out.0

-- The map before the first round.
unfoldable pub marked : List Key → SyncMap
unfolding has_key
marked proto k = if has_key k proto then some false else none

-- `_classify_all`: every round but the last lowers a value, and a value is lowered twice at most.
unfoldable pub classify_all : TypeMap → Option SyncMap
unfolding rounds build_proto_methods entries marked
classify_all types =
    let es = entries types in
    let proto = build_proto_methods types in rounds (suc (2 * length es)) proto es (marked proto)
