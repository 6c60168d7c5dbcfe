-- ===== src/Analysis/Analyzer.antt =====
-- src/zuspec/be/sw/async_analyzer.py: `AsyncAnalyzer`.
use zuspec_be_sw.Prelude.{
  ℕ, Bool, true, false, not, ◌&&◌, ◌||◌, Option, none, some, List, [], ◌∷◌, ◌++◌, ◌==◌,
  if◌then◌else◌,
}
use zuspec_be_sw.Analysis.Syntax.{
  Expr, await, call, bin, unary, attribute, subscript, compare, ref_py, other_expr, Exprs, nil,
  cons, Stmt, expr_stmt, assign, return_stmt, if_stmt, while_stmt, for_stmt, other_stmt, Stmts,
  none_left, seq, Func, DataType, component, protocol,
}

-- The names that the analyzer compares with are the numbers from 0 on: wait, delay, sleep, yield_,
-- get, put, nb_get, nb_put, peek. Every other name is another number.
abbrev time_methods : List ℕ
time_methods = 0 ∷ 1 ∷ 2 ∷ 3 ∷ []

abbrev channel_methods : List ℕ
channel_methods = 4 ∷ 5 ∷ 6 ∷ 7 ∷ 8 ∷ []

abbrev time_functions : List ℕ
time_functions = 0 ∷ 1 ∷ 2 ∷ []

abbrev pub is_in : ℕ → List ℕ → Bool
is_in n [] = false
is_in n (x ∷ xs) = n == x || is_in n xs

-- The tests that `_analyze_call` makes on `call.func`: true for a known async operation.
abbrev pub blocks : Expr → Bool
blocks (attribute value attr) = is_in attr time_methods || is_in attr channel_methods
blocks (ref_py ref) = is_in ref time_functions
blocks _ = false

-- `_analyze_expr`, with `_analyze_call` at a call.
unfoldable mutual
  pub analyze_expr : Expr → Bool
  analyze_expr (await value) = false
  analyze_expr (call func args) = if blocks func then false else analyze_exprs args
  analyze_expr (bin lhs rhs) = analyze_expr lhs && analyze_expr rhs
  analyze_expr (unary operand) = analyze_expr operand
  analyze_expr (attribute value attr) = analyze_expr value
  analyze_expr (subscript value slice) = analyze_expr value && analyze_expr slice
  analyze_expr (compare left comparators) = analyze_expr left && analyze_exprs comparators
  analyze_expr (ref_py ref) = true
  analyze_expr (other_expr under) = true

  pub analyze_exprs : Exprs → Bool
  analyze_exprs nil = true
  analyze_exprs (cons e es) = analyze_expr e && analyze_exprs es

abbrev pub analyze_opt : Option Expr → Bool
analyze_opt none = true
analyze_opt (some e) = analyze_expr e

-- `_analyze_statement` and `_analyze_statements`
unfoldable mutual
  unfolding analyze_expr analyze_exprs

  pub analyze_statement : Stmt → Bool
  analyze_statement (expr_stmt e) = analyze_expr e
  analyze_statement (assign targets value) = analyze_expr value
  analyze_statement (return_stmt value) = analyze_opt value
  analyze_statement (if_stmt test body orelse) =
      analyze_expr test && (analyze_statements body && analyze_statements orelse)
  analyze_statement (while_stmt test body orelse) = analyze_expr test && analyze_statements body
  analyze_statement (for_stmt target iter body orelse) =
      analyze_expr iter && analyze_statements body
  analyze_statement (other_stmt exprs stmts) = true

  pub analyze_statements : Stmts → Bool
  analyze_statements none_left = true
  analyze_statements (seq s ss) = analyze_statement s && analyze_statements ss

-- `_can_convert_to_sync`: an empty body has no statement that fails.
unfoldable pub can_convert_to_sync : Func → Bool
unfolding analyze_statements
can_convert_to_sync f = analyze_statements f.body

-- `f"{type_name}.{func.name}"`
abbrev pub FuncId : Type 0
FuncId = ℕ × ℕ

abbrev pub eq_id : FuncId → FuncId → Bool
eq_id a b = (a.0 == b.0) && (a.1 == b.1)

unfoldable pub has_id : FuncId → List FuncId → Bool
has_id i [] = false
has_id i (x ∷ xs) = eq_id i x || has_id i xs

-- `_identify_external_tasks`
abbrev ids_of : ℕ → List ℕ → List FuncId
ids_of type_name [] = []
ids_of type_name (m ∷ ms) = (type_name, m) ∷ ids_of type_name ms

unfoldable pub identify_external_tasks : List (ℕ × DataType) → List FuncId
identify_external_tasks [] = []
identify_external_tasks ((type_name, protocol methods) ∷ types) =
    ids_of type_name methods ++ identify_external_tasks types
identify_external_tasks ((type_name, dtype) ∷ types) = identify_external_tasks types

-- `sync_convertible`: the value that was stored last for a key is first.
abbrev pub SyncMap : Type 0
SyncMap = List (FuncId × Bool)

-- `_analyze_component`
unfoldable pub analyze_component : List FuncId → ℕ → List Func → SyncMap → SyncMap
unfolding has_id can_convert_to_sync
analyze_component external comp [] sync = sync
analyze_component external comp (f ∷ fs) sync =
    let id : FuncId = (comp, f.name) in
    analyze_component external comp fs (
      if not f.is_async
      then sync
      else (id, (if has_id id external then false else can_convert_to_sync f)) ∷ sync)

unfoldable pub analyze_types : List FuncId → List (ℕ × DataType) → SyncMap → SyncMap
unfolding analyze_component
analyze_types external [] sync = sync
analyze_types external ((type_name, component comp functions) ∷ types) sync =
    analyze_types external types (analyze_component external comp functions sync)
analyze_types external ((type_name, dtype) ∷ types) sync = analyze_types external types sync

-- `analyze`
unfoldable pub analyze : List (ℕ × DataType) → SyncMap
unfolding identify_external_tasks analyze_types
analyze types = analyze_types (identify_external_tasks types) types []

-- `is_sync_convertible`: `sync_convertible.get(func_id, False)`.
unfoldable pub lookup : FuncId → SyncMap → Bool
lookup i [] = false
lookup i (p ∷ ps) = if eq_id i p.0 then p.1 else lookup i ps

abbrev pub is_sync_convertible : SyncMap → ℕ → ℕ → Bool
is_sync_convertible sync comp_name func_name = lookup (comp_name, func_name) sync
