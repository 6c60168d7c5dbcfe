-- ===== src/Analysis/Tests.antt =====
-- A component with a function that waits and one that does not, and the theorems at it.
use zuspec_be_sw.Prelude.{ℕ, ◌≡◌, refl, true, not, ◌||◌, List, [], ◌∷◌}
use zuspec_be_sw.Analysis.Syntax.{
  Expr, await, call, attribute, other_expr, nil, cons, expr_stmt, other_stmt, none_left, seq, Func,
  DataType, component, protocol,
}
use zuspec_be_sw.Analysis.Analyzer.{can_convert_to_sync, analyze, lookup, identify_external_tasks}
use zuspec_be_sw.Analysis.Walks.{stmts_async, stmts_hidden, can_convert_to_sync-stmts_async}
use zuspec_be_sw.Analysis.Reports.{IsWitnessed, is_sync_convertible-IsWitnessed}

abbrev waiting_call : Expr
waiting_call = await (call (attribute (other_expr nil) 0) nil)

-- `await self.wait()`
abbrev waits : Func
waits = record { name = 20; is_async = true; body = seq (expr_stmt waiting_call) none_left }

-- `x: int = await self.wait()`
abbrev annotated : Func
annotated = record {
  name = 21;
  is_async = true;
  body = seq (other_stmt (cons waiting_call nil) none_left) none_left;
}

abbrev types : List (ℕ × DataType)
types = (30, protocol (9 ∷ [])) ∷ (31, component 31 (waits ∷ annotated ∷ [])) ∷ []

can_convert_to_sync-stmts_async_example :
    stmts_async annotated.body ≡ not (can_convert_to_sync annotated) || stmts_hidden annotated.body
can_convert_to_sync-stmts_async_example = can_convert_to_sync-stmts_async annotated

is_sync_convertible-IsWitnessed_example : IsWitnessed (identify_external_tasks types) types 31 21
unfolding analyze lookup
is_sync_convertible-IsWitnessed_example = is_sync_convertible-IsWitnessed types 31 21 refl
