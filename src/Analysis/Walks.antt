-- ===== src/Analysis/Walks.antt =====
-- What the walks of src/zuspec/be/sw/async_analyzer.py find of the async operations of a body.
use zuspec_be_sw.Prelude.{◌≡◌, refl, Bool, true, false, not, ◌||◌, Option, none, some, arith}
use zuspec_be_sw.Analysis.Syntax.{
  Expr, await, call, bin, unary, attribute, subscript, compare, ref_py, other_expr, Exprs, nil,
  cons, Stmt, expr_stmt, assign, return_stmt, if_stmt, while_stmt, for_stmt, other_stmt, Stmts,
  none_left, seq, Func,
}
use zuspec_be_sw.Analysis.Analyzer.{
  blocks, analyze_expr, analyze_exprs, analyze_opt, analyze_statement, analyze_statements,
  can_convert_to_sync,
}

-- An await or a call of a known async operation anywhere in an expression.
unfoldable mutual
  pub expr_async : Expr → Bool
  expr_async (await value) = true
  expr_async (call func args) = blocks func || (expr_async func || exprs_async args)
  expr_async (bin lhs rhs) = expr_async lhs || expr_async rhs
  expr_async (unary operand) = expr_async operand
  expr_async (attribute value attr) = expr_async value
  expr_async (subscript value slice) = expr_async value || expr_async slice
  expr_async (compare left comparators) = expr_async left || exprs_async comparators
  expr_async (ref_py ref) = false
  expr_async (other_expr under) = exprs_async under

  pub exprs_async : Exprs → Bool
  exprs_async nil = false
  exprs_async (cons e es) = expr_async e || exprs_async es

-- One of them in a part that the analyzer does not read: the function of a call, the value of an
-- await, and what is under the other classes.
unfoldable mutual
  unfolding expr_async exprs_async

  pub expr_hidden : Expr → Bool
  expr_hidden (await value) = expr_async value
  expr_hidden (call func args) = expr_async func || exprs_hidden args
  expr_hidden (bin lhs rhs) = expr_hidden lhs || expr_hidden rhs
  expr_hidden (unary operand) = expr_hidden operand
  expr_hidden (attribute value attr) = expr_hidden value
  expr_hidden (subscript value slice) = expr_hidden value || expr_hidden slice
  expr_hidden (compare left comparators) = expr_hidden left || exprs_hidden comparators
  expr_hidden (ref_py ref) = false
  expr_hidden (other_expr under) = exprs_async under

  pub exprs_hidden : Exprs → Bool
  exprs_hidden nil = false
  exprs_hidden (cons e es) = expr_hidden e || exprs_hidden es

abbrev opt_async : Option Expr → Bool
opt_async none = false
opt_async (some e) = expr_async e

abbrev opt_hidden : Option Expr → Bool
opt_hidden none = false
opt_hidden (some e) = expr_hidden e

unfoldable mutual
  unfolding expr_async exprs_async

  pub stmt_async : Stmt → Bool
  stmt_async (expr_stmt e) = expr_async e
  stmt_async (assign targets value) = exprs_async targets || expr_async value
  stmt_async (return_stmt value) = opt_async value
  stmt_async (if_stmt test body orelse) =
      expr_async test || (stmts_async body || stmts_async orelse)
  stmt_async (while_stmt test body orelse) =
      expr_async test || (stmts_async body || stmts_async orelse)
  stmt_async (for_stmt target iter body orelse) =
      expr_async target || (expr_async iter || (stmts_async body || stmts_async orelse))
  stmt_async (other_stmt exprs stmts) = exprs_async exprs || stmts_async stmts

  pub stmts_async : Stmts → Bool
  stmts_async none_left = false
  stmts_async (seq s ss) = stmt_async s || stmts_async ss

-- Of a statement the analyzer does not read the targets of an assignment or a loop, the `orelse` of
-- a loop, and anything of the other classes.
unfoldable mutual
  unfolding expr_hidden exprs_hidden stmts_async

  pub stmt_hidden : Stmt → Bool
  stmt_hidden (expr_stmt e) = expr_hidden e
  stmt_hidden (assign targets value) = exprs_async targets || expr_hidden value
  stmt_hidden (return_stmt value) = opt_hidden value
  stmt_hidden (if_stmt test body orelse) =
      expr_hidden test || (stmts_hidden body || stmts_hidden orelse)
  stmt_hidden (while_stmt test body orelse) =
      expr_hidden test || (stmts_hidden body || stmts_async orelse)
  stmt_hidden (for_stmt target iter body orelse) =
      expr_async target || (expr_hidden iter || (stmts_hidden body || stmts_async orelse))
  stmt_hidden (other_stmt exprs stmts) = exprs_async exprs || stmts_async stmts

  pub stmts_hidden : Stmts → Bool
  stmts_hidden none_left = false
  stmts_hidden (seq s ss) = stmt_hidden s || stmts_hidden ss

mutual
  unfolding expr_async exprs_async expr_hidden exprs_hidden analyze_expr analyze_exprs

  expr_found : (e : Expr) → expr_async e ≡ not (analyze_expr e) || expr_hidden e
  expr_found (await value) = refl
  expr_found (call func args) = ground (arith, exprs_found args)
  expr_found (bin lhs rhs) = ground (arith, expr_found lhs, expr_found rhs)
  expr_found (unary operand) = expr_found operand
  expr_found (attribute value attr) = expr_found value
  expr_found (subscript value slice) = ground (arith, expr_found value, expr_found slice)
  expr_found (compare left comparators) = ground (arith, expr_found left, exprs_found comparators)
  expr_found (ref_py ref) = refl
  expr_found (other_expr under) = refl

  exprs_found : (es : Exprs) → exprs_async es ≡ not (analyze_exprs es) || exprs_hidden es
  exprs_found nil = refl
  exprs_found (cons e es) = ground (arith, expr_found e, exprs_found es)

opt_found : (o : Option Expr) → opt_async o ≡ not (analyze_opt o) || opt_hidden o
opt_found none = refl
opt_found (some e) = expr_found e

mutual
  unfolding stmt_async stmts_async stmt_hidden stmts_hidden analyze_statement analyze_statements

  stmt_found : (s : Stmt) → stmt_async s ≡ not (analyze_statement s) || stmt_hidden s
  stmt_found (expr_stmt e) = expr_found e
  stmt_found (assign targets value) = ground (arith, expr_found value)
  stmt_found (return_stmt value) = opt_found value
  stmt_found (if_stmt test body orelse) =
      ground (arith, expr_found test, stmts_found body, stmts_found orelse)
  stmt_found (while_stmt test body orelse) = ground (arith, expr_found test, stmts_found body)
  stmt_found (for_stmt target iter body orelse) = ground (arith, expr_found iter, stmts_found body)
  stmt_found (other_stmt exprs stmts) = refl

  stmts_found : (ss : Stmts) → stmts_async ss ≡ not (analyze_statements ss) || stmts_hidden ss
  stmts_found none_left = refl
  stmts_found (seq s ss) = ground (arith, stmt_found s, stmts_found ss)

-- A function has an async operation exactly if the analyzer refuses it or the operation is in a
-- part that the analyzer does not read.
pub can_convert_to_sync-stmts_async :
    (f : Func) → stmts_async f.body ≡ not (can_convert_to_sync f) || stmts_hidden f.body
unfolding can_convert_to_sync
can_convert_to_sync-stmts_async f = stmts_found f.body

unfoldable pub all_unknown : Stmts → Bool
all_unknown none_left = true
all_unknown (seq (other_stmt exprs stmts) ss) = all_unknown ss
all_unknown (seq s ss) = false

unknown-analyzed : (ss : Stmts) → all_unknown ss ≡ true → analyze_statements ss ≡ true
unfolding all_unknown analyze_statements
unknown-analyzed none_left h = refl
unknown-analyzed (seq (other_stmt exprs stmts) ss) h = unknown-analyzed ss h
unknown-analyzed (seq (expr_stmt e) ss) h = cc
unknown-analyzed (seq (assign targets value) ss) h = cc
unknown-analyzed (seq (return_stmt value) ss) h = cc
unknown-analyzed (seq (if_stmt test body orelse) ss) h = cc
unknown-analyzed (seq (while_stmt test body orelse) ss) h = cc
unknown-analyzed (seq (for_stmt target iter body orelse) ss) h = cc

-- A function whose statements are all of classes that the analyzer does not know is converted,
-- whatever async operations are in them.
pub can_convert_to_sync-unknown :
    (f : Func) → all_unknown f.body ≡ true → can_convert_to_sync f ≡ true
unfolding can_convert_to_sync
can_convert_to_sync-unknown f h = unknown-analyzed f.body h
