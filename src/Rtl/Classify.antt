-- ===== src/Rtl/Classify.antt =====
-- src/zuspec/be/sw/passes/rtl/component_classify.py: the evaluation protocol of a component.
pub mod Awaits
pub mod Protocols
mod Tests
use zuspec_be_sw.Prelude.{Bool, true, false, ◌&&◌, ◌||◌, List, [], ◌∷◌, ◌++◌, if◌then◌else◌}

-- An expression: an await, or any other one with the children that `_expr_has_await` looks at, that
-- is those under `value`, `lhs`, `rhs`, `test`, `body` and `orelse`, and its other children.
mutual
  pub data Expr : Type 0 where
    await : Exprs → Expr
    node : Exprs → Exprs → Expr

  pub data Exprs : Type 0 where
    nil : Exprs
    cons : Expr → Exprs → Exprs

-- The statements: `assignment` is `StmtAssign`, `StmtAugAssign` or `StmtAnnAssign`, and `block` any
-- class that is not named. The first part of all but `expr_stmt` holds the expressions that stand
-- directly under the statement: tests, iterators, targets and values.
mutual
  pub data Stmt : Type 0 where
    expr_stmt : Expr → Stmt
    if_stmt : Exprs → Stmts → Stmts → Stmt
    loop : Exprs → Stmts → Stmts → Stmt
    assignment : Exprs → Stmt
    block : Exprs → Stmts → Stmts → Stmts → Stmts → Stmt

  pub data Stmts : Type 0 where
    done : Stmts
    seq : Stmt → Stmts → Stmts

-- `_expr_has_await`
unfoldable mutual
  pub expr_has_await : Expr → Bool
  expr_has_await (await es) = true
  expr_has_await (node children others) = exprs_have_await children

  pub exprs_have_await : Exprs → Bool
  exprs_have_await nil = false
  exprs_have_await (cons e es) = expr_has_await e || exprs_have_await es

-- `_has_await`: `orelse` of a loop is not looked at.
unfoldable mutual
  unfolding expr_has_await

  pub stmt_has_await : Stmt → Bool
  stmt_has_await (expr_stmt e) = expr_has_await e
  stmt_has_await (if_stmt exprs body orelse) = stmts_have_await body || stmts_have_await orelse
  stmt_has_await (loop exprs body orelse) = stmts_have_await body
  stmt_has_await (assignment exprs) = false
  stmt_has_await (block exprs body orelse handlers finalbody) =
      stmts_have_await body
      || (stmts_have_await orelse || (stmts_have_await handlers || stmts_have_await finalbody))

  pub stmts_have_await : Stmts → Bool
  stmts_have_await done = false
  stmts_have_await (seq s ss) = stmt_has_await s || stmts_have_await ss

pub record Process : Type 0 where
  pub is_async : Bool
  pub body : Stmts

pub data EvalProtocol : Type 0 where
  rtl : EvalProtocol
  algorithmic : EvalProtocol
  mls : EvalProtocol

-- `fn.is_async or _has_await(fn.body)`
unfoldable pub process_awaits : Process → Bool
unfolding stmts_have_await
process_awaits p = p.is_async || stmts_have_await p.body

-- The loop over the processes.
unfoldable pub any_awaits : List Process → Bool
unfolding process_awaits
any_awaits [] = false
any_awaits (p ∷ ps) = process_awaits p || any_awaits ps

-- `bool(processes)`
abbrev pub has_any : List Process → Bool
has_any [] = false
has_any (p ∷ ps) = true

-- `ComponentClassifyPass.run`: the processes with @sync, and those with @comb.
unfoldable pub classify_component : List Process → List Process → EvalProtocol
unfolding any_awaits
classify_component sync_processes comb_processes =
    let awaits = any_awaits (sync_processes ++ comb_processes) in
    if awaits && has_any sync_processes
    then EvalProtocol.mls
    else if awaits
    then EvalProtocol.algorithmic
    else if has_any sync_processes || has_any comb_processes
    then EvalProtocol.rtl
    else EvalProtocol.algorithmic
