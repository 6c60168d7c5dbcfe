-- ===== src/Passes/WaitPoints/Syntax.antt =====
-- The nodes that src/zuspec/be/sw/passes/wait_point_analysis.py reads. The classes are third-party;
-- names are numbers.
use zuspec_be_sw.Prelude.{ℕ, Option, Bool}

-- `ref_name` is `ExprRefLocal` or `ExprRefUnresolved`; `constant` has its value where that is an
-- integer, which is not negative; `node` is any other class, with the expressions that it holds
-- under `value`, `func` and `args`.
mutual
  pub data Expr : Type 0 where
    await : Expr → Expr
    call : Expr → Exprs → Expr
    attribute : Expr → ℕ → Expr
    ref_name : ℕ → Expr
    self_ref : Expr
    constant : Option ℕ → Expr
    node : Exprs → Expr

  pub data Exprs : Type 0 where
    nil : Exprs
    cons : Expr → Exprs → Exprs

-- `loop` is `StmtWhile` or `StmtFor` with its test or iterator and its body; `other_stmt` is any
-- class that the pass does not name, with the expressions and statements under it.
mutual
  pub data Stmt : Type 0 where
    expr_stmt : Expr → Stmt
    assign : Exprs → Expr → Stmt
    if_stmt : Expr → Stmts → Stmts → Stmt
    loop : Expr → Stmts → Stmt
    return_stmt : Option Expr → Stmt
    other_stmt : Exprs → Stmts → Stmt

  pub data Stmts : Type 0 where
    done : Stmts
    seq : Stmt → Stmts → Stmts

pub record Func : Type 0 where
  pub name : ℕ
  pub is_async : Bool
  pub body : Stmts

-- The names that the pass compares with; every other name is another number.
abbrev pub wait_ps_name : ℕ
wait_ps_name = 0

abbrev pub wait_ns_name : ℕ
wait_ns_name = 1

abbrev pub wait_us_name : ℕ
wait_us_name = 2

abbrev pub wait_ms_name : ℕ
wait_ms_name = 3

abbrev pub ns_name : ℕ
ns_name = 4

abbrev pub us_name : ℕ
us_name = 5

abbrev pub ps_name : ℕ
ps_name = 6

abbrev pub self_name : ℕ
self_name = 7
