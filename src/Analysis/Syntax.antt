-- ===== src/Analysis/Syntax.antt =====
-- The statements and expressions as src/zuspec/be/sw/async_analyzer.py tells them apart. The classes
-- are third-party; a node has the fields that the analyzer reads. Names are numbers.
use zuspec_be_sw.Prelude.{ℕ, Option, Bool, List}

-- `other_expr` is any other class, with the expressions under it. `ref_py` is `ExprRefPy`.
mutual
  pub data Expr : Type 0 where
    await : Expr → Expr
    call : Expr → Exprs → Expr
    bin : Expr → Expr → Expr
    unary : Expr → Expr
    attribute : Expr → ℕ → Expr
    subscript : Expr → Expr → Expr
    compare : Expr → Exprs → Expr
    ref_py : ℕ → Expr
    other_expr : Exprs → Expr

  pub data Exprs : Type 0 where
    nil : Exprs
    cons : Expr → Exprs → Exprs

-- `other_stmt` is any other class, such as `StmtAnnAssign`, `StmtAugAssign`, `StmtTry` or
-- `StmtWith`, with the expressions and the statements under it. `orelse` of a loop is a field that
-- the analyzer does not read.
mutual
  pub data Stmt : Type 0 where
    expr_stmt : Expr → Stmt
    assign : Exprs → Expr → Stmt
    return_stmt : Option Expr → Stmt
    if_stmt : Expr → Stmts → Stmts → Stmt
    while_stmt : Expr → Stmts → Stmts → Stmt
    for_stmt : Expr → Expr → Stmts → Stmts → Stmt
    other_stmt : Exprs → Stmts → Stmt

  pub data Stmts : Type 0 where
    none_left : Stmts
    seq : Stmt → Stmts → Stmts

-- An `ir.Function`.
pub record Func : Type 0 where
  pub name : ℕ
  pub is_async : Bool
  pub body : Stmts

-- A value of `ctxt.type_m`: a component has its own name and its functions, and a protocol the
-- names of its methods.
pub data DataType : Type 0 where
  component : ℕ → List Func → DataType
  protocol : List ℕ → DataType
  other_type : DataType
