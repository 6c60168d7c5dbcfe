-- ===== src/Rtl/ExprLower/Syntax.antt =====
-- The nodes that src/zuspec/be/sw/passes/rtl/expr_lower.py reads. The classes are third-party; names
-- are numbers.
use zuspec_be_sw.Prelude.{ℕ, Bool, List}

-- `negative n` is the constant -n, `text` a string (floats are left out),
-- and `strings` a list of names.
pub data Const : Type 0 where
  truth : Bool → Const
  number : ℕ → Const
  negative : ℕ → Const
  absent : Const
  text : ℕ → Const
  strings : List ℕ → Const

-- The operators of `ExprBin`, which stand for those of `ExprCompare` too.
pub data BinOp : Type 0 where
  plus : BinOp
  minus : BinOp
  times : BinOp
  true_div : BinOp
  floor_div : BinOp
  modulo : BinOp
  bit_conj : BinOp
  bit_disj : BinOp
  bit_excl : BinOp
  shift_left : BinOp
  shift_right : BinOp
  eq : BinOp
  not_eq : BinOp
  less : BinOp
  less_eq : BinOp
  greater : BinOp
  greater_eq : BinOp
  conj : BinOp
  disj : BinOp
  other_op : BinOp

pub data UnaryOp : Type 0 where
  negation : UnaryOp
  invert : UnaryOp
  unary_minus : UnaryOp
  unary_plus : UnaryOp

-- `none_expr` is Python's None in place of a node. `own_field` is `ExprRefField` at `TypeExprRefSelf`,
-- `far_field` at any other base. `unresolved` is `ExprRefUnresolved`, `param_ref`
-- is `ExprRefParam` and `local_ref` `ExprRefLocal`. `slice` has the fields `lower` and `upper`, which are the
-- high and the low bit where `is_bit_slice` holds. `list` is a node with `elts`.
mutual
  pub data Expr : Type 0 where
    none_expr : Expr
    self_ref : Expr
    own_field : ℕ → Expr
    far_field : Expr → ℕ → Expr
    attribute : Expr → ℕ → Expr
    constant : Const → Expr
    bin : BinOp → Expr → Expr → Expr
    param_ref : ℕ → Expr
    local_ref : ℕ → Expr
    unresolved : ℕ → Expr
    subscript : Expr → Expr → Expr
    slice : Expr → Expr → Bool → Expr
    if_exp : Expr → Expr → Expr → Expr
    sext : Expr → ℕ → Expr
    zext : Expr → ℕ → Expr
    cbit : Expr → Expr
    signed : Expr → Expr
    call : Expr → Exprs → Expr
    compare : Expr → Compares → Expr
    all_of : Exprs → Expr
    one_of : Exprs → Expr
    unary : UnaryOp → Expr → Expr
    list : Exprs → Expr
    other_expr : Expr

  pub data Exprs : Type 0 where
    nil : Exprs
    cons : Expr → Exprs → Exprs

  -- The comparators of a compare, each with its operator.
  pub data Compares : Type 0 where
    finished : Compares
    next : BinOp → Expr → Compares → Compares

-- The names of the functions that `_lower_call` compares with; other names are other numbers.
abbrev pub bool_name : ℕ
bool_name = 0

abbrev pub any_name : ℕ
any_name = 1

abbrev pub zdc_name : ℕ
zdc_name = 2

abbrev pub sext_name : ℕ
sext_name = 3

abbrev pub zext_name : ℕ
zext_name = 4

abbrev pub setattr_name : ℕ
setattr_name = 5

abbrev pub range_name : ℕ
range_name = 6

pub record Field : Type 0 where
  pub name : ℕ
  pub is_array : Bool

-- `for_stmt` has its target, iterator and body. `return_stmt` at `none_expr` has no value.
mutual
  pub data Stmt : Type 0 where
    assign : Exprs → Expr → Stmt
    aug_assign : BinOp → Expr → Expr → Stmt
    if_stmt : Expr → Stmts → Stmts → Stmt
    for_stmt : Expr → Expr → Stmts → Stmts → Stmt
    while_stmt : Expr → Stmts → Stmts → Stmt
    expr_stmt : Expr → Stmt
    return_stmt : Expr → Stmt
    pass_stmt : Stmt
    other_stmt : Stmt

  pub data Stmts : Type 0 where
    done : Stmts
    seq : Stmt → Stmts → Stmts
