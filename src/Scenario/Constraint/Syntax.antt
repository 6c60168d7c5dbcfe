-- ===== src/Scenario/Constraint/Syntax.antt =====
-- src/zuspec/be/sw/scenario/constraint_c.py: the nodes that the emitter reads, and its tables.
use Prim.Native.String.{String}
use zuspec_be_sw.Prelude.{Bool, Option, none, some}
use zuspec_be_sw.Prelude.Int.{ℤ}
use zuspec_be_sw.Scenario.Constraint.Builder.{
  DvsBin, dvs_add, dvs_sub, dvs_mul, dvs_div, dvs_mod, dvs_band, dvs_bor, dvs_bxor, dvs_lshift,
  dvs_ashr, dvs_eq, dvs_neq, dvs_lt, dvs_lte, dvs_gt, dvs_gte, dvs_and, dvs_or, DvsUn, dvs_neg,
  dvs_not, dvs_invert,
}

-- The operators of the third-party expression nodes; `other` is any that the tables lack.
pub data BinOp : Type 0 where
  op_add op_sub op_mult op_div op_mod op_bit_and op_bit_or op_bit_xor op_lshift op_rshift : BinOp
  op_eq op_not_eq op_lt op_lt_e op_gt op_gt_e op_and op_or op_other : BinOp

pub data CmpOp : Type 0 where
  cmp_eq cmp_not_eq cmp_lt cmp_lt_e cmp_gt cmp_gt_e cmp_other : CmpOp

pub data UnaryOp : Type 0 where
  un_sub un_not un_invert un_add un_other : UnaryOp

-- The expression nodes as `emit_expr` tells them apart. `odd_constant` is a constant that is no
-- integer, with what `int` makes of it, or none where `int` raises an exception. `self_attr` is an `ExprAttribute` of
-- `TypeExprRefSelf`. The chain of a comparison pairs `ops[i]` with `comparators[i]`. The ranges of
-- an `ExprRangeList` are single values, ranges, or nodes that are no `ExprRange`. `opaque` is an
-- `ExprIn` over another container.
mutual
  pub data Expr : Type 0 where
    constant : ℤ → Expr
    odd_constant : Option ℤ → Expr
    self_attr : String → Expr
    bin : BinOp → Expr → Expr → Expr
    unary : UnaryOp → Expr → Expr
    compare : Expr → Links → Expr
    bool_and bool_or : Exprs → Expr
    subscript : Expr → Expr → Expr
    slice : Bool → Expr → Expr → Expr
    in_ranges : Expr → Ranges → Expr
    opaque_in : Expr → Expr
    other : Expr

  pub data Exprs : Type 0 where
    nil : Exprs
    cons : Expr → Exprs → Exprs

  pub data Links : Type 0 where
    end : Links
    link : CmpOp → Expr → Links → Links

  pub data Ranges : Type 0 where
    stop : Ranges
    value : Expr → Ranges → Ranges
    range : Expr → Expr → Ranges → Ranges
    no_range : Ranges → Ranges

-- `_BIN`, `_CMP` and `_UN`.
unfoldable pub bin_table : BinOp → Option DvsBin
bin_table op_add = some dvs_add
bin_table op_sub = some dvs_sub
bin_table op_mult = some dvs_mul
bin_table op_div = some dvs_div
bin_table op_mod = some dvs_mod
bin_table op_bit_and = some dvs_band
bin_table op_bit_or = some dvs_bor
bin_table op_bit_xor = some dvs_bxor
bin_table op_lshift = some dvs_lshift
bin_table op_rshift = some dvs_ashr
bin_table op_eq = some dvs_eq
bin_table op_not_eq = some dvs_neq
bin_table op_lt = some dvs_lt
bin_table op_lt_e = some dvs_lte
bin_table op_gt = some dvs_gt
bin_table op_gt_e = some dvs_gte
bin_table op_and = some dvs_and
bin_table op_or = some dvs_or
bin_table op_other = none

unfoldable pub cmp_table : CmpOp → Option DvsBin
cmp_table cmp_eq = some dvs_eq
cmp_table cmp_not_eq = some dvs_neq
cmp_table cmp_lt = some dvs_lt
cmp_table cmp_lt_e = some dvs_lte
cmp_table cmp_gt = some dvs_gt
cmp_table cmp_gt_e = some dvs_gte
cmp_table cmp_other = none

unfoldable pub un_table : UnaryOp → Option DvsUn
un_table un_sub = some dvs_neg
un_table un_not = some dvs_not
un_table un_invert = some dvs_invert
un_table un_add = none
un_table un_other = none
