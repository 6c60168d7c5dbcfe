-- ===== src/Rtl/ExprLower/Lower.antt =====
-- `ExprLower.lower_expr` of src/zuspec/be/sw/passes/rtl/expr_lower.py, with what it calls.
use zuspec_be_sw.Prelude.{
  ℕ, Bool, true, false, not, ◌&&◌, Option, none, some, List, get_elem?, if◌then◌else◌,
}
use zuspec_be_sw.Rtl.ExprLower.Syntax.{
  Const, truth, number, negative, absent, text, strings, BinOp, UnaryOp, negation, invert,
  unary_minus, unary_plus, Expr, none_expr, self_ref, own_field, far_field, attribute, constant,
  bin, param_ref, local_ref, unresolved, subscript, slice, if_exp, sext, zext, cbit, signed, call,
  compare, all_of, one_of, unary, list, other_expr, Exprs, Compares, finished, next, Field,
  bool_name, any_name, zdc_name, sext_name, zext_name, setattr_name,
}
use zuspec_be_sw.Rtl.ExprLower.Syntax
use zuspec_be_sw.Rtl.ExprLower.CCode.{
  Space, plain, regs, nxt, macro, CBinary, add, sub, mul, div, rem, band, bor, bxor, shl, shr, ne,
  lt, le, gt, ge, land, lor, question, CUnary, bang, tilde, dash, cross, CExpr, lit, neg_lit,
  verbatim, self_pointer, name, field, sub_field, made_up, mangled, arrow, arrow_made_up, index,
  binary, prefixed, cond_expr, to_int32, all_true, any_true, unsupported, raised, CExprs,
}
use zuspec_be_sw.Rtl.ExprLower.CCode
use zuspec_be_sw.Rtl.ExprLower.Texts.{
  binop_map, call_name, call_text, cmpop, join_parts, lower_constant, mask_text, selector,
  sext_text, shift_text, subscript_text, truth_text, unop,
}

-- The state that `__init__` is given: the fields, the names with a shadow, the constant fields, and
-- what an attribute of a name of the module is, where that is an integer.
pub record Setup : Type 0 where
  pub fields : List Field
  pub is_nxt : ℕ → Bool
  pub is_const : ℕ → Bool
  pub module_attr : ℕ → ℕ → Option Const

-- `self->_nxt.f`, `self->_regs.f` or `self->f`.
abbrev pub space_of : Bool → Bool → Space
space_of false write_ctx = plain
space_of true true = nxt
space_of true false = regs

-- The four cases of `_lower_attribute`.
pub data Base : Type 0 where
  own_base : Base
  field_base : ℕ → Base
  module_base : ℕ → Base
  general_base : Base

abbrev pub base_of : Expr → Base
base_of self_ref = own_base
base_of (own_field i) = field_base i
base_of (unresolved m) = module_base m
base_of _ = general_base

-- A Python bool is an int there: it is written `Trueu` or `Falseu`, which is not declared.
abbrev pub enum_text : ℕ → ℕ → Option Const → CExpr
enum_text m a none = mangled m a
enum_text m a (some (truth b)) = mangled m a
enum_text m a (some c) = lower_constant c

module _ (setup : Setup) where
  abbrev pub array_at : Option Field → Bool
  array_at none = false
  array_at (some f) = f.is_array

  abbrev pub is_array_field : Expr → Bool
  is_array_field (own_field i) = array_at (get_elem? setup.fields i)
  is_array_field _ = false

  -- `_lower_ref_field`
  abbrev pub own_field_text : ℕ → Bool → Option Field → CExpr
  own_field_text i write_ctx none = made_up i
  own_field_text i write_ctx (some f) =
      if not write_ctx && setup.is_const f.name
      then field macro f.name
      else field (space_of (setup.is_nxt f.name) write_ctx) f.name

  abbrev pub far_field_text : CExpr → ℕ → Option Field → CExpr
  far_field_text base i none = arrow_made_up base i
  far_field_text base i (some f) = arrow base f.name

  -- The field of a bundle; an index that is no field gives `self->_f<index>.<attr>`.
  abbrev pub bundle_text : ℕ → ℕ → Bool → Option Field → CExpr
  bundle_text i a write_ctx none = arrow (made_up i) a
  bundle_text i a write_ctx (some f) = sub_field (space_of (setup.is_nxt f.name) write_ctx) f.name a

  -- `_lower_attribute`, from the lowered base.
  abbrev pub lower_attribute : Base → CExpr → ℕ → Bool → CExpr
  lower_attribute own_base base a write_ctx = field (space_of (setup.is_nxt a) write_ctx) a
  lower_attribute (field_base i) base a write_ctx =
      bundle_text i a write_ctx (get_elem? setup.fields i)
  lower_attribute (module_base m) base a write_ctx = enum_text m a (setup.module_attr m a)
  lower_attribute general_base base a write_ctx = arrow base a

  unfoldable mutual
    -- `lower_expr`
    pub lower_expr : Expr → Bool → CExpr
    lower_expr none_expr w = lit 0
    lower_expr self_ref w = self_pointer
    lower_expr (own_field i) w = own_field_text i w (get_elem? setup.fields i)
    lower_expr (far_field b i) w = far_field_text (lower_expr b false) i (get_elem? setup.fields i)
    lower_expr (attribute v a) w = lower_attribute (base_of v) (lower_expr v w) a w
    lower_expr (constant c) w = lower_constant c
    lower_expr (bin op l r) w = binary (binop_map op) (lower_expr l false) (lower_expr r false)
    lower_expr (param_ref n) w = name n
    lower_expr (local_ref n) w = name n
    lower_expr (unresolved n) w = name n
    lower_expr (subscript v slc) w =
        subscript_text (is_array_field v) (selector slc) (lower_expr v false) (lower_expr slc false)
          (lower_high slc) (lower_low slc)
    lower_expr (slice a b bits) w = unsupported
    lower_expr (if_exp t a b) w = cond_expr (lower_expr t w) (lower_expr a w) (lower_expr b w)
    lower_expr (sext v n) w = sext_text (lower_expr v w) (shift_text n)
    lower_expr (zext v n) w = mask_text (lower_expr v w) n
    lower_expr (cbit v) w = truth_text (lower_expr v w)
    lower_expr (signed v) w = to_int32 (lower_expr v w)
    lower_expr (call f args) w =
        call_text (call_name f) args (lower_all args w) (lower_elements args w)
    lower_expr (compare l cs) w = join_parts (lower_compares (lower_expr l false) cs)
    lower_expr (all_of es) w = all_true (lower_all es false)
    lower_expr (one_of es) w = any_true (lower_all es false)
    lower_expr (unary op v) w = prefixed (unop op) (lower_expr v false)
    lower_expr (list es) w = unsupported
    lower_expr other_expr w = unsupported

    pub lower_all : Exprs → Bool → CExprs
    lower_all Syntax.Exprs.nil w = CCode.CExprs.nil
    lower_all (Syntax.Exprs.cons e es) w = CCode.CExprs.cons (lower_expr e w) (lower_all es w)

    -- The elements of the first argument.
    pub lower_elements : Exprs → Bool → Option CExprs
    lower_elements Syntax.Exprs.nil w = none
    lower_elements (Syntax.Exprs.cons e es) w = lower_list e w

    pub lower_list : Expr → Bool → Option CExprs
    lower_list (list es) w = some (lower_all es w)
    lower_list _ w = none

    -- The parts of `_lower_compare`, from the left operand.
    pub lower_compares : CExpr → Compares → CExprs
    lower_compares left finished = CCode.CExprs.nil
    lower_compares left (next op e cs) =
        let right = lower_expr e false in
        CCode.CExprs.cons (binary (cmpop op) left right) (lower_compares right cs)

    -- The bounds of a slice.
    pub lower_high : Expr → CExpr
    lower_high (slice a b bits) = lower_expr a false
    lower_high _ = lit 0

    pub lower_low : Expr → CExpr
    lower_low (slice a b bits) = lower_expr b false
    lower_low _ = lit 0
