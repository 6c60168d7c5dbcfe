-- ===== src/Rtl/ExprLower/Texts.antt =====
-- The C text that src/zuspec/be/sw/passes/rtl/expr_lower.py writes from lowered parts.
use zuspec_be_sw.Prelude.{
  ℕ, suc, ◌-◌, ◌^◌, Bool, true, false, ◌&&◌, Option, some, ◌==◌, ltb, leb, if◌then◌else◌,
}
use zuspec_be_sw.Rtl.ExprLower.Syntax.{
  Const, truth, number, negative, absent, text, strings, BinOp, UnaryOp, negation, invert,
  unary_minus, unary_plus, Expr, none_expr, self_ref, own_field, far_field, attribute, constant,
  bin, param_ref, local_ref, unresolved, subscript, slice, if_exp, sext, zext, cbit, signed, call,
  compare, all_of, one_of, unary, list, other_expr, Exprs, Compares, finished, next, Field,
  bool_name, any_name, zdc_name, sext_name, zext_name, setattr_name,
}
use zuspec_be_sw.Rtl.ExprLower.Syntax
use zuspec_be_sw.Rtl.ExprLower.CCode.{
  Space, plain, regs, nxt, macro, CBinary, add, sub, mul, div, rem, band, bor, bxor, shl, shr, ne,
  lt, le, gt, ge, land, lor, question, CUnary, bang, tilde, dash, cross, CExpr, lit, neg_lit,
  verbatim, self_pointer, name, field, sub_field, made_up, mangled, arrow, arrow_made_up, index,
  binary, prefixed, cond_expr, to_int32, all_true, any_true, unsupported, raised, CExprs,
}
use zuspec_be_sw.Rtl.ExprLower.CCode

-- `_BINOP_MAP`
abbrev pub binop_map : BinOp → CBinary
binop_map BinOp.plus = add
binop_map BinOp.minus = sub
binop_map BinOp.times = mul
binop_map BinOp.true_div = div
binop_map BinOp.floor_div = div
binop_map BinOp.modulo = rem
binop_map BinOp.bit_conj = band
binop_map BinOp.bit_disj = bor
binop_map BinOp.bit_excl = bxor
binop_map BinOp.shift_left = shl
binop_map BinOp.shift_right = shr
binop_map BinOp.eq = CBinary.eq
binop_map BinOp.not_eq = ne
binop_map BinOp.less = lt
binop_map BinOp.less_eq = le
binop_map BinOp.greater = gt
binop_map BinOp.greater_eq = ge
binop_map BinOp.conj = land
binop_map BinOp.disj = lor
binop_map BinOp.other_op = question

-- `_CMPOP`: an operator that it does not have is written ==.
abbrev pub cmpop : BinOp → CBinary
cmpop BinOp.not_eq = ne
cmpop BinOp.less = lt
cmpop BinOp.less_eq = le
cmpop BinOp.greater = gt
cmpop BinOp.greater_eq = ge
cmpop _ = CBinary.eq

-- `_UNOP`
abbrev pub unop : UnaryOp → CUnary
unop negation = bang
unop invert = tilde
unop unary_minus = dash
unop unary_plus = cross

-- `_lower_constant`
abbrev pub lower_constant : Const → CExpr
lower_constant (truth true) = lit 1
lower_constant (truth false) = lit 0
lower_constant (number n) = lit n
lower_constant (negative n) = neg_lit n
lower_constant absent = lit 0
lower_constant (text t) = verbatim t
lower_constant (strings ns) = verbatim 0

-- The name of the function that `_lower_call` looks at.
pub data CallName : Type 0 where
  simple : ℕ → CallName
  dotted : ℕ → ℕ → CallName
  nameless : CallName

abbrev pub call_name : Expr → CallName
call_name (unresolved n) = simple n
call_name (attribute (unresolved m) a) = dotted m a
call_name _ = nameless

abbrev pub shift_text : ℕ → CExpr
shift_text bits = if leb bits 32 then lit (32 - bits) else neg_lit (bits - 32)

abbrev pub sext_text : CExpr → CExpr → CExpr
sext_text val shift = binary shr (to_int32 (binary shl val shift)) shift

-- The literal is as long as the number of bits asks for; C has a type for one of 64 bits at most.
abbrev pub mask_text : CExpr → ℕ → CExpr
mask_text val bits = binary band val (lit (2 ^ bits - 1))

-- `!!(val)`
abbrev pub truth_text : CExpr → CExpr
truth_text val = prefixed bang (prefixed bang val)

abbrev pub ones_text : CExpr → CExpr
ones_text bits = binary sub (binary shl (lit 1) bits) (lit 1)

-- What `_lower_subscript` writes, from the parts that it has lowered.
abbrev pub constant_slice : CExpr → ℕ → ℕ → CExpr
constant_slice base hi lo =
    if ltb (suc hi) lo
    then raised
    else if lo == 0
    then mask_text base (suc hi)
    else mask_text (binary shr base (lit lo)) (suc hi - lo)

-- The four cases of `_lower_subscript` on a base that is no array.
pub data Selector : Type 0 where
  constant_bits : ℕ → ℕ → Selector
  computed_bits : Selector
  single_bit : ℕ → Selector
  element : Selector

abbrev pub selector : Expr → Selector
selector (slice (constant (number h)) (constant (number l)) true) = constant_bits h l
selector (slice a b true) = computed_bits
selector (constant (number n)) = single_bit n
selector _ = element

abbrev pub computed_slice : CExpr → CExpr → CExpr → CExpr
computed_slice base hi lo =
    binary band (binary shr base lo) (ones_text (binary add (binary sub hi lo) (lit 1)))

abbrev pub bit_text : CExpr → ℕ → CExpr
bit_text base n = binary band (if n == 0 then base else binary shr base (lit n)) (lit 1)

abbrev pub subscript_text : Bool → Selector → CExpr → CExpr → CExpr → CExpr → CExpr
subscript_text true sel base idx hi lo = index base idx
subscript_text false (constant_bits h l) base idx hi lo = constant_slice base h l
subscript_text false computed_bits base idx hi lo = computed_slice base hi lo
subscript_text false (single_bit n) base idx hi lo = bit_text base n
subscript_text false element base idx hi lo = index base idx

-- What `_lower_call` writes, from its lowered arguments: the first, the second, and the elements of
-- the first where it is a list.
pub data Width : Type 0 where
  missing : Width
  fixed : ℕ → Width
  computed : Width

abbrev pub width_arg : Exprs → Width
width_arg (Syntax.Exprs.cons a (Syntax.Exprs.cons (constant (number n)) es)) = fixed n
width_arg (Syntax.Exprs.cons a (Syntax.Exprs.cons b es)) = computed
width_arg _ = missing

abbrev pub first_arg : CExprs → CExpr
first_arg CCode.CExprs.nil = raised
first_arg (CCode.CExprs.cons a es) = a

abbrev pub second_text : CExprs → CExpr
second_text (CCode.CExprs.cons a (CCode.CExprs.cons b es)) = b
second_text _ = raised

abbrev pub any_text : Option CExprs → CExpr
any_text (some (CCode.CExprs.cons e es)) = any_true (CCode.CExprs.cons e es)
any_text _ = lit 0

abbrev pub sext_call : Width → CExprs → CExpr
sext_call missing texts = raised
sext_call (fixed n) texts = sext_text (first_arg texts) (shift_text n)
sext_call computed texts = sext_text (first_arg texts) (binary sub (lit 32) (second_text texts))

abbrev pub zext_call : Width → CExprs → CExpr
zext_call missing texts = raised
zext_call (fixed n) texts = mask_text (first_arg texts) n
zext_call computed texts = binary band (first_arg texts) (ones_text (second_text texts))

abbrev pub call_text : CallName → Exprs → CExprs → Option CExprs → CExpr
call_text (simple n) args texts elts =
    if n == bool_name
    then truth_text (first_arg texts)
    else if n == any_name
    then any_text elts
    else unsupported
call_text (dotted m a) args texts elts =
    if (m == zdc_name) && (a == sext_name)
    then sext_call (width_arg args) texts
    else if (m == zdc_name) && (a == zext_name)
    then zext_call (width_arg args) texts
    else unsupported
call_text nameless args texts elts = unsupported

-- One comparison alone, or all of them.
abbrev pub join_parts : CExprs → CExpr
join_parts (CCode.CExprs.cons p CCode.CExprs.nil) = p
join_parts ps = all_true ps
