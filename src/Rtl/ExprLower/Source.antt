-- ===== src/Rtl/ExprLower/Source.antt =====
-- What the expressions mean that src/zuspec/be/sw/passes/rtl/expr_lower.py translates.
use Prim.Native.Nat.{bit_and, bit_or, bit_xor}
use zuspec_be_sw.Prelude.{
  ℕ, suc, ◌+◌, ◌-◌, ◌*◌, ◌/◌, ◌%◌, ◌^◌, Bool, true, false, not, ◌&&◌, Option, none, some, get_elem?,
  ◌==◌, ltb, leb, bit, if◌then◌else◌,
}
use zuspec_be_sw.Rtl.ExprLower.Syntax.{
  Const, truth, number, BinOp, UnaryOp, negation, invert, unary_minus, unary_plus, Expr, none_expr,
  self_ref, own_field, far_field, attribute, constant, bin, param_ref, local_ref, unresolved,
  subscript, slice, if_exp, sext, zext, cbit, signed, call, compare, all_of, one_of, unary, list,
  other_expr, Exprs, nil, cons, Compares, finished, next, Field, bool_name, any_name, zdc_name,
  zext_name,
}
use zuspec_be_sw.Rtl.ExprLower.CCode.{bind, guard, int_limit}
use zuspec_be_sw.Rtl.ExprLower.Lower.{
  Setup, Base, own_base, field_base, module_base, general_base, base_of, is_array_field,
}
use zuspec_be_sw.Rtl.ExprLower.Texts.{
  Selector, constant_bits, computed_bits, single_bit, element, selector, Width, missing, fixed,
  computed, width_arg, CallName, simple, dotted, nameless, call_name,
}

-- The fields by their names, the fields of bundles, the arrays with their sizes, and the parameters
-- and locals.
pub record Env : Type 0 where
  pub fields : ℕ → ℕ
  pub bundles : ℕ → ℕ → ℕ
  pub arrays : ℕ → ℕ → ℕ
  pub sizes : ℕ → ℕ
  pub names : ℕ → ℕ

-- The operators of Python on integers, where a sum, product or shift is below 2 ^ 31, a difference
-- is not negative, and a shift is by less than 32.
abbrev pub py_binary : BinOp → ℕ → ℕ → Option ℕ
py_binary BinOp.plus a b = guard (ltb (a + b) int_limit) (a + b)
py_binary BinOp.minus a b = guard (leb b a) (a - b)
py_binary BinOp.times a b = guard (ltb (a * b) int_limit) (a * b)
py_binary BinOp.true_div a b = none
py_binary BinOp.floor_div a b = guard (not (b == 0)) (a / b)
py_binary BinOp.modulo a b = guard (not (b == 0)) (a % b)
py_binary BinOp.bit_conj a b = some (bit_and a b)
py_binary BinOp.bit_disj a b = some (bit_or a b)
py_binary BinOp.bit_excl a b = some (bit_xor a b)
py_binary BinOp.shift_left a b =
    if ltb b 32 then guard (ltb (a * 2 ^ b) int_limit) (a * 2 ^ b) else none
py_binary BinOp.shift_right a b = guard (ltb b 32) (a / 2 ^ b)
py_binary BinOp.eq a b = some (bit (a == b))
py_binary BinOp.not_eq a b = some (bit (not (a == b)))
py_binary BinOp.less a b = some (bit (ltb a b))
py_binary BinOp.less_eq a b = some (bit (leb a b))
py_binary BinOp.greater a b = some (bit (ltb b a))
py_binary BinOp.greater_eq a b = some (bit (leb b a))
py_binary BinOp.conj a b = none
py_binary BinOp.disj a b = none
py_binary BinOp.other_op a b = none

-- `and` and `or` give one of their operands.
abbrev pub py_and : Option ℕ → Option ℕ → Option ℕ
py_and a b = bind a (λ x. if x == 0 then some x else b)

abbrev pub py_or : Option ℕ → Option ℕ → Option ℕ
py_or a b = bind a (λ x. if x == 0 then b else some x)

abbrev pub py_operate : BinOp → Option ℕ → Option ℕ → Option ℕ
py_operate BinOp.conj a b = py_and a b
py_operate BinOp.disj a b = py_or a b
py_operate op a b = bind a (λ x. bind b (λ y. py_binary op x y))

abbrev pub is_comparison : BinOp → Bool
is_comparison BinOp.eq = true
is_comparison BinOp.not_eq = true
is_comparison BinOp.less = true
is_comparison BinOp.less_eq = true
is_comparison BinOp.greater = true
is_comparison BinOp.greater_eq = true
is_comparison _ = false

abbrev pub py_unary : UnaryOp → ℕ → Option ℕ
py_unary negation a = some (bit (a == 0))
py_unary invert a = none
py_unary unary_minus a = guard (a == 0) 0
py_unary unary_plus a = some a

abbrev pub py_constant : Const → Option ℕ
py_constant (truth b) = some (bit b)
py_constant (number n) = some n
py_constant _ = none

-- The bits from `lo` to `hi`.
abbrev pub slice_bits : ℕ → ℕ → ℕ → ℕ
slice_bits v hi lo = (v / 2 ^ lo) % 2 ^ (suc hi - lo)

abbrev pub py_subscript : Selector → Option ℕ → Option ℕ → Option ℕ → Option ℕ
py_subscript (constant_bits h l) v hi lo =
    bind v (λ x. guard (leb l h && ltb l 32) (slice_bits x h l))
py_subscript computed_bits v hi lo = bind v (λ x.
    bind hi
      (λ h. bind lo (λ l. guard (leb l h && (ltb l 32 && ltb (h - l) 30)) (slice_bits x h l))))
py_subscript (single_bit n) v hi lo = bind v (λ x. guard (ltb n 32) (slice_bits x n n))
py_subscript element v hi lo = none

abbrev pub truth_value : ℕ → Option ℕ
truth_value x = some (bit (not (x == 0)))

abbrev pub py_zext : Width → Option ℕ → Option ℕ → Option ℕ
py_zext missing v n = none
py_zext (fixed n) v b = bind v (λ x. some (x % 2 ^ n))
py_zext computed v b = bind v (λ x. bind b (λ n. guard (ltb n 31) (x % 2 ^ n)))

-- The calls of `bool`, `any` and `zdc.zext`.
abbrev pub py_call : CallName → Width → Option ℕ → Option ℕ → Option ℕ → Option ℕ
py_call (simple n) w first second anyv =
    if n == bool_name then bind first truth_value else if n == any_name then anyv else none
py_call (dotted m a) w first second anyv =
    if (m == zdc_name) && (a == zext_name) then py_zext w first second else none
py_call nameless w first second anyv = none

module _ (setup : Setup) (env : Env) where
  abbrev pub field_at : Option Field → Option ℕ
  field_at none = none
  field_at (some f) = some (env.fields f.name)

  abbrev pub bundle_at : ℕ → Option Field → Option ℕ
  bundle_at a none = none
  bundle_at a (some f) = some (env.bundles f.name a)

  abbrev pub element_at : Option Field → ℕ → Option ℕ
  element_at none i = none
  element_at (some f) i = guard (ltb i (env.sizes f.name)) (env.arrays f.name i)

  abbrev pub py_element : Expr → ℕ → Option ℕ
  py_element (own_field k) i = element_at (get_elem? setup.fields k) i
  py_element _ i = none

  abbrev pub enum_value : Option Const → Option ℕ
  enum_value none = none
  enum_value (some (truth b)) = none
  enum_value (some c) = py_constant c

  abbrev pub py_attribute : Base → ℕ → Option ℕ
  py_attribute own_base a = some (env.fields a)
  py_attribute (field_base i) a = bundle_at a (get_elem? setup.fields i)
  py_attribute (module_base m) a = enum_value (setup.module_attr m a)
  py_attribute general_base a = none

  -- The value of an expression; `none` where it is no number, where an exception is raised, or where
  -- a number on the way leaves the bounds of `py_binary`.
  unfoldable mutual
    pub py_eval : Expr → Option ℕ
    py_eval none_expr = none
    py_eval self_ref = none
    py_eval (own_field i) = field_at (get_elem? setup.fields i)
    py_eval (far_field b i) = none
    py_eval (attribute v a) = py_attribute (base_of v) a
    py_eval (constant c) = py_constant c
    py_eval (bin op l r) = py_operate op (py_eval l) (py_eval r)
    py_eval (param_ref n) = some (env.names n)
    py_eval (local_ref n) = some (env.names n)
    py_eval (unresolved n) = none
    py_eval (subscript v slc) =
        let e = bind (py_eval slc) (py_element v) in
        let s = py_subscript (selector slc) (py_eval v) (py_high slc) (py_low slc) in
        if is_array_field setup v then e else s
    py_eval (slice a b bits) = none
    py_eval (if_exp t a b) =
        let x = py_eval a in let y = py_eval b in bind (py_eval t) (λ v. if v == 0 then y else x)
    py_eval (sext v n) = none
    py_eval (zext v n) = bind (py_eval v) (λ x. some (x % 2 ^ n))
    py_eval (cbit v) = bind (py_eval v) truth_value
    py_eval (signed v) = bind (py_eval v) (λ x. guard (ltb x int_limit) x)
    py_eval (call f args) =
        py_call (call_name f) (width_arg args) (py_first args) (py_second args) (py_any_first args)
    py_eval (compare l finished) = none
    py_eval (compare l (next op e cs)) = py_compares (py_eval l) (next op e cs)
    py_eval (all_of es) = py_all es
    py_eval (one_of es) = py_one es
    py_eval (unary op v) = bind (py_eval v) (py_unary op)
    py_eval (list es) = none
    py_eval other_expr = none

    -- A chain of comparisons stops at the first that is false.
    pub py_compares : Option ℕ → Compares → Option ℕ
    py_compares left finished = some 1
    py_compares left (next op e cs) =
        let right = py_eval e in
        let rest = py_compares right cs in
        if is_comparison op
        then py_and (bind left (λ x. bind right (py_binary op x))) rest
        else none

    pub py_all : Exprs → Option ℕ
    py_all nil = none
    py_all (cons e nil) = py_eval e
    py_all (cons e (cons f es)) = py_and (py_eval e) (py_all (cons f es))

    pub py_one : Exprs → Option ℕ
    py_one nil = none
    py_one (cons e nil) = py_eval e
    py_one (cons e (cons f es)) = py_or (py_eval e) (py_one (cons f es))

    pub py_high : Expr → Option ℕ
    py_high (slice a b bits) = py_eval a
    py_high _ = none

    pub py_low : Expr → Option ℕ
    py_low (slice a b bits) = py_eval b
    py_low _ = none

    pub py_first : Exprs → Option ℕ
    py_first nil = none
    py_first (cons e es) = py_eval e

    pub py_second : Exprs → Option ℕ
    py_second nil = none
    py_second (cons e es) = py_first es

    pub py_any_first : Exprs → Option ℕ
    py_any_first nil = none
    py_any_first (cons e es) = py_any_list e

    -- `any` of a list: every element has a value.
    pub py_any_list : Expr → Option ℕ
    py_any_list (list es) = py_any es
    py_any_list _ = none

    pub py_any : Exprs → Option ℕ
    py_any nil = some 0
    py_any (cons e es) =
        let rest = py_any es in
        bind (py_eval e) (λ x. bind rest (λ y. some (bit (not ((x == 0) && (y == 0))))))
