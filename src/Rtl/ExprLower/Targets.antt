-- ===== src/Rtl/ExprLower/Targets.antt =====
-- The targets of the assignments that src/zuspec/be/sw/passes/rtl/expr_lower.py writes.
use zuspec_be_sw.Prelude.{
  ℕ, ◌≡◌, inl, inr, refl, Bool, true, false, ◌||◌, Option, none, some, ◌==◌, ltb, ◌&&◌, suc, arith,
  Bool-cases, Option-cases, get_elem?,
}
use zuspec_be_sw.Rtl.ExprLower.Syntax.{
  Const, truth, number, negative, absent, text, strings, Expr, none_expr, self_ref, own_field,
  far_field, attribute, constant, bin, param_ref, local_ref, unresolved, subscript, slice, if_exp,
  sext, zext, cbit, signed, call, compare, all_of, one_of, unary, list, other_expr, Exprs, Compares,
  finished, next, Field, bool_name, any_name, zdc_name, sext_name, zext_name,
}
use zuspec_be_sw.Rtl.ExprLower.CCode.{Space, regs, CExpr, field, sub_field, CExprs}
use zuspec_be_sw.Rtl.ExprLower.Lower.{
  enum_text, Setup, space_of, Base, own_base, field_base, module_base, general_base, base_of,
  own_field_text, lower_attribute, is_array_field, lower_expr, lower_all, lower_elements,
  lower_high, lower_low, lower_compares,
}
use zuspec_be_sw.Rtl.ExprLower.Texts.{
  lower_constant, Selector, constant_bits, computed_bits, single_bit, element, selector,
  subscript_text, constant_slice, Width, missing, fixed, computed, CallName, simple, dotted,
  nameless, call_name, call_text, any_text, join_parts, sext_call, zext_call,
}
use zuspec_be_sw.Rtl.ExprLower.Statements.{
  CStmt, store, store_op, branch, count_loop, block, test_loop, CStmts, empty, after, append,
}

-- A place in `self->_regs`, of which elements of arrays are none.
abbrev pub is_regs : Space → Bool
is_regs regs = true
is_regs _ = false

abbrev pub is_register : CExpr → Bool
is_register (field s f) = is_regs s
is_register (sub_field s f a) = is_regs s
is_register _ = false

-- A line that stores to a register.
unfoldable mutual
  pub stores_register : CStmt → Bool
  stores_register (store l e) = is_register l
  stores_register (store_op op l e) = is_register l
  stores_register (branch t a b) = store_registers a || store_registers b
  stores_register (count_loop v a b c body) = store_registers body
  stores_register (block body) = store_registers body
  stores_register (test_loop t body) = store_registers body
  stores_register _ = false

  pub store_registers : CStmts → Bool
  store_registers empty = false
  store_registers (after s ss) = stores_register s || store_registers ss

pub written_space : (b : Bool) → is_regs (space_of b true) ≡ false
written_space true = refl
written_space false = refl

pub or_false : (a b : Bool) → a ≡ false → b ≡ false → (a || b) ≡ false
or_false a b h k = cc

pub append_registers :
    (a b : CStmts)
    → store_registers a ≡ false
    → store_registers b ≡ false
    → store_registers (append a b) ≡ false
unfolding store_registers
append_registers empty b h k = k
append_registers (after s ss) b h k = ground (arith, append_registers ss b)

constant_register : (c : Const) → is_register (lower_constant c) ≡ false
constant_register (truth true) = refl
constant_register (truth false) = refl
constant_register (number n) = refl
constant_register (negative n) = refl
constant_register absent = refl
constant_register (text t) = refl
constant_register (strings ns) = refl

slice_register : (base : CExpr) (h l : ℕ) → is_register (constant_slice base h l) ≡ false
slice_register base h l = elim (Bool-cases (ltb (suc h) l)) [
  | inl a ↦ rw a refl
  | inr a ↦ elim (Bool-cases (l == 0)) [ inl b ↦ rw (a, b) refl | inr b ↦ rw (a, b) refl ]
]

subscript_register :
    (array : Bool) (sel : Selector) (c i h l : CExpr)
    → is_register (subscript_text array sel c i h l) ≡ false
subscript_register true sel c i h l = refl
subscript_register false (constant_bits a b) c i h l = slice_register c a b
subscript_register false computed_bits c i h l = refl
subscript_register false (single_bit n) c i h l = refl
subscript_register false element c i h l = refl

sext_register : (w : Width) (texts : CExprs) → is_register (sext_call w texts) ≡ false
sext_register missing texts = refl
sext_register (fixed n) texts = refl
sext_register computed texts = refl

zext_register : (w : Width) (texts : CExprs) → is_register (zext_call w texts) ≡ false
zext_register missing texts = refl
zext_register (fixed n) texts = refl
zext_register computed texts = refl

any_register : (elts : Option CExprs) → is_register (any_text elts) ≡ false
any_register none = refl
any_register (some CExprs.nil) = refl
any_register (some (CExprs.cons e es)) = refl

call_register :
    (f : CallName) (args : Exprs) (texts : CExprs) (elts : Option CExprs)
    → is_register (call_text f args texts elts) ≡ false
call_register nameless args texts elts = refl
call_register (simple n) args texts elts = elim (Bool-cases (n == bool_name)) [
  | inl h ↦ rw h refl
  | inr h ↦ elim (Bool-cases (n == any_name)) [
    | inl k ↦ rw (h, k) (any_register elts)
    | inr k ↦ rw (h, k) refl
  ]
]
call_register (dotted m s) args texts elts =
    elim (Bool-cases ((m == zdc_name) && (s == sext_name))) [
      | inl h ↦ rw h (sext_register _ texts)
      | inr h ↦ elim (Bool-cases ((m == zdc_name) && (s == zext_name))) [
        | inl k ↦ rw (h, k) (zext_register _ texts)
        | inr k ↦ rw (h, k) refl
      ]
    ]

module _ (setup : Setup) where
  own_register : (i : ℕ) (o : Option Field) → is_register (own_field_text setup i true o) ≡ false
  own_register i none = refl
  own_register i (some f) = written_space (setup.is_nxt f.name)

  enum_register : (n a : ℕ) (o : Option Const) → is_register (enum_text n a o) ≡ false
  enum_register q a none = refl
  enum_register q a (some (truth b)) = refl
  enum_register q a (some (number n)) = constant_register (number n)
  enum_register q a (some (negative n)) = constant_register (negative n)
  enum_register q a (some absent) = constant_register absent
  enum_register q a (some (text t)) = constant_register (text t)
  enum_register q a (some (strings ns)) = constant_register (strings ns)

  attribute_register :
      (b : Base) (c : CExpr) (a : ℕ) → is_register (lower_attribute setup b c a true) ≡ false
  attribute_register own_base c a = written_space (setup.is_nxt a)
  attribute_register (field_base i) c a = elim (Option-cases (get_elem? setup.fields i)) [
    | inl e ↦ rw e refl
    | inr e ↦ rw (e.1) (written_space (setup.is_nxt e.0.name))
  ]
  attribute_register (module_base m) c a = enum_register m a (setup.module_attr m a)
  attribute_register general_base c a = refl

  compare_register :
      (c : CExpr) (cs : Compares) → is_register (join_parts (lower_compares setup c cs)) ≡ false
  unfolding lower_compares
  compare_register c finished = refl
  compare_register c (next op e finished) = refl
  compare_register c (next op e (next op' f cs)) = refl

  pub target_register : (e : Expr) → is_register (lower_expr setup e true) ≡ false
  unfolding lower_expr
  target_register (own_field i) = own_register i (get_elem? setup.fields i)
  target_register (far_field b i) = elim (Option-cases (get_elem? setup.fields i)) [
    | inl e ↦ rw e refl
    | inr e ↦ rw (e.1) refl
  ]
  target_register (attribute v a) = attribute_register (base_of v) (lower_expr setup v true) a
  target_register (constant c) = constant_register c
  target_register (subscript v slc) =
      subscript_register (is_array_field setup v) (selector slc) (lower_expr setup v false)
        (lower_expr setup slc false) (lower_high setup slc) (lower_low setup slc)
  target_register (call f args) =
      call_register (call_name f) args (lower_all setup args true) (lower_elements setup args true)
  target_register (compare l cs) = compare_register (lower_expr setup l false) cs
  target_register none_expr = refl
  target_register self_ref = refl
  target_register (bin op l r) = refl
  target_register (param_ref k) = refl
  target_register (local_ref k) = refl
  target_register (unresolved k) = refl
  target_register (slice a b bits) = refl
  target_register (if_exp c a b) = refl
  target_register (sext e k) = refl
  target_register (zext e k) = refl
  target_register (cbit e) = refl
  target_register (signed e) = refl
  target_register (all_of es) = refl
  target_register (one_of es) = refl
  target_register (unary op e) = refl
  target_register (list es) = refl
  target_register other_expr = refl
