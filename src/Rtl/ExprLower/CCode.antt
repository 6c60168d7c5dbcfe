-- ===== src/Rtl/ExprLower/CCode.antt =====
-- The C expressions that src/zuspec/be/sw/passes/rtl/expr_lower.py writes, and their values.
use Prim.Native.Nat.{bit_and, bit_or, bit_xor}
use zuspec_be_sw.Prelude.{
  ℕ, ◌+◌, ◌-◌, ◌*◌, ◌/◌, ◌%◌, ◌^◌, Bool, not, Option, none, some, ◌==◌, ltb, leb, bit,
  if◌then◌else◌,
}

-- Where a field of the component struct is stored: `self-><name>`, `self->_regs.<name>`,
-- `self->_nxt.<name>`, or the macro `<comp>_<name>`.
pub data Space : Type 0 where
  plain : Space
  regs : Space
  nxt : Space
  macro : Space

pub data CBinary : Type 0 where
  add : CBinary
  sub : CBinary
  mul : CBinary
  div : CBinary
  rem : CBinary
  band : CBinary
  bor : CBinary
  bxor : CBinary
  shl : CBinary
  shr : CBinary
  eq : CBinary
  ne : CBinary
  lt : CBinary
  le : CBinary
  gt : CBinary
  ge : CBinary
  land : CBinary
  lor : CBinary
  question : CBinary

pub data CUnary : Type 0 where
  bang : CUnary
  tilde : CUnary
  dash : CUnary
  cross : CUnary

-- `made_up` is a field `_f<index>`, `mangled` an identifier that is not declared, `unsupported` the
-- text of a comment and 0. `raised` stands where the method raises an exception and writes nothing.
mutual
  pub data CExpr : Type 0 where
    lit : ℕ → CExpr
    neg_lit : ℕ → CExpr
    verbatim : ℕ → CExpr
    self_pointer : CExpr
    name : ℕ → CExpr
    field : Space → ℕ → CExpr
    sub_field : Space → ℕ → ℕ → CExpr
    made_up : ℕ → CExpr
    mangled : ℕ → ℕ → CExpr
    arrow : CExpr → ℕ → CExpr
    arrow_made_up : CExpr → ℕ → CExpr
    index : CExpr → CExpr → CExpr
    binary : CBinary → CExpr → CExpr → CExpr
    prefixed : CUnary → CExpr → CExpr
    cond_expr : CExpr → CExpr → CExpr → CExpr
    to_int32 : CExpr → CExpr
    all_true : CExprs → CExpr
    any_true : CExprs → CExpr
    unsupported : CExpr
    raised : CExpr

  pub data CExprs : Type 0 where
    nil : CExprs
    cons : CExpr → CExprs → CExprs

pub record Memory : Type 0 where
  pub cell : Space → ℕ → ℕ
  pub sub_cell : Space → ℕ → ℕ → ℕ
  pub elements : Space → ℕ → ℕ → ℕ
  pub sizes : ℕ → ℕ
  pub names : ℕ → ℕ

abbrev pub bind : Option ℕ → (ℕ → Option ℕ) → Option ℕ
bind none f = none
bind (some x) f = f x

abbrev pub guard : Bool → ℕ → Option ℕ
guard b x = if b then some x else none

-- The number of an integer that every C type from int on can hold.
abbrev pub int_limit : ℕ
int_limit = 2 ^ 31

-- The value of an operator, where it is the same for operands of every integer type that can hold
-- theirs: a result is not negative, a sum, product or shift fits `int`, and a shift is
-- below 32.
abbrev pub c_binary : CBinary → ℕ → ℕ → Option ℕ
c_binary add a b = guard (ltb (a + b) int_limit) (a + b)
c_binary sub a b = guard (leb b a) (a - b)
c_binary mul a b = guard (ltb (a * b) int_limit) (a * b)
c_binary div a b = guard (not (b == 0)) (a / b)
c_binary rem a b = guard (not (b == 0)) (a % b)
c_binary band a b = some (bit_and a b)
c_binary bor a b = some (bit_or a b)
c_binary bxor a b = some (bit_xor a b)
c_binary shl a b = if ltb b 32 then guard (ltb (a * 2 ^ b) int_limit) (a * 2 ^ b) else none
c_binary shr a b = guard (ltb b 32) (a / 2 ^ b)
c_binary eq a b = some (bit (a == b))
c_binary ne a b = some (bit (not (a == b)))
c_binary lt a b = some (bit (ltb a b))
c_binary le a b = some (bit (leb a b))
c_binary gt a b = some (bit (ltb b a))
c_binary ge a b = some (bit (leb b a))
c_binary land a b = none
c_binary lor a b = none
c_binary question a b = none

abbrev pub c_unary : CUnary → ℕ → Option ℕ
c_unary bang a = some (bit (a == 0))
c_unary tilde a = none
c_unary dash a = guard (a == 0) 0
c_unary cross a = some a

-- `&&` and `||` look at the second operand where they need it.
abbrev pub c_and : Option ℕ → Option ℕ → Option ℕ
c_and a b = bind a (λ x. if x == 0 then some 0 else bind b (λ y. some (bit (not (y == 0)))))

abbrev pub c_or : Option ℕ → Option ℕ → Option ℕ
c_or a b = bind a (λ x. if x == 0 then bind b (λ y. some (bit (not (y == 0)))) else some 1)

abbrev pub c_operate : CBinary → Option ℕ → Option ℕ → Option ℕ
c_operate land a b = c_and a b
c_operate lor a b = c_or a b
c_operate op a b = bind a (λ x. bind b (λ y. c_binary op x y))

abbrev pub c_element : Memory → CExpr → ℕ → Option ℕ
c_element m (field s f) i = guard (ltb i (m.sizes f)) (m.elements s f i)
c_element m _ i = none

-- `none`: no value, or one that depends on the types.
module _ (m : Memory) where
  unfoldable mutual
    pub c_eval : CExpr → Option ℕ
    c_eval (lit n) = some n
    c_eval (neg_lit n) = none
    c_eval (verbatim n) = none
    c_eval self_pointer = none
    c_eval (name n) = some (m.names n)
    c_eval (field s f) = some (m.cell s f)
    c_eval (sub_field s f a) = some (m.sub_cell s f a)
    c_eval (made_up i) = none
    c_eval (mangled n a) = none
    c_eval (arrow e n) = none
    c_eval (arrow_made_up e i) = none
    c_eval (index e i) = bind (c_eval i) (c_element m e)
    c_eval (binary op a b) = c_operate op (c_eval a) (c_eval b)
    c_eval (prefixed op a) = bind (c_eval a) (c_unary op)
    c_eval (cond_expr t a b) =
        let x = c_eval a in let y = c_eval b in bind (c_eval t) (λ v. if v == 0 then y else x)
    c_eval (to_int32 a) = bind (c_eval a) (λ x. guard (ltb x int_limit) x)
    c_eval (all_true es) = c_all es
    c_eval (any_true es) = c_any es
    c_eval unsupported = some 0
    c_eval raised = none

    pub c_all : CExprs → Option ℕ
    c_all nil = none
    c_all (cons e nil) = c_eval e
    c_all (cons e es) = c_and (c_eval e) (c_all es)

    pub c_any : CExprs → Option ℕ
    c_any nil = none
    c_any (cons e nil) = c_eval e
    c_any (cons e es) = c_or (c_eval e) (c_any es)
