-- ===== src/Rtl/ExprLower/Operators.antt =====
-- The operators of src/zuspec/be/sw/passes/rtl/expr_lower.py: Python's values are those of the C.
use zuspec_be_sw.Prelude.{
  ℕ, ◌≤◌, ◌≡◌, inl, inr, refl, ap, Bool, true, false, not, ◌&&◌, ◌||◌, Option, none, some, ◌==◌,
  bit, arith, Bool-cases,
}
use zuspec_be_sw.Rtl.ExprLower.Syntax.{BinOp, UnaryOp, negation, invert, unary_minus, unary_plus}
use zuspec_be_sw.Rtl.ExprLower.CCode.{bind, c_binary, c_unary, c_and, c_or, c_operate}
use zuspec_be_sw.Rtl.ExprLower.Texts.{binop_map, cmpop, unop}
use zuspec_be_sw.Rtl.ExprLower.Source.{
  py_binary, py_and, py_or, py_operate, py_unary, is_comparison,
}

-- Where the first has a value, the second has it too.
abbrev pub Refines : Option ℕ → Option ℕ → Type 0
Refines a b = (v : ℕ) → a ≡ some v → b ≡ some v

pub both_true : (a b : Bool) → (a && b) ≡ true → (a ≡ true) × (b ≡ true)
both_true true b h = (refl, h)
both_true false b h = absurd (ground arith)

pub bind-Refines :
    (a b : Option ℕ) (f g : ℕ → Option ℕ)
    → Refines a b
    → ((x : ℕ) → Refines (f x) (g x))
    → Refines (bind a f) (bind b g)
bind-Refines none b f g p q v h = absurd (ground arith)
bind-Refines (some x) b f g p q v h = rw (p x refl) (q x v h)

pub binary-Refines :
    (op : BinOp) (x y : ℕ) → Refines (py_binary op x y) (c_binary (binop_map op) x y)
binary-Refines BinOp.plus x y v h = h
binary-Refines BinOp.minus x y v h = h
binary-Refines BinOp.times x y v h = h
binary-Refines BinOp.true_div x y v h = absurd (ground arith)
binary-Refines BinOp.floor_div x y v h = h
binary-Refines BinOp.modulo x y v h = h
binary-Refines BinOp.bit_conj x y v h = h
binary-Refines BinOp.bit_disj x y v h = h
binary-Refines BinOp.bit_excl x y v h = h
binary-Refines BinOp.shift_left x y v h = h
binary-Refines BinOp.shift_right x y v h = h
binary-Refines BinOp.eq x y v h = h
binary-Refines BinOp.not_eq x y v h = h
binary-Refines BinOp.less x y v h = h
binary-Refines BinOp.less_eq x y v h = h
binary-Refines BinOp.greater x y v h = h
binary-Refines BinOp.greater_eq x y v h = h
binary-Refines BinOp.conj x y v h = absurd (ground arith)
binary-Refines BinOp.disj x y v h = absurd (ground arith)
binary-Refines BinOp.other_op x y v h = absurd (ground arith)

-- At most 1.
abbrev pub IsBit : Option ℕ → Type 0
IsBit a = (v : ℕ) → a ≡ some v → v ≤ 1

pub comparison-IsBit : (op : BinOp) (x y : ℕ) → is_comparison op ≡ true → IsBit (py_binary op x y)
comparison-IsBit BinOp.eq x y h v e = ground arith
comparison-IsBit BinOp.not_eq x y h v e = ground arith
comparison-IsBit BinOp.less x y h v e = ground arith
comparison-IsBit BinOp.less_eq x y h v e = ground arith
comparison-IsBit BinOp.greater x y h v e = ground arith
comparison-IsBit BinOp.greater_eq x y h v e = ground arith
comparison-IsBit BinOp.plus x y h v e = absurd (ground arith)
comparison-IsBit BinOp.minus x y h v e = absurd (ground arith)
comparison-IsBit BinOp.times x y h v e = absurd (ground arith)
comparison-IsBit BinOp.true_div x y h v e = absurd (ground arith)
comparison-IsBit BinOp.floor_div x y h v e = absurd (ground arith)
comparison-IsBit BinOp.modulo x y h v e = absurd (ground arith)
comparison-IsBit BinOp.bit_conj x y h v e = absurd (ground arith)
comparison-IsBit BinOp.bit_disj x y h v e = absurd (ground arith)
comparison-IsBit BinOp.bit_excl x y h v e = absurd (ground arith)
comparison-IsBit BinOp.shift_left x y h v e = absurd (ground arith)
comparison-IsBit BinOp.shift_right x y h v e = absurd (ground arith)
comparison-IsBit BinOp.conj x y h v e = absurd (ground arith)
comparison-IsBit BinOp.disj x y h v e = absurd (ground arith)
comparison-IsBit BinOp.other_op x y h v e = absurd (ground arith)

pub bind-IsBit : (a : Option ℕ) (f : ℕ → Option ℕ) → ((x : ℕ) → IsBit (f x)) → IsBit (bind a f)
bind-IsBit none f p v h = absurd (ground arith)
bind-IsBit (some x) f p v h = p x v h

pub and-IsBit : (a b : Option ℕ) → IsBit b → IsBit (py_and a b)
and-IsBit none b p v h = absurd (ground arith)
and-IsBit (some x) b p v h = elim (Bool-cases (x == 0)) [
  | inl e ↦ ground arith
  | inr e ↦ p v (ground arith)
]

pub or-IsBit : (a b : Option ℕ) → IsBit a → IsBit b → IsBit (py_or a b)
or-IsBit none b p q v h = absurd (ground arith)
or-IsBit (some x) b p q v h = elim (Bool-cases (x == 0)) [
  | inl e ↦ q v (ground arith)
  | inr e ↦ p v (ground arith)
]

pub bit_of_bit : (x : ℕ) → x ≤ 1 → bit (not (x == 0)) ≡ x
bit_of_bit x h = ground arith

pub and-Refines :
    (a b a' b' : Option ℕ)
    → Refines a a'
    → Refines b b'
    → IsBit b
    → Refines (py_and a b) (c_and a' b')
and-Refines none b a' b' p q t v h = absurd (ground arith)
and-Refines (some x) b a' b' p q t v h = rw (p x refl) (elim (Bool-cases (x == 0)) [
  | inl e ↦ ground arith
  | inr e ↦
      let value : b ≡ some v = ground arith in
      rw (e, q v value) (ap some (bit_of_bit v (t v value)))
])

pub or-Refines :
    (a b a' b' : Option ℕ)
    → Refines a a'
    → Refines b b'
    → IsBit a
    → IsBit b
    → Refines (py_or a b) (c_or a' b')
or-Refines none b a' b' p q s t v h = absurd (ground arith)
or-Refines (some x) b a' b' p q s t v h = rw (p x refl) (elim (Bool-cases (x == 0)) [
  | inr e ↦ ground (arith, s x refl)
  | inl e ↦
      let value : b ≡ some v = ground arith in
      rw (e, q v value) (ap some (bit_of_bit v (t v value)))
])

both :
    (op : BinOp) {a b a' b' : Option ℕ}
    → Refines a a'
    → Refines b b'
    → Refines
        (bind a (λ x. bind b (λ y. py_binary op x y)))
        (bind a' (λ x. bind b' (λ y. c_binary (binop_map op) x y)))
both op {a} {b} {a'} {b'} p q =
    bind-Refines a a' _ _ p (λ x. bind-Refines b b' _ _ q (λ y. binary-Refines op x y))

abbrev pub is_logical : BinOp → Bool
is_logical BinOp.conj = true
is_logical BinOp.disj = true
is_logical _ = false

pub operate-Refines :
    (op : BinOp) (a b a' b' : Option ℕ)
    → Refines a a'
    → Refines b b'
    → (is_logical op ≡ true → IsBit a)
    → (is_logical op ≡ true → IsBit b)
    → Refines (py_operate op a b) (c_operate (binop_map op) a' b')
operate-Refines BinOp.conj a b a' b' p q s t = and-Refines a b a' b' p q (t refl)
operate-Refines BinOp.disj a b a' b' p q s t = or-Refines a b a' b' p q (s refl) (t refl)
operate-Refines BinOp.plus a b a' b' p q s t = both BinOp.plus p q
operate-Refines BinOp.minus a b a' b' p q s t = both BinOp.minus p q
operate-Refines BinOp.times a b a' b' p q s t = both BinOp.times p q
operate-Refines BinOp.true_div a b a' b' p q s t = both BinOp.true_div p q
operate-Refines BinOp.floor_div a b a' b' p q s t = both BinOp.floor_div p q
operate-Refines BinOp.modulo a b a' b' p q s t = both BinOp.modulo p q
operate-Refines BinOp.bit_conj a b a' b' p q s t = both BinOp.bit_conj p q
operate-Refines BinOp.bit_disj a b a' b' p q s t = both BinOp.bit_disj p q
operate-Refines BinOp.bit_excl a b a' b' p q s t = both BinOp.bit_excl p q
operate-Refines BinOp.shift_left a b a' b' p q s t = both BinOp.shift_left p q
operate-Refines BinOp.shift_right a b a' b' p q s t = both BinOp.shift_right p q
operate-Refines BinOp.eq a b a' b' p q s t = both BinOp.eq p q
operate-Refines BinOp.not_eq a b a' b' p q s t = both BinOp.not_eq p q
operate-Refines BinOp.less a b a' b' p q s t = both BinOp.less p q
operate-Refines BinOp.less_eq a b a' b' p q s t = both BinOp.less_eq p q
operate-Refines BinOp.greater a b a' b' p q s t = both BinOp.greater p q
operate-Refines BinOp.greater_eq a b a' b' p q s t = both BinOp.greater_eq p q
operate-Refines BinOp.other_op a b a' b' p q s t = both BinOp.other_op p q

pub compared-Refines :
    (op : BinOp) (a b a' b' : Option ℕ)
    → is_comparison op ≡ true
    → Refines a a'
    → Refines b b'
    → Refines (bind a (λ x. bind b (λ y. py_binary op x y))) (c_operate (cmpop op) a' b')
compared-Refines BinOp.eq a b a' b' h p q = both BinOp.eq p q
compared-Refines BinOp.not_eq a b a' b' h p q = both BinOp.not_eq p q
compared-Refines BinOp.less a b a' b' h p q = both BinOp.less p q
compared-Refines BinOp.less_eq a b a' b' h p q = both BinOp.less_eq p q
compared-Refines BinOp.greater a b a' b' h p q = both BinOp.greater p q
compared-Refines BinOp.greater_eq a b a' b' h p q = both BinOp.greater_eq p q
compared-Refines BinOp.plus a b a' b' h p q = absurd (ground arith)
compared-Refines BinOp.minus a b a' b' h p q = absurd (ground arith)
compared-Refines BinOp.times a b a' b' h p q = absurd (ground arith)
compared-Refines BinOp.true_div a b a' b' h p q = absurd (ground arith)
compared-Refines BinOp.floor_div a b a' b' h p q = absurd (ground arith)
compared-Refines BinOp.modulo a b a' b' h p q = absurd (ground arith)
compared-Refines BinOp.bit_conj a b a' b' h p q = absurd (ground arith)
compared-Refines BinOp.bit_disj a b a' b' h p q = absurd (ground arith)
compared-Refines BinOp.bit_excl a b a' b' h p q = absurd (ground arith)
compared-Refines BinOp.shift_left a b a' b' h p q = absurd (ground arith)
compared-Refines BinOp.shift_right a b a' b' h p q = absurd (ground arith)
compared-Refines BinOp.conj a b a' b' h p q = absurd (ground arith)
compared-Refines BinOp.disj a b a' b' h p q = absurd (ground arith)
compared-Refines BinOp.other_op a b a' b' h p q = absurd (ground arith)

-- A chain of comparisons that ends here.
pub last-Refines : (a c : Option ℕ) → IsBit a → Refines a c → Refines (py_and a (some 1)) c
last-Refines none c b p v h = absurd (ground arith)
last-Refines (some x) c b p v h = let same : x ≡ v = ground (arith, b x refl) in p v (ap some same)

-- `any` of a list of bits.
pub any-Refines :
    (a b a' b' : Option ℕ)
    → Refines a a'
    → Refines b b'
    → IsBit a
    → IsBit b
    → Refines (bind a (λ x. bind b (λ y. some (bit (not ((x == 0) && (y == 0))))))) (c_or a' b')
any-Refines none b a' b' p q s t v h = absurd (ground arith)
any-Refines (some x) none a' b' p q s t v h = absurd (ground arith)
any-Refines (some x) (some y) a' b' p q s t v h = rw (p x refl, q y refl) (ground arith)

pub single_any-Refines :
    (a c : Option ℕ)
    → IsBit a
    → Refines a c
    → Refines (bind a (λ x. some (bit (not ((x == 0) && (0 == 0)))))) c
single_any-Refines none c b p v h = absurd (ground arith)
single_any-Refines (some x) c b p v h =
    let same : x ≡ v = ground (arith, b x refl) in p v (ap some same)

pub unary-Refines : (op : UnaryOp) (x : ℕ) → Refines (py_unary op x) (c_unary (unop op) x)
unary-Refines negation x v h = h
unary-Refines invert x v h = absurd (ground arith)
unary-Refines unary_minus x v h = h
unary-Refines unary_plus x v h = h

pub compared-IsBit :
    (op : BinOp) (a b : Option ℕ)
    → is_comparison op ≡ true
    → IsBit (bind a (λ x. bind b (λ y. py_binary op x y)))
compared-IsBit op a b h = bind-IsBit a _ (λ x. bind-IsBit b _ (λ y. comparison-IsBit op x y h))

-- A comparison is 0 or 1, and so are `and` and `or` of operands that are.
pub operate-IsBit :
    (op : BinOp) (a b : Option ℕ) (tests : Bool)
    → (is_comparison op || (is_logical op && tests)) ≡ true
    → (tests ≡ true → IsBit a)
    → (tests ≡ true → IsBit b)
    → IsBit (py_operate op a b)
operate-IsBit BinOp.conj a b tests h p q = and-IsBit a b (q (ground arith))
operate-IsBit BinOp.disj a b tests h p q = or-IsBit a b (p (ground arith)) (q (ground arith))
operate-IsBit BinOp.eq a b tests h p q = compared-IsBit BinOp.eq a b refl
operate-IsBit BinOp.not_eq a b tests h p q = compared-IsBit BinOp.not_eq a b refl
operate-IsBit BinOp.less a b tests h p q = compared-IsBit BinOp.less a b refl
operate-IsBit BinOp.less_eq a b tests h p q = compared-IsBit BinOp.less_eq a b refl
operate-IsBit BinOp.greater a b tests h p q = compared-IsBit BinOp.greater a b refl
operate-IsBit BinOp.greater_eq a b tests h p q = compared-IsBit BinOp.greater_eq a b refl
operate-IsBit BinOp.plus a b tests h p q = absurd (ground arith)
operate-IsBit BinOp.minus a b tests h p q = absurd (ground arith)
operate-IsBit BinOp.times a b tests h p q = absurd (ground arith)
operate-IsBit BinOp.true_div a b tests h p q = absurd (ground arith)
operate-IsBit BinOp.floor_div a b tests h p q = absurd (ground arith)
operate-IsBit BinOp.modulo a b tests h p q = absurd (ground arith)
operate-IsBit BinOp.bit_conj a b tests h p q = absurd (ground arith)
operate-IsBit BinOp.bit_disj a b tests h p q = absurd (ground arith)
operate-IsBit BinOp.bit_excl a b tests h p q = absurd (ground arith)
operate-IsBit BinOp.shift_left a b tests h p q = absurd (ground arith)
operate-IsBit BinOp.shift_right a b tests h p q = absurd (ground arith)
operate-IsBit BinOp.other_op a b tests h p q = absurd (ground arith)

pub bit-IsBit : (b : Bool) → IsBit (some (bit b))
bit-IsBit b v h = ground arith
