-- ===== src/Rtl/ExprLower/Parts.antt =====
-- The parts of the C text of src/zuspec/be/sw/passes/rtl/expr_lower.py have the values of the parts
-- of the expression.
use zuspec_be_sw.Prelude.Bits.{bit_and-mask}
use zuspec_be_sw.Prelude.{
  ℕ, ◌-◌, ◌%◌, ◌^◌, ◌≡◌, inl, inr, refl, sym, ap, ◌∙◌, Bool, true, false, not, ◌&&◌, ◌||◌, Option,
  none, some, get_elem?, ◌==◌, ltb, leb, if◌then◌else◌, arith, Bool-cases, Option-cases,
}
use zuspec_be_sw.Rtl.ExprLower.Syntax.{
  Const, truth, number, negative, absent, text, strings, BinOp, Expr, none_expr, self_ref,
  own_field, far_field, attribute, constant, bin, param_ref, local_ref, unresolved, subscript,
  slice, if_exp, sext, zext, cbit, signed, call, compare, all_of, one_of, unary, list, other_expr,
  Exprs, nil, cons, Compares, finished, next, Field, bool_name, any_name, zdc_name, sext_name,
  zext_name,
}
use zuspec_be_sw.Rtl.ExprLower.CCode.{macro, Memory, bind, CExpr, CExprs, c_eval, c_all, c_element}
use zuspec_be_sw.Rtl.ExprLower.Lower.{
  enum_text, Setup, space_of, Base, own_base, field_base, module_base, general_base, own_field_text,
  lower_attribute, lower_expr,
}
use zuspec_be_sw.Rtl.ExprLower.Texts.{
  lower_constant, Selector, constant_bits, computed_bits, single_bit, element, Width, missing,
  fixed, computed, CallName, simple, dotted, nameless, subscript_text, call_text, join_parts,
  truth_text, mask_text, zext_call, first_arg, second_text, any_text, width_arg,
}
use zuspec_be_sw.Rtl.ExprLower.Source.{
  enum_value, Env, py_eval, py_any, py_subscript, py_call, py_element, py_zext, truth_value,
  field_at, py_attribute, py_constant, slice_bits, element_at,
}
use zuspec_be_sw.Rtl.ExprLower.Operators.{
  Refines, IsBit, bit-IsBit, bind-IsBit, is_logical, both_true,
}
use zuspec_be_sw.Rtl.ExprLower.Slices.{
  guarded, mask_value, constant_slice_value, computed_slice_value, bit_value, ones_value,
}

-- The memory of the component has the fields where the generated code reads them.
pub record Agrees (setup : Setup) (env : Env) (m : Memory) : Type 0 where
  pub fields : (f : ℕ) → m.cell (space_of (setup.is_nxt f) false) f ≡ env.fields f
  pub consts : (f : ℕ) → setup.is_const f ≡ true → m.cell macro f ≡ env.fields f
  pub bundles : (f a : ℕ) → m.sub_cell (space_of (setup.is_nxt f) false) f a ≡ env.bundles f a
  pub arrays : (f i : ℕ) → m.elements (space_of (setup.is_nxt f) false) f i ≡ env.arrays f i
  pub const_arrays : (f i : ℕ) → setup.is_const f ≡ true → m.elements macro f i ≡ env.arrays f i
  pub sizes : (f : ℕ) → m.sizes f ≡ env.sizes f
  pub names : (n : ℕ) → m.names n ≡ env.names n

abbrev pub is_more : Compares → Bool
is_more finished = false
is_more (next op e cs) = true

pub logical_tests :
    (op : BinOp) (a b : Bool)
    → (not (is_logical op) || (a && b)) ≡ true
    → is_logical op ≡ true
    → (a ≡ true) × (b ≡ true)
logical_tests op a b h g = both_true a b (ground arith)

module _ (setup : Setup) (env : Env) (m : Memory) (agrees : Agrees setup env m) where
  pub constant_sound : (c : Const) → Refines (py_constant c) (c_eval m (lower_constant c))
  unfolding c_eval
  constant_sound (truth true) v k = k
  constant_sound (truth false) v k = k
  constant_sound (number n) v k = k
  constant_sound (negative n) v k = absurd (ground arith)
  constant_sound absent v k = absurd (ground arith)
  constant_sound (text t) v k = absurd (ground arith)
  constant_sound (strings ns) v k = absurd (ground arith)

  pub field_sound :
      (i : ℕ) (o : Option Field)
      → Refines (field_at setup env o) (c_eval m (own_field_text setup i false o))
  unfolding c_eval
  field_sound i none v k = absurd (ground arith)
  field_sound i (some f) v k = elim (Bool-cases (setup.is_const f.name)) [
    | inl c ↦ rw (c, agrees.consts f.name c) k
    | inr c ↦ rw (c, agrees.fields f.name) k
  ]

  enum_sound :
      (n a : ℕ) (o : Option Const) → Refines (enum_value setup env o) (c_eval m (enum_text n a o))
  unfolding c_eval
  enum_sound q a none v k = absurd (ground arith)
  enum_sound q a (some (truth b)) v k = absurd (ground arith)
  enum_sound q a (some (number n)) v k = constant_sound (number n) v k
  enum_sound q a (some (negative n)) v k = constant_sound (negative n) v k
  enum_sound q a (some absent) v k = constant_sound absent v k
  enum_sound q a (some (text t)) v k = constant_sound (text t) v k
  enum_sound q a (some (strings ns)) v k = constant_sound (strings ns) v k

  pub attribute_sound :
      (b : Base) (c : CExpr) (a : ℕ)
      → Refines (py_attribute setup env b a) (c_eval m (lower_attribute setup b c a false))
  unfolding c_eval
  attribute_sound own_base c a v k = rw (agrees.fields a) k
  attribute_sound (field_base i) c a v k = elim (Option-cases (get_elem? setup.fields i)) [
    | inl e ↦ absurd (ground arith)
    | inr e ↦ rw (e.1, agrees.bundles e.0.name a) (ground arith)
  ]
  attribute_sound (module_base n) c a v k = enum_sound n a (setup.module_attr n a) v k
  attribute_sound general_base c a v k = absurd (ground arith)

  element_at_sound :
      (i : ℕ) (o : Option Field) (x : ℕ)
      → Refines (element_at setup env o x) (c_element m (own_field_text setup i false o) x)
  element_at_sound i none x v k = absurd (ground arith)
  element_at_sound i (some f) x v k = elim (Bool-cases (setup.is_const f.name)) [
    | inl c ↦ rw (c, agrees.sizes f.name, agrees.const_arrays f.name x c) k
    | inr c ↦ rw (c, agrees.sizes f.name, agrees.arrays f.name x) k
  ]

  pub element_sound :
      (e : Expr) (x : ℕ)
      → Refines (py_element setup env e x) (c_element m (lower_expr setup e false) x)
  unfolding lower_expr
  element_sound (own_field i) x v k = element_at_sound i (get_elem? setup.fields i) x v k
  element_sound none_expr x v k = absurd (ground arith)
  element_sound self_ref x v k = absurd (ground arith)
  element_sound (far_field b j) x v k = absurd (ground arith)
  element_sound (attribute e a) x v k = absurd (ground arith)
  element_sound (constant c) x v k = absurd (ground arith)
  element_sound (bin op l r) x v k = absurd (ground arith)
  element_sound (param_ref n) x v k = absurd (ground arith)
  element_sound (local_ref n) x v k = absurd (ground arith)
  element_sound (unresolved n) x v k = absurd (ground arith)
  element_sound (subscript e slc) x v k = absurd (ground arith)
  element_sound (slice a b bits) x v k = absurd (ground arith)
  element_sound (if_exp t a b) x v k = absurd (ground arith)
  element_sound (sext e n) x v k = absurd (ground arith)
  element_sound (zext e n) x v k = absurd (ground arith)
  element_sound (cbit e) x v k = absurd (ground arith)
  element_sound (signed e) x v k = absurd (ground arith)
  element_sound (call f args) x v k = absurd (ground arith)
  element_sound (compare l cs) x v k = absurd (ground arith)
  element_sound (all_of es) x v k = absurd (ground arith)
  element_sound (one_of es) x v k = absurd (ground arith)
  element_sound (unary op e) x v k = absurd (ground arith)
  element_sound (list es) x v k = absurd (ground arith)
  element_sound other_expr x v k = absurd (ground arith)

  pub truth_sound :
      (a : Option ℕ) (c : CExpr)
      → Refines a (c_eval m c)
      → Refines (bind a truth_value) (c_eval m (truth_text c))
  unfolding c_eval
  truth_sound none c p v k = absurd (ground arith)
  truth_sound (some x) c p v k = rw (p x refl) (ground arith)

  pub mask_sound :
      (a : Option ℕ) (c : CExpr) (n : ℕ)
      → Refines a (c_eval m c)
      → Refines (bind a (λ x. some (x % 2 ^ n))) (c_eval m (mask_text c n))
  mask_sound none c n p v k = absurd (ground arith)
  mask_sound (some x) c n p v k = mask_value m c n x (p x refl) ∙ k

  zext_sound :
      (w : Width) (a b : Option ℕ) (texts : CExprs)
      → Refines a (c_eval m (first_arg texts))
      → Refines b (c_eval m (second_text texts))
      → Refines (py_zext w a b) (c_eval m (zext_call w texts))
  unfolding c_eval
  zext_sound missing a b texts p q v k = absurd (ground arith)
  zext_sound (fixed n) a b texts p q v k = mask_sound a (first_arg texts) n p v k
  zext_sound computed none b texts p q v k = absurd (ground arith)
  zext_sound computed (some x) none texts p q v k = absurd (ground arith)
  zext_sound computed (some x) (some n) texts p q v k = elim (Bool-cases (ltb n 31)) [
    | inr g ↦ absurd (ground arith)
    | inl g ↦
        rw (p x refl, ones_value m (second_text texts) n (q n refl) g)
          (let masked = bit_and-mask n x in ap some masked ∙ ground (arith))
  ]

  pub subscript_sound :
      (array : Bool) (sel : Selector) (e : Option ℕ) (a idx hi lo : Option ℕ) (c ci ch cl : CExpr)
      → (array ≡ true → Refines e (c_eval m (CExpr.index c ci)))
      → Refines a (c_eval m c)
      → Refines hi (c_eval m ch)
      → Refines lo (c_eval m cl)
      → Refines
          (if array then e else py_subscript sel a hi lo)
          (c_eval m (subscript_text array sel c ci ch cl))
  subscript_sound true sel e a idx hi lo c ci ch cl t p q r v k = t refl v k
  subscript_sound false (constant_bits h l) e none idx hi lo c ci ch cl t p q r v k =
      absurd (ground arith)
  subscript_sound false (constant_bits h l) e (some x) idx hi lo c ci ch cl t p q r v k =
      let g = guarded (leb l h && ltb l 32) (slice_bits x h l) v k in
      let ok = both_true (leb l h) (ltb l 32) g.0 in
      constant_slice_value m c h l x (p x refl) ok.0 ok.1 ∙ ap some g.1
  subscript_sound false computed_bits e none idx hi lo c ci ch cl t p q r v k =
      absurd (ground arith)
  subscript_sound false computed_bits e (some x) idx none lo c ci ch cl t p q r v k =
      absurd (ground arith)
  subscript_sound false computed_bits e (some x) idx (some h) none c ci ch cl t p q r v k =
      absurd (ground arith)
  subscript_sound false computed_bits e (some x) idx (some h) (some l) c ci ch cl t p q r v k =
      let g = guarded (leb l h && (ltb l 32 && ltb (h - l) 30)) (slice_bits x h l) v k in
      let one = both_true (leb l h) (ltb l 32 && ltb (h - l) 30) g.0 in
      let two = both_true (ltb l 32) (ltb (h - l) 30) one.1 in
      computed_slice_value m c ch cl h l x (p x refl) (q h refl) (r l refl) one.0 two.0 two.1
      ∙ ap some g.1
  subscript_sound false (single_bit n) e none idx hi lo c ci ch cl t p q r v k =
      absurd (ground arith)
  subscript_sound false (single_bit n) e (some x) idx hi lo c ci ch cl t p q r v k =
      let g = guarded (ltb n 32) (slice_bits x n n) v k in
      bit_value m c n x (p x refl) g.0 ∙ ap some g.1
  subscript_sound false element e a idx hi lo c ci ch cl t p q r v k = absurd (ground arith)

  pub call_sound :
      (f : CallName) (args : Exprs) (w : Width) (a b anyv : Option ℕ) (texts : CExprs)
      (elts : Option CExprs)
      → w ≡ width_arg args
      → Refines a (c_eval m (first_arg texts))
      → Refines b (c_eval m (second_text texts))
      → Refines anyv (c_eval m (any_text elts))
      → Refines (py_call f w a b anyv) (c_eval m (call_text f args texts elts))
  unfolding c_eval
  call_sound nameless args w a b anyv texts elts e p q r v k = absurd (ground arith)
  call_sound (simple n) args w a b anyv texts elts e p q r v k =
      elim (Bool-cases (n == bool_name)) [
        | inl h ↦ rw h (truth_sound a (first_arg texts) p v (ground arith))
        | inr h ↦ elim (Bool-cases (n == any_name)) [
          | inl h' ↦ rw (h, h') (r v (ground arith))
          | inr h' ↦ absurd (ground arith)
        ]
      ]
  call_sound (dotted n s) args w a b anyv texts elts e p q r v k =
      elim (Bool-cases ((n == zdc_name) && (s == zext_name))) [
        | inr h ↦ absurd (ground arith)
        | inl h ↦
            let no_sext : ((n == zdc_name) && (s == sext_name)) ≡ false = ground arith in
            rw (no_sext, h, sym e) (zext_sound w a b texts p q v (ground arith))
      ]

  pub join_parts_lem :
      (p : CExpr) (ps : CExprs)
      → c_eval m (join_parts (CExprs.cons p ps)) ≡ c_all m (CExprs.cons p ps)
  unfolding c_eval c_all
  join_parts_lem p CExprs.nil = refl
  join_parts_lem p (CExprs.cons q qs) = refl

  pub any-IsBit : (es : Exprs) → IsBit (py_any setup env es)
  unfolding py_any
  any-IsBit nil v k = ground arith
  any-IsBit (cons e es) v k =
      bind-IsBit (py_eval setup env e) _
        (λ x. bind-IsBit (py_any setup env es) _ (λ y. bit-IsBit (not ((x == 0) && (y == 0))))) v k

  pub choose_sound :
      (c a b c' a' b' : Option ℕ)
      → Refines c c'
      → Refines a a'
      → Refines b b'
      → Refines (bind c (λ v. if v == 0 then b else a)) (bind c' (λ v. if v == 0 then b' else a'))
  choose_sound none a b c' a' b' p q r v k = absurd (ground arith)
  choose_sound (some x) a b c' a' b' p q r v k = rw (p x refl) (elim (Bool-cases (x == 0)) [
    | inl e ↦ rw e (r v (ground arith))
    | inr e ↦ rw e (q v (ground arith))
  ])
