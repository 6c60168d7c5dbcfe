-- ===== src/Rtl/ExprLower/Truths.antt =====
-- The expressions of src/zuspec/be/sw/passes/rtl/expr_lower.py that are 0 or 1.
use zuspec_be_sw.Prelude.{
  ℕ, ◌≡◌, inl, inr, Bool, true, false, not, ◌&&◌, ◌||◌, Option, ◌==◌, arith, Bool-cases,
}
use zuspec_be_sw.Rtl.ExprLower.Syntax.{
  truth, number, negative, absent, text, strings, negation, invert, unary_minus, unary_plus, Expr,
  none_expr, self_ref, own_field, far_field, attribute, constant, bin, param_ref, local_ref,
  unresolved, subscript, slice, if_exp, sext, zext, cbit, signed, call, compare, all_of, one_of,
  unary, list, other_expr, Exprs, nil, cons, Compares, finished, next,
}
use zuspec_be_sw.Rtl.ExprLower.CCode.{bind}
use zuspec_be_sw.Rtl.ExprLower.Lower.{Setup}
use zuspec_be_sw.Rtl.ExprLower.Source.{
  Env, py_eval, py_compares, py_all, py_one, py_binary, truth_value, py_unary, is_comparison,
}
use zuspec_be_sw.Rtl.ExprLower.Operators.{
  IsBit, bind-IsBit, and-IsBit, or-IsBit, is_logical, operate-IsBit, both_true, bit-IsBit,
}

-- The expressions that are 0 or 1.
unfoldable mutual
  pub is_test : Expr → Bool
  is_test (constant (truth b)) = true
  is_test (bin op l r) = is_comparison op || (is_logical op && (is_test l && is_test r))
  is_test (cbit v) = true
  is_test (compare l cs) = true
  is_test (all_of es) = all_tests es
  is_test (one_of es) = all_tests es
  is_test (unary negation v) = true
  is_test _ = false

  pub all_tests : Exprs → Bool
  all_tests nil = true
  all_tests (cons e es) = is_test e && all_tests es

-- The expressions whose `and`, `or` and `any` have operands that are 0 or 1.
unfoldable mutual
  unfolding is_test all_tests

  pub has_tests : Expr → Bool
  has_tests (far_field b i) = has_tests b
  has_tests (attribute v a) = has_tests v
  has_tests (bin op l r) =
      (has_tests l && has_tests r) && (not (is_logical op) || (is_test l && is_test r))
  has_tests (subscript v slc) = has_tests v && has_tests slc
  has_tests (slice a b bits) = has_tests a && has_tests b
  has_tests (if_exp t a b) = has_tests t && (has_tests a && has_tests b)
  has_tests (zext v n) = has_tests v
  has_tests (cbit v) = has_tests v
  has_tests (signed v) = has_tests v
  has_tests (call f args) = all_have_tests args
  has_tests (compare l cs) = has_tests l && compares_have_tests cs
  has_tests (all_of es) = all_have_tests es && all_tests es
  has_tests (one_of es) = all_have_tests es && all_tests es
  has_tests (unary op v) = has_tests v
  has_tests (list es) = all_have_tests es && all_tests es
  has_tests _ = true

  pub all_have_tests : Exprs → Bool
  all_have_tests nil = true
  all_have_tests (cons e es) = has_tests e && all_have_tests es

  pub compares_have_tests : Compares → Bool
  compares_have_tests finished = true
  compares_have_tests (next op e cs) = has_tests e && compares_have_tests cs

-- A test has a value of 0 or 1.
module _ (setup : Setup) (env : Env) where
  pub compares-IsBit : (left : Option ℕ) (cs : Compares) → IsBit (py_compares setup env left cs)
  unfolding py_compares
  compares-IsBit left finished v h = ground arith
  compares-IsBit left (next op e cs) v h = elim (Bool-cases (is_comparison op)) [
    | inr k ↦ absurd (ground arith)
    | inl k ↦
        let first = bind left (λ x. bind (py_eval setup env e) (py_binary op x)) in
        let rest = py_compares setup env (py_eval setup env e) cs in
        and-IsBit first rest (compares-IsBit (py_eval setup env e) cs) v (ground arith)
  ]

  mutual
    unfolding py_eval py_all py_one is_test all_tests

    pub test-IsBit : (e : Expr) → is_test e ≡ true → IsBit (py_eval setup env e)
    test-IsBit (constant (truth b)) h v k = ground arith
    test-IsBit (bin op l r) h v k =
        operate-IsBit op _ _ (is_test l && is_test r) h
          (λ t. test-IsBit l (both_true (is_test l) (is_test r) t).0)
          (λ t. test-IsBit r (both_true (is_test l) (is_test r) t).1) v k
    test-IsBit (cbit e) h v k =
        bind-IsBit (py_eval setup env e) truth_value (λ x. bit-IsBit (not (x == 0))) v k
    test-IsBit (compare l finished) h v k = absurd (ground arith)
    test-IsBit (compare l (next op f cs)) h v k =
        compares-IsBit (py_eval setup env l) (next op f cs) v k
    test-IsBit (all_of es) h v k = all-IsBit es h v k
    test-IsBit (one_of es) h v k = one-IsBit es h v k
    test-IsBit (unary negation e) h v k =
        bind-IsBit (py_eval setup env e) (py_unary negation) (λ x. bit-IsBit (x == 0)) v k
    test-IsBit none_expr h v k = absurd (ground arith)
    test-IsBit self_ref h v k = absurd (ground arith)
    test-IsBit (own_field i) h v k = absurd (ground arith)
    test-IsBit (far_field e i) h v k = absurd (ground arith)
    test-IsBit (attribute e a) h v k = absurd (ground arith)
    test-IsBit (constant (number n)) h v k = absurd (ground arith)
    test-IsBit (constant (negative n)) h v k = absurd (ground arith)
    test-IsBit (constant absent) h v k = absurd (ground arith)
    test-IsBit (constant (text n)) h v k = absurd (ground arith)
    test-IsBit (constant (strings ns)) h v k = absurd (ground arith)
    test-IsBit (param_ref n) h v k = absurd (ground arith)
    test-IsBit (local_ref n) h v k = absurd (ground arith)
    test-IsBit (unresolved n) h v k = absurd (ground arith)
    test-IsBit (subscript e slc) h v k = absurd (ground arith)
    test-IsBit (slice a b bits) h v k = absurd (ground arith)
    test-IsBit (if_exp t a b) h v k = absurd (ground arith)
    test-IsBit (sext e n) h v k = absurd (ground arith)
    test-IsBit (zext e n) h v k = absurd (ground arith)
    test-IsBit (signed e) h v k = absurd (ground arith)
    test-IsBit (call f args) h v k = absurd (ground arith)
    test-IsBit (unary invert e) h v k = absurd (ground arith)
    test-IsBit (unary unary_minus e) h v k = absurd (ground arith)
    test-IsBit (unary unary_plus e) h v k = absurd (ground arith)
    test-IsBit (list es) h v k = absurd (ground arith)
    test-IsBit other_expr h v k = absurd (ground arith)

    pub all-IsBit : (es : Exprs) → all_tests es ≡ true → IsBit (py_all setup env es)
    all-IsBit nil h v e = absurd (ground arith)
    all-IsBit (cons e nil) h v k = test-IsBit e (both_true (is_test e) true h).0 v k
    all-IsBit (cons e (cons f es)) h v k =
        and-IsBit (py_eval setup env e) _
          (all-IsBit (cons f es) (both_true (is_test e) (all_tests (cons f es)) h).1) v k

    pub one-IsBit : (es : Exprs) → all_tests es ≡ true → IsBit (py_one setup env es)
    one-IsBit nil h v e = absurd (ground arith)
    one-IsBit (cons e nil) h v k = test-IsBit e (both_true (is_test e) true h).0 v k
    one-IsBit (cons e (cons f es)) h v k =
        let tests = both_true (is_test e) (all_tests (cons f es)) h in
        or-IsBit (py_eval setup env e) _ (test-IsBit e tests.0) (one-IsBit (cons f es) tests.1) v k
