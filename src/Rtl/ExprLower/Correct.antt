-- ===== src/Rtl/ExprLower/Correct.antt =====
-- The C that `lower_expr` of src/zuspec/be/sw/passes/rtl/expr_lower.py writes for a read has the
-- value of the expression.
use zuspec_be_sw.Prelude.{
  ℕ, ◌≡◌, refl, ◌∙◌, true, false, not, ◌&&◌, ◌||◌, Option, none, some, get_elem?, arith,
}
use zuspec_be_sw.Rtl.ExprLower.Syntax.{
  Expr, none_expr, self_ref, own_field, far_field, attribute, constant, bin, param_ref, local_ref,
  unresolved, subscript, slice, if_exp, sext, zext, cbit, signed, call, compare, all_of, one_of,
  unary, list, other_expr, Exprs, nil, cons, Compares, finished, next,
}
use zuspec_be_sw.Rtl.ExprLower.CCode.{Memory, bind, CExpr, c_eval, c_all, c_any}
use zuspec_be_sw.Rtl.ExprLower.Lower.{
  Setup, base_of, is_array_field, lower_expr, lower_all, lower_elements, lower_list, lower_compares,
  lower_high, lower_low,
}
use zuspec_be_sw.Rtl.ExprLower.Texts.{
  selector, call_name, cmpop, first_arg, second_text, any_text, width_arg,
}
use zuspec_be_sw.Rtl.ExprLower.Source.{
  Env, py_eval, py_compares, py_all, py_one, py_high, py_low, py_first, py_second, py_any_first,
  py_any_list, py_any, py_binary, py_element, py_and, is_comparison,
}
use zuspec_be_sw.Rtl.ExprLower.Operators.{
  Refines, bind-Refines, compared-IsBit, and-Refines, or-Refines, is_logical, operate-Refines,
  both_true, unary-Refines, compared-Refines, last-Refines, any-Refines, single_any-Refines,
}
use zuspec_be_sw.Rtl.ExprLower.Truths.{
  is_test, all_tests, has_tests, all_have_tests, compares_have_tests, compares-IsBit, test-IsBit,
  all-IsBit, one-IsBit,
}
use zuspec_be_sw.Rtl.ExprLower.Slices.{chosen}
use zuspec_be_sw.Rtl.ExprLower.Parts.{
  Agrees, is_more, logical_tests, constant_sound, field_sound, attribute_sound, element_sound,
  truth_sound, mask_sound, subscript_sound, call_sound, join_parts_lem, any-IsBit, choose_sound,
}

module _ (setup : Setup) (env : Env) (m : Memory) (agrees : Agrees setup env m) where
  mutual
    unfolding py_eval py_compares py_all py_one py_high py_low py_first py_second py_any_first
        py_any_list py_any c_eval c_all c_any lower_expr lower_all lower_compares lower_high
        lower_low lower_elements lower_list has_tests all_have_tests compares_have_tests all_tests

    expr_sound :
        (e : Expr)
        → has_tests e ≡ true
        → Refines (py_eval setup env e) (c_eval m (lower_expr setup e false))
    expr_sound none_expr t v k = absurd (ground arith)
    expr_sound self_ref t v k = absurd (ground arith)
    expr_sound (own_field i) t v k = field_sound setup env m agrees i (get_elem? setup.fields i) v k
    expr_sound (far_field b i) t v k = absurd (ground arith)
    expr_sound (attribute b a) t v k =
        attribute_sound setup env m agrees (base_of b) (lower_expr setup b false) a v k
    expr_sound (constant c) t v k = constant_sound setup env m agrees c v k
    expr_sound (bin op l r) t v k =
        let parts =
          both_true (has_tests l && has_tests r) (not (is_logical op) || (is_test l && is_test r))
            t in
        let inner = both_true (has_tests l) (has_tests r) parts.0 in
        operate-Refines op _ _ _ _ (expr_sound l inner.0) (expr_sound r inner.1)
          (λ g. test-IsBit setup env l (logical_tests op (is_test l) (is_test r) parts.1 g).0)
          (λ g. test-IsBit setup env r (logical_tests op (is_test l) (is_test r) parts.1 g).1) v k
    expr_sound (param_ref n) t v k = rw (agrees.names n) k
    expr_sound (local_ref n) t v k = rw (agrees.names n) k
    expr_sound (unresolved n) t v k = absurd (ground arith)
    expr_sound (subscript e slc) t v k =
        let inner = both_true (has_tests e) (has_tests slc) t in
        subscript_sound setup env m agrees (is_array_field setup e) (selector slc)
          (bind (py_eval setup env slc) (py_element setup env e)) (py_eval setup env e) none
          (py_high setup env slc) (py_low setup env slc) (lower_expr setup e false)
          (lower_expr setup slc false) (lower_high setup slc) (lower_low setup slc)
          (λ g. bind-Refines _ _ _ _ (expr_sound slc inner.1) (element_sound setup env m agrees e))
          (expr_sound e inner.0) (high_sound slc inner.1) (low_sound slc inner.1) v k
    expr_sound (slice a b bits) t v k = absurd (ground arith)
    expr_sound (if_exp c a b) t v k =
        let one = both_true (has_tests c) (has_tests a && has_tests b) t in
        let two = both_true (has_tests a) (has_tests b) one.1 in
        choose_sound setup env m agrees (py_eval setup env c) (py_eval setup env a)
          (py_eval setup env b) _ _ _ (expr_sound c one.0) (expr_sound a two.0) (expr_sound b two.1)
          v k
    expr_sound (sext e n) t v k = absurd (ground arith)
    expr_sound (zext e n) t v k =
        mask_sound setup env m agrees (py_eval setup env e) (lower_expr setup e false) n
          (expr_sound e t) v k
    expr_sound (cbit e) t v k =
        truth_sound setup env m agrees (py_eval setup env e) (lower_expr setup e false)
          (expr_sound e t) v k
    expr_sound (signed e) t v k = bind-Refines _ _ _ _ (expr_sound e t) (λ x w q. q) v k
    expr_sound (call f args) t v k =
        call_sound setup env m agrees (call_name f) args (width_arg args) (py_first setup env args)
          (py_second setup env args) (py_any_first setup env args) (lower_all setup args false)
          (lower_elements setup args false) refl (first_sound args t) (second_sound args t)
          (any_first_sound args t) v k
    expr_sound (compare l finished) t v k = absurd (ground arith)
    expr_sound (compare l (next op e cs)) t v k =
        let inner = both_true (has_tests l) (compares_have_tests (next op e cs)) t in
        join_parts_lem setup env m agrees
          (CExpr.binary (cmpop op) (lower_expr setup l false) (lower_expr setup e false))
          (lower_compares setup (lower_expr setup e false) cs)
        ∙ chain_sound (py_eval setup env l) (lower_expr setup l false) (next op e cs)
            (expr_sound l inner.0) inner.1 refl v k
    expr_sound (all_of es) t v k =
        let inner = both_true (all_have_tests es) (all_tests es) t in
        all_sound es inner.0 inner.1 v k
    expr_sound (one_of es) t v k =
        let inner = both_true (all_have_tests es) (all_tests es) t in
        one_sound es inner.0 inner.1 v k
    expr_sound (unary op e) t v k = bind-Refines _ _ _ _ (expr_sound e t) (unary-Refines op) v k
    expr_sound (list es) t v k = absurd (ground arith)
    expr_sound other_expr t v k = absurd (ground arith)

    chain_sound :
        (left : Option ℕ) (c : CExpr) (cs : Compares)
        → Refines left (c_eval m c)
        → compares_have_tests cs ≡ true
        → is_more cs ≡ true
        → Refines (py_compares setup env left cs) (c_all m (lower_compares setup c cs))
    chain_sound left c finished p t z v k = absurd (ground arith)
    chain_sound left c (next op e finished) p t z v k =
        let d = lower_expr setup e false in
        let first = bind left (λ x. bind (py_eval setup env e) (py_binary op x)) in
        let is = chosen (is_comparison op) (py_and first (some 1)) v k in
        let inner = (both_true (has_tests e) true t).0 in
        last-Refines first (c_eval m (CExpr.binary (cmpop op) c d))
          (compared-IsBit op left (py_eval setup env e) is.0)
          (compared-Refines op left (py_eval setup env e) (c_eval m c) (c_eval m d) is.0 p
            (expr_sound e inner))
          v is.1
    chain_sound left c (next op e (next op' f cs)) p t z v k =
        let d = lower_expr setup e false in
        let first = bind left (λ x. bind (py_eval setup env e) (py_binary op x)) in
        let rest = py_compares setup env (py_eval setup env e) (next op' f cs) in
        let is = chosen (is_comparison op) (py_and first rest) v k in
        let inner = both_true (has_tests e) (compares_have_tests (next op' f cs)) t in
        and-Refines first rest (c_eval m (CExpr.binary (cmpop op) c d)) _
          (compared-Refines op left (py_eval setup env e) (c_eval m c) (c_eval m d) is.0 p
            (expr_sound e inner.0))
          (chain_sound (py_eval setup env e) d (next op' f cs) (expr_sound e inner.0) inner.1 refl)
          (compares-IsBit setup env (py_eval setup env e) (next op' f cs)) v is.1

    all_sound :
        (es : Exprs)
        → all_have_tests es ≡ true
        → all_tests es ≡ true
        → Refines (py_all setup env es) (c_all m (lower_all setup es false))
    all_sound nil s t v k = absurd (ground arith)
    all_sound (cons e nil) s t v k = expr_sound e (both_true (has_tests e) true s).0 v k
    all_sound (cons e (cons f es)) s t v k =
        let inner = both_true (has_tests e) (all_have_tests (cons f es)) s in
        let tests = both_true (is_test e) (all_tests (cons f es)) t in
        and-Refines _ _ _ _ (expr_sound e inner.0) (all_sound (cons f es) inner.1 tests.1)
          (all-IsBit setup env (cons f es) tests.1) v k

    one_sound :
        (es : Exprs)
        → all_have_tests es ≡ true
        → all_tests es ≡ true
        → Refines (py_one setup env es) (c_any m (lower_all setup es false))
    one_sound nil s t v k = absurd (ground arith)
    one_sound (cons e nil) s t v k = expr_sound e (both_true (has_tests e) true s).0 v k
    one_sound (cons e (cons f es)) s t v k =
        let inner = both_true (has_tests e) (all_have_tests (cons f es)) s in
        let tests = both_true (is_test e) (all_tests (cons f es)) t in
        or-Refines _ _ _ _ (expr_sound e inner.0) (one_sound (cons f es) inner.1 tests.1)
          (test-IsBit setup env e tests.0) (one-IsBit setup env (cons f es) tests.1) v k

    any_sound :
        (es : Exprs)
        → all_have_tests es ≡ true
        → all_tests es ≡ true
        → Refines (py_any setup env es) (c_eval m (any_text (some (lower_all setup es false))))
    any_sound nil s t v k = k
    any_sound (cons e nil) s t v k =
        single_any-Refines _ _ (test-IsBit setup env e (both_true (is_test e) true t).0)
          (expr_sound e (both_true (has_tests e) true s).0) v k
    any_sound (cons e (cons f es)) s t v k =
        let inner = both_true (has_tests e) (all_have_tests (cons f es)) s in
        let tests = both_true (is_test e) (all_tests (cons f es)) t in
        any-Refines _ _ _ _ (expr_sound e inner.0) (any_sound (cons f es) inner.1 tests.1)
          (test-IsBit setup env e tests.0) (any-IsBit setup env m agrees (cons f es)) v k

    high_sound :
        (e : Expr)
        → has_tests e ≡ true
        → Refines (py_high setup env e) (c_eval m (lower_high setup e))
    high_sound (slice a b bits) t v k = expr_sound a (both_true (has_tests a) (has_tests b) t).0 v k
    high_sound none_expr t v k = absurd (ground arith)
    high_sound self_ref t v k = absurd (ground arith)
    high_sound (own_field i) t v k = absurd (ground arith)
    high_sound (far_field b j) t v k = absurd (ground arith)
    high_sound (attribute e a) t v k = absurd (ground arith)
    high_sound (constant c) t v k = absurd (ground arith)
    high_sound (bin op l r) t v k = absurd (ground arith)
    high_sound (param_ref n) t v k = absurd (ground arith)
    high_sound (local_ref n) t v k = absurd (ground arith)
    high_sound (unresolved n) t v k = absurd (ground arith)
    high_sound (subscript e slc) t v k = absurd (ground arith)
    high_sound (if_exp c a b) t v k = absurd (ground arith)
    high_sound (sext e n) t v k = absurd (ground arith)
    high_sound (zext e n) t v k = absurd (ground arith)
    high_sound (cbit e) t v k = absurd (ground arith)
    high_sound (signed e) t v k = absurd (ground arith)
    high_sound (call f args) t v k = absurd (ground arith)
    high_sound (compare l cs) t v k = absurd (ground arith)
    high_sound (all_of es) t v k = absurd (ground arith)
    high_sound (one_of es) t v k = absurd (ground arith)
    high_sound (unary op e) t v k = absurd (ground arith)
    high_sound (list es) t v k = absurd (ground arith)
    high_sound other_expr t v k = absurd (ground arith)

    low_sound :
        (e : Expr)
        → has_tests e ≡ true
        → Refines (py_low setup env e) (c_eval m (lower_low setup e))
    low_sound (slice a b bits) t v k = expr_sound b (both_true (has_tests a) (has_tests b) t).1 v k
    low_sound none_expr t v k = absurd (ground arith)
    low_sound self_ref t v k = absurd (ground arith)
    low_sound (own_field i) t v k = absurd (ground arith)
    low_sound (far_field b j) t v k = absurd (ground arith)
    low_sound (attribute e a) t v k = absurd (ground arith)
    low_sound (constant c) t v k = absurd (ground arith)
    low_sound (bin op l r) t v k = absurd (ground arith)
    low_sound (param_ref n) t v k = absurd (ground arith)
    low_sound (local_ref n) t v k = absurd (ground arith)
    low_sound (unresolved n) t v k = absurd (ground arith)
    low_sound (subscript e slc) t v k = absurd (ground arith)
    low_sound (if_exp c a b) t v k = absurd (ground arith)
    low_sound (sext e n) t v k = absurd (ground arith)
    low_sound (zext e n) t v k = absurd (ground arith)
    low_sound (cbit e) t v k = absurd (ground arith)
    low_sound (signed e) t v k = absurd (ground arith)
    low_sound (call f args) t v k = absurd (ground arith)
    low_sound (compare l cs) t v k = absurd (ground arith)
    low_sound (all_of es) t v k = absurd (ground arith)
    low_sound (one_of es) t v k = absurd (ground arith)
    low_sound (unary op e) t v k = absurd (ground arith)
    low_sound (list es) t v k = absurd (ground arith)
    low_sound other_expr t v k = absurd (ground arith)

    first_sound :
        (es : Exprs)
        → all_have_tests es ≡ true
        → Refines (py_first setup env es) (c_eval m (first_arg (lower_all setup es false)))
    first_sound nil t v k = absurd (ground arith)
    first_sound (cons e es) t v k =
        expr_sound e (both_true (has_tests e) (all_have_tests es) t).0 v k

    second_sound :
        (es : Exprs)
        → all_have_tests es ≡ true
        → Refines (py_second setup env es) (c_eval m (second_text (lower_all setup es false)))
    second_sound nil t v k = absurd (ground arith)
    second_sound (cons e nil) t v k = absurd (ground arith)
    second_sound (cons e (cons f es)) t v k =
        let inner = both_true (has_tests e) (all_have_tests (cons f es)) t in
        expr_sound f (both_true (has_tests f) (all_have_tests es) inner.1).0 v k

    any_first_sound :
        (es : Exprs)
        → all_have_tests es ≡ true
        → Refines (py_any_first setup env es) (c_eval m (any_text (lower_elements setup es false)))
    any_first_sound nil t v k = absurd (ground arith)
    any_first_sound (cons e es) t v k =
        any_list_sound e (both_true (has_tests e) (all_have_tests es) t).0 v k

    any_list_sound :
        (e : Expr)
        → has_tests e ≡ true
        → Refines (py_any_list setup env e) (c_eval m (any_text (lower_list setup e false)))
    any_list_sound (list es) t v k =
        let inner = both_true (all_have_tests es) (all_tests es) t in
        any_sound es inner.0 inner.1 v k
    any_list_sound none_expr t v k = absurd (ground arith)
    any_list_sound self_ref t v k = absurd (ground arith)
    any_list_sound (own_field i) t v k = absurd (ground arith)
    any_list_sound (far_field b j) t v k = absurd (ground arith)
    any_list_sound (attribute e a) t v k = absurd (ground arith)
    any_list_sound (constant c) t v k = absurd (ground arith)
    any_list_sound (bin op l r) t v k = absurd (ground arith)
    any_list_sound (param_ref n) t v k = absurd (ground arith)
    any_list_sound (local_ref n) t v k = absurd (ground arith)
    any_list_sound (unresolved n) t v k = absurd (ground arith)
    any_list_sound (subscript e slc) t v k = absurd (ground arith)
    any_list_sound (slice a b bits) t v k = absurd (ground arith)
    any_list_sound (if_exp c a b) t v k = absurd (ground arith)
    any_list_sound (sext e n) t v k = absurd (ground arith)
    any_list_sound (zext e n) t v k = absurd (ground arith)
    any_list_sound (cbit e) t v k = absurd (ground arith)
    any_list_sound (signed e) t v k = absurd (ground arith)
    any_list_sound (call f args) t v k = absurd (ground arith)
    any_list_sound (compare l cs) t v k = absurd (ground arith)
    any_list_sound (all_of es) t v k = absurd (ground arith)
    any_list_sound (one_of es) t v k = absurd (ground arith)
    any_list_sound (unary op e) t v k = absurd (ground arith)
    any_list_sound other_expr t v k = absurd (ground arith)

  -- The C text of a read has the value of the expression, in every memory that has the fields where
  -- the generated code reads them. The operands of `and`, `or` and `any` are 0 or 1; sums, products and
  -- left shifts are below 2 ^ 31, differences are not negative, shifts are below 32, and slices with
  -- computed bounds have 30 bits at most. Sign extensions, true divisions, names of the module,
  -- Booleans among the attributes of a module and nodes of other classes have no value.
  pub lower_expr-py_eval :
      (e : Expr) (v : ℕ)
      → has_tests e ≡ true
      → py_eval setup env e ≡ some v
      → c_eval m (lower_expr setup e false) ≡ some v
  lower_expr-py_eval e v h k = expr_sound e h v k
