-- ===== src/Rtl/ExprLower/Tests.antt =====
-- A component of three fields, and the theorems on src/zuspec/be/sw/passes/rtl/expr_lower.py at it.
use zuspec_be_sw.Prelude.{ℕ, ◌≡◌, refl, true, false, none, some, List, [], ◌∷◌, ◌==◌}
use zuspec_be_sw.Rtl.ExprLower.Syntax.{
  number, plus, eq, Expr, own_field, constant, bin, local_ref, subscript, slice, compare, cbit,
  next, finished, nil, cons, if_stmt, assign, call, unresolved, list, Stmts, done, seq, any_name,
}
use zuspec_be_sw.Rtl.ExprLower.CCode.{Memory, c_eval}
use zuspec_be_sw.Rtl.ExprLower.Lower.{Setup, lower_expr}
use zuspec_be_sw.Rtl.ExprLower.Source.{Env, py_eval}
use zuspec_be_sw.Rtl.ExprLower.Truths.{has_tests}
use zuspec_be_sw.Rtl.ExprLower.Parts.{Agrees}
use zuspec_be_sw.Rtl.ExprLower.Correct.{lower_expr-py_eval}
use zuspec_be_sw.Rtl.ExprLower.Statements.{lower_stmts}
use zuspec_be_sw.Rtl.ExprLower.Targets.{store_registers}
use zuspec_be_sw.Rtl.ExprLower.Writes.{lower_stmts-store_registers}

-- The field 10 has a shadow, 11 is constant, and 12 is an array.
abbrev setup : Setup
setup = record {
  fields =
      record { name = 10; is_array = false }
      ∷ record { name = 11; is_array = false }
      ∷ record { name = 12; is_array = true }
      ∷ [];
  is_nxt = λ n. n == 10;
  is_const = λ n. n == 11;
  module_attr = λ m a. none;
}

abbrev env : Env
env = record {
  fields = λ f. 20;
  bundles = λ f a. 0;
  arrays = λ f i. i;
  sizes = λ f. 4;
  names = λ n. 3;
}

abbrev memory : Memory
memory = record {
  cell = λ s f. 20;
  sub_cell = λ s f a. 0;
  elements = λ s f i. i;
  sizes = λ f. 4;
  names = λ n. 3;
}

env-Agrees : Agrees setup env memory
env-Agrees = record {
  fields = λ f. refl;
  consts = λ f h. refl;
  bundles = λ f a. refl;
  arrays = λ f i. refl;
  const_arrays = λ f i h. refl;
  sizes = λ f. refl;
  names = λ n. refl;
}

-- `any([self.f10[4:2] == 5 == self.f12[3] + 2, bool(self.f11)])`
abbrev sample : Expr
sample = call (unresolved any_name) (
    cons
      (list (
        cons
          (compare
            (subscript (own_field 0) (slice (constant (number 4)) (constant (number 2)) true))
            (next eq (constant (number 5)) (
              next eq (bin plus (subscript (own_field 2) (local_ref 0)) (constant (number 2)))
                finished)))
          (cons (cbit (own_field 1)) nil)))
      nil)

sample-has_tests : has_tests sample ≡ true
unfolding has_tests
sample-has_tests = refl

sample-py_eval : py_eval setup env sample ≡ some 1
unfolding py_eval
sample-py_eval = refl

lower_expr-py_eval_example : c_eval memory (lower_expr setup sample false) ≡ some 1
lower_expr-py_eval_example =
    lower_expr-py_eval setup env memory env-Agrees sample 1 sample-has_tests sample-py_eval

-- `if self.f10: x = self.f10` with `else: x = 1; self.f10 = x`
abbrev body : Stmts
body =
    seq
      (if_stmt (own_field 0) (seq (assign (cons (local_ref 7) nil) (own_field 0)) done) (
        seq (assign (cons (local_ref 7) nil) (constant (number 1)))
          (seq (assign (cons (own_field 0) nil) (local_ref 7)) done)))
      done

abbrev no_locals : List ℕ
no_locals = []

lower_stmts-store_registers_example :
    store_registers (lower_stmts setup false true body no_locals).lines ≡ false
lower_stmts-store_registers_example = lower_stmts-store_registers setup false body no_locals
