-- ===== src/Rtl/CombOrder/Reads.antt =====
-- Which field reads `_collect_reads` sees.
use mathlib.Core.Path.{ap₂}
use mathlib.Core.Bool.{and-eq-true_iff}
use zuspec_be_sw.Prelude.{ℕ, ◌≡◌, refl, ap, Bool, true, false, ◌&&◌, List, [], ◌∷◌, ◌++◌}
use zuspec_be_sw.Rtl.CombOrder.{
  Expr, self_ref, ref_field, unary, call, subscript, node, Exprs, nil, cons, assign, done, seq,
  self_field, collect_reads, collect_reads_all, sorted, Func, run,
}

-- Every field of the component that is named anywhere in an expression.
unfoldable mutual
  pub all_fields : Expr → List ℕ
  all_fields self_ref = []
  all_fields (ref_field base i) = self_field (ref_field base i) ++ all_fields base
  all_fields (unary operand) = all_fields operand
  all_fields (call func args) = all_fields func ++ all_fields_all args
  all_fields (subscript value slice) = all_fields value ++ all_fields slice
  all_fields (node children) = all_fields_all children

  pub all_fields_all : Exprs → List ℕ
  all_fields_all nil = []
  all_fields_all (cons e es) = all_fields e ++ all_fields_all es

-- No unary operator, call or index in the expression.
unfoldable mutual
  pub is_plain : Expr → Bool
  is_plain self_ref = true
  is_plain (ref_field base i) = is_plain base
  is_plain (unary operand) = false
  is_plain (call func args) = false
  is_plain (subscript value slice) = false
  is_plain (node children) = is_plain_all children

  pub is_plain_all : Exprs → Bool
  is_plain_all nil = true
  is_plain_all (cons e es) = is_plain e && is_plain_all es

mutual
  unfolding collect_reads all_fields is_plain

  reads-plain : (e : Expr) → is_plain e ≡ true → collect_reads e ≡ all_fields e
  reads-plain self_ref h = refl
  reads-plain (ref_field base i) h =
      ap (λ r. self_field (ref_field base i) ++ r) (reads-plain base h)
  reads-plain (unary operand) h = cc
  reads-plain (call func args) h = cc
  reads-plain (subscript value slice) h = cc
  reads-plain (node children) h = reads_all-plain children h

  reads_all-plain : (es : Exprs) → is_plain_all es ≡ true → collect_reads_all es ≡ all_fields_all es
  reads_all-plain nil h = refl
  reads_all-plain (cons e es) h =
      let (p, q) = (and-eq-true_iff (is_plain e) (is_plain_all es)).0 h in
      ap₂ ◌++◌ (reads-plain e p) (reads_all-plain es q)

-- In an expression with no unary operator, call or index, `_collect_reads` finds every field that
-- is named, each as often as it is named.
pub collect_reads-eq-all_fields : (e : Expr) → is_plain e ≡ true → collect_reads e ≡ all_fields e
collect_reads-eq-all_fields e h = reads-plain e h

-- `self.<k> = <op> e`, and `self.<i> = value`.
abbrev pub operand_reader : ℕ → Expr → Func
operand_reader k e = record {
  name = 0;
  body = seq (assign (cons (ref_field self_ref k) nil) (unary e)) done;
}

abbrev pub field_writer : ℕ → Expr → Func
field_writer i value = record {
  name = 1;
  body = seq (assign (cons (ref_field self_ref i) nil) value) done;
}

-- A process that reads fields only under a unary operator is put in front of a process that comes
-- later in the source, whatever the two fields are: also where the operand is the very field that
-- the later process writes.
pub run-operand_reader :
    (i k : ℕ) (e value : Expr)
    → collect_reads value ≡ []
    → run (operand_reader k e ∷ field_writer i value ∷ []) ≡ sorted (0 ∷ 1 ∷ [])
unfolding run
run-operand_reader i k e value h = rw h
