-- ===== src/Scenario/Constraint/Tests.antt =====
-- A small solver, small constraints, and the theorems at them.
use Prim.Native.Nat.{bit_and}
use Prim.Native.String.{String}
use zuspec_be_sw.Prelude.{
  ℕ, ◌+◌, ◌*◌, ◌/◌, ◌^◌, ◌≡◌, refl, Bool, true, not, ◌&&◌, ◌||◌, Option, some, [], ◌∷◌, arith, ◌==◌,
  leb, ltb, bit,
}
use zuspec_be_sw.Prelude.Int.{ℤ, pos, negsuc}
use zuspec_be_sw.Scenario.Constraint.Builder.{
  DvsBin, dvs_add, dvs_mul, dvs_band, dvs_rshift, dvs_eq, dvs_neq, dvs_lt, dvs_and, dvs_or, DvsUn,
  dvs_not, const_call, var_call, binary_call, unary_call, define, add_constraint, State, Ref, ok,
  err, unsupported,
}
use zuspec_be_sw.Scenario.Constraint.Syntax.{
  op_add, op_eq, op_lt, Expr, constant, self_attr, bin, subscript, slice, nil, cons,
}
use zuspec_be_sw.Scenario.Constraint.Emitter.{emit_expr}
use zuspec_be_sw.Scenario.Constraint.Items.{
  Constraint, holds_expr, implies, if_else, unique, foreign, empty, item, emit_all,
}
use zuspec_be_sw.Scenario.Constraint.Solver.{Solver, Machine, exec}
use zuspec_be_sw.Scenario.Constraint.Says.{plain_constraint}
use zuspec_be_sw.Scenario.Constraint.Said.{are_met, emit_all-is_met}
use zuspec_be_sw.Scenario.Constraint.Slices.{Unsigned, slice_of}
use zuspec_be_sw.Scenario.Constraint.Comparisons.{slice_eq, emit_expr-slice_eq}

abbrev is_true : ℕ → Bool
is_true v = not (v == 0)

abbrev toy_binary : DvsBin → ℕ → ℕ → ℕ
toy_binary dvs_add a b = a + b
toy_binary dvs_mul a b = a * b
toy_binary dvs_band a b = bit_and a b
toy_binary dvs_rshift a b = a / 2 ^ b
toy_binary dvs_eq a b = bit (a == b)
toy_binary dvs_neq a b = bit (not (a == b))
toy_binary dvs_lt a b = bit (ltb a b)
toy_binary dvs_and a b = bit (is_true a && is_true b)
toy_binary dvs_or a b = bit (is_true a || is_true b)
toy_binary _ a b = 0

abbrev toy_unary : DvsUn → ℕ → ℕ
toy_unary dvs_not a = bit (not (is_true a))
toy_unary _ a = 0

abbrev toy_const : ℤ → ℕ → ℕ
toy_const (pos n) signed = n
toy_const (negsuc n) signed = 0

toy_and : (a b : ℕ) → is_true (toy_binary dvs_and a b) ≡ (is_true a && is_true b)
toy_and a b = ground arith

toy_or : (a b : ℕ) → is_true (toy_binary dvs_or a b) ≡ (is_true a || is_true b)
toy_or a b = ground arith

toy_not : (a : ℕ) → is_true (toy_unary dvs_not a) ≡ not (is_true a)
toy_not a = ground arith

toy_eq : (a b : ℕ) → is_true (toy_binary dvs_eq a b) ≡ (a == b)
toy_eq a b = ground arith

abbrev toy : Solver
toy = record {
  Value = ℕ;
  const_value = toy_const;
  binary_value = toy_binary;
  unary_value = toy_unary;
  in_range_value = λ v lo hi. bit (leb lo v && leb v hi);
  holds = is_true;
  and_law = toy_and;
  or_law = toy_or;
  not_law = toy_not;
}

abbrev toy_unsigned : Unsigned toy
toy_unsigned = record {
  number = λ v. v;
  const_law = λ n h. refl;
  band_law = λ a b. refl;
  rshift_law = λ a b. refl;
  eq_law = toy_eq;
}

abbrev only_a : String → Option ℕ
only_a name = some 7

abbrev start : Machine toy
start = record { env = λ _. 0; sat = true }

abbrev blank : State
blank = record { lines = []; n = 0 }

-- `a < 5`, and `a[3:2] == 1 -> a != 4` written with `unique`.
abbrev low : Constraint
low = holds_expr (bin op_lt (self_attr "a") (constant (pos 5)))

abbrev sliced : Expr
sliced =
    bin op_eq (subscript (self_attr "a") (slice true (constant (pos 3)) (constant (pos 2))))
      (constant (pos 1))

abbrev guarded : Constraint
guarded = implies sliced (item (unique (cons (self_attr "a") (cons (constant (pos 4)) nil))) empty)

abbrev low_lines : State
low_lines = record {
  lines =
      define 1 (var_call 7)
      ∷ define 2 (const_call (pos 5) 0)
      ∷ define 3 (binary_call dvs_lt 1 2)
      ∷ add_constraint 3
      ∷ [];
  n = 3;
}

emit_all-low : emit_all only_a (low ∷ []) blank ≡ ok (tt, low_lines)
unfolding emit_all
emit_all-low = refl

emit_all-foreign : emit_all only_a (foreign ∷ []) blank ≡ err unsupported
unfolding emit_all
emit_all-foreign = refl

abbrev guarded_lines : State
guarded_lines = record {
  lines =
      define 1 (var_call 7)
      ∷ define 2 (const_call (pos 12) 0)
      ∷ define 3 (binary_call dvs_band 1 2)
      ∷ define 4 (const_call (pos 4) 0)
      ∷ define 5 (binary_call dvs_eq 3 4)
      ∷ define 6 (var_call 7)
      ∷ define 7 (const_call (pos 4) 0)
      ∷ define 8 (binary_call dvs_neq 6 7)
      ∷ define 9 (unary_call dvs_not 5)
      ∷ define 10 (binary_call dvs_or 9 8)
      ∷ add_constraint 10
      ∷ [];
  n = 10;
}

emit_all-guarded : emit_all only_a (guarded ∷ []) blank ≡ ok (tt, guarded_lines)
unfolding emit_all
emit_all-guarded = refl

-- `if a < 5: a != 4` with `unique`, else `a + 1 == 7`.
abbrev branching : Constraint
branching =
    if_else (bin op_lt (self_attr "a") (constant (pos 5)))
      (item (unique (cons (self_attr "a") (cons (constant (pos 4)) nil))) empty)
      (item
        (holds_expr (bin op_eq (bin op_add (self_attr "a") (constant (pos 1))) (constant (pos 7))))
        empty)

abbrev branching_lines : State
branching_lines = record {
  lines =
      define 1 (var_call 7)
      ∷ define 2 (const_call (pos 5) 0)
      ∷ define 3 (binary_call dvs_lt 1 2)
      ∷ define 4 (var_call 7)
      ∷ define 5 (const_call (pos 4) 0)
      ∷ define 6 (binary_call dvs_neq 4 5)
      ∷ define 7 (unary_call dvs_not 3)
      ∷ define 8 (binary_call dvs_or 7 6)
      ∷ define 9 (var_call 7)
      ∷ define 10 (const_call (pos 1) 0)
      ∷ define 11 (binary_call dvs_add 9 10)
      ∷ define 12 (const_call (pos 7) 0)
      ∷ define 13 (binary_call dvs_eq 11 12)
      ∷ define 14 (binary_call dvs_or 3 13)
      ∷ define 15 (binary_call dvs_and 8 14)
      ∷ add_constraint 15
      ∷ [];
  n = 15;
}

emit_all-branching : emit_all only_a (branching ∷ []) blank ≡ ok (tt, branching_lines)
unfolding emit_all
emit_all-branching = refl

-- The branching constraint at `a = 6`.
emit_all-is_met_example :
    (exec toy (λ _. 6) branching_lines.lines start).sat
    ≡ ((exec toy (λ _. 6) [] start).sat && are_met toy only_a (λ _. 6) (branching ∷ []))
unfolding plain_constraint
emit_all-is_met_example =
    emit_all-is_met toy only_a (λ _. 6) start (branching ∷ []) blank branching_lines tt refl
      emit_all-branching

emit_expr-slice_eq_example :
    (t : Ref) × (st' : State) × (emit_expr only_a (slice_eq "a" 3 2 3) blank ≡ ok (t, st'))
    × (is_true ((exec toy (λ _. 45) st'.lines start).env t) ≡ (slice_of 45 3 2 == 3))
emit_expr-slice_eq_example =
    emit_expr-slice_eq toy toy_unsigned (λ _. 45) start only_a "a" 3 2 3 7 blank (omega arith)
      (omega arith) (omega arith) refl
