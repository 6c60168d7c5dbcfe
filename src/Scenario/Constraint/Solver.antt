-- ===== src/Scenario/Constraint/Solver.antt =====
-- What the generated lines mean. The solver is third-party code: its values and operations are a
-- parameter, with the documented reading of its Boolean operations.
use zuspec_be_sw.Prelude.{
  ℕ, ◌≡◌, Bool, not, ◌&&◌, ◌||◌, List, [], ◌∷◌, ◌++◌, ◌==◌, if◌then◌else◌, refl,
}
use zuspec_be_sw.Prelude.Int.{ℤ}
use zuspec_be_sw.Scenario.Constraint.Builder.{
  DvsBin, dvs_and, dvs_or, DvsUn, dvs_not, Ref, Call, const_call, var_call, binary_call, unary_call,
  in_range_call, Line, define, add_constraint,
}

pub record Solver : Type 1 where
  pub Value : Type 0
  pub const_value : ℤ → ℕ → Value
  pub binary_value : DvsBin → Value → Value → Value
  pub unary_value : DvsUn → Value → Value
  pub in_range_value : Value → Value → Value → Value
  -- A value counts as true where a constraint is expected.
  pub holds : Value → Bool
  pub and_law : (a b : Value) → holds (binary_value dvs_and a b) ≡ (holds a && holds b)
  pub or_law : (a b : Value) → holds (binary_value dvs_or a b) ≡ (holds a || holds b)
  pub not_law : (a : Value) → holds (unary_value dvs_not a) ≡ not (holds a)

module _ (s : Solver) where
  open s use {Value, const_value, binary_value, unary_value, in_range_value, holds}

  -- The temporaries and whether every constraint added so far holds.
  pub record Machine : Type 0 where
    pub env : Ref → Value
    pub sat : Bool

  module _ (vars : ℕ → Value) where
    abbrev pub call_value : (Ref → Value) → Call → Value
    call_value env (const_call v signed) = const_value v signed
    call_value env (var_call id) = vars id
    call_value env (binary_call op l r) = binary_value op (env l) (env r)
    call_value env (unary_call op o) = unary_value op (env o)
    call_value env (in_range_call v lo hi) = in_range_value (env v) (env lo) (env hi)

    abbrev pub exec_line : Line → Machine → Machine
    exec_line (define t call) m =
        let v = call_value m.env call in record m { env = λ k. if k == t then v else m.env k }
    exec_line (add_constraint t) m = record m { sat = m.sat && holds (m.env t) }

    -- The lines run in order.
    unfoldable pub exec : List Line → Machine → Machine
    exec [] m = m
    exec (l ∷ lines) m = exec lines (exec_line l m)

    pub exec-snoc :
        (lines : List Line) (l : Line) (m : Machine)
        → exec (lines ++ (l ∷ [])) m ≡ exec_line l (exec lines m)
    unfolding exec
    exec-snoc [] l m = refl
    exec-snoc (x ∷ lines) l m = exec-snoc lines l (exec_line x m)
