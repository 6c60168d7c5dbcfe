-- ===== src/Scenario/Constraint/Comparisons.antt =====
-- What `slice == const` is emitted as, by src/zuspec/be/sw/scenario/constraint_c.py.
use Prim.Native.String.{String}
use native.Mathlib.Nat.{mod-eq_of_lt}
use zuspec_be_sw.Prelude.{
  ℕ, ◌+◌, ◌-◌, ◌^◌, ◌≤◌, ◌<◌, ◌≡◌, ◌==◌, refl, ap, ◌∙◌, Option, some, true, false, arith,
}
use zuspec_be_sw.Prelude.Int.{pos, ltb_ℤ}
use zuspec_be_sw.Scenario.Constraint.Builder.{Ref, State, ok, emit, dvs_eq}
use zuspec_be_sw.Scenario.Constraint.Syntax.{
  op_eq, Expr, constant, self_attr, bin, subscript, slice, bin_table,
}
use zuspec_be_sw.Scenario.Constraint.Emitter.{
  bitslice_bounds, masked_side, emit_masked, emit_bin, emit_expr,
}
use zuspec_be_sw.Scenario.Constraint.Solver.{Solver, Machine, exec}
use zuspec_be_sw.Scenario.Constraint.Meaning.{eval, masked_value}
use zuspec_be_sw.Scenario.Constraint.Correct.{expr-Judged}
use zuspec_be_sw.Scenario.Constraint.Slices.{Unsigned, slice_of, masked-iff-slice}

-- `self.<name>[hi:lo] == c`
abbrev pub slice_eq : String → ℕ → ℕ → ℕ → Expr
slice_eq name hi lo c =
    bin op_eq (subscript (self_attr name) (slice true (constant (pos hi)) (constant (pos lo))))
      (constant (pos c))

module _ (s : Solver) (u : Unsigned s) (vars : ℕ → Solver.Value s) (start : Machine s)
    (var_id_map : String → Option ℕ) where
  slice_eq-masked :
      (name : String) (hi lo c id : ℕ)
      → lo ≤ hi
      → var_id_map name ≡ some id
      → eval s var_id_map vars (slice_eq name hi lo c)
        ≡ masked_value s dvs_eq (vars id) (pos hi) (pos lo) (pos c)
  unfolding eval masked_side bitslice_bounds bin_table
  slice_eq-masked name hi lo c id h e =
      let ordered : ltb_ℤ (pos hi) (pos lo) ≡ false = ground arith in
      rw (e, ordered) λ i. masked_value s dvs_eq (vars id) (pos hi) (pos lo) (pos c)

  slice_eq-emitted :
      (name : String) (hi lo c id : ℕ) (st : State)
      → lo ≤ hi
      → var_id_map name ≡ some id
      → (t : Ref) × (st' : State) × (emit_expr var_id_map (slice_eq name hi lo c) st ≡ ok (t, st'))
  unfolding emit_expr emit_bin masked_side bitslice_bounds bin_table emit_masked emit
  slice_eq-emitted name hi lo c id st h e =
      let ordered : ltb_ℤ (pos hi) (pos lo) ≡ false = ground arith in rw (e, ordered) (_, _, refl)

  slice_eq-holds :
      (name : String) (hi lo c id : ℕ) (st st' : State) (t : Ref)
      → lo ≤ hi
      → hi < 63
      → c < 2 ^ (hi - lo + 1)
      → var_id_map name ≡ some id
      → emit_expr var_id_map (slice_eq name hi lo c) st ≡ ok (t, st')
      → s.holds ((exec s vars st'.lines start).env t) ≡ (slice_of (u.number (vars id)) hi lo == c)
  slice_eq-holds name hi lo c id st st' t h k fits e out =
      let j = expr-Judged s vars start var_id_map (slice_eq name hi lo c) st st' t out in
      ap (λ v. s.holds v) j.gives.value
      ∙ (j.truth
          ∙ (ap (λ v. s.holds v) (slice_eq-masked name hi lo c id h e)
              ∙ (masked-iff-slice s u (vars id) hi lo c h k
                  ∙ ap (λ z. slice_of (u.number (vars id)) hi lo == z) (mod-eq_of_lt fits))))

  -- `slice == const` is emitted without an error, and its lines leave a value that holds exactly when
  -- the bits of the variable are the constant. The slice ends below bit 63 and the constant fits it;
  -- the operators that the lines use mean what the solver documents for unsigned numbers.
  pub emit_expr-slice_eq :
      (name : String) (hi lo c id : ℕ) (st : State)
      → lo ≤ hi
      → hi < 63
      → c < 2 ^ (hi - lo + 1)
      → var_id_map name ≡ some id
      → (t : Ref) × (st' : State) × (emit_expr var_id_map (slice_eq name hi lo c) st ≡ ok (t, st'))
        × (s.holds ((exec s vars st'.lines start).env t)
            ≡ (slice_of (u.number (vars id)) hi lo == c))
  emit_expr-slice_eq name hi lo c id st h k fits e =
      let (t, st', out) = slice_eq-emitted name hi lo c id st h e in
      (t, st', out, slice_eq-holds name hi lo c id st st' t h k fits e out)
