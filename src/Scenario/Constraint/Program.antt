-- ===== src/Scenario/Constraint/Program.antt =====
-- The generated lines of a problem hold exactly when its constraints do.
use Prim.Native.String.{String}
use mathlib.Core.Bool.{and-true}
use zuspec_be_sw.Prelude.{
  ℕ, ◌≡◌, refl, sym, ap, ◌∙◌, Bool, true, ◌&&◌, Option, List, [], ◌∷◌, ◌++◌, arith,
}
use zuspec_be_sw.Scenario.Constraint.Builder.{Ref, State, ok, ◌>>=◌, pure, add_constraint, add}
use zuspec_be_sw.Scenario.Constraint.Emitter.{emit_expr}
use zuspec_be_sw.Scenario.Constraint.Items.{
  Constraint, holds_expr, implies, if_else, unique, solve_before, foreign, bare, as_expr, add_opt,
  emit_constraint, emit_all,
}
use zuspec_be_sw.Scenario.Constraint.Solver.{Solver, Machine, exec, exec-snoc}
use zuspec_be_sw.Scenario.Constraint.Meaning.{meaning}
use zuspec_be_sw.Scenario.Constraint.Computes.{bind-ok, at}
use zuspec_be_sw.Scenario.Constraint.Judges.{JudgedOpt, vacuous, judged}
use zuspec_be_sw.Scenario.Constraint.Correct.{expr-Judged, as_expr-Judged}

module _ (s : Solver) (vars : ℕ → Solver.Value s) (start : Machine s)
    (var_id_map : String → Option ℕ) where
  open s use {Value, holds}

  abbrev pub all_meaning : List Constraint → Bool
  all_meaning [] = true
  all_meaning (c ∷ cs) = meaning s var_id_map vars c && all_meaning cs

  add-sat :
      (t : Ref) (st st' : State) (u : Unit {0})
      → add t st ≡ ok (u, st')
      → (at s vars start st').sat ≡ ((at s vars start st).sat && holds ((at s vars start st).env t))
  unfolding add
  add-sat t st st' u k =
      let out : record st { lines = st.lines ++ (add_constraint t ∷ []) } ≡ st' = cc in
      rw (← out) (rw (exec-snoc s vars st.lines (add_constraint t) start))

  skip-sat :
      (st st' : State) (u : Unit {0}) {b : Bool}
      → b ≡ true
      → pure tt st ≡ ok (u, st')
      → (at s vars start st').sat ≡ ((at s vars start st).sat && b)
  skip-sat st st' u e k =
      let out : st ≡ st' = cc in rw (← out, e) (sym (and-true (at s vars start st).sat))

  add_opt-sat :
      {a st : State} {o : Option Ref} (st' : State) (u : Unit {0}) {b : Bool}
      → JudgedOpt s vars start a st b o
      → add_opt var_id_map o st ≡ ok (u, st')
      → (at s vars start st').sat ≡ ((at s vars start a).sat && b)
  add_opt-sat {a} {st} st' u {b = b} (vacuous x always) k =
      skip-sat st st' u always k ∙ ap (λ z. z && b) x.same
  add_opt-sat {a} {st} st' u {b = b} (judged {t = t} j) k =
      ground (arith, add-sat t st st' u k, j.gives.ext.same, j.gives.value, j.truth)

  item-sat :
      (c : Constraint) (st st' : State) (u : Unit {0})
      → (as_expr var_id_map c >>= add_opt var_id_map) st ≡ ok (u, st')
      → (at s vars start st').sat ≡ ((at s vars start st).sat && meaning s var_id_map vars c)
  item-sat c st st' u k =
      bind-ok (as_expr var_id_map c) _ st k
        λ o st₁ e₁ k₁. add_opt-sat st' u (as_expr-Judged s vars start var_id_map c st st₁ o e₁) k₁

  emit_constraint-sat :
      (c : Constraint) (st st' : State) (u : Unit {0})
      → emit_constraint var_id_map c st ≡ ok (u, st')
      → (at s vars start st').sat ≡ ((at s vars start st).sat && meaning s var_id_map vars c)
  unfolding emit_constraint meaning
  emit_constraint-sat solve_before st st' u k = skip-sat st st' u refl k
  emit_constraint-sat foreign st st' u k = cc
  emit_constraint-sat (bare e) st st' u k = bind-ok (emit_expr var_id_map e) _ st k λ t st₁ e₁ k₁.
      add_opt-sat st' u (judged (expr-Judged s vars start var_id_map e st st₁ t e₁)) k₁
  emit_constraint-sat (holds_expr e) st st' u k = item-sat (holds_expr e) st st' u k
  emit_constraint-sat (implies a body) st st' u k = item-sat (implies a body) st st' u k
  emit_constraint-sat (if_else c t e) st st' u k = item-sat (if_else c t e) st st' u k
  emit_constraint-sat (unique items) st st' u k = item-sat (unique items) st st' u k

  -- When the constraints of a problem are emitted without an error, running the generated lines
  -- under an assignment of the variables adds constraints that all hold exactly when each of the
  -- given constraints holds under it.
  pub emit_all-meaning :
      (cs : List Constraint) (st st' : State) (u : Unit {0})
      → emit_all var_id_map cs st ≡ ok (u, st')
      → (exec s vars st'.lines start).sat ≡ ((exec s vars st.lines start).sat && all_meaning cs)
  unfolding emit_all
  emit_all-meaning [] st st' u k = skip-sat st st' u refl k
  emit_all-meaning (c ∷ cs) st st' u k =
      bind-ok (emit_constraint var_id_map c) _ st k λ v st₁ e₁ k₁.
        ground (arith, emit_constraint-sat c st st₁ v e₁, emit_all-meaning cs st₁ st' u k₁)
