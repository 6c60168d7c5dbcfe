-- ===== src/Scenario/Constraint/Correct.antt =====
-- `_as_expr` computes the truth of a constraint.
use Prim.Native.String.{String}
use zuspec_be_sw.Prelude.{
  ℕ, ◌≡◌, refl, ◌∙◌, Bool, true, not, ◌&&◌, ◌||◌, Option, none, List, [], ◌++◌, arith,
  if◌then◌else◌,
}
use zuspec_be_sw.Scenario.Constraint.Builder.{dvs_and, Ref, State, ok, pure}
use zuspec_be_sw.Scenario.Constraint.Syntax.{Expr, Exprs, nil, cons}
use zuspec_be_sw.Scenario.Constraint.Emitter.{fold_refs, emit_expr, emit_exprs}
use zuspec_be_sw.Scenario.Constraint.Items.{
  Constraint, holds_expr, implies, if_else, unique, solve_before, foreign, bare, Body, empty, item,
  keep, conj, neq_pairs, emit_implies, then_part, else_part, join_parts, emit_unique, as_expr,
  as_exprs,
}
use zuspec_be_sw.Scenario.Constraint.Solver.{Solver, Machine}
use zuspec_be_sw.Scenario.Constraint.Meaning.{eval, eval_all, all_apart, meaning, body_meaning}
use zuspec_be_sw.Scenario.Constraint.Computes.{bind-ok, Ext-refl, Ext-trans, pure_all-Gives}
use zuspec_be_sw.Scenario.Constraint.Expressions.{emit_expr-Gives, emit_exprs-GivesAll}
use zuspec_be_sw.Scenario.Constraint.Judges.{
  Judged, Judged-after, JudgedAll, JudgedAll-after, JudgedOpt, vacuous, JudgedOpt-Ext, some-Judged,
  fold-Judged, conj-Judged, emit_implies-Judged, then_part-Judged, else_part-Judged,
  join_parts-Judged,
}
use zuspec_be_sw.Scenario.Constraint.Sound.{
  append-JudgedAll, pure-JudgedAll, neq_pairs-Judged, keep-JudgedAll,
}

module _ (s : Solver) (vars : ℕ → Solver.Value s) (start : Machine s)
    (var_id_map : String → Option ℕ) where
  open s use {Value, holds}

  -- The two branches of a conditional, as implications.
  if_parts : (c t e : Bool) → ((not c || t) && (c || e)) ≡ (if c then t else e)
  if_parts c t e = ground arith

  pure_opt-Judged :
      (st st' : State) (o : Option Ref) {b : Bool}
      → b ≡ true
      → pure none st ≡ ok (o, st')
      → JudgedOpt s vars start st st' b o
  pure_opt-Judged st st' o e k =
      let out : st ≡ st' = cc in
      let same : none ≡ o = cc in rw (← same) (rw (← out) (vacuous (Ext-refl s vars start st) e))

  emit_unique-Judged :
      (es : Exprs) (st st' : State) (o : Option Ref)
      → emit_unique var_id_map es st ≡ ok (o, st')
      → JudgedOpt s vars start st st' (all_apart s (eval_all s var_id_map vars es)) o
  unfolding emit_unique all_apart eval
  emit_unique-Judged nil st st' o k = pure_opt-Judged st st' o refl k
  emit_unique-Judged (cons e nil) st st' o k = pure_opt-Judged st st' o refl k
  emit_unique-Judged (cons e (cons f es)) st st' o k =
      bind-ok (emit_exprs var_id_map (cons e (cons f es))) _ st k λ refs st₁ e₁ k₁.
        bind-ok (neq_pairs refs) _ st₁ k₁ λ terms st₂ e₂ k₂.
          bind-ok (fold_refs dvs_and terms) _ st₂ k₂ λ t st₃ e₃ k₃.
            let g =
              emit_exprs-GivesAll s vars start var_id_map (cons e (cons f es)) st st₁ refs e₁ in
            let j =
              neq_pairs-Judged s vars start refs (eval_all s var_id_map vars (cons e (cons f es)))
                st₁ st₂ terms g.values e₂ in
            some-Judged s vars start t st₃ st' o
              (fold-Judged s vars start terms st₂ st₃ t (JudgedAll-after s vars start g.ext j) e₃)
              k₃

  pub expr-Judged :
      (e : Expr) (st st' : State) (t : Ref)
      → emit_expr var_id_map e st ≡ ok (t, st')
      → Judged s vars start st st' t (holds (eval s var_id_map vars e))
  expr-Judged e st st' t k = record {
    result = eval s var_id_map vars e;
    gives = emit_expr-Gives s vars start var_id_map e st st' t k;
    truth = refl;
  }

  mutual
    unfolding as_expr meaning

    pub as_expr-Judged :
        (c : Constraint) (st st' : State) (o : Option Ref)
        → as_expr var_id_map c st ≡ ok (o, st')
        → JudgedOpt s vars start st st' (meaning s var_id_map vars c) o
    as_expr-Judged (holds_expr e) st st' o k =
        bind-ok (emit_expr var_id_map e) _ st k
          λ t st₁ e₁ k₁. some-Judged s vars start t st₁ st' o (expr-Judged e st st₁ t e₁) k₁
    as_expr-Judged (implies antecedent body) st st' o k =
        bind-ok (emit_expr var_id_map antecedent) _ st k λ ant st₁ e₁ k₁.
          bind-ok (as_exprs var_id_map body) _ st₁ k₁ λ refs st₂ e₂ k₂.
            bind-ok (conj refs) _ st₂ k₂ λ b st₃ e₃ k₃.
              bind-ok (emit_implies ant b) _ st₃ k₃ λ t st₄ e₄ k₄.
                let g = emit_expr-Gives s vars start var_id_map antecedent st st₁ ant e₁ in
                let j = as_exprs-Judged body st₁ st₂ refs e₂ in
                let q = conj-Judged s vars start refs st₂ st₃ b j e₃ in
                let x = JudgedOpt-Ext s vars start q in
                let r =
                  emit_implies-Judged s vars start ant st₄ t (omega (arith, g.fresh, x.grow))
                    (x.keep ant g.fresh ∙ g.value) q e₄ in
                some-Judged s vars start t st₄ st' o
                  (Judged-after s vars start (Ext-trans s vars start g.ext x) r) k₄
    as_expr-Judged (if_else cond then_body else_body) st st' o k =
        bind-ok (emit_expr var_id_map cond) _ st k λ c st₁ e₁ k₁.
          bind-ok (as_exprs var_id_map then_body) _ st₁ k₁ λ refs st₂ e₂ k₂.
            bind-ok (conj refs) _ st₂ k₂ λ t st₃ e₃ k₃.
              bind-ok (then_part c t) _ st₃ k₃ λ ps st₄ e₄ k₄.
                bind-ok (as_exprs var_id_map else_body) _ st₄ k₄ λ refs' st₅ e₅ k₅.
                  bind-ok (conj refs') _ st₅ k₅ λ e st₆ e₆ k₆.
                    bind-ok (else_part c e) _ st₆ k₆ λ qs st₇ e₇ k₇.
                      bind-ok (join_parts c (ps ++ qs)) _ st₇ k₇ λ r st₈ e₈ k₈.
                        let g = emit_expr-Gives s vars start var_id_map cond st st₁ c e₁ in
                        let j = as_exprs-Judged then_body st₁ st₂ refs e₂ in
                        let q = conj-Judged s vars start refs st₂ st₃ t j e₃ in
                        let x = JudgedOpt-Ext s vars start q in
                        let jt =
                          then_part-Judged s vars start c st₄ ps (x.keep c g.fresh ∙ g.value) q
                            e₄ in
                        let j' = as_exprs-Judged else_body st₄ st₅ refs' e₅ in
                        let q' = conj-Judged s vars start refs' st₅ st₆ e j' e₆ in
                        let x₄ = Ext-trans s vars start x jt.gives.ext in
                        let x₆ = Ext-trans s vars start x₄ (JudgedOpt-Ext s vars start q') in
                        let je =
                          else_part-Judged s vars start c st₇ qs (x₆.keep c g.fresh ∙ g.value) q'
                            e₇ in
                        let je' = JudgedAll-after s vars start (JudgedOpt-Ext s vars start q') je in
                        let both = append-JudgedAll s vars start ps qs jt je' in
                        let x₇ = Ext-trans s vars start x both.gives.ext in
                        let out =
                          join_parts-Judged s vars start c (ps ++ qs) st₇ st₈ r
                            (omega (arith, g.fresh, x₇.grow)) (x₇.keep c g.fresh ∙ g.value) both
                            e₈ in
                        some-Judged s vars start r st₈ st' o
                          (rw (← if_parts (holds (eval s var_id_map vars cond)) _ _)
                            (Judged-after s vars start (Ext-trans s vars start g.ext x) out))
                          k₈
    as_expr-Judged (unique items) st st' o k = emit_unique-Judged items st st' o k
    as_expr-Judged solve_before st st' o k = cc
    as_expr-Judged foreign st st' o k = cc
    as_expr-Judged (bare e) st st' o k = cc

    as_exprs-Judged :
        (body : Body) (st st' : State) (refs : List Ref)
        → as_exprs var_id_map body st ≡ ok (refs, st')
        → JudgedAll s vars start st st' refs (body_meaning s var_id_map vars body)
    as_exprs-Judged empty st st' refs k = record {
      results = [];
      gives = pure_all-Gives s vars start [] st st' refs tt k;
      truth = refl;
    }
    as_exprs-Judged (item c body) st st' refs k =
        bind-ok (as_expr var_id_map c) _ st k λ o st₁ e₁ k₁.
          bind-ok (as_exprs var_id_map body) _ st₁ k₁ λ rest st₂ e₂ k₂.
            pure-JudgedAll s vars start (keep o rest) refs st₂ st'
              (keep-JudgedAll s vars start rest (as_expr-Judged c st st₁ o e₁)
                (as_exprs-Judged body st₁ st₂ rest e₂))
              k₂
