-- ===== src/Scenario/Constraint/Items.antt =====
-- src/zuspec/be/sw/scenario/constraint_c.py: `ConstraintCEmitter` on constraint items.
use Prim.Native.String.{String}
use zuspec_be_sw.Prelude.{ℕ, Option, none, some, List, [], ◌∷◌, ◌++◌}
use zuspec_be_sw.Scenario.Constraint.Builder.{
  dvs_neq, dvs_and, dvs_or, Ref, Emit, unsupported, ◌>>=◌, pure, raise, emit, add,
}
use zuspec_be_sw.Scenario.Constraint.Syntax.{Expr, Exprs, nil, cons}
use zuspec_be_sw.Scenario.Constraint.Emitter.{
  binary, not_ref, fold_from, fold_refs, emit_expr, emit_exprs,
}

-- The constraint items. `foreign` is any other subclass of `Constraint` (soft, dist, foreach), and
-- `bare` is an expression where a constraint is expected.
mutual
  pub data Constraint : Type 0 where
    holds_expr : Expr → Constraint
    implies : Expr → Body → Constraint
    if_else : Expr → Body → Body → Constraint
    unique : Exprs → Constraint
    solve_before foreign : Constraint
    bare : Expr → Constraint

  pub data Body : Type 0 where
    empty : Body
    item : Constraint → Body → Body

-- `refs = [r for r in refs if r is not None]`
abbrev pub keep : Option Ref → List Ref → List Ref
keep none refs = refs
keep (some r) refs = r ∷ refs

-- `_conj(refs) if refs else None`
unfoldable pub conj : List Ref → Emit (Option Ref)
unfolding fold_refs fold_from emit
conj [] = pure none
conj (r ∷ refs) = do t ← fold_refs dvs_and (r ∷ refs); pure (some t)

-- `DVS_BIN_NEQ` of `l` and each later reference, then of every pair.
unfoldable pub neq_row : Ref → List Ref → Emit (List Ref)
unfolding emit
neq_row l [] = pure []
neq_row l (r ∷ refs) = do t ← binary dvs_neq l r; terms ← neq_row l refs; pure (t ∷ terms)

unfoldable pub neq_pairs : List Ref → Emit (List Ref)
unfolding neq_row
neq_pairs [] = pure []
neq_pairs (l ∷ refs) = do row ← neq_row l refs; terms ← neq_pairs refs; pure (row ++ terms)

-- `ant -> body` as `!ant || body`; with no body, `!ant || ant`.
unfoldable pub emit_implies : Ref → Option Ref → Emit Ref
unfolding emit
emit_implies ant none = do n ← not_ref ant; binary dvs_or n ant
emit_implies ant (some body) = do n ← not_ref ant; binary dvs_or n body

-- `cond -> then` and `!cond -> else`, where there is a body.
unfoldable pub then_part : Ref → Option Ref → Emit (List Ref)
unfolding emit
then_part c none = pure []
then_part c (some t) = do n ← not_ref c; p ← binary dvs_or n t; pure (p ∷ [])

unfoldable pub else_part : Ref → Option Ref → Emit (List Ref)
unfolding emit
else_part c none = pure []
else_part c (some t) = do p ← binary dvs_or c t; pure (p ∷ [])

-- `_conj(parts) if parts else (!cond || cond)`
unfoldable pub join_parts : Ref → List Ref → Emit Ref
unfolding fold_refs fold_from emit
join_parts c [] = do n ← not_ref c; binary dvs_or n c
join_parts c (p ∷ parts) = fold_refs dvs_and (p ∷ parts)

module _ (var_id_map : String → Option ℕ) where
  unfoldable pub emit_unique : Exprs → Emit (Option Ref)
  unfolding emit_expr neq_pairs conj
  emit_unique nil = pure none
  emit_unique (cons e nil) = pure none
  emit_unique (cons e (cons f es)) = do
    refs ← emit_exprs var_id_map (cons e (cons f es))
    terms ← neq_pairs refs
    t ← fold_refs dvs_and terms
    pure (some t)

  -- `_as_expr` and `_body_expr`.
  unfoldable mutual
    unfolding emit_expr conj emit_implies then_part else_part join_parts emit_unique

    pub as_expr : Constraint → Emit (Option Ref)
    as_expr (holds_expr e) = do t ← emit_expr var_id_map e; pure (some t)
    as_expr (implies antecedent body) = do
      ant ← emit_expr var_id_map antecedent
      refs ← as_exprs body
      b ← conj refs
      t ← emit_implies ant b
      pure (some t)
    as_expr (if_else cond then_body else_body) = do
      c ← emit_expr var_id_map cond
      refs ← as_exprs then_body
      t ← conj refs
      yes_parts ← then_part c t
      refs' ← as_exprs else_body
      e ← conj refs'
      no_parts ← else_part c e
      r ← join_parts c (yes_parts ++ no_parts)
      pure (some r)
    as_expr (unique items) = emit_unique items
    as_expr solve_before = raise unsupported
    as_expr foreign = raise unsupported
    as_expr (bare e) = raise unsupported

    pub as_exprs : Body → Emit (List Ref)
    as_exprs empty = pure []
    as_exprs (item c body) = do r ← as_expr c; refs ← as_exprs body; pure (keep r refs)

  abbrev pub add_opt : Option Ref → Emit (Unit {0})
  add_opt none = pure tt
  add_opt (some ref) = add ref

  -- `emit_constraint`.
  unfoldable pub emit_constraint : Constraint → Emit (Unit {0})
  unfolding as_expr emit_expr add
  emit_constraint solve_before = pure tt
  emit_constraint foreign = raise unsupported
  emit_constraint (bare e) = do t ← emit_expr var_id_map e; add t
  emit_constraint (holds_expr e) = do r ← as_expr (holds_expr e); add_opt r
  emit_constraint (implies a body) = do r ← as_expr (implies a body); add_opt r
  emit_constraint (if_else c t e) = do r ← as_expr (if_else c t e); add_opt r
  emit_constraint (unique items) = do r ← as_expr (unique items); add_opt r

  -- `for c in sp.constraints: cc.emit_constraint(c)` of `_emit_randomize`.
  unfoldable pub emit_all : List Constraint → Emit (Unit {0})
  unfolding emit_constraint
  emit_all [] = pure tt
  emit_all (c ∷ cs) = do u ← emit_constraint c; emit_all cs
