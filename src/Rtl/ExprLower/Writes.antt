-- ===== src/Rtl/ExprLower/Writes.antt =====
-- The stores that `lower_stmts` of src/zuspec/be/sw/passes/rtl/expr_lower.py writes for a @sync body.
use zuspec_be_sw.Prelude.{ℕ, ◌≡◌, inl, inr, refl, Bool, true, false, List, [], ◌∷◌, Bool-cases}
use zuspec_be_sw.Rtl.ExprLower.Syntax.{
  Expr, Exprs, nil, cons, Stmt, assign, aug_assign, if_stmt, for_stmt, while_stmt, expr_stmt,
  return_stmt, pass_stmt, other_stmt, Stmts, done, seq,
}
use zuspec_be_sw.Rtl.ExprLower.CCode.{CExpr, CExprs}
use zuspec_be_sw.Rtl.ExprLower.Lower.{Setup, space_of, lower_expr, lower_all}
use zuspec_be_sw.Rtl.ExprLower.Statements.{
  TargetKind, to_local, to_element, to_place, target_kind, target_line, is_docstring, is_none,
  CStmts, is_declared, Lowered, Loop, unrolled, ranged, generic, loop_kind, range_loop,
  lower_target, add_local, lower_targets, unroll, lower_line, lower_return, lower_loop, lower_stmt,
  lower_stmts,
}
use zuspec_be_sw.Rtl.ExprLower.Targets.{
  is_regs, is_register, stores_register, store_registers, written_space, or_false, append_registers,
  target_register,
}

module _ (setup : Setup) (predecl_locals : Bool) where
  stored_register :
      (kind : TargetKind) (place rhs : CExpr) (locals : List ℕ)
      → is_register place ≡ false
      → stores_register (target_line setup predecl_locals true kind place rhs locals) ≡ false
  unfolding stores_register
  stored_register (to_local k) place rhs locals h = elim (Bool-cases predecl_locals) [
    | inl p ↦ rw p refl
    | inr p ↦ elim (Bool-cases (is_declared k locals)) [
      | inl q ↦ rw (p, q) refl
      | inr q ↦ rw (p, q) refl
    ]
  ]
  stored_register (to_element v slc) place rhs locals h = refl
  stored_register to_place place rhs locals h = h

  targets_register :
      (es : Exprs) (rhs : CExpr) (locals : List ℕ)
      → store_registers (lower_targets setup predecl_locals true es rhs locals).lines ≡ false
  unfolding lower_targets store_registers
  targets_register nil rhs locals = refl
  targets_register (cons e es) rhs locals =
      or_false (stores_register (lower_target setup predecl_locals true e rhs locals)) _
        (stored_register (target_kind e) (lower_expr setup e true) rhs locals
          (target_register setup e))
        (targets_register es rhs (add_local setup predecl_locals true e locals))

  unroll_register :
      (ns : List ℕ) (c : CExpr) → store_registers (unroll setup predecl_locals true ns c) ≡ false
  unfolding store_registers
  unroll_register [] c = refl
  unroll_register (k ∷ ks) c =
      or_false (is_regs (space_of (setup.is_nxt k) true)) _ (written_space (setup.is_nxt k))
        (unroll_register ks c)

  range_register :
      (tgt : CExpr) (args : CExprs) (body : CStmts)
      → store_registers body ≡ false
      → stores_register (range_loop tgt args body) ≡ false
  unfolding stores_register
  range_register tgt CExprs.nil body h = h
  range_register tgt (CExprs.cons a CExprs.nil) body h = h
  range_register tgt (CExprs.cons a (CExprs.cons b CExprs.nil)) body h = h
  range_register tgt (CExprs.cons a (CExprs.cons b (CExprs.cons c es))) body h = h

  loop_register :
      (kind : Loop) (tgt : Expr) (body : Lowered) (locals : List ℕ)
      → store_registers body.lines ≡ false
      → store_registers (lower_loop setup predecl_locals true kind tgt body locals).lines ≡ false
  unfolding store_registers
  loop_register (unrolled ns v) tgt body locals h = unroll_register ns (lower_expr setup v false)
  loop_register (ranged args) tgt body locals h =
      or_false _ false
        (range_register (lower_expr setup tgt false) (lower_all setup args false) body.lines h) refl
  loop_register generic tgt body locals h = or_false _ false h refl

  line_register : (e : Expr) → store_registers (lower_line setup predecl_locals true e) ≡ false
  unfolding store_registers
  line_register e = elim (Bool-cases (is_docstring e)) [ inl h ↦ rw h refl | inr h ↦ rw h refl ]

  return_register : (e : Expr) → stores_register (lower_return setup predecl_locals true e) ≡ false
  unfolding stores_register
  return_register e = elim (Bool-cases (is_none e)) [ inl h ↦ rw h refl | inr h ↦ rw h refl ]

  mutual
    unfolding store_registers lower_stmts

    stmt_register :
        (s : Stmt) (locals : List ℕ)
        → store_registers (lower_stmt setup predecl_locals true s locals).lines ≡ false
    stmt_register (assign ts v) locals = targets_register ts (lower_expr setup v false) locals
    stmt_register (aug_assign op t v) locals = or_false _ false (target_register setup t) refl
    stmt_register (if_stmt t b o) locals =
        let x = lower_stmts setup predecl_locals true b locals in
        or_false _ false
          (or_false (store_registers x.lines) _ (stmts_register b locals)
            (stmts_register o x.locals))
          refl
    stmt_register (for_stmt t i b o) locals =
        loop_register (loop_kind i b) t (lower_stmts setup predecl_locals true b locals) locals
          (stmts_register b locals)
    stmt_register (while_stmt t b o) locals = or_false _ false (stmts_register b locals) refl
    stmt_register (expr_stmt e) locals = line_register e
    stmt_register (return_stmt e) locals = or_false _ false (return_register e) refl
    stmt_register pass_stmt locals = refl
    stmt_register other_stmt locals = refl

    stmts_register :
        (ss : Stmts) (locals : List ℕ)
        → store_registers (lower_stmts setup predecl_locals true ss locals).lines ≡ false
    stmts_register done locals = refl
    stmts_register (seq s ss) locals =
        let x = lower_stmt setup predecl_locals true s locals in
        append_registers x.lines _ (stmt_register s locals) (stmts_register ss x.locals)

  -- No line of a @sync body stores to a field of `self->_regs`; the elements of arrays are not looked at.
  pub lower_stmts-store_registers :
      (ss : Stmts) (locals : List ℕ)
      → store_registers (lower_stmts setup predecl_locals true ss locals).lines ≡ false
  lower_stmts-store_registers ss locals = stmts_register ss locals
