-- ===== src/Rtl/Classify/Awaits.antt =====
-- The awaits in a process body, which the walk of src/zuspec/be/sw/passes/rtl/component_classify.py looks for.
use zuspec_be_sw.Prelude.{◌≡◌, refl, inl, inr, true, arith, Bool-cases}
use zuspec_be_sw.Rtl.Classify.{
  Expr, await, node, Exprs, nil, cons, Stmt, expr_stmt, if_stmt, loop, assignment, block, Stmts,
  done, seq, expr_has_await, exprs_have_await, stmt_has_await, stmts_have_await,
}

-- An await anywhere in an expression.
mutual
  pub data AwaitsIn : Expr → Type 0 where
    here : {es : Exprs} → AwaitsIn (await es)
    child : {es fs : Exprs} → AwaitsAmong es → AwaitsIn (node es fs)
    other_child : {es fs : Exprs} → AwaitsAmong fs → AwaitsIn (node es fs)

  pub data AwaitsAmong : Exprs → Type 0 where
    first : {e : Expr} {es : Exprs} → AwaitsIn e → AwaitsAmong (cons e es)
    later : {e : Expr} {es : Exprs} → AwaitsAmong es → AwaitsAmong (cons e es)

-- An await anywhere in a statement.
mutual
  pub data Suspends : Stmt → Type 0 where
    evaluated : {e : Expr} → AwaitsIn e → Suspends (expr_stmt e)
    if_test : {es : Exprs} {b o : Stmts} → AwaitsAmong es → Suspends (if_stmt es b o)
    if_body : {es : Exprs} {b o : Stmts} → AnySuspends b → Suspends (if_stmt es b o)
    if_else : {es : Exprs} {b o : Stmts} → AnySuspends o → Suspends (if_stmt es b o)
    loop_test : {es : Exprs} {b o : Stmts} → AwaitsAmong es → Suspends (loop es b o)
    loop_body : {es : Exprs} {b o : Stmts} → AnySuspends b → Suspends (loop es b o)
    loop_else : {es : Exprs} {b o : Stmts} → AnySuspends o → Suspends (loop es b o)
    assigned : {es : Exprs} → AwaitsAmong es → Suspends (assignment es)
    directly : {es : Exprs} {b o h f : Stmts} → AwaitsAmong es → Suspends (block es b o h f)
    in_body : {es : Exprs} {b o h f : Stmts} → AnySuspends b → Suspends (block es b o h f)
    in_orelse : {es : Exprs} {b o h f : Stmts} → AnySuspends o → Suspends (block es b o h f)
    in_handlers : {es : Exprs} {b o h f : Stmts} → AnySuspends h → Suspends (block es b o h f)
    in_finalbody : {es : Exprs} {b o h f : Stmts} → AnySuspends f → Suspends (block es b o h f)

  pub data AnySuspends : Stmts → Type 0 where
    now : {s : Stmt} {ss : Stmts} → Suspends s → AnySuspends (seq s ss)
    after : {s : Stmt} {ss : Stmts} → AnySuspends ss → AnySuspends (seq s ss)

-- Where the walk does not look there is no await: in an expression, its other children.
unfoldable mutual
  pub IsOpen : Expr → Type 0
  IsOpen (await es) = Unit
  IsOpen (node es fs) = AreOpen es × (¬ AwaitsAmong fs)

  pub AreOpen : Exprs → Type 0
  AreOpen nil = Unit
  AreOpen (cons e es) = IsOpen e × AreOpen es

-- In a statement, the expressions that are no statement of their own and `orelse` of a loop.
unfoldable mutual
  unfolding IsOpen AreOpen

  pub OpenStmt : Stmt → Type 0
  OpenStmt (expr_stmt e) = IsOpen e
  OpenStmt (if_stmt es b o) = (¬ AwaitsAmong es) × (OpenStmts b × OpenStmts o)
  OpenStmt (loop es b o) = (¬ AwaitsAmong es) × (OpenStmts b × (¬ AnySuspends o))
  OpenStmt (assignment es) = ¬ AwaitsAmong es
  OpenStmt (block es b o h f) =
      (¬ AwaitsAmong es) × (OpenStmts b × (OpenStmts o × (OpenStmts h × OpenStmts f)))

  pub OpenStmts : Stmts → Type 0
  OpenStmts done = Unit
  OpenStmts (seq s ss) = OpenStmt s × OpenStmts ss

mutual
  unfolding expr_has_await exprs_have_await

  found_expr : (e : Expr) → expr_has_await e ≡ true → AwaitsIn e
  found_expr (await es) h = here
  found_expr (node es fs) h = child (found_exprs es h)

  found_exprs : (es : Exprs) → exprs_have_await es ≡ true → AwaitsAmong es
  found_exprs nil h = cc
  found_exprs (cons e es) h = elim (Bool-cases (expr_has_await e)) [
    | inl p ↦ first (found_expr e p)
    | inr p ↦ later (found_exprs es (ground arith))
  ]

mutual
  unfolding stmt_has_await stmts_have_await

  found_stmt : (s : Stmt) → stmt_has_await s ≡ true → Suspends s
  found_stmt (expr_stmt e) h = evaluated (found_expr e h)
  found_stmt (if_stmt es b o) h = elim (Bool-cases (stmts_have_await b)) [
    | inl p ↦ if_body (found_stmts b p)
    | inr p ↦ if_else (found_stmts o (ground arith))
  ]
  found_stmt (loop es b o) h = loop_body (found_stmts b h)
  found_stmt (assignment es) h = cc
  found_stmt (block es b o hs f) h = elim (Bool-cases (stmts_have_await b)) [
    | inl p ↦ in_body (found_stmts b p)
    | inr p ↦ elim (Bool-cases (stmts_have_await o)) [
      | inl q ↦ in_orelse (found_stmts o q)
      | inr q ↦ elim (Bool-cases (stmts_have_await hs)) [
        | inl r ↦ in_handlers (found_stmts hs r)
        | inr r ↦ in_finalbody (found_stmts f (ground arith))
      ]
    ]
  ]

  pub found_stmts : (ss : Stmts) → stmts_have_await ss ≡ true → AnySuspends ss
  found_stmts done h = cc
  found_stmts (seq s ss) h = elim (Bool-cases (stmt_has_await s)) [
    | inl p ↦ now (found_stmt s p)
    | inr p ↦ after (found_stmts ss (ground arith))
  ]

mutual
  unfolding expr_has_await exprs_have_await IsOpen AreOpen

  seen_expr : (e : Expr) → IsOpen e → AwaitsIn e → expr_has_await e ≡ true
  seen_expr (await es) o a = refl
  seen_expr (node es fs) o (child a) = seen_exprs es o.0 a
  seen_expr (node es fs) o (other_child a) = absurd (o.1 a)

  seen_exprs : (es : Exprs) → AreOpen es → AwaitsAmong es → exprs_have_await es ≡ true
  seen_exprs nil o a = elim a [ ]
  seen_exprs (cons e es) o (first a) = rw (seen_expr e o.0 a) refl
  seen_exprs (cons e es) o (later a) = let rest = seen_exprs es o.1 a in ground arith

mutual
  unfolding stmt_has_await stmts_have_await OpenStmt OpenStmts

  seen_stmt : (s : Stmt) → OpenStmt s → Suspends s → stmt_has_await s ≡ true
  seen_stmt (expr_stmt e) o (evaluated a) = seen_expr e o a
  seen_stmt (if_stmt es b e) o (if_test a) = absurd (o.0 a)
  seen_stmt (if_stmt es b e) o (if_body a) = let p = seen_stmts b o.1.0 a in ground arith
  seen_stmt (if_stmt es b e) o (if_else a) = let p = seen_stmts e o.1.1 a in ground arith
  seen_stmt (loop es b e) o (loop_test a) = absurd (o.0 a)
  seen_stmt (loop es b e) o (loop_body a) = seen_stmts b o.1.0 a
  seen_stmt (loop es b e) o (loop_else a) = absurd (o.1.1 a)
  seen_stmt (assignment es) o (assigned a) = absurd (o a)
  seen_stmt (block es b e h f) o (directly a) = absurd (o.0 a)
  seen_stmt (block es b e h f) o (in_body a) = let p = seen_stmts b o.1.0 a in ground arith
  seen_stmt (block es b e h f) o (in_orelse a) = let p = seen_stmts e o.1.1.0 a in ground arith
  seen_stmt (block es b e h f) o (in_handlers a) = let p = seen_stmts h o.1.1.1.0 a in ground arith
  seen_stmt (block es b e h f) o (in_finalbody a) = let p = seen_stmts f o.1.1.1.1 a in ground arith

  pub seen_stmts : (ss : Stmts) → OpenStmts ss → AnySuspends ss → stmts_have_await ss ≡ true
  seen_stmts done o a = elim a [ ]
  seen_stmts (seq s ss) o (now a) = let p = seen_stmt s o.0 a in ground arith
  seen_stmts (seq s ss) o (after a) = let p = seen_stmts ss o.1 a in ground arith
