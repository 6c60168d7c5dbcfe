-- ===== src/Passes/WaitPoints/Sound.antt =====
-- The bounds of src/zuspec/be/sw/passes/wait_point_analysis.py hold for every execution.
use mathlib.Core.List.{Memᴰ}
use zuspec_be_sw.Prelude.{
  ℕ, suc, ◌+◌, ◌≤◌, ◌≡◌, inl, inr, sym, subst, Bool, true, false, List, [], leb→le, arith,
  Bool-cases, length,
}
use zuspec_be_sw.Passes.WaitPoints.Syntax.{
  Expr, await, call, attribute, ref_name, self_ref, constant, node, Exprs, nil, cons, Stmt,
  expr_stmt, assign, if_stmt, loop, return_stmt, other_stmt, Stmts, done, seq, Func,
}
use zuspec_be_sw.Passes.WaitPoints.Scan.{
  Latency, no_wait, scan_await, scan_expr, scan_exprs, scan_stmt, scan_stmts, add_latency, join_if,
  is_empty, analyze,
}
use zuspec_be_sw.Passes.WaitPoints.Takes.{
  ExprTakes, ExprsTakes, AwaitTakes, StmtTakes, StmtsTake, Repeats, awaits, awaits_of, is_plain,
  all_plain, is_covered, AreNamed,
}
use zuspec_be_sw.Passes.WaitPoints.Bounds.{
  IsBound, any_time, no_time, add-IsBound, join_then, join_else, join_no_else, later_IsBound,
  or_nothing, sides, analyzed,
}
use zuspec_be_sw.Passes.WaitPoints.Awaited.{unknown-IsBound, timed-IsBound, of_method-IsBound}

module _ (starts_wait : ℕ → Bool) (methods : List Func) where
  module _ (named : AreNamed methods)
      (plain : (f : Func) → Memᴰ f methods → all_plain methods f.body ≡ true) where
    mutual
      unfolding scan_expr scan_exprs scan_await scan_stmt scan_stmts awaits awaits_of is_plain
          all_plain

      expr_sound :
          (fuel : ℕ) (visited : List ℕ) (e : Expr) (l : ℕ)
          → awaits methods e ≤ 1
          → ExprTakes methods e l
          → IsBound (scan_expr starts_wait methods (analyze starts_wait methods fuel visited) e) l
      expr_sound fuel visited (await v) l h (ExprTakes.awaited x) =
          await_sound fuel visited v l (ground arith) x
      expr_sound fuel visited (call f es) l h (ExprTakes.called {a} {b} x y e) =
          let rec = analyze starts_wait methods fuel visited in
          subst (IsBound (scan_expr starts_wait methods rec (call f es))) (sym e) (
            later_IsBound (scan_expr starts_wait methods rec f)
              (scan_exprs starts_wait methods rec es) a b
              (expr_sound fuel visited f a (omega arith) x)
              (exprs_sound fuel visited es b (omega arith) y)
              (sides starts_wait methods rec f es a b h x y))
      expr_sound fuel visited (attribute v n) l h (ExprTakes.selected x) =
          or_nothing (scan_expr starts_wait methods (analyze starts_wait methods fuel visited) v) l
            (expr_sound fuel visited v l h x)
      expr_sound fuel visited (ref_name n) l h (ExprTakes.named e) =
          subst (IsBound no_wait) (sym e) no_time
      expr_sound fuel visited self_ref l h (ExprTakes.own e) =
          subst (IsBound no_wait) (sym e) no_time
      expr_sound fuel visited (constant v) l h (ExprTakes.literal e) =
          subst (IsBound no_wait) (sym e) no_time
      expr_sound fuel visited (node es) l h (ExprTakes.noded x) = exprs_sound fuel visited es l h x

      exprs_sound :
          (fuel : ℕ) (visited : List ℕ) (es : Exprs) (l : ℕ)
          → awaits_of methods es ≤ 1
          → ExprsTakes methods es l
          → IsBound (scan_exprs starts_wait methods (analyze starts_wait methods fuel visited) es) l
      exprs_sound fuel visited nil l h (ExprsTakes.nothing e) =
          subst (IsBound no_wait) (sym e) no_time
      exprs_sound fuel visited (cons e es) l h (ExprsTakes.each {a} {b} x y k) =
          let rec = analyze starts_wait methods fuel visited in
          subst (IsBound (scan_exprs starts_wait methods rec (cons e es))) (sym k) (
            later_IsBound (scan_expr starts_wait methods rec e)
              (scan_exprs starts_wait methods rec es) a b
              (expr_sound fuel visited e a (omega arith) x)
              (exprs_sound fuel visited es b (omega arith) y)
              (sides starts_wait methods rec e es a b h x y))

      await_sound :
          (fuel : ℕ) (visited : List ℕ) (v : Expr) (l : ℕ)
          → is_covered methods v ≡ true
          → AwaitTakes methods v l
          → IsBound (scan_await starts_wait methods (analyze starts_wait methods fuel visited) v) l
      await_sound fuel visited (call f es) l c (AwaitTakes.timed {n} {v} {es = rest} w) =
          timed-IsBound starts_wait methods (analyze starts_wait methods fuel visited) n v l rest w
      await_sound fuel visited (call f es) l c (AwaitTakes.of_method {m} k same x) =
          subst
            (λ n.
              IsBound
                (scan_await starts_wait methods (analyze starts_wait methods fuel visited)
                  (call (attribute self_ref n) es))
                l)
            same
            (of_method-IsBound starts_wait methods (analyze starts_wait methods fuel visited) m es l
              named k
              (analyzed starts_wait methods fuel visited m l (λ fuel' visited'.
                stmts_sound fuel' visited' m.body l no_wait 0 l (omega arith) (plain m k) x
                  no_time)))
      await_sound fuel visited (call f es) l c (AwaitTakes.unknown h) =
          unknown-IsBound starts_wait methods (analyze starts_wait methods fuel visited) f es l c h
      await_sound fuel visited (await v) l c x = elim x [ ]
      await_sound fuel visited (attribute v n) l c x = elim x [ ]
      await_sound fuel visited (ref_name n) l c x = elim x [ ]
      await_sound fuel visited self_ref l c x = elim x [ ]
      await_sound fuel visited (constant v) l c x = elim x [ ]
      await_sound fuel visited (node es) l c x = elim x [ ]

      stmt_sound :
          (fuel : ℕ) (visited : List ℕ) (s : Stmt) (l : ℕ)
          → is_plain methods s ≡ true
          → StmtTakes methods s l
          → IsBound (scan_stmt starts_wait methods (analyze starts_wait methods fuel visited) s) l
      stmt_sound fuel visited (expr_stmt e) l h (StmtTakes.evaluates x) =
          expr_sound fuel visited e l (leb→le _ _ h) x
      stmt_sound fuel visited (assign ts e) l h (StmtTakes.assigns x) =
          expr_sound fuel visited e l (leb→le _ _ h) x
      stmt_sound fuel visited (if_stmt t (seq s ss) o) l h (StmtTakes.then_branch x) =
          join_then (is_empty o) _ _ l (
            stmts_sound fuel visited (seq s ss) l no_wait 0 l (omega arith) (ground arith) x
              no_time)
      stmt_sound fuel visited (if_stmt test (seq s ss) done) l h
            (StmtTakes.else_branch (StmtsTake.ended e)) =
          let t =
            scan_stmts starts_wait methods (analyze starts_wait methods fuel visited) (seq s ss)
              no_wait in
          subst (IsBound (join_if false true t no_wait)) (sym e) (join_no_else t)
      stmt_sound fuel visited (if_stmt t (seq s ss) (seq s' ss')) l h (StmtTakes.else_branch x) =
          join_else _ _ l (
            stmts_sound fuel visited (seq s' ss') l no_wait 0 l (omega arith) (ground arith) x
              no_time)
      stmt_sound fuel visited (if_stmt t done o) l h x = absurd (ground arith)
      stmt_sound fuel visited (loop t b) l h (StmtTakes.iterates x) =
          let body =
            scan_stmts starts_wait methods (analyze starts_wait methods fuel visited) b no_wait in
          elim (Bool-cases body.has_wait) [
            | inl w ↦ rw w (any_time l)
            | inr w ↦
                rw w (subst (IsBound no_wait) (sym (Repeats-quiet fuel visited b l h w x)) no_time)
          ]
      stmt_sound fuel visited (return_stmt v) l h x = elim x [ ]
      stmt_sound fuel visited (other_stmt es ss) l h (StmtTakes.passes e) =
          subst (IsBound no_wait) (sym e) no_time

      Repeats-quiet :
          (fuel : ℕ) (visited : List ℕ) (b : Stmts) (l : ℕ)
          → all_plain methods b ≡ true
          → (scan_stmts starts_wait methods
              (analyze starts_wait methods fuel visited)
              b
              no_wait).has_wait
            ≡ false
          → Repeats methods b l
          → l ≡ 0
      Repeats-quiet fuel visited b l h w (Repeats.stops e) = e
      Repeats-quiet fuel visited b l h w (Repeats.again {x = a} {y = c} x y e) = omega (
        arith,
        (stmts_sound fuel visited b a no_wait 0 a (omega arith) h x no_time).quiet w,
        Repeats-quiet fuel visited b c h w y,
        e,
      )

      stmts_sound :
          (fuel : ℕ) (visited : List ℕ) (ss : Stmts) (l : ℕ) (total : Latency) (so_far sum : ℕ)
          → sum ≡ so_far + l
          → all_plain methods ss ≡ true
          → StmtsTake methods ss l
          → IsBound total so_far
          → IsBound
              (scan_stmts starts_wait methods (analyze starts_wait methods fuel visited) ss total)
              sum
      stmts_sound fuel visited done l total so_far sum k h (StmtsTake.ended e) p =
          subst (IsBound total) (omega arith) p
      stmts_sound fuel visited (seq s ss) l total so_far sum k h (StmtsTake.then_on {a} {b} x y e)
            p =
          stmts_sound fuel visited ss b
            (add_latency total
              (scan_stmt starts_wait methods (analyze starts_wait methods fuel visited) s))
            (so_far + a) sum (omega arith) (ground arith) y
            (add-IsBound total _ so_far a p (stmt_sound fuel visited s a (ground arith) x))

    -- The bounds that `run` gives to a method are bounds of the time of every execution of it, and a
    -- method without a wait takes no time. The methods of the component have different names, none of
    -- them a wait's; an expression has one await at most, which is of a call; a wait on `self` has a
    -- constant amount, and what is not called on `self` has neither a wait's name nor a method's; no
    -- `if` is empty and there is no return. An execution leaves no statement out; a wait on `self` takes
    -- its amount in its unit, a call of a method on `self` what its body takes, any other awaited call
    -- any time, and tests and statements that the pass does not name take none.
    pub run-IsBound :
        (f : Func) (l : ℕ)
        → Memᴰ f methods
        → StmtsTake methods f.body l
        → IsBound (analyze starts_wait methods (suc (length methods)) [] f) l
    run-IsBound f l mem t =
        analyzed starts_wait methods (suc (length methods)) [] f l (λ fuel visited.
          stmts_sound fuel visited f.body l no_wait 0 l (omega arith) (plain f mem) t no_time)
