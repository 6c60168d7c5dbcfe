-- ===== src/Passes/WaitPoints/Fuel.antt =====
-- The recursion of `_analyze` in src/zuspec/be/sw/passes/wait_point_analysis.py ends.
use mathlib.Core.List.{Memᴰ}
use zuspec_be_sw.Prelude.{
  ℕ, zero, suc, ◌+◌, ◌≤◌, ◌<◌, ◌≡◌, inl, inr, refl, ap, Bool, false, not, List, [], ◌∷◌, ==_refl,
  arith, Bool-cases, Option-cases, length, bit,
}
use zuspec_be_sw.Passes.WaitPoints.Syntax.{
  Expr, await, call, attribute, ref_name, self_ref, constant, node, Exprs, nil, cons, Stmt,
  expr_stmt, assign, if_stmt, loop, return_stmt, other_stmt, Stmts, done, seq, Func,
}
use zuspec_be_sw.Passes.WaitPoints.Scan.{
  Latency, no_wait, call_name, callee, scan_await, scan_expr, scan_exprs, scan_stmt, scan_stmts,
  add_latency, visited_name, analyze,
}
use zuspec_be_sw.Passes.WaitPoints.Bounds.{found_callee}

-- The methods that are not on the way yet.
module _ (starts_wait : ℕ → Bool) where
  unfoldable pub unvisited : List ℕ → List Func → ℕ
  unvisited visited [] = 0
  unvisited visited (m ∷ ms) =
      bit (not (visited_name starts_wait m.name visited)) + unvisited visited ms

  unvisited-length : (visited : List ℕ) (ms : List Func) → unvisited visited ms ≤ length ms
  unfolding unvisited
  unvisited-length visited [] = omega arith
  unvisited-length visited (m ∷ ms) = ground (arith, unvisited-length visited ms)

  unvisited-visit :
      (n : ℕ) (visited : List ℕ) (ms : List Func)
      → unvisited (n ∷ visited) ms ≤ unvisited visited ms
  unfolding unvisited visited_name
  unvisited-visit n visited [] = omega arith
  unvisited-visit n visited (m ∷ ms) = ground (arith, unvisited-visit n visited ms)

  unvisited-mem :
      (f : Func) (visited : List ℕ) (ms : List Func)
      → Memᴰ f ms
      → visited_name starts_wait f.name visited ≡ false
      → unvisited (f.name ∷ visited) ms < unvisited visited ms
  unfolding unvisited visited_name
  unvisited-mem f visited [] k h = elim k [ ]
  unvisited-mem f visited (m ∷ ms) (Memᴰ.head e) h =
      ground (arith, ap (λ x. x.name) e, ==_refl f.name, unvisited-visit f.name visited ms)
  unvisited-mem f visited (m ∷ ms) (Memᴰ.tail k) h = ground (arith, unvisited-mem f visited ms k h)

  -- The scans look at the methods of the component only.
  module _ (methods : List Func) (rec rec' : Func → Latency)
      (same : (f : Func) → Memᴰ f methods → rec f ≡ rec' f) where
    same_await :
        (v : Expr) → scan_await starts_wait methods rec v ≡ scan_await starts_wait methods rec' v
    unfolding scan_await
    same_await (call f es) = elim (Option-cases (callee starts_wait methods (call_name f))) [
      | inl h ↦ rw h refl
      | inr h ↦
          rw (h.1) (rw (same h.0 (found_callee starts_wait methods (call_name f) h.0 h.1)) refl)
    ]
    same_await (await v) = refl
    same_await (attribute v n) = refl
    same_await (ref_name n) = refl
    same_await self_ref = refl
    same_await (constant v) = refl
    same_await (node es) = refl

    mutual
      unfolding scan_expr scan_exprs

      same_expr :
          (e : Expr) → scan_expr starts_wait methods rec e ≡ scan_expr starts_wait methods rec' e
      same_expr (await v) = same_await v
      same_expr (call f es) = rw (same_expr f, same_exprs es) refl
      same_expr (attribute v n) = rw (same_expr v) refl
      same_expr (ref_name n) = refl
      same_expr self_ref = refl
      same_expr (constant v) = refl
      same_expr (node es) = same_exprs es

      same_exprs :
          (es : Exprs)
          → scan_exprs starts_wait methods rec es ≡ scan_exprs starts_wait methods rec' es
      same_exprs nil = refl
      same_exprs (cons e es) = rw (same_expr e, same_exprs es) refl

    mutual
      unfolding scan_stmt scan_stmts

      same_stmt :
          (s : Stmt) → scan_stmt starts_wait methods rec s ≡ scan_stmt starts_wait methods rec' s
      same_stmt (expr_stmt e) = same_expr e
      same_stmt (assign ts e) = same_expr e
      same_stmt (if_stmt t b o) = rw (same_stmts b no_wait, same_stmts o no_wait) refl
      same_stmt (loop t b) = rw (same_stmts b no_wait) refl
      same_stmt (return_stmt v) = refl
      same_stmt (other_stmt es ss) = refl

      same_stmts :
          (ss : Stmts) (total : Latency)
          → scan_stmts starts_wait methods rec ss total
            ≡ scan_stmts starts_wait methods rec' ss total
      same_stmts done total = refl
      same_stmts (seq s ss) total =
          rw (same_stmt s)
            (same_stmts ss (add_latency total (scan_stmt starts_wait methods rec' s)))

  -- Fuel for the methods that are not on the way, and one more, is enough.
  enough_fuel :
      (methods : List Func) (a b : ℕ) (visited : List ℕ) (f : Func)
      → Memᴰ f methods
      → unvisited visited methods < a
      → unvisited visited methods < b
      → analyze starts_wait methods a visited f ≡ analyze starts_wait methods b visited f
  unfolding analyze
  enough_fuel methods zero b visited f mem p q = absurd (omega arith)
  enough_fuel methods (suc a) zero visited f mem p q = absurd (omega arith)
  enough_fuel methods (suc a) (suc b) visited f mem p q =
      elim (Bool-cases (visited_name starts_wait f.name visited)) [
        | inl h ↦ rw h refl
        | inr h ↦
            let less = unvisited-mem f visited methods mem h in
            rw h (
              same_stmts methods (analyze starts_wait methods a (f.name ∷ visited))
                (analyze starts_wait methods b (f.name ∷ visited))
                (λ m k. enough_fuel methods a b (f.name ∷ visited) m k (omega arith) (omega arith))
                f.body no_wait)
      ]

  -- One step more than the component has methods is enough for every method of it: more steps give
  -- the same bounds.
  pub run-enough_fuel :
      (methods : List Func) (fuel : ℕ) (f : Func)
      → Memᴰ f methods
      → length methods < fuel
      → analyze starts_wait methods (suc (length methods)) [] f
        ≡ analyze starts_wait methods fuel [] f
  run-enough_fuel methods fuel f mem h =
      let few = unvisited-length [] methods in
      enough_fuel methods (suc (length methods)) fuel [] f mem (omega arith) (omega arith)
