-- ===== src/Rtl/Waits/Warnings.antt =====
-- The warnings that src/zuspec/be/sw/passes/rtl/wait_lower.py records.
use zuspec_be_sw.Prelude.{ℕ, ◌≡◌, ap, ◌∙◌, Option, some, List, [], ◌∷◌, ◌++◌}
use zuspec_be_sw.Rtl.Waits.Lower.{
  Expr, Exprs, await, call, Warning, LoweredSuspend, lower_await, appended, after_wait, stmt, seq,
  none_left, lower_processes, chain,
}

module _ (upper : ℕ → ℕ) (ceil_ratio : ℕ → ℕ → ℕ) where
  recorded :
      (o : Option LoweredSuspend) (s : LoweredSuspend) (w : Warning) (ws : List Warning)
      → o ≡ some s
      → s.warning ≡ some w
      → after_wait upper ceil_ratio o ws ≡ some (ws ++ (w ∷ []) ++ (w ∷ []))
  recorded o s w ws e h =
      ap (λ x. after_wait upper ceil_ratio x ws) e
      ∙ ap (λ x. some (appended upper ceil_ratio x (appended upper ceil_ratio x ws))) h

  -- A wait whose lowering warns of its rounding leaves the warning twice.
  pub lower_processes-twice :
      (n period : ℕ) (func : Expr) (args : Exprs) (ws : List Warning) (s : LoweredSuspend)
      (w : Warning)
      → lower_await upper ceil_ratio n period [] func args ≡ some s
      → s.warning ≡ some w
      → lower_processes upper ceil_ratio n period
          (seq (stmt (some (await (call func args))) none_left none_left none_left) none_left ∷ [])
          ws
        ≡ some (ws ++ (w ∷ []) ++ (w ∷ []))
  unfolding lower_processes
  lower_processes-twice n period func args ws s w e h =
      let one = recorded (lower_await upper ceil_ratio n period [] func args) s w ws e h in
      ap (λ o. chain (chain (chain o some) some) some) one
