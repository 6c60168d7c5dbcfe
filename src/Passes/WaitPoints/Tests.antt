-- ===== src/Passes/WaitPoints/Tests.antt =====
-- A component of two methods, and the theorems on src/zuspec/be/sw/passes/wait_point_analysis.py at it.
use mathlib.Core.List.{Memᴰ}
use zuspec_be_sw.Prelude.{
  ℕ, ◌≡◌, ◌∙◌, ap, inl, refl, sym, subst, Bool, true, false, ◌||◌, some, List, [], ◌∷◌, ◌==◌, leb,
  arith, ◌^◌, ◌-◌,
}
use zuspec_be_sw.Passes.WaitPoints.Syntax.{
  Expr, await, call, attribute, self_ref, constant, nil, cons, expr_stmt, if_stmt, loop, done, seq,
  Func,
}
use zuspec_be_sw.Passes.WaitPoints.Scan.{latency, analyze, run}
use zuspec_be_sw.Passes.WaitPoints.Takes.{
  ExprTakes, AwaitTakes, StmtTakes, StmtsTake, Repeats, all_plain, AreNamed, is_wait_name, has_name,
  WaitsFor,
}
use zuspec_be_sw.Passes.WaitPoints.Bounds.{IsBound}
use zuspec_be_sw.Passes.WaitPoints.Sound.{run-IsBound}
use zuspec_be_sw.Passes.WaitPoints.Fuel.{run-enough_fuel}

abbrev starts_wait : ℕ → Bool
starts_wait n = leb n 3 || n == 8

-- `await self.wait_ns(5)`
abbrev wait_five : Expr
wait_five = await (call (attribute self_ref 1) (cons (constant (some 5)) nil))

-- `while ...: await self.wait_ns(5)`
abbrev ticker : Func
ticker = record {
  name = 21;
  is_async = true;
  body = seq (loop self_ref (seq (expr_stmt wait_five) done)) done;
}

-- `await self.wait_ns(5)`, and `if ...: await self.ticker()`.
abbrev main : Func
main = record {
  name = 20;
  is_async = true;
  body = seq (expr_stmt wait_five) (
      seq (if_stmt self_ref (seq (expr_stmt (await (call (attribute self_ref 21) nil))) done) done)
        done);
}

abbrev methods : List Func
methods = main ∷ ticker ∷ []

run_at_main :
    run starts_wait ((7, methods) ∷ []) []
    ≡ ((7, 20), latency 5000 (2 ^ 63 - 1) true) ∷ ((7, 21), latency 0 (2 ^ 63 - 1) true) ∷ []
unfolding run
run_at_main = refl

methods_named : AreNamed methods
methods_named = record { unique = unique; no_wait_name = apart }
  where
    unique : (f g : Func) → Memᴰ f methods → Memᴰ g methods → f.name ≡ g.name → f ≡ g
    unique f g (Memᴰ.head a) (Memᴰ.head b) e = a ∙ sym b
    unique f g (Memᴰ.head a) (Memᴰ.tail (Memᴰ.head b)) e = absurd (
        let names : 20 ≡ 21 =
          ap (λ (x : Func). x.name) (sym a) ∙ (e ∙ ap (λ (x : Func). x.name) b) in
        omega arith)
    unique f g (Memᴰ.tail (Memᴰ.head a)) (Memᴰ.head b) e = absurd (
        let names : 21 ≡ 20 =
          ap (λ (x : Func). x.name) (sym a) ∙ (e ∙ ap (λ (x : Func). x.name) b) in
        omega arith)
    unique f g (Memᴰ.tail (Memᴰ.head a)) (Memᴰ.tail (Memᴰ.head b)) e = a ∙ sym b
    unique f g (Memᴰ.tail (Memᴰ.tail k)) m e = elim k [ ]
    unique f g (Memᴰ.head a) (Memᴰ.tail (Memᴰ.tail k)) e = elim k [ ]
    unique f g (Memᴰ.tail (Memᴰ.head a)) (Memᴰ.tail (Memᴰ.tail k)) e = elim k [ ]

    apart : (f : Func) → Memᴰ f methods → is_wait_name f.name ≡ false
    apart f (Memᴰ.head a) = subst (λ (x : Func). is_wait_name x.name ≡ false) (sym a) refl
    apart f (Memᴰ.tail (Memᴰ.head a)) =
        subst (λ (x : Func). is_wait_name x.name ≡ false) (sym a) refl
    apart f (Memᴰ.tail (Memᴰ.tail k)) = elim k [ ]

methods_plain : (f : Func) → Memᴰ f methods → all_plain methods f.body ≡ true
unfolding all_plain has_name
methods_plain f (Memᴰ.head e) = subst (λ g. all_plain methods g.body ≡ true) (sym e) refl
methods_plain f (Memᴰ.tail (Memᴰ.head e)) =
    subst (λ g. all_plain methods g.body ≡ true) (sym e) refl
methods_plain f (Memᴰ.tail (Memᴰ.tail k)) = elim k [ ]

takes_five : ExprTakes methods wait_five 5000
takes_five = ExprTakes.awaited (AwaitTakes.timed (WaitsFor.nanoseconds (inl refl) refl))

once_around : StmtsTake methods ticker.body 5000
once_around =
    StmtsTake.then_on {a = 5000} {b = 0}
      (StmtTakes.iterates (
        Repeats.again {x = 5000} {y = 0}
          (StmtsTake.then_on {a = 5000} {b = 0} (StmtTakes.evaluates takes_five)
            (StmtsTake.ended refl) refl)
          (Repeats.stops refl) refl))
      (StmtsTake.ended refl) refl

calls_ticker : AwaitTakes methods (call (attribute self_ref 21) nil) 5000
calls_ticker = AwaitTakes.of_method {m = ticker} (Memᴰ.tail (Memᴰ.head refl)) refl once_around

takes_ten : StmtsTake methods main.body 10000
takes_ten =
    StmtsTake.then_on {a = 5000} {b = 5000} (StmtTakes.evaluates takes_five)
      (StmtsTake.then_on {a = 5000} {b = 0}
        (StmtTakes.then_branch (
          StmtsTake.then_on {a = 5000} {b = 0}
            (StmtTakes.evaluates (ExprTakes.awaited calls_ticker)) (StmtsTake.ended refl) refl))
        (StmtsTake.ended refl) refl)
      refl

run-IsBound_example : IsBound (analyze starts_wait methods 3 [] main) 10000
run-IsBound_example =
    run-IsBound starts_wait methods methods_named methods_plain main 10000 (Memᴰ.head refl)
      takes_ten

run-enough_fuel_example :
    analyze starts_wait methods 3 [] main ≡ analyze starts_wait methods 100 [] main
run-enough_fuel_example =
    run-enough_fuel starts_wait methods 100 main (Memᴰ.head refl) (omega arith)
