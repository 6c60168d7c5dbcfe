-- ===== src/Rtl/CombOrder/Tests.antt =====
-- Small sets of processes, and the theorems at them.
use zuspec_be_sw.Prelude.{ℕ, ◌≡◌, ◌≢◌, refl, List, [], ◌∷◌}
use zuspec_be_sw.Rtl.CombOrder.{
  Expr, self_ref, ref_field, node, nil, cons, assign, done, seq, Outcome, value_error, Func, run,
}
use zuspec_be_sw.Rtl.CombOrder.Sorted.{run-ne-stuck}

abbrev field : ℕ → Expr
field i = ref_field self_ref i

-- `self.<to> = self.<from> + 1`
abbrev copies : ℕ → ℕ → Func
copies from to = record {
  name = to;
  body = seq (assign (cons (field to) nil) (node (cons (field from) (cons (node nil) nil)))) done;
}

-- The chain 0 → 1 → 2, its last link first.
abbrev chain : List Func
chain = copies 1 2 ∷ copies 0 1 ∷ []

abbrev loop : List Func
loop = copies 1 2 ∷ copies 2 1 ∷ []

run-loop : run loop ≡ value_error
unfolding run
run-loop = refl

run-ne-stuck_example : run chain ≢ Outcome.stuck
run-ne-stuck_example = run-ne-stuck chain
