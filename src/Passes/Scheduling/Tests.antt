-- ===== src/Passes/Scheduling/Tests.antt =====
-- A component whose `run` waits and calls a method that does not, and the theorems at it.
use mathlib.Core.List.{Memᴰ}
use zuspec_be_sw.Prelude.{
  ℕ, ◌≡◌, ap, refl, sym, ap, subst, Bool, true, false, ◌||◌, some, List, [], ◌∷◌, ◌==◌, leb,
}
use zuspec_be_sw.Passes.WaitPoints.Syntax.{
  await, call, attribute, self_ref, constant, nil, cons, expr_stmt, loop, done, seq, Func,
}
use zuspec_be_sw.Passes.WaitPoints.Scan.{latency, run}
use zuspec_be_sw.Passes.Scheduling.{
  BulkSyncEntry, get_latency, waits, is_entry, bulk_entries, run_bulk_sync, run_frame_eliminate,
}
use zuspec_be_sw.Passes.Scheduling.Disjoint.{run_bulk_sync-run_frame_eliminate}

abbrev starts_wait : ℕ → Bool
starts_wait n = leb n 3 || n == 8

-- `while ...: self`
abbrev idle : Func
idle = record {
  name = 21;
  is_async = true;
  body = seq (loop self_ref (seq (expr_stmt self_ref) done)) done;
}

-- `await self.wait_ns(5)`, and `await self.idle()`.
abbrev starter : Func
starter = record {
  name = 10;
  is_async = true;
  body =
      seq (expr_stmt (await (call (attribute self_ref 1) (cons (constant (some 5)) nil))))
        (seq (expr_stmt (await (call (attribute self_ref 21) nil))) done);
}

abbrev methods : List Func
methods = starter ∷ idle ∷ []

abbrev types : List (ℕ × List Func)
types = (7, methods) ∷ []

latencies :
    run starts_wait types [] ≡ ((7, 10), latency 5000 5000 true) ∷ ((7, 21), latency 0 0 false) ∷ []
unfolding run
latencies = refl

abbrev entry : BulkSyncEntry
entry = record { component_name = 7; run_method = 10; quantum_ps = 1000000 }

scheduled : run_bulk_sync 1000000 (run starts_wait types []) types [] ≡ entry ∷ []
unfolding run_bulk_sync bulk_entries is_entry waits get_latency
scheduled = rw latencies refl

run_bulk_sync-run_frame_eliminate_example :
    ¬ Memᴰ (7, 10) (run_frame_eliminate (run starts_wait types []) [])
run_bulk_sync-run_frame_eliminate_example =
    run_bulk_sync-run_frame_eliminate starts_wait types 1000000 entry
      (subst (λ l. Memᴰ entry l) (sym scheduled) (Memᴰ.head refl))
