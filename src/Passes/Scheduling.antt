-- ===== src/Passes/Scheduling.antt =====
-- `BulkSyncSchedulerPass` and `FrameEliminatePass` of src/zuspec/be/sw/passes/bulk_sync.py and
-- src/zuspec/be/sw/passes/frame_eliminate.py, on the latencies of the wait points.
mod Waits
mod Disjoint
mod Tests
use zuspec_be_sw.Prelude.{
  ℕ, Bool, true, false, not, ◌&&◌, ◌||◌, if◌then◌else◌, ◌==◌, Option, none, some, List, [], ◌∷◌,
  ◌++◌,
}
use zuspec_be_sw.Passes.WaitPoints.Syntax.{Func}
use zuspec_be_sw.Passes.WaitPoints.Scan.{Latency}

-- The names of the methods that a thread may start in.
abbrev pub run_name : ℕ
run_name = 10

abbrev pub execute_name : ℕ
execute_name = 11

abbrev pub body_name : ℕ
body_name = 12

abbrev pub main_name : ℕ
main_name = 13

-- `BulkSyncEntry`
pub record BulkSyncEntry : Type 0 where
  pub component_name : ℕ
  pub run_method : ℕ
  pub quantum_ps : ℕ

-- `ctxt.method_latencies.get((type_name, name))`
unfoldable pub get_latency : ℕ × ℕ → List ((ℕ × ℕ) × Latency) → Option Latency
get_latency k [] = none
get_latency k (p ∷ ps) = if (k.0 == p.0.0) && (k.1 == p.0.1) then some p.1 else get_latency k ps

unfoldable pub waits : Option Latency → Bool
waits none = false
waits (some l) = l.has_wait

unfoldable pub is_entry : ℕ → List ((ℕ × ℕ) × Latency) → Func → Bool
is_entry type_name latencies f =
    (f.name == run_name || f.name == execute_name || f.name == body_name || f.name == main_name)
    && f.is_async
    && waits (get_latency (type_name, f.name) latencies)

-- The loop over the methods of a component, up to its `break`.
unfoldable pub bulk_entries : ℕ → ℕ → List ((ℕ × ℕ) × Latency) → List Func → List BulkSyncEntry
bulk_entries quantum type_name latencies [] = []
bulk_entries quantum type_name latencies (f ∷ fs) =
    if is_entry type_name latencies f
    then record { component_name = type_name; run_method = f.name; quantum_ps = quantum } ∷ []
    else bulk_entries quantum type_name latencies fs

-- `BulkSyncSchedulerPass.run` on the components with their methods.
unfoldable pub run_bulk_sync :
    ℕ → List ((ℕ × ℕ) × Latency) → List (ℕ × List Func) → List BulkSyncEntry → List BulkSyncEntry
run_bulk_sync quantum latencies [] entries = entries
run_bulk_sync quantum latencies (t ∷ ts) entries =
    run_bulk_sync quantum latencies ts (entries ++ bulk_entries quantum t.0 latencies t.1)

-- `FrameEliminatePass.run`; `frame_eliminable` is a set, here with a key once for each time that it
-- is added.
unfoldable pub run_frame_eliminate : List ((ℕ × ℕ) × Latency) → List (ℕ × ℕ) → List (ℕ × ℕ)
run_frame_eliminate [] eliminable = eliminable
run_frame_eliminate ((key, lat) ∷ r) eliminable =
    run_frame_eliminate r (if lat.has_wait then eliminable else key ∷ eliminable)
