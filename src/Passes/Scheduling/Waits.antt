-- ===== src/Passes/Scheduling/Waits.antt =====
-- The methods that src/zuspec/be/sw/passes/frame_eliminate.py leaves without a frame take no time, and
-- src/zuspec/be/sw/passes/bulk_sync.py schedules none of them.
use mathlib.Core.List.{Memᴰ}
use zuspec_be_sw.Prelude.{
  ℕ, suc, ◌≡◌, refl, subst, inl, inr, ◌⊎◌, Bool, true, false, if◌then◌else◌, List, [], ◌∷◌, length,
  Bool-cases,
}
use zuspec_be_sw.Passes.WaitPoints.Syntax.{Func}
use zuspec_be_sw.Passes.WaitPoints.Scan.{Latency, analyze}
use zuspec_be_sw.Passes.Scheduling.{run_frame_eliminate}

-- A latency without a wait stands for each key.
pub run_frame_eliminate-member :
    (lats : List ((ℕ × ℕ) × Latency)) (old : List (ℕ × ℕ)) (key : ℕ × ℕ)
    → Memᴰ key (run_frame_eliminate lats old)
    → Memᴰ key old ⊎ ((lat : Latency) × Memᴰ (key, lat) lats × (lat.has_wait ≡ false))
unfolding run_frame_eliminate
run_frame_eliminate-member [] old key k = inl k
run_frame_eliminate-member ((j, lat) ∷ r) old key k = elim (Bool-cases lat.has_wait) [
  | inl e ↦ elim (run_frame_eliminate-member r (if lat.has_wait then old else j ∷ old) key k) [
    | inl m ↦ inl (subst (λ l. Memᴰ key l) (rw e refl) m)
    | inr (l, m, q) ↦ inr (l, Memᴰ.tail m, q)
  ]
  | inr e ↦ elim (run_frame_eliminate-member r (if lat.has_wait then old else j ∷ old) key k) [
    | inl m ↦ first e (subst (λ l. Memᴰ key l) (rw e refl) m)
    | inr (l, m, q) ↦ inr (l, Memᴰ.tail m, q)
  ]
]
  where
    first :
        lat.has_wait ≡ false
        → Memᴰ key (j ∷ old)
        → Memᴰ key old ⊎ ((l : Latency) × Memᴰ (key, l) ((j, lat) ∷ r) × (l.has_wait ≡ false))
    first e (Memᴰ.head q) = inr (lat, Memᴰ.head (cc), e)
    first e (Memᴰ.tail m) = inl m

-- A method of the component whose latency is recorded.
record Analyzed (starts_wait : ℕ → Bool) (type_name : ℕ) (methods fs : List Func)
    (e : (ℕ × ℕ) × Latency) : Type 0 where
  method : Func
  member : Memᴰ method fs
  entry :
      e ≡ ((type_name, method.name), analyze starts_wait methods (suc (length methods)) [] method)
  is_async : method.is_async ≡ true
