-- ===== src/Prelude/Mod.antt =====
-- Indices that run over a bound once at most.
use native.Mathlib.Nat.{mod-eq_of_lt, mod-eq-sub-mod}
use native.Mathlib.Omega.{arith}
use Prim.Native.Nat.{ℕ, ◌-◌, ◌*◌, ◌%◌, ◌<◌}
use mathlib.Core.Path.{◌≡◌}
use mathlib.Core.Logic.{inl, inr}
use zuspec_be_sw.Prelude.Tests.{ltb, if◌then◌else◌, Bool-cases}

pub wrap : (a d : ℕ) → 0 < d → a < 2 * d → a % d ≡ (if ltb a d then a else a - d)
wrap a d p h = elim (Bool-cases (ltb a d)) [
  | inl l ↦ ground (arith, mod-eq_of_lt {n = a} {m = d})
  | inr l ↦
      ground
        (arith, mod-eq-sub-mod {n = a} {m = d} (ground arith), mod-eq_of_lt {n = a - d} {m = d})
]
