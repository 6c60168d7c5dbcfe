-- ===== src/Prelude/Int.antt =====
-- Signed integers over the native numbers. `negsuc n` is -(n + 1).
use Prim.Native.Nat.{ℕ, suc, ◌+◌, ◌-◌, ◌%◌, ◌^◌}
use mathlib.Core.Bool.{Bool, true, false}
use zuspec_be_sw.Prelude.Tests.{ltb, ◌==◌}

pub data ℤ : Type 0 where
  pos : ℕ → ℤ
  negsuc : ℕ → ℤ

abbrev pub ltb_ℤ : ℤ → ℤ → Bool
ltb_ℤ (pos a) (pos b) = ltb a b
ltb_ℤ (pos a) (negsuc b) = false
ltb_ℤ (negsuc a) (pos b) = true
ltb_ℤ (negsuc a) (negsuc b) = ltb b a

abbrev pub eq_ℤ : ℤ → ℤ → Bool
eq_ℤ (pos a) (pos b) = a == b
eq_ℤ (negsuc a) (negsuc b) = a == b
eq_ℤ _ _ = false

-- `a - b` for `b ≤ a`.
abbrev pub distance : ℤ → ℤ → ℕ
distance (pos a) (pos b) = a - b
distance (pos a) (negsuc b) = a + suc b
distance (negsuc a) (negsuc b) = b - a
distance (negsuc a) (pos b) = 0

-- `a & (2 ** w - 1)` of an unbounded two's complement integer.
abbrev pub low_bits : ℤ → ℕ → ℕ
low_bits (pos a) w = a % 2 ^ w
low_bits (negsuc a) w = 2 ^ w - 1 - a % 2 ^ w
