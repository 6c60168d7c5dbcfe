-- ===== src/Rtl/Waits/Tests.antt =====
-- A counter of ten cycles on a clock of 1000 picoseconds, and the theorems at it.
use zuspec_be_sw.Prelude.{ℕ, ◌+◌, ◌*◌, ◌/◌, ◌%◌, ◌<◌, ◌≤◌, ◌≡◌, ◌≢◌, arith}
use zuspec_be_sw.Rtl.Waits.CExpr.{lit, eval}
use zuspec_be_sw.Rtl.Waits.Lower.{jump_for}
use zuspec_be_sw.Rtl.Waits.Jumps.{jump_for-lands}

jump_for-lands_example :
    (d : ℕ) × ((eval (λ _. 0) 7300 (jump_for (lit 3) 10 1000) ≡ d * 1000)
      × ((0 < d)
          × ((d ≤ 10)
              × (((7300 / 1000) % 10 + d) % 10 ≡ 3
                  × ((e : ℕ) → 0 < e → e < d → ((7300 / 1000) % 10 + e) % 10 ≢ 3)))))
jump_for-lands_example =
    jump_for-lands (λ _. 0) 7300 3 10 1000 (omega arith) (omega arith) (omega arith) (omega arith)
      (omega arith)
