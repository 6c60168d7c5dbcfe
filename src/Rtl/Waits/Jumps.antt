-- ===== src/Rtl/Waits/Jumps.antt =====
-- Where the jumps to a counter value land.
use native.Mathlib.Nat.{mul-le-mul_right, mod-lt, mod-eq_of_lt}
use zuspec_be_sw.Prelude.Mod.{wrap}
use zuspec_be_sw.Prelude.{
  ℕ, ◌+◌, ◌-◌, ◌*◌, ◌/◌, ◌%◌, ◌<◌, ◌≤◌, ◌≡◌, ◌≢◌, sym, ap, ◌∙◌, arith, if◌then◌else◌, ltb,
}
use zuspec_be_sw.Rtl.Waits.CExpr.{lit, word, eval}
use zuspec_be_sw.Rtl.Waits.Lower.{jump_for, jump_next}

-- The subtraction that wraps below 0 comes back when the modulus is added.
back_up :
    (w t c M : ℕ)
    → t < M
    → c < M
    → 2 * M ≤ w
    → (((t + (w - c)) % w + M) % w + (w - 1)) % w ≡ t + M - c - 1
back_up w t c M tM cM Mw =
    let pos : 0 < w = omega arith in
    let x1 = (t + (w - c)) % w in
    let one : x1 ≡ (if ltb (t + (w - c)) w then t + (w - c) else t + (w - c) - w) =
      wrap (t + (w - c)) w pos (omega arith) in
    let below : x1 < w = mod-lt (t + (w - c)) pos in
    let two : (x1 + M) % w ≡ (if ltb (x1 + M) w then x1 + M else x1 + M - w) =
      wrap (x1 + M) w pos (omega arith) in
    let mid : (x1 + M) % w ≡ t + M - c = ground arith in
    let three = wrap (t + M - c + (w - 1)) w pos (omega arith) in
    ap (λ z. (z + (w - 1)) % w) mid ∙ ground arith

-- The cycles that the jump waits.
abbrev pub cycles : ℕ → ℕ → ℕ → ℕ
cycles M t c = (t + M - c - 1) % M + 1

-- After as many cycles the counter has the value `t`, and not before.
cycles-at : (M t c : ℕ) → t < M → c < M → (c + cycles M t c) % M ≡ t
cycles-at M t c tM cM =
    let pos : 0 < M = omega arith in
    let first = wrap (t + M - c - 1) M pos (omega arith) in
    let less : (t + M - c - 1) % M < M = mod-lt (t + M - c - 1) pos in
    let last = wrap (c + cycles M t c) M pos (omega arith) in ground arith

cycles-least : (M t c e : ℕ) → t < M → c < M → 0 < e → e < cycles M t c → (c + e) % M ≢ t
cycles-least M t c e tM cM pe le same =
    let pos : 0 < M = omega arith in
    let first = wrap (t + M - c - 1) M pos (omega arith) in
    let less : (t + M - c - 1) % M < M = mod-lt (t + M - c - 1) pos in
    let last = wrap (c + e) M pos (omega arith) in ground arith

-- The value of the expression, at any word.
jump_value :
    (w t now M P : ℕ)
    → 0 < P
    → t < M
    → now < w
    → 2 * M ≤ w
    → M * P < w
    → (((((t % w + (w - ((now % w) / (P % w)) % (M % w))) % w + M % w) % w + (w - 1 % w))
              % w
              % (M % w)
            + 1 % w)
          % w
          * (P % w))
        % w
      ≡ cycles M t ((now / P) % M) * P
jump_value w t now M P pP tM nw Mw fits =
    let pM : 0 < M = omega arith in
    let once : 1 * P ≤ M * P = mul-le-mul_right P pM in
    let Pw : P < w = omega arith in
    let et : t % w ≡ t = mod-eq_of_lt (omega arith) in
    let en : now % w ≡ now = mod-eq_of_lt nw in
    let eP : P % w ≡ P = mod-eq_of_lt Pw in
    let eM : M % w ≡ M = mod-eq_of_lt (omega arith) in
    let e1 : 1 % w ≡ 1 = mod-eq_of_lt (omega arith) in
    let c = (now / P) % M in
    let cM : c < M = mod-lt (now / P) pM in
    let inner = back_up w t c M tM cM Mw in
    let d = cycles M t c in
    let less : (t + M - c - 1) % M < M = mod-lt (t + M - c - 1) pM in
    let small : d % w ≡ d = mod-eq_of_lt (omega arith) in
    let most : d * P ≤ M * P = mul-le-mul_right P (omega arith) in
    let bounded : d * P < w = omega arith in
    let product : (d * P) % w ≡ d * P = mod-eq_of_lt bounded in
    rw (et, en, eP, eM, e1, inner, small, product)

-- `await counter.wait_for(t)` adds a delta to the tick, of 1 to `M` cycles, after which the counter
-- has the value `t`, and before which it does not have it. The counter is what the C code takes it
-- for, the number of clock periods modulo `M`, and nothing overflows.
pub jump_for-lands :
    (fields : ℕ → ℕ) (now t M P : ℕ)
    → 0 < P
    → t < M
    → now < word
    → 2 * M ≤ word
    → M * P < word
    → (d : ℕ) × ((eval fields now (jump_for (lit t) M P) ≡ d * P)
        × ((0 < d)
            × ((d ≤ M)
                × ((((now / P) % M + d) % M ≡ t)
                    × ((e : ℕ) → 0 < e → e < d → ((now / P) % M + e) % M ≢ t)))))
unfolding eval jump_for
jump_for-lands fields now t M P pP tM nw Mw fits =
    let c = (now / P) % M in
    let pM : 0 < M = omega arith in
    let cM : c < M = mod-lt (now / P) pM in
    let less : (t + M - c - 1) % M < M = mod-lt (t + M - c - 1) pM in
    (
      cycles M t c,
      (
        jump_value word t now M P pP tM nw Mw fits,
        (
          omega arith,
          (omega arith, (cycles-at M t c tM cM, λ e pe le. cycles-least M t c e tM cM pe le)),
        ),
      ),
    )

next_value :
    (w now M P : ℕ)
    → 0 < P
    → 0 < M
    → now < w
    → 2 * M ≤ w
    → M * P < w
    → ((M % w + (w - ((now % w) / (P % w)) % (M % w))) % w * (P % w)) % w
      ≡ cycles M 0 ((now / P) % M) * P
next_value w now M P pP pM nw Mw fits =
    let once : 1 * P ≤ M * P = mul-le-mul_right P pM in
    let en : now % w ≡ now = mod-eq_of_lt nw in
    let eP : P % w ≡ P = mod-eq_of_lt (omega arith) in
    let eM : M % w ≡ M = mod-eq_of_lt (omega arith) in
    let c = (now / P) % M in
    let cM : c < M = mod-lt (now / P) pM in
    let one = wrap (M + (w - c)) w (omega arith) (omega arith) in
    let two : (0 + M - c - 1) % M ≡ 0 + M - c - 1 = mod-eq_of_lt (omega arith) in
    let inner : (M + (w - c)) % w ≡ cycles M 0 c = ground arith in
    let most : cycles M 0 c * P ≤ M * P = mul-le-mul_right P (omega arith) in
    let product : (cycles M 0 c * P) % w ≡ cycles M 0 c * P = mod-eq_of_lt (omega arith) in
    rw (en, eP, eM, inner, product)

-- `await counter.wait_next()` waits as long as `await counter.wait_for(0)`.
pub jump_next-jump_for :
    (fields : ℕ → ℕ) (now M P : ℕ)
    → 0 < P
    → 0 < M
    → now < word
    → 2 * M ≤ word
    → M * P < word
    → eval fields now (jump_next M P) ≡ eval fields now (jump_for (lit 0) M P)
unfolding eval jump_for jump_next
jump_next-jump_for fields now M P pP pM nw Mw fits =
    next_value word now M P pP pM nw Mw fits ∙ sym (jump_value word 0 now M P pP pM nw Mw fits)
