-- ===== src/Scenario/Constraint/Slices.antt =====
-- Constant bit slices: the value form `(x >> lo) & mask` and the masked comparison that replaces
-- `slice == const`, over a solver whose values stand for unsigned numbers.
use Prim.Native.Nat.{bit_and}
use mathlib.Core.Path.{ap₂}
use native.Mathlib.Nat.{
  pow-zero, pow-suc, pow-le-pow_right, mul-lt-mul_of_pos_right, eq_of_mul-eq-mul_right, mod-lt,
}
use zuspec_be_sw.Prelude.{
  ℕ, zero, suc, ◌+◌, ◌-◌, ◌*◌, ◌/◌, ◌%◌, ◌^◌, ◌≤◌, ◌<◌, ◌≡◌, ◌≢◌, sym, ap, ◌∙◌, true, false, arith,
  ◌==◌, ==_refl, Bool-cases, inl, inr,
}
use zuspec_be_sw.Prelude.Int.{pos}
use zuspec_be_sw.Prelude.Bits.{bit_and-mask, bit_and-shifted, two-pow-pos}
use zuspec_be_sw.Scenario.Constraint.Builder.{dvs_band, dvs_rshift, dvs_eq}
use zuspec_be_sw.Scenario.Constraint.Emitter.{bounds, mask_of}
use zuspec_be_sw.Scenario.Constraint.Solver.{Solver}
use zuspec_be_sw.Scenario.Constraint.Meaning.{masked_value, extract_value}

-- The documented reading of `DVS_BIN_BAND`, `DVS_BIN_RSHIFT`, `DVS_BIN_EQ` and of literals that fit
-- a positive `LL` literal, in an unsigned context.
pub record Unsigned (s : Solver) : Type 0 where
  pub number : Solver.Value s → ℕ
  pub const_law : (n : ℕ) → n < 2 ^ 63 → number (s.const_value (pos n) 0) ≡ n
  pub band_law :
      (a b : Solver.Value s) → number (s.binary_value dvs_band a b) ≡ bit_and (number a) (number b)
  pub rshift_law :
      (a b : Solver.Value s) → number (s.binary_value dvs_rshift a b) ≡ number a / 2 ^ number b
  pub eq_law : (a b : Solver.Value s) → s.holds (s.binary_value dvs_eq a b) ≡ (number a == number b)

-- Bits `lo` to `hi` of a number.
abbrev pub slice_of : ℕ → ℕ → ℕ → ℕ
slice_of x hi lo = (x / 2 ^ lo) % 2 ^ (hi - lo + 1)

pow-add : (a b : ℕ) → 2 ^ (a + b) ≡ 2 ^ a * 2 ^ b
pow-add a zero = let e : a + 0 ≡ a = omega arith in ap (λ z. 2 ^ z) e ∙ omega (arith, pow-zero 2)
pow-add a (suc b) =
    let e : a + suc b ≡ suc (a + b) = omega arith in
    let step : 2 ^ suc (a + b) ≡ 2 * 2 ^ (a + b) = omega (arith, pow-suc 2 (a + b)) in
    let right : 2 ^ a * 2 ^ suc b ≡ 2 * (2 ^ a * 2 ^ b) = grind (arith, pow-suc 2 b) in
    ap (λ z. 2 ^ z) e ∙ (step ∙ (ap (λ z. 2 * z) (pow-add a b) ∙ sym right))

-- What is below `2 ^ w`, shifted up by `lo`, is below `2 ^ n` if `w + lo ≤ n`.
shifted_fits : (a w lo n : ℕ) → a < 2 ^ w → w + lo ≤ n → a * 2 ^ lo < 2 ^ n
shifted_fits a w lo n h k =
    let top : 2 ^ (w + lo) ≤ 2 ^ n = pow-le-pow_right {n = 2} (omega arith) k in
    let pos = two-pow-pos lo in
    let split = pow-add w lo in
    let strict : a * 2 ^ lo < 2 ^ w * 2 ^ lo = mul-lt-mul_of_pos_right h pos in
    omega (arith, top, split, strict)

scale_eq : (a b m : ℕ) → 0 < m → ((a * m) == (b * m)) ≡ (a == b)
scale_eq a b m h = elim (Bool-cases (a == b)) [
  | inl e ↦ let same : a ≡ b = ground arith in rw same (ground arith)
  | inr e ↦
      let other : a * m ≢ b * m =
        λ p. let same : a ≡ b = eq_of_mul-eq-mul_right m h a b p in absurd (ground arith) in
      ground arith
]

module _ (s : Solver) (u : Unsigned s) where
  open u use {number, const_law, band_law, rshift_law, eq_law}

  literal : (n w : ℕ) → w ≤ 63 → n < 2 ^ w → number (s.const_value (pos n) 0) ≡ n
  literal n w h k =
      const_law n (let top = pow-le-pow_right {n = 2} (omega arith) h in omega (arith, top))

  -- The value form of a constant slice is the slice.
  pub number-extract :
      (x : Solver.Value s) (hi lo : ℕ)
      → lo ≤ hi
      → hi < 63
      → number (extract_value s x (bounds (pos hi) (pos lo))) ≡ slice_of (number x) hi lo
  number-extract x hi zero h k =
      let w : hi - 0 + 1 ≤ 63 = omega arith in
      let mask =
        literal (mask_of (hi - 0 + 1)) (hi - 0 + 1) w (omega (arith, two-pow-pos (hi - 0 + 1))) in
      let same : number x / 2 ^ 0 ≡ number x = omega arith in
      band_law x (s.const_value (pos (mask_of (hi - 0 + 1))) 0)
      ∙ (ap (bit_and (number x)) mask
          ∙ (bit_and-mask (hi - 0 + 1) (number x) ∙ ap (λ z. z % 2 ^ (hi - 0 + 1)) (sym same)))
  number-extract x hi (suc lo) h k =
      let w : hi - suc lo + 1 ≤ 63 = omega arith in
      let mask =
        literal (mask_of (hi - suc lo + 1)) (hi - suc lo + 1) w
          (omega (arith, two-pow-pos (hi - suc lo + 1))) in
      let shift = const_law (suc lo) (omega arith) in
      let down = rshift_law x (s.const_value (pos (suc lo)) 0) ∙ ap (λ z. number x / 2 ^ z) shift in
      band_law (s.binary_value dvs_rshift x (s.const_value (pos (suc lo)) 0))
        (s.const_value (pos (mask_of (hi - suc lo + 1))) 0)
      ∙ (ap₂ bit_and down mask ∙ bit_and-mask (hi - suc lo + 1) (number x / 2 ^ suc lo))

  pub masked-iff-slice :
      (x : Solver.Value s) (hi lo c : ℕ)
      → lo ≤ hi
      → hi < 63
      → s.holds (masked_value s dvs_eq x (pos hi) (pos lo) (pos c))
        ≡ (slice_of (number x) hi lo == (c % 2 ^ (hi - lo + 1)))
  masked-iff-slice x hi lo c h k =
      let w = hi - lo + 1 in
      let mask = mask_of w * 2 ^ lo in
      let cval = c % 2 ^ w * 2 ^ lo in
      let pos_w = two-pow-pos w in
      let fits : w + lo ≤ 63 = omega arith in
      let mask_lit =
        const_law mask (shifted_fits (mask_of w) w lo 63 (omega (arith, pos_w)) fits) in
      let c_lit = const_law cval (shifted_fits (c % 2 ^ w) w lo 63 (mod-lt c pos_w) fits) in
      let left : number (s.binary_value dvs_band x (s.const_value (pos mask) 0))
          ≡ slice_of (number x) hi lo * 2 ^ lo =
        band_law x (s.const_value (pos mask) 0)
        ∙ (ap (bit_and (number x)) mask_lit
            ∙ (bit_and-shifted lo (number x) (mask_of w)
                ∙ ap (λ z. z * 2 ^ lo) (bit_and-mask w (number x / 2 ^ lo)))) in
      eq_law (s.binary_value dvs_band x (s.const_value (pos mask) 0)) (s.const_value (pos cval) 0)
      ∙ (ap₂ ◌==◌ left c_lit
          ∙ scale_eq (slice_of (number x) hi lo) (c % 2 ^ w) (2 ^ lo) (two-pow-pos lo))

  -- The comparison of the slice as a value.
  plain-iff-slice :
      (x : Solver.Value s) (hi lo c : ℕ)
      → lo ≤ hi
      → hi < 63
      → c < 2 ^ 63
      → s.holds (
          s.binary_value dvs_eq
            (extract_value s x (bounds (pos hi) (pos lo)))
            (s.const_value (pos c) 0))
        ≡ (slice_of (number x) hi lo == c)
  plain-iff-slice x hi lo c h k f =
      eq_law (extract_value s x (bounds (pos hi) (pos lo))) (s.const_value (pos c) 0)
      ∙ ap₂ ◌==◌ (number-extract x hi lo h k) (const_law c f)

  -- For a constant that does not fit the slice the two differ: the masked comparison holds wherever
  -- the slice equals the low bits of the constant, and the comparison of the slice as a value never
  -- holds.
  pub masked_truncates :
      (x : Solver.Value s) (hi lo c : ℕ)
      → lo ≤ hi
      → hi < 63
      → 2 ^ (hi - lo + 1) ≤ c
      → c < 2 ^ 63
      → slice_of (number x) hi lo ≡ c % 2 ^ (hi - lo + 1)
      → (s.holds (masked_value s dvs_eq x (pos hi) (pos lo) (pos c)) ≡ true)
        × (s.holds (
              s.binary_value dvs_eq
                (extract_value s x (bounds (pos hi) (pos lo)))
                (s.const_value (pos c) 0))
            ≡ false)
  masked_truncates x hi lo c h k big f e =
      let small = mod-lt c (two-pow-pos (hi - lo + 1)) in
      let ne : slice_of (number x) hi lo ≢ c = λ p. absurd (omega (arith, small, e, p)) in
      (
        masked-iff-slice x hi lo c h k ∙ rw e (==_refl (c % 2 ^ (hi - lo + 1))),
        plain-iff-slice x hi lo c h k f ∙ ground arith,
      )
