-- ===== src/Prelude/Bits.antt =====
-- Masks and shifts of native numbers: `x & (2 ** w - 1)` and `x & (mask << l)`.
use Prim.Native.Nat.{
  ℕ, zero, suc, ◌+◌, ◌-◌, ◌*◌, ◌/◌, ◌%◌, ◌^◌, ◌≤◌, ◌<◌, min, bit_and, digits, bit_and-bitwise,
}
use mathlib.Core.Path.{◌≡◌, refl, ap, ◌∙◌}
use native.Mathlib.Nat.{
  pow-suc, div-add-mod, mul-add-mod_self_left, mod-eq_of_lt, mod-lt, div-div-eq-div-mul,
}
use native.Mathlib.Omega.{arith}

-- The digit recursion with any fuel that covers the first number.
abbrev common_digits : ℕ → ℕ → ℕ → ℕ
common_digits = digits (λ b. zero) min

fuel_irrelevant : (k l : ℕ) (x y : ℕ) → x ≤ k → x ≤ l → common_digits k x y ≡ common_digits l x y
fuel_irrelevant (suc k) (suc l) (suc x) y x≤k x≤l =
    omega (arith, fuel_irrelevant k l (suc x / 2) (y / 2) (omega arith) (omega arith))
fuel_irrelevant (suc k) (suc l) zero y x≤k x≤l = refl
fuel_irrelevant (suc k) zero zero y x≤k x≤l = refl
fuel_irrelevant (suc k) zero (suc x) y x≤k x≤l = absurd (omega arith)
fuel_irrelevant zero (suc l) zero y x≤k x≤l = refl
fuel_irrelevant zero (suc l) (suc x) y x≤k x≤l = absurd (omega arith)
fuel_irrelevant zero zero x y x≤k x≤l = refl

pub zero-bit_and : (y : ℕ) → bit_and 0 y ≡ 0
zero-bit_and y = bit_and-bitwise 0 y

-- The lowest digit and the rest.
pub bit_and-halves : (a b : ℕ) → bit_and a b ≡ 2 * bit_and (a / 2) (b / 2) + min (a % 2) (b % 2)
bit_and-halves zero b = omega (arith, zero-bit_and b, zero-bit_and (b / 2))
bit_and-halves (suc a) b = omega (
  arith,
  bit_and-bitwise (suc a) b,
  bit_and-bitwise (suc a / 2) (b / 2),
  fuel_irrelevant a (suc a / 2) (suc a / 2) (b / 2) (omega arith) (omega arith),
)

bit_and-zero_below : (n a : ℕ) → a ≤ n → bit_and a 0 ≡ 0
bit_and-zero_below zero zero h = refl
bit_and-zero_below zero (suc a) h = absurd (omega arith)
bit_and-zero_below (suc n) a h =
    omega (arith, bit_and-halves a 0, bit_and-zero_below n (a / 2) (omega arith))

pub bit_and-zero : (a : ℕ) → bit_and a 0 ≡ 0
bit_and-zero a = bit_and-zero_below a a (omega arith)

pub two-pow-pos : (w : ℕ) → 0 < 2 ^ w
two-pow-pos zero = omega arith
two-pow-pos (suc w) = omega (arith, two-pow-pos w, pow-suc 2 w)

mod-double : (y m : ℕ) → 0 < m → y % (2 * m) ≡ 2 * ((y / 2) % m) + y % 2
mod-double y m h =
    let r = 2 * ((y / 2) % m) + y % 2 in
    let k = (y / 2) / m in
    let split : y ≡ (2 * m) * k + r = grind (arith, div-add-mod (y / 2) m) in
    let small : r < 2 * m = omega (arith, mod-lt (y / 2) h) in
    ap (λ z. z % (2 * m)) split ∙ (mul-add-mod_self_left (2 * m) k r ∙ mod-eq_of_lt small)

-- The low `w` bits.
pub bit_and-mask : (w y : ℕ) → bit_and y (2 ^ w - 1) ≡ y % 2 ^ w
bit_and-mask zero y = omega (arith, bit_and-zero y)
bit_and-mask (suc w) y =
    let double : 2 ^ suc w ≡ 2 * 2 ^ w = omega (arith, pow-suc 2 w) in
    let pos = two-pow-pos w in
    let half : (2 ^ suc w - 1) / 2 ≡ 2 ^ w - 1 = omega arith in
    let odd : (2 ^ suc w - 1) % 2 ≡ 1 = omega arith in
    bit_and-halves y (2 ^ suc w - 1)
    ∙ (omega (
      arith,
      ap (bit_and (y / 2)) half,
      bit_and-mask w (y / 2),
      mod-double y (2 ^ w) pos,
      ap (λ z. y % z) double,
    ))

-- A mask that is shifted up masks what is shifted down.
pub bit_and-shifted : (l x mask : ℕ) → bit_and x (mask * 2 ^ l) ≡ bit_and (x / 2 ^ l) mask * 2 ^ l
bit_and-shifted zero x mask =
    let one : mask * 2 ^ 0 ≡ mask = omega arith in
    let same : x / 2 ^ 0 ≡ x = omega arith in
    omega (arith, ap (bit_and x) one, ap (λ z. bit_and z mask) same)
bit_and-shifted (suc l) x mask =
    let twice : mask * 2 ^ suc l ≡ 2 * (mask * 2 ^ l) = grind (arith, pow-suc 2 l) in
    let even : (2 * (mask * 2 ^ l)) % 2 ≡ 0 = omega arith in
    let half : (2 * (mask * 2 ^ l)) / 2 ≡ mask * 2 ^ l = omega arith in
    let down : x / 2 / 2 ^ l ≡ x / 2 ^ suc l =
      div-div-eq-div-mul x 2 (2 ^ l) ∙ ap (λ z. x / z) (omega (arith, pow-suc 2 l)) in
    let step : bit_and x (2 * (mask * 2 ^ l)) ≡ 2 * bit_and (x / 2) (mask * 2 ^ l) =
      omega (arith, bit_and-halves x (2 * (mask * 2 ^ l)), ap (bit_and (x / 2)) half) in
    let out = bit_and (x / 2 / 2 ^ l) mask in
    let scaled : 2 * (out * 2 ^ l) ≡ out * 2 ^ suc l = grind (arith, pow-suc 2 l) in
    ap (bit_and x) twice
    ∙ (step
        ∙ (ap (λ z. 2 * z) (bit_and-shifted l (x / 2) mask)
            ∙ (scaled ∙ ap (λ z. bit_and z mask * 2 ^ suc l) down)))
