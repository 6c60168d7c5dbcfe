-- ===== src/Prelude/Masks.antt =====
-- A word that is put together from two under a mask.
use Prim.Native.Nat.{
  ℕ, zero, suc, ◌+◌, ◌-◌, ◌*◌, ◌/◌, ◌%◌, ◌^◌, ◌≤◌, ◌<◌, min, max, bit_and, bit_or, digits,
  bit_or-bitwise,
}
use mathlib.Core.Path.{◌≡◌, refl, sym, ap, ◌∙◌}
use native.Mathlib.Nat.{pow-suc, pow-le-pow_right, mul-lt-mul_of_pos_right, div-eq_of_lt}
use native.Mathlib.Omega.{arith}
use zuspec_be_sw.Prelude.Bits.{
  bit_and-halves, bit_and-zero, bit_and-shifted, zero-bit_and, two-pow-pos,
}

-- The digit recursion of `bit_or` with any fuel that covers the first number.
abbrev any_digits : ℕ → ℕ → ℕ → ℕ
any_digits = digits (λ b. b) max

fuel_irrelevant_or : (k l : ℕ) (x y : ℕ) → x ≤ k → x ≤ l → any_digits k x y ≡ any_digits l x y
fuel_irrelevant_or (suc k) (suc l) (suc x) y p q =
    omega (arith, fuel_irrelevant_or k l (suc x / 2) (y / 2) (omega arith) (omega arith))
fuel_irrelevant_or (suc k) (suc l) zero y p q = refl
fuel_irrelevant_or (suc k) zero zero y p q = refl
fuel_irrelevant_or (suc k) zero (suc x) y p q = absurd (omega arith)
fuel_irrelevant_or zero (suc l) zero y p q = refl
fuel_irrelevant_or zero (suc l) (suc x) y p q = absurd (omega arith)
fuel_irrelevant_or zero zero x y p q = refl

zero-bit_or : (y : ℕ) → bit_or 0 y ≡ y
zero-bit_or y = bit_or-bitwise 0 y

bit_or-halves : (a b : ℕ) → bit_or a b ≡ 2 * bit_or (a / 2) (b / 2) + max (a % 2) (b % 2)
bit_or-halves zero b = omega (arith, zero-bit_or b, zero-bit_or (b / 2))
bit_or-halves (suc a) b = omega (
  arith,
  bit_or-bitwise (suc a) b,
  bit_or-bitwise (suc a / 2) (b / 2),
  fuel_irrelevant_or a (suc a / 2) (suc a / 2) (b / 2) (omega arith) (omega arith),
)

-- `(x & ~m) | (y & m)` in `n` bits.
abbrev pub merge : ℕ → ℕ → ℕ → ℕ → ℕ
merge n m x y = bit_or (bit_and x (2 ^ n - 1 - m)) (bit_and y m)

-- The half and the lowest digit of a common part.
and_parts :
    (a b : ℕ)
    → (bit_and a b / 2 ≡ bit_and (a / 2) (b / 2)) × (bit_and a b % 2 ≡ min (a % 2) (b % 2))
and_parts a b = let h = bit_and-halves a b in (omega arith, omega arith)

complement_halves :
    (n m : ℕ)
    → m < 2 ^ suc n
    → ((2 ^ suc n - 1 - m) / 2 ≡ 2 ^ n - 1 - m / 2) × ((2 ^ suc n - 1 - m) % 2 ≡ 1 - m % 2)
complement_halves n m h =
    let double = pow-suc 2 n in let pos = two-pow-pos n in (omega arith, omega arith)

merge-halves :
    (n m x y : ℕ)
    → m < 2 ^ suc n
    → merge (suc n) m x y
      ≡ 2 * merge n (m / 2) (x / 2) (y / 2) + max (min (x % 2) (1 - m % 2)) (min (y % 2) (m % 2))
merge-halves n m x y h =
    let c = 2 ^ suc n - 1 - m in
    let c_parts = complement_halves n m h in
    let left = and_parts x c in
    let right = and_parts y m in
    let left_half : bit_and x c / 2 ≡ bit_and (x / 2) (2 ^ n - 1 - m / 2) =
      left.0 ∙ ap (bit_and (x / 2)) c_parts.0 in
    let left_digit : bit_and x c % 2 ≡ min (x % 2) (1 - m % 2) =
      left.1 ∙ ap (min (x % 2)) c_parts.1 in
    bit_or-halves (bit_and x c) (bit_and y m) ∙ (rw (left_half, left_digit, right.0, right.1) refl)

merge_parts :
    (n m x y : ℕ)
    → m < 2 ^ suc n
    → (merge (suc n) m x y / 2 ≡ merge n (m / 2) (x / 2) (y / 2))
      × (merge (suc n) m x y % 2 ≡ max (min (x % 2) (1 - m % 2)) (min (y % 2) (m % 2)))
merge_parts n m x y h = let e = merge-halves n m x y h in (omega arith, omega arith)

half_below : (n m : ℕ) → m < 2 ^ suc n → m / 2 < 2 ^ n
half_below n m h = omega (arith, pow-suc 2 n)

bit_and-none : (a m : ℕ) → m ≡ 0 → bit_and a m ≡ 0
bit_and-none a m h = ap (bit_and a) h ∙ bit_and-zero a

-- What was masked in is read back.
pub merge-bit_and : (n m x y : ℕ) → m < 2 ^ n → bit_and (merge n m x y) m ≡ bit_and y m
merge-bit_and zero m x y h =
    let z : m ≡ 0 = omega arith in bit_and-none (merge zero m x y) m z ∙ sym (bit_and-none y m z)
merge-bit_and (suc n) m x y h =
    let w = merge (suc n) m x y in
    let parts = merge_parts n m x y h in
    let half : bit_and (w / 2) (m / 2) ≡ bit_and (y / 2) (m / 2) =
      ap (λ z. bit_and z (m / 2)) parts.0
      ∙ merge-bit_and n (m / 2) (x / 2) (y / 2) (half_below n m h) in
    omega (arith, bit_and-halves w m, bit_and-halves y m, half, parts.1)

-- What another mask reads stays.
pub merge-bit_and_other :
    (n m k x y : ℕ)
    → m < 2 ^ n
    → k < 2 ^ n
    → bit_and m k ≡ 0
    → bit_and (merge n m x y) k ≡ bit_and x k
merge-bit_and_other zero m k x y h l d =
    let z : k ≡ 0 = omega arith in bit_and-none (merge zero m x y) k z ∙ sym (bit_and-none x k z)
merge-bit_and_other (suc n) m k x y h l d =
    let w = merge (suc n) m x y in
    let parts = merge_parts n m x y h in
    let disjoint = bit_and-halves m k in
    let half : bit_and (w / 2) (k / 2) ≡ bit_and (x / 2) (k / 2) =
      ap (λ z. bit_and z (k / 2)) parts.0
      ∙ merge-bit_and_other n (m / 2) (k / 2) (x / 2) (y / 2) (half_below n m h) (half_below n k l)
          (omega arith) in
    omega (arith, bit_and-halves w k, bit_and-halves x k, half, parts.1)

-- The result has no more bits.
pub merge-lt : (n m x y : ℕ) → m < 2 ^ n → merge n m x y < 2 ^ n
merge-lt zero m x y h =
    let z : m ≡ 0 = omega arith in
    let a = bit_and-none x (2 ^ 0 - 1 - m) (omega arith) in
    let b = bit_and-none y m z in rw (a, b) (omega arith)
merge-lt (suc n) m x y h =
    let parts = merge_parts n m x y h in
    let less = merge-lt n (m / 2) (x / 2) (y / 2) (half_below n m h) in omega (arith, pow-suc 2 n)

bit_and-comm_below : (n a b : ℕ) → a < 2 ^ n → bit_and a b ≡ bit_and b a
bit_and-comm_below zero a b h =
    let z : a ≡ 0 = omega arith in
    ap (λ x. bit_and x b) z ∙ (zero-bit_and b ∙ sym (bit_and-none b a z))
bit_and-comm_below (suc n) a b h = omega (
  arith,
  bit_and-halves a b,
  bit_and-halves b a,
  bit_and-comm_below n (a / 2) (b / 2) (half_below n a h),
)

pow_sum : (w l : ℕ) → 2 ^ (w + l) ≡ 2 ^ w * 2 ^ l
pow_sum zero l =
    let one : 2 ^ 0 * 2 ^ l ≡ 2 ^ l = omega arith in
    let same : zero + l ≡ l = omega arith in ap (λ x. 2 ^ x) same ∙ sym one
pow_sum (suc w) l =
    let same : suc w + l ≡ suc (w + l) = omega arith in
    ap (λ x. 2 ^ x) same ∙ grind (arith, pow-suc 2 (w + l), pow-suc 2 w, pow_sum w l)

-- A mask of `w` bits from bit `l` on.
pub mask_below : (w l n : ℕ) → w + l ≤ n → (2 ^ w - 1) * 2 ^ l < 2 ^ n
mask_below w l n h =
    let small : 2 ^ (w + l) ≤ 2 ^ n = pow-le-pow_right (omega arith) {i = w + l} {j = n} h in
    let less : (2 ^ w - 1) * 2 ^ l < 2 ^ w * 2 ^ l =
      mul-lt-mul_of_pos_right {m = 2 ^ w - 1} {n = 2 ^ w} (omega (arith, two-pow-pos w))
        (two-pow-pos l) in
    omega (arith, pow_sum w l)

pub value_below : (v w l n : ℕ) → v < 2 ^ w → w + l ≤ n → v * 2 ^ l < 2 ^ n
value_below v w l n p h =
    let small : 2 ^ (w + l) ≤ 2 ^ n = pow-le-pow_right (omega arith) {i = w + l} {j = n} h in
    let less : v * 2 ^ l < 2 ^ w * 2 ^ l =
      mul-lt-mul_of_pos_right {m = v} {n = 2 ^ w} p (two-pow-pos l) in
    omega (arith, pow_sum w l)

-- Masks of bits that do not overlap.
pub masks_apart :
    (w l k r : ℕ) → w + l ≤ r → bit_and ((2 ^ w - 1) * 2 ^ l) ((2 ^ k - 1) * 2 ^ r) ≡ 0
masks_apart w l k r h =
    let m = (2 ^ w - 1) * 2 ^ l in
    let none_left : m / 2 ^ r ≡ 0 = div-eq_of_lt {n = m} {m = 2 ^ r} (mask_below w l r h) in
    bit_and-shifted r m (2 ^ k - 1)
    ∙ ap (λ x. bit_and x (2 ^ k - 1) * 2 ^ r) none_left
    ∙ omega (arith, zero-bit_and (2 ^ k - 1), ap (λ x. x * 2 ^ r) (zero-bit_and (2 ^ k - 1)))

pub masks_apart_swapped :
    (w l k r : ℕ) → w + l ≤ r → bit_and ((2 ^ k - 1) * 2 ^ r) ((2 ^ w - 1) * 2 ^ l) ≡ 0
masks_apart_swapped w l k r h =
    let m = (2 ^ k - 1) * 2 ^ r in
    bit_and-comm_below (k + r) m ((2 ^ w - 1) * 2 ^ l) (mask_below k r (k + r) (omega arith))
    ∙ masks_apart w l k r h
