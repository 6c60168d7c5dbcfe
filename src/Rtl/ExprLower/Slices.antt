-- ===== src/Rtl/ExprLower/Slices.antt =====
-- The bit slices of src/zuspec/be/sw/passes/rtl/expr_lower.py: the masks give the bits.
use native.Mathlib.Nat.{pow-le-pow_right}
use zuspec_be_sw.Prelude.{
  ℕ, suc, ◌-◌, ◌*◌, ◌/◌, ◌%◌, ◌^◌, ◌≤◌, ◌<◌, ◌≡◌, inl, inr, refl, ap, ◌∙◌, Bool, true, false,
  Option, none, some, ◌==◌, ltb, leb, if◌then◌else◌, arith, Bool-cases, ltb→lt, lt→ltb,
}
use zuspec_be_sw.Prelude.Bits.{bit_and-mask, two-pow-pos}
use zuspec_be_sw.Rtl.ExprLower.CCode.{
  Memory, guard, int_limit, CExpr, lit, binary, shr, add, sub, c_eval,
}
use zuspec_be_sw.Rtl.ExprLower.Texts.{
  mask_text, constant_slice, computed_slice, bit_text, ones_text,
}
use zuspec_be_sw.Rtl.ExprLower.Source.{slice_bits}

pub guarded : (b : Bool) (x v : ℕ) → guard b x ≡ some v → (b ≡ true) × (x ≡ v)
guarded true x v h = (refl, ground arith)
guarded false x v h = absurd (ground arith)

pub chosen :
    (b : Bool) (o : Option ℕ) (v : ℕ) → (if b then o else none) ≡ some v → (b ≡ true) × (o ≡ some v)
chosen true o v h = (refl, h)
chosen false o v h = absurd (ground arith)

pow_below : (n : ℕ) → n < 31 → 2 ^ n < int_limit
pow_below n h =
    let small : 2 ^ n ≤ 2 ^ 30 = pow-le-pow_right (omega arith) {i = n} {j = 30} (omega arith) in
    omega arith

module _ (m : Memory) where
  pub mask_value :
      (c : CExpr) (n x : ℕ) → c_eval m c ≡ some x → c_eval m (mask_text c n) ≡ some (x % 2 ^ n)
  unfolding c_eval
  mask_value c n x h = rw h (ap some (bit_and-mask n x))

  pub shift_value :
      (c d : CExpr) (n x : ℕ)
      → c_eval m c ≡ some x
      → c_eval m d ≡ some n
      → ltb n 32 ≡ true
      → c_eval m (binary shr c d) ≡ some (x / 2 ^ n)
  unfolding c_eval
  shift_value c d n x h k l = rw (h, k, l) refl

  pub constant_slice_value :
      (c : CExpr) (h l x : ℕ)
      → c_eval m c ≡ some x
      → leb l h ≡ true
      → ltb l 32 ≡ true
      → c_eval m (constant_slice c h l) ≡ some (slice_bits x h l)
  unfolding c_eval
  constant_slice_value c h l x e le lt = elim (Bool-cases (l == 0)) [
    | inl z ↦
        let zero_l : l ≡ 0 = ground arith in
        let in_order : ltb (suc h) l ≡ false = ground arith in
        let same : x % 2 ^ suc h ≡ slice_bits x h l = rw zero_l (
          let all : suc h - 0 ≡ suc h = omega arith in
          let whole : x ≡ x / 1 = omega arith in rw all (ap (λ y. y % 2 ^ suc h) whole)) in
        rw (in_order, z) (mask_value c (suc h) x e ∙ ap some same)
    | inr z ↦
        let in_order : ltb (suc h) l ≡ false = ground arith in
        rw (in_order, z)
          (mask_value (binary shr c (lit l)) (suc h - l) (x / 2 ^ l)
            (shift_value c (lit l) l x e refl lt))
  ]

  pub ones_value :
      (c : CExpr) (n : ℕ)
      → c_eval m c ≡ some n
      → ltb n 31 ≡ true
      → c_eval m (ones_text c) ≡ some (2 ^ n - 1)
  unfolding c_eval
  ones_value c n h l =
      let below = pow_below n (ltb→lt n 31 l) in
      let pos = two-pow-pos n in
      let fits : ltb (1 * 2 ^ n) int_limit ≡ true = lt→ltb _ _ (omega arith) in
      let one : 1 * 2 ^ n ≡ 2 ^ n = omega arith in
      let some_bits : leb 1 (1 * 2 ^ n) ≡ true = ground arith in
      let amount : ltb n 32 ≡ true = ground arith in
      rw (h, amount, fits, some_bits) (ap (λ y. some (y - 1)) one)

  pub computed_slice_value :
      (c hi lo : CExpr) (h l x : ℕ)
      → c_eval m c ≡ some x
      → c_eval m hi ≡ some h
      → c_eval m lo ≡ some l
      → leb l h ≡ true
      → ltb l 32 ≡ true
      → ltb (h - l) 30 ≡ true
      → c_eval m (computed_slice c hi lo) ≡ some (slice_bits x h l)
  unfolding c_eval
  computed_slice_value c hi lo h l x e eh el le lt width =
      let count : c_eval m (binary add (binary sub hi lo) (lit 1)) ≡ some (suc h - l) =
        rw (eh, el, le) (ground arith) in
      let few : ltb (suc h - l) 31 ≡ true = ground arith in
      rw
        (
          shift_value c lo l x e el lt,
          ones_value (binary add (binary sub hi lo) (lit 1)) (suc h - l) count few,
        )
        (ap some (bit_and-mask (suc h - l) (x / 2 ^ l)))

  pub bit_value :
      (c : CExpr) (n x : ℕ)
      → c_eval m c ≡ some x
      → ltb n 32 ≡ true
      → c_eval m (bit_text c n) ≡ some (slice_bits x n n)
  unfolding c_eval
  bit_value c n x e lt = elim (Bool-cases (n == 0)) [
    | inl z ↦
        let zero_n : n ≡ 0 = ground arith in
        let width : suc n - n ≡ 1 = omega arith in
        let same : x % 2 ^ 1 ≡ slice_bits x n n =
          rw (width, zero_n) (ap (λ y. y % 2) (omega arith)) in
        rw z (mask_value c 1 x e ∙ ap some same)
    | inr z ↦
        let width : suc n - n ≡ 1 = omega arith in
        rw (z, width)
          (mask_value (binary shr c (lit n)) 1 (x / 2 ^ n) (shift_value c (lit n) n x e refl lt))
  ]
