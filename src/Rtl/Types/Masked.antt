-- ===== src/Rtl/Types/Masked.antt =====
-- The integers that the C types of src/zuspec/be/sw/passes/rtl/type_mapper.py hold.
use native.Mathlib.Nat.{mod-eq_of_lt}
use zuspec_be_sw.Prelude.{
  ℕ, suc, ◌%◌, ◌^◌, ◌≤◌, ◌<◌, ◌≡◌, inl, inr, refl, sym, ap, subst, Bool, true, false, some, leb,
  if◌then◌else◌, arith, Bool-cases,
}
use zuspec_be_sw.Prelude.Bits.{bit_and-mask}
use zuspec_be_sw.Rtl.Types.{
  c_int, container, map_rtl_int_type, is_exact, mask_of, map_type_with_mask, read_masked, next_size,
  map_int,
}

exact_container : (bits : ℕ) → is_exact bits ≡ true → container bits ≡ bits
exact_container bits h = ground arith

next_size_lem :
    (bits : ℕ) (signed : Bool) → bits ≤ 64 → next_size bits signed ≡ c_int (container bits) signed
next_size_lem bits signed h = elim (Bool-cases (leb bits 8)) [
  | inl a ↦ rw a refl
  | inr a ↦ elim (Bool-cases (leb bits 16)) [
    | inl b ↦ rw (a, b) refl
    | inr b ↦ elim (Bool-cases (leb bits 32)) [
      | inl c ↦ rw (a, b, c) refl
      | inr c ↦ let last : leb bits 64 ≡ true = ground arith in rw (a, b, c, last) refl
    ]
  ]
]

fits_container : (bits : ℕ) → bits ≤ 64 → bits ≤ container bits
fits_container bits h = ground arith

read_lem : (bits v : ℕ) → v < 2 ^ container bits → read_masked (mask_of bits) v ≡ v % 2 ^ bits
read_lem bits v h = elim (Bool-cases (is_exact bits)) [
  | inl e ↦
      let small : v < 2 ^ bits = subst (λ k. v < 2 ^ k) (exact_container bits e) h in
      rw e (sym (mod-eq_of_lt {n = v} {m = 2 ^ bits} small))
  | inr e ↦ rw e (bit_and-mask bits v)
]

agreed :
    (bits : ℕ) (signed : Bool)
    → bits ≤ 64
    → (if is_exact bits then c_int bits signed else next_size bits signed)
      ≡ c_int (container bits) signed
agreed bits signed h = elim (Bool-cases (is_exact bits)) [
  | inl e ↦ rw e (ap (λ n. c_int n signed) (sym (exact_container bits e)))
  | inr e ↦ rw e (next_size_lem bits signed h)
]

mappers_agree :
    (bits : ℕ) (signed : Bool)
    → suc bits ≤ 64
    → map_int (some (suc bits)) signed ≡ map_rtl_int_type (some (suc bits)) signed
unfolding map_int map_rtl_int_type
mappers_agree bits true h = agreed (suc bits) true h
mappers_agree bits false h = agreed (suc bits) false h

-- For 1 to 64 bits, the C type has room for them and is that of `TypeLowerPass`, and what is read of an
-- unsigned container through the mask is its value modulo 2 to the number of bits.
pub map_type_with_mask-map_int :
    (bits v : ℕ) (signed : Bool)
    → suc bits ≤ 64
    → v < 2 ^ (map_type_with_mask (some (suc bits)) signed).0.size
    → (suc bits ≤ (map_type_with_mask (some (suc bits)) signed).0.size)
      × (map_int (some (suc bits)) signed ≡ (map_type_with_mask (some (suc bits)) signed).0)
      × (read_masked (map_type_with_mask (some (suc bits)) signed).1 v ≡ v % 2 ^ suc bits)
unfolding map_type_with_mask
map_type_with_mask-map_int bits v true h lt =
    (fits_container (suc bits) h, mappers_agree bits true h, read_lem (suc bits) v lt)
map_type_with_mask-map_int bits v false h lt =
    (fits_container (suc bits) h, mappers_agree bits false h, read_lem (suc bits) v lt)
