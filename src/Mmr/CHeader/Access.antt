-- ===== src/Mmr/CHeader/Access.antt =====
-- The fields that the macros of src/zuspec/be/sw/mmr/c_header.py read and write.
use Prim.Native.Nat.{bit_and}
use native.Mathlib.Nat.{mod-eq_of_lt, div-eq_of_lt, mul-div_cancel}
use zuspec_be_sw.Prelude.{
  ℕ, ◌+◌, ◌*◌, ◌/◌, ◌%◌, ◌^◌, ◌≤◌, ◌<◌, ◌≡◌, ◌⊎◌, ◌-◌, inl, inr, refl, sym, ap, ◌∙◌, true, false,
  ◌&&◌, leb, ltb, arith,
}
use zuspec_be_sw.Prelude.Bits.{bit_and-mask, bit_and-shifted, two-pow-pos}
use zuspec_be_sw.Prelude.Masks.{
  merge, merge-bit_and, merge-bit_and_other, merge-lt, mask_below, value_below, masks_apart,
  masks_apart_swapped,
}
use zuspec_be_sw.Mmr.CHeader.{
  FieldDef, RegDef, word, ones_mask, field_mask, field_macro, Bytes, rd, wr, rmw, read_field,
  write_field, clear_field,
}

-- The field lies in the word.
abbrev pub Fits : FieldDef → Type 0
Fits d = d.width + d.lsb ≤ 32

-- No bit belongs to both fields.
abbrev pub Apart : FieldDef → FieldDef → Type 0
Apart d e = (d.width + d.lsb ≤ e.lsb) ⊎ (e.width + e.lsb ≤ d.lsb)

mask_lem : (d : FieldDef) → Fits d → field_mask d ≡ ones_mask d.width * 2 ^ d.lsb
mask_lem d h =
    mod-eq_of_lt {n = ones_mask d.width * 2 ^ d.lsb} {m = word} (mask_below d.width d.lsb 32 h)

Apart-masks :
    (d e : FieldDef)
    → Apart d e
    → bit_and (ones_mask d.width * 2 ^ d.lsb) (ones_mask e.width * 2 ^ e.lsb) ≡ 0
Apart-masks d e (inl h) = masks_apart d.width d.lsb e.width e.lsb h
Apart-masks d e (inr h) = masks_apart_swapped e.width e.lsb d.width d.lsb h

-- The four bytes of a word.
bytes-word :
    (v : ℕ)
    → v % 256 % 256
        + (v / 2 ^ 8 % 256 % 256 * 2 ^ 8
            + (v / 2 ^ 16 % 256 % 256 * 2 ^ 16 + v / 2 ^ 24 % 256 % 256 * 2 ^ 24))
      ≡ v % word
bytes-word v = omega arith

wr-inside : (bytes : Bytes) (off v k : ℕ) → k < 4 → wr bytes off v (off + k) ≡ v / 2 ^ (8 * k) % 256
unfolding wr
wr-inside bytes off v k l =
    let inside : (leb off (off + k) && ltb (off + k) (off + 4)) ≡ true = ground arith in
    let back : off + k - off ≡ k = omega arith in rw (inside, back) refl

wr-outside : (bytes : Bytes) (off v o : ℕ) → (o < off) ⊎ (off + 4 ≤ o) → wr bytes off v o ≡ bytes o
unfolding wr
wr-outside bytes off v o p =
    let outside : (leb off o && ltb o (off + 4)) ≡ false = ground arith in rw outside refl

rd-wr : (bytes : Bytes) (off v : ℕ) → rd (wr bytes off v) off ≡ v % word
unfolding rd
rd-wr bytes off v =
    let a : wr bytes off v off ≡ v % 256 =
      ap (wr bytes off v) (omega arith) ∙ (wr-inside bytes off v 0 (omega arith) ∙ omega arith) in
    rw
      (
        a,
        wr-inside bytes off v 1 (omega arith),
        wr-inside bytes off v 2 (omega arith),
        wr-inside bytes off v 3 (omega arith),
      )
      (bytes-word v)

-- The word after a write.
written :
    (r : RegDef) (d : FieldDef) (bytes : Bytes) (v : ℕ)
    → Fits d
    → rd (write_field (field_macro r d) bytes v) r.offset
      ≡ merge 32 (ones_mask d.width * 2 ^ d.lsb) (rd bytes r.offset) ((v * 2 ^ d.lsb) % word)
unfolding write_field rmw
written r d bytes v h =
    let m = ones_mask d.width * 2 ^ d.lsb in
    let w = rd bytes r.offset in
    let y = (v * 2 ^ d.lsb) % word in
    let small : merge 32 m w y < word = merge-lt 32 m w y (mask_below d.width d.lsb 32 h) in
    let kept : merge 32 m w y % word ≡ merge 32 m w y =
      mod-eq_of_lt {n = merge 32 m w y} {m = word} small in
    let same : merge 32 (field_mask d) w y ≡ merge 32 m w y =
      ap (λ k. merge 32 k w y) (mask_lem d h) in
    rd-wr bytes r.offset (merge 32 (field_mask d) w y) ∙ (ap (λ k. k % word) same ∙ kept)

-- The words at other offsets: no byte belongs to both.
abbrev pub AreDisjoint : ℕ → ℕ → Type 0
AreDisjoint o p = (o + 4 ≤ p) ⊎ (p + 4 ≤ o)

other_word : (bytes : Bytes) (off v o : ℕ) → AreDisjoint o off → rd (wr bytes off v) o ≡ rd bytes o
unfolding rd
other_word bytes off v o p =
    rw
      (
        wr-outside bytes off v o (omega (arith, p)),
        wr-outside bytes off v (o + 1) (omega (arith, p)),
        wr-outside bytes off v (o + 2) (omega (arith, p)),
        wr-outside bytes off v (o + 3) (omega (arith, p)),
      )
      refl

write-other_word :
    (r s : RegDef) (d : FieldDef) (bytes : Bytes) (v : ℕ)
    → AreDisjoint s.offset r.offset
    → rd (write_field (field_macro r d) bytes v) s.offset ≡ rd bytes s.offset
unfolding write_field rmw
write-other_word r s d bytes v p =
    other_word bytes r.offset (merge 32 (field_mask d) (rd bytes r.offset) ((v * 2 ^ d.lsb) % word))
      s.offset p

-- What a mask reads from a word.
reads :
    (r : RegDef) (d : FieldDef) (bytes : Bytes)
    → Fits d
    → read_field (field_macro r d) bytes
      ≡ bit_and (rd bytes r.offset) (ones_mask d.width * 2 ^ d.lsb) / 2 ^ d.lsb
unfolding read_field
reads r d bytes h = ap (λ m. bit_and (rd bytes r.offset) m / 2 ^ d.lsb) (mask_lem d h)

-- A field that is written is read back, when the value fits it.
pub write_field-read_field :
    (r : RegDef) (d : FieldDef) (bytes : Bytes) (v : ℕ)
    → Fits d
    → v < 2 ^ d.width
    → read_field (field_macro r d) (write_field (field_macro r d) bytes v) ≡ v
write_field-read_field r d bytes v h lt =
    let m = ones_mask d.width * 2 ^ d.lsb in
    let y = (v * 2 ^ d.lsb) % word in
    let fits : y ≡ v * 2 ^ d.lsb =
      mod-eq_of_lt {n = v * 2 ^ d.lsb} {m = word} (value_below v d.width d.lsb 32 lt h) in
    let masked : bit_and (merge 32 m (rd bytes r.offset) y) m ≡ bit_and y m =
      merge-bit_and 32 m (rd bytes r.offset) y (mask_below d.width d.lsb 32 h) in
    let down : v * 2 ^ d.lsb / 2 ^ d.lsb ≡ v =
      mul-div_cancel v {n = 2 ^ d.lsb} (two-pow-pos d.lsb) in
    let low : bit_and v (ones_mask d.width) ≡ v =
      bit_and-mask d.width v ∙ mod-eq_of_lt {n = v} {m = 2 ^ d.width} lt in
    let value : bit_and y m ≡ v * 2 ^ d.lsb =
      ap (λ k. bit_and k m) fits
      ∙ (bit_and-shifted d.lsb (v * 2 ^ d.lsb) (ones_mask d.width)
          ∙ (ap (λ k. bit_and k (ones_mask d.width) * 2 ^ d.lsb) down
              ∙ ap (λ k. k * 2 ^ d.lsb) low)) in
    reads r d (write_field (field_macro r d) bytes v) h
    ∙ (ap (λ k. bit_and k m / 2 ^ d.lsb) (written r d bytes v h)
        ∙ (ap (λ k. k / 2 ^ d.lsb) (masked ∙ value) ∙ down))

-- The write of a field leaves the fields of its register that share no bit with it, and the registers
-- whose four bytes do not overlap with its own.
pub write_field-other :
    (r s : RegDef) (d e : FieldDef) (bytes : Bytes) (v : ℕ)
    → Fits d
    → Fits e
    → ((s.offset ≡ r.offset) × Apart d e) ⊎ AreDisjoint s.offset r.offset
    → read_field (field_macro s e) (write_field (field_macro r d) bytes v)
      ≡ read_field (field_macro s e) bytes
write_field-other r s d e bytes v h k p =
    let m = ones_mask e.width * 2 ^ e.lsb in
    let after = write_field (field_macro r d) bytes v in
    let through : bit_and (rd after s.offset) m ≡ bit_and (rd bytes s.offset) m = elim p [
      | inr far ↦ ap (λ x. bit_and x m) (write-other_word r s d bytes v far)
      | inl (here, apart) ↦
          ap (λ o. bit_and (rd after o) m) here
          ∙ (ap (λ x. bit_and x m) (written r d bytes v h)
              ∙ (merge-bit_and_other 32 (ones_mask d.width * 2 ^ d.lsb) m (rd bytes r.offset)
                    ((v * 2 ^ d.lsb) % word) (mask_below d.width d.lsb 32 h)
                    (mask_below e.width e.lsb 32 k) (Apart-masks d e apart)
                  ∙ ap (λ o. bit_and (rd bytes o) m) (sym here)))
    ] in
    reads s e after k ∙ (ap (λ x. x / 2 ^ e.lsb) through ∙ sym (reads s e bytes k))

-- The clear macro of a field writes 0 to the other fields of its register.
pub clear_field-other :
    (r : RegDef) (d e : FieldDef) (bytes : Bytes)
    → Fits d
    → Fits e
    → Apart d e
    → read_field (field_macro r e) (clear_field (field_macro r d) bytes) ≡ 0
unfolding clear_field
clear_field-other r d e bytes h k p =
    let m = ones_mask d.width * 2 ^ d.lsb in
    let n = ones_mask e.width * 2 ^ e.lsb in
    let stored : rd (clear_field (field_macro r d) bytes) r.offset ≡ m =
      rd-wr bytes r.offset (field_mask d) ∙ (ap (λ x. x % word) (mask_lem d h) ∙ mask_lem d h) in
    let nothing : 0 / 2 ^ e.lsb ≡ 0 = div-eq_of_lt {n = 0} {m = 2 ^ e.lsb} (two-pow-pos e.lsb) in
    reads r e (clear_field (field_macro r d) bytes) k
    ∙ (ap (λ x. bit_and x n / 2 ^ e.lsb) stored
        ∙ (ap (λ x. x / 2 ^ e.lsb) (Apart-masks d e p) ∙ nothing))
