-- ===== src/Rtl/Types.antt =====
-- src/zuspec/be/sw/passes/rtl/type_mapper.py: `RtlTypeMapper`, and `TypeLowerPass._map_int` of
-- src/zuspec/be/sw/passes/type_lower.py: the C types of integers.
pub mod Masked
mod Tests
use Prim.Native.Nat.{bit_and}
use zuspec_be_sw.Prelude.{
  ℕ, zero, suc, ◌-◌, ◌^◌, Bool, true, false, ◌||◌, Option, none, some, ◌==◌, leb, if◌then◌else◌,
}

-- `int<size>_t` or `uint<size>_t`.
pub record CInt : Type 0 where
  pub size : ℕ
  pub is_signed : Bool

abbrev pub c_int : ℕ → Bool → CInt
c_int size signed = record { size = size; is_signed = signed }

-- `dtype.bits`, where `none` is a negative number, and the width that the RTL mapper takes it for.
abbrev pub rtl_bits : Option ℕ → ℕ
rtl_bits none = 32
rtl_bits (some zero) = 32
rtl_bits (some (suc n)) = suc n

-- `map_rtl_int_type`
abbrev pub container : ℕ → ℕ
container bits =
    if leb bits 8 then 8 else if leb bits 16 then 16 else if leb bits 32 then 32 else 64

unfoldable pub map_rtl_int_type : Option ℕ → Bool → CInt
map_rtl_int_type bits true = c_int (container (rtl_bits bits)) true
map_rtl_int_type bits false = c_int (container (rtl_bits bits)) false

-- `_EXACT_WIDTHS`
abbrev pub is_exact : ℕ → Bool
is_exact bits = (bits == 8) || ((bits == 16) || ((bits == 32) || (bits == 64)))

-- The mask of `map_type_with_mask`.
abbrev pub mask_of : ℕ → Option ℕ
mask_of bits = if is_exact bits then none else some (2 ^ bits - 1)

unfoldable pub map_type_with_mask : Option ℕ → Bool → CInt × Option ℕ
unfolding map_rtl_int_type
map_type_with_mask bits signed = (map_rtl_int_type bits signed, mask_of (rtl_bits bits))

-- A stored value that is read through the mask.
abbrev pub read_masked : Option ℕ → ℕ → ℕ
read_masked none v = v
read_masked (some mask) v = bit_and v mask

-- `TypeLowerPass._map_int`: the table of the exact widths, and the sizes from 8 on.
abbrev pub lower_bits : Option ℕ → ℕ
lower_bits none = 32
lower_bits (some n) = n

abbrev pub next_size : ℕ → Bool → CInt
next_size bits signed =
    if leb bits 8
    then c_int 8 signed
    else if leb bits 16
    then c_int 16 signed
    else if leb bits 32
    then c_int 32 signed
    else if leb bits 64
    then c_int 64 signed
    else c_int 64 false

unfoldable pub map_int : Option ℕ → Bool → CInt
map_int bits signed =
    let n = lower_bits bits in if is_exact n then c_int n signed else next_size n signed
