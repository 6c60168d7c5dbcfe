-- ===== src/Mmr/CHeader.antt =====
-- src/zuspec/be/sw/mmr/c_header.py: `MmrRegFileCHeaderEmitter`, the constants and macros of the
-- header and what they do to the registers.
pub mod Access
pub mod Policy
mod Tests
use Prim.Native.Nat.{bit_and, bit_or}
use zuspec_be_sw.Prelude.{
  ℕ, ◌+◌, ◌-◌, ◌*◌, ◌/◌, ◌%◌, ◌^◌, ◌≡◌, Bool, true, false, List, [], ◌∷◌, ◌++◌, ◌&&◌, leb, ltb,
  if◌then◌else◌,
}

-- The software access of a field; `rw` is every value that the emitter does not name.
pub data Sw : Type 0 where
  rw : Sw
  ro : Sw
  wo : Sw
  na : Sw

-- A field, by the attributes that the emitter reads; `woclr` tells that `onwrite` is 'woclr'.
pub record FieldDef : Type 0 where
  pub name : ℕ
  pub lsb : ℕ
  pub width : ℕ
  pub sw : Sw
  pub woclr : Bool

pub record RegDef : Type 0 where
  pub name : ℕ
  pub offset : ℕ
  pub fields : List FieldDef

-- The number of values of `unsigned int` and of the default `data_type`, uint32_t.
abbrev pub word : ℕ
word = 2 ^ 32

-- `_ones_mask`
abbrev pub ones_mask : ℕ → ℕ
ones_mask width = 2 ^ width - 1

-- The macros of a field: the register's offset, and the field's shift and mask constants.
pub record FieldMacro : Type 0 where
  pub reg : ℕ
  pub field : ℕ
  pub offset : ℕ
  pub mask : ℕ
  pub shift : ℕ

pub data Macro : Type 0 where
  read : FieldMacro → Macro
  write : FieldMacro → Macro
  clear : FieldMacro → Macro

-- The value of `(0x..U << .._SHIFT)`.
abbrev pub field_mask : FieldDef → ℕ
field_mask d = (ones_mask d.width * 2 ^ d.lsb) % word

abbrev pub field_macro : RegDef → FieldDef → FieldMacro
field_macro r d = record {
  reg = r.name;
  field = d.name;
  offset = r.offset;
  mask = field_mask d;
  shift = d.lsb;
}

abbrev pub is_readable : Sw → Bool
is_readable wo = false
is_readable na = false
is_readable _ = true

abbrev pub is_writable : Sw → Bool
is_writable ro = false
is_writable na = false
is_writable _ = true

-- `_emit_field_macros`
abbrev pub read_macros : RegDef → FieldDef → List Macro
read_macros r d = if is_readable d.sw then read (field_macro r d) ∷ [] else []

abbrev pub write_macros : RegDef → FieldDef → List Macro
write_macros r d =
    if is_writable d.sw
    then (if d.woclr then clear (field_macro r d) else write (field_macro r d)) ∷ []
    else []

unfoldable pub emit_fields : RegDef → List FieldDef → List Macro
emit_fields r [] = []
emit_fields r (d ∷ ds) = (read_macros r d ++ write_macros r d) ++ emit_fields r ds

unfoldable pub emit_field_macros : List RegDef → List Macro
unfolding emit_fields
emit_field_macros [] = []
emit_field_macros (r ∷ rs) = emit_fields r r.fields ++ emit_field_macros rs

-- The bytes at the offsets from a base.
abbrev pub Bytes : Type 0
Bytes = ℕ → ℕ

-- `PREFIX_RD`, `PREFIX_WR` and `PREFIX_RMW` of `_emit_access_macros`: accesses of four bytes, the low
-- byte first.
unfoldable pub rd : Bytes → ℕ → ℕ
rd bytes off =
    bytes off % 256
    + (bytes (off + 1) % 256 * 2 ^ 8
        + (bytes (off + 2) % 256 * 2 ^ 16 + bytes (off + 3) % 256 * 2 ^ 24))

unfoldable pub wr : Bytes → ℕ → ℕ → Bytes
wr bytes off val o =
    if leb off o && ltb o (off + 4) then val / 2 ^ (8 * (o - off)) % 256 else bytes o

unfoldable pub rmw : Bytes → ℕ → ℕ → ℕ → ℕ → Bytes
unfolding rd wr
rmw bytes off mask shift val =
    wr bytes off
      (bit_or (bit_and (rd bytes off) (word - 1 - mask)) (bit_and ((val * 2 ^ shift) % word) mask))

-- The bodies of the field macros.
unfoldable pub read_field : FieldMacro → Bytes → ℕ
unfolding rd
read_field f bytes = bit_and (rd bytes f.offset) f.mask / 2 ^ f.shift

unfoldable pub write_field : FieldMacro → Bytes → ℕ → Bytes
unfolding rmw
write_field f bytes val = rmw bytes f.offset f.mask f.shift val

unfoldable pub clear_field : FieldMacro → Bytes → Bytes
unfolding wr
clear_field f bytes = wr bytes f.offset f.mask
