-- ===== src/Mmr/CHeader/Tests.antt =====
-- A control register of a writable and a clearable field, and the theorems on
-- src/zuspec/be/sw/mmr/c_header.py at it.
use zuspec_be_sw.Prelude.{◌≡◌, refl, inl, true, false, [], ◌∷◌, arith}
use zuspec_be_sw.Mmr.CHeader.{rw, ro, FieldDef, RegDef, field_macro, Bytes, read_field, write_field}
use zuspec_be_sw.Mmr.CHeader.Access.{write_field-read_field, write_field-other}

abbrev mode : FieldDef
mode = record { name = 1; lsb = 4; width = 3; sw = rw; woclr = false }

abbrev error : FieldDef
error = record { name = 2; lsb = 0; width = 1; sw = rw; woclr = true }

abbrev status : FieldDef
status = record { name = 3; lsb = 8; width = 8; sw = ro; woclr = false }

abbrev control : RegDef
control = record { name = 9; offset = 4; fields = mode ∷ error ∷ status ∷ [] }

abbrev bytes : Bytes
bytes o = 0xff

write_field-read_field_example :
    read_field (field_macro control mode) (write_field (field_macro control mode) bytes 5) ≡ 5
write_field-read_field_example =
    write_field-read_field control mode bytes 5 (omega arith) (omega arith)

write_field-other_example :
    read_field (field_macro control status) (write_field (field_macro control mode) bytes 5)
    ≡ read_field (field_macro control status) bytes
write_field-other_example =
    write_field-other control control mode status bytes 5 (omega arith) (omega arith)
      (inl (refl, inl (omega arith)))
