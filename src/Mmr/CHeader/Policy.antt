-- ===== src/Mmr/CHeader/Policy.antt =====
-- Which macros src/zuspec/be/sw/mmr/c_header.py emits for which access.
use mathlib.Core.List.{Memᴰ}
use mathlib.Core.List.Memᴰ.{append_cases}
use zuspec_be_sw.Prelude.{
  ◌≡◌, inl, inr, refl, Bool, true, false, List, [], ◌∷◌, ◌++◌, if◌then◌else◌,
}
use zuspec_be_sw.Mmr.CHeader.{
  FieldDef, RegDef, FieldMacro, read, write, clear, field_macro, is_readable, is_writable,
  read_macros, write_macros, emit_fields, emit_field_macros,
}

-- A field of a register of the file that software may write, and that no 1 clears.
pub record Writable (f : FieldMacro) (rs : List RegDef) : Type 0 where
  pub reg : RegDef
  pub def : FieldDef
  pub in_regs : Memᴰ reg rs
  pub in_fields : Memᴰ def reg.fields
  pub is_field : f ≡ field_macro reg def
  pub is_writable_field : is_writable def.sw ≡ true
  pub is_plain : def.woclr ≡ false

pub record WritableIn (f : FieldMacro) (r : RegDef) (ds : List FieldDef) : Type 0 where
  pub def : FieldDef
  pub in_fields : Memᴰ def ds
  pub is_field : f ≡ field_macro r def
  pub is_writable_field : is_writable def.sw ≡ true
  pub is_plain : def.woclr ≡ false

-- A read macro is no write macro.
no_write :
    (f : FieldMacro) (r : RegDef) (d : FieldDef) (readable : Bool)
    → Memᴰ (write f) (if readable then read (field_macro r d) ∷ [] else [])
    → ⊥
no_write f r d true (Memᴰ.head e) = cc
no_write f r d true (Memᴰ.tail k) = elim k [ ]
no_write f r d false k = elim k [ ]

chosen_write :
    (f : FieldMacro) (r : RegDef) (d : FieldDef) (writable woclr : Bool)
    → Memᴰ (write f) (
        if writable
        then (if woclr then clear (field_macro r d) else write (field_macro r d)) ∷ []
        else [])
    → (f ≡ field_macro r d) × (writable ≡ true) × (woclr ≡ false)
chosen_write f r d true false (Memᴰ.head e) = (cc, refl, refl)
chosen_write f r d true true (Memᴰ.head e) = cc
chosen_write f r d true b (Memᴰ.tail k) = elim k [ ]
chosen_write f r d false b k = elim k [ ]

-- The macros of one field.
write_of_field :
    (f : FieldMacro) (r : RegDef) (d : FieldDef)
    → Memᴰ (write f) (read_macros r d ++ write_macros r d)
    → (f ≡ field_macro r d) × (is_writable d.sw ≡ true) × (d.woclr ≡ false)
write_of_field f r d i = elim (append_cases (read_macros r d) i) [
  | inl j ↦ absurd (no_write f r d (is_readable d.sw) j)
  | inr j ↦ chosen_write f r d (is_writable d.sw) d.woclr j
]

emit_fields_lem :
    (f : FieldMacro) (r : RegDef) (ds : List FieldDef)
    → Memᴰ (write f) (emit_fields r ds)
    → WritableIn f r ds
unfolding emit_fields
emit_fields_lem f r [] i = elim i [ ]
emit_fields_lem f r (d ∷ ds) i = elim (append_cases (read_macros r d ++ write_macros r d) i) [
  | inl here ↦
      let w = write_of_field f r d here in
      record {
        def = d;
        in_fields = Memᴰ.head refl;
        is_field = w.0;
        is_writable_field = w.1;
        is_plain = w.2;
      }
  | inr there ↦
      let w = emit_fields_lem f r ds there in
      record {
        def = w.def;
        in_fields = Memᴰ.tail w.in_fields;
        is_field = w.is_field;
        is_writable_field = w.is_writable_field;
        is_plain = w.is_plain;
      }
]

-- A write macro is emitted only for a field of the register file that software may write and that
-- is not cleared by a 1.
pub emit_field_macros-Writable :
    (f : FieldMacro) (rs : List RegDef) → Memᴰ (write f) (emit_field_macros rs) → Writable f rs
unfolding emit_field_macros
emit_field_macros-Writable f [] i = elim i [ ]
emit_field_macros-Writable f (r ∷ rs) i = elim (append_cases (emit_fields r r.fields) i) [
  | inl here ↦
      let w = emit_fields_lem f r r.fields here in
      record {
        reg = r;
        def = w.def;
        in_regs = Memᴰ.head refl;
        in_fields = w.in_fields;
        is_field = w.is_field;
        is_writable_field = w.is_writable_field;
        is_plain = w.is_plain;
      }
  | inr there ↦
      let w = emit_field_macros-Writable f rs there in
      record {
        reg = w.reg;
        def = w.def;
        in_regs = Memᴰ.tail w.in_regs;
        in_fields = w.in_fields;
        is_field = w.is_field;
        is_writable_field = w.is_writable_field;
        is_plain = w.is_plain;
      }
]
