-- ===== src/Rtl/Waits/Counters.antt =====
-- src/zuspec/be/sw/passes/rtl/counter_recognition.py: the counters among the fields of a component.
use zuspec_be_sw.Prelude.{
  ℕ, zero, suc, ◌^◌, Bool, true, false, Option, none, some, List, [], ◌∷◌, ◌==◌, if◌then◌else◌,
}

-- The names of `_COUNTER_TYPE_NAMES`; `other_name` is any other name of a component type.
pub data TypeName : Type 0 where
  counter : TypeName
  modulo_counter : TypeName
  watchdog_counter : TypeName
  other_name : TypeName

-- What the pass reads of a field: its name, the name of its type where that is a component, the
-- default instance of the class with its `PERIOD` and `WIDTH` where it has them, and the values of
-- the constants `PERIOD` and `WIDTH` of the type.
pub record Field : Type 0 where
  pub name : ℕ
  pub datatype : Option TypeName
  pub instance_of : Option (Option ℕ × Option ℕ)
  pub const_period : Option ℕ
  pub const_width : Option ℕ

pub record CounterInfo : Type 0 where
  pub field_name : ℕ
  pub modulus : ℕ
  pub period_ps : ℕ
  pub is_modulo : Bool

abbrev pub is_modulo_type : TypeName → Bool
is_modulo_type modulo_counter = true
is_modulo_type watchdog_counter = true
is_modulo_type _ = false

-- `x or d`, and `d` where the attribute is missing.
abbrev or_default : Option ℕ → ℕ → ℕ
or_default none d = d
or_default (some zero) d = d
or_default (some (suc n)) d = suc n

abbrev default_to : Option ℕ → ℕ → ℕ
default_to none d = d
default_to (some n) d = n

abbrev shift_one : Option ℕ → ℕ
shift_one none = 256
shift_one (some width) = 2 ^ width

unfoldable pub modulus_of : TypeName → Field → Option (Option ℕ × Option ℕ) → ℕ
modulus_of type_name f (some inst) =
    if is_modulo_type type_name then default_to inst.0 256 else shift_one inst.1
modulus_of type_name f none =
    if is_modulo_type type_name
    then or_default f.const_period 256
    else 2 ^ or_default f.const_width 8

-- `_build_info`; a value of the attributes is not negative.
unfoldable pub build_info : ℕ → TypeName → Field → Option CounterInfo
unfolding modulus_of
build_info period type_name f =
    let modulus = modulus_of type_name f f.instance_of in
    if modulus == 0
    then none
    else some (record {
      field_name = f.name;
      modulus = modulus;
      period_ps = period;
      is_modulo = is_modulo_type type_name;
    })

-- `ctx.counter_fields`: what was stored last for a name is first.
abbrev pub CounterMap : Type 0
CounterMap = List (ℕ × CounterInfo)

abbrev store : ℕ → Option CounterInfo → CounterMap → CounterMap
store name none m = m
store name (some info) m = (name, info) ∷ m

abbrev recognise : ℕ → Field → Option TypeName → CounterMap → CounterMap
recognise period f none m = m
recognise period f (some other_name) m = m
recognise period f (some type_name) m = store f.name (build_info period type_name f) m

-- `CounterRecognitionPass.run`
unfoldable pub recognise_all : ℕ → List Field → CounterMap → CounterMap
unfolding build_info
recognise_all period [] m = m
recognise_all period (f ∷ fs) m = recognise_all period fs (recognise period f f.datatype m)

-- `counter_fields.get(name)`
unfoldable pub get : ℕ → CounterMap → Option CounterInfo
get n [] = none
get n (p ∷ ps) = if n == p.0 then some p.1 else get n ps
