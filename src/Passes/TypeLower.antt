-- ===== src/Passes/TypeLower.antt =====
-- `TypeLowerPass` of src/zuspec/be/sw/passes/type_lower.py: the order of the types, and their C types
-- and bodies.
pub mod Syntax
pub mod Visits
pub mod Ordered
mod Ends
mod Sorted
mod Tests
use zuspec_be_sw.Prelude.{
  ℕ, zero, suc, Bool, true, false, not, ◌&&◌, if◌then◌else◌, ◌==◌, Option, none, some, List, [],
  ◌∷◌, ◌++◌,
}
use zuspec_be_sw.Rtl.Types.{CInt, map_int}
use zuspec_be_sw.Passes.TypeLower.Syntax.{
  DataType, typed, Shape, int_shape, uptr, chandle, string_shape, enum, struct, component, array,
  untyped_array, list_shape, channel, get_if, put_if, address_space, addr_handle, type_ref,
  other_shape, Fields, no_fields, field_then, key, is_named, lookup,
}
use zuspec_be_sw.Passes.TypeLower.Visits.{Visiting, topological_sort}

-- The C types that the pass writes; `named_t` is the name with `_t` behind it.
pub data CType : Type 0 where
  int_type : CInt → CType
  uintptr : CType
  void_pointer : CType
  char_pointer : CType
  named_t : ℕ → CType
  list_type : CType
  fifo_type : CType
  get_if_type : CType
  put_if_type : CType
  addr_space_pointer : CType

-- `uint8_t`, where there is no C type.
unfoldable pub or_byte : Option CType → CType
or_byte none = int_type (record { size = 8; is_signed = false })
or_byte (some c) = c

unfoldable pub or_void_pointer : Option CType → CType
or_void_pointer none = void_pointer
or_void_pointer (some c) = c

unfoldable pub map_element : Option (Option CType) → Option (Option CType)
map_element none = none
map_element (some c) = some (some (or_byte c))

-- `_map_type`, whose recursion through references has fuel; the result is `none` where that is used
-- up, and `some none` where the code returns `None`.
unfoldable pub map_type : List (ℕ × DataType) → ℕ → DataType → Option (Option CType)
map_type type_m zero t = none
map_type type_m (suc n) (typed i name (int_shape bits signed)) =
    some (some (int_type (map_int bits signed)))
map_type type_m (suc n) (typed i name uptr) = some (some uintptr)
map_type type_m (suc n) (typed i name chandle) = some (some void_pointer)
map_type type_m (suc n) (typed i name string_shape) = some (some char_pointer)
map_type type_m (suc n) (typed i name (enum items)) =
    some (some (named_t (key (typed i name (enum items)))))
map_type type_m (suc n) (typed i name (struct fs)) =
    some (some (named_t (key (typed i name (struct fs)))))
map_type type_m (suc n) (typed i name (component fs)) =
    some (some (named_t (key (typed i name (component fs)))))
map_type type_m (suc n) (typed i name (array element size)) =
    map_element (map_type type_m n element)
map_type type_m (suc n) (typed i name (untyped_array size)) = some (some (or_byte none))
map_type type_m (suc n) (typed i name list_shape) = some (some list_type)
map_type type_m (suc n) (typed i name channel) = some (some fifo_type)
map_type type_m (suc n) (typed i name get_if) = some (some get_if_type)
map_type type_m (suc n) (typed i name put_if) = some (some put_if_type)
map_type type_m (suc n) (typed i name address_space) = some (some addr_space_pointer)
map_type type_m (suc n) (typed i name addr_handle) = some (some uintptr)
map_type type_m (suc n) (typed i name (type_ref r)) = elim (lookup r type_m) [
  | none ↦ some (some (named_t r))
  | some t ↦ map_type type_m n t
]
map_type type_m (suc n) (typed i name other_shape) = some none

-- A member of a struct body, with the size of an array, and the body of a type.
pub data Member : Type 0 where
  member : CType → ℕ → Option ℕ → Member

pub data Body : Type 0 where
  enum_body : List (ℕ × ℕ) → ℕ → Body
  struct_body : List Member → ℕ → Body

-- The size of a field's array.
unfoldable pub array_size : DataType → Option ℕ
array_size (typed i n (array e size)) = some size
array_size (typed i n (untyped_array size)) = some size
array_size t = none

unfoldable pub add_member :
    ℕ → DataType → Option (Option CType) → Option (List Member) → Option (List Member)
add_member n t (some c) (some ms) = some (member (or_void_pointer c) n (array_size t) ∷ ms)
add_member n t c ms = none

-- The lines of `_struct_body`.
unfoldable pub struct_members : List (ℕ × DataType) → ℕ → Fields → Option (List Member)
struct_members type_m fuel no_fields = some []
struct_members type_m fuel (field_then n t fs) =
    add_member n t (map_type type_m fuel t) (struct_members type_m fuel fs)

unfoldable pub struct_of : ℕ → Option (List Member) → Option (Option Body)
struct_of n none = none
struct_of n (some ms) = some (some (struct_body ms n))

-- `_type_body`
unfoldable pub type_body : List (ℕ × DataType) → ℕ → DataType → Option (Option Body)
type_body type_m fuel (typed i n (enum items)) =
    some (some (enum_body items (key (typed i n (enum items)))))
type_body type_m fuel (typed i n (struct fs)) =
    struct_of (key (typed i n (struct fs))) (struct_members type_m fuel fs)
type_body type_m fuel (typed i n (component fs)) =
    struct_of (key (typed i n (component fs))) (struct_members type_m fuel fs)
type_body type_m fuel t = some none

-- What the pass writes to the context, in order.
pub record Lowered : Type 0 where
  pub c_type_m : List (ℕ × CType)
  pub c_type_bodies : List (ℕ × Body)

unfoldable pub entry_of {ℓ} : {A : Type ℓ} → ℕ → Option A → List (ℕ × A) → List (ℕ × A)
entry_of n none rest = rest
entry_of n (some a) rest = (n, a) ∷ rest

unfoldable pub lower_one :
    DataType → Option (Option CType) → Option (Option Body) → Option Lowered → Option Lowered
lower_one t (some c) (some b) (some rest) = some (record {
  c_type_m = entry_of (key t) c rest.c_type_m;
  c_type_bodies = entry_of (key t) b rest.c_type_bodies;
})
lower_one t c b rest = none

unfoldable pub lower_ordered : List (ℕ × DataType) → ℕ → List DataType → Option Lowered
lower_ordered type_m fuel [] = some (record { c_type_m = []; c_type_bodies = [] })
lower_ordered type_m fuel (t ∷ ts) =
    lower_one t (map_type type_m fuel t) (type_body type_m fuel t) (lower_ordered type_m fuel ts)

-- `run`, on a context without C types.
unfoldable pub run : List (ℕ × DataType) → ℕ → Option Lowered
run type_m fuel = elim (topological_sort type_m fuel) [
  | none ↦ none
  | some st ↦ lower_ordered type_m fuel st.order
]
