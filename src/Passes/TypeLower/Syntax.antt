-- ===== src/Passes/TypeLower/Syntax.antt =====
-- The types that src/zuspec/be/sw/passes/type_lower.py reads. The classes are third-party; names are
-- numbers.
use zuspec_be_sw.Prelude.{ℕ, Bool, not, if◌then◌else◌, ◌==◌, Option, none, some, List, [], ◌∷◌}

-- A type is an object, which a number tells from the others, with its name and what its class holds.
-- `int_shape` has its bits, where `none` is a negative number; `array` has its element type and its
-- size, and `untyped_array` is one whose element type is `None`; `enum` has its items; `other_shape`
-- is any other class.
mutual
  pub data DataType : Type 0 where
    typed : ℕ → Option ℕ → Shape → DataType

  pub data Shape : Type 0 where
    int_shape : Option ℕ → Bool → Shape
    uptr : Shape
    chandle : Shape
    string_shape : Shape
    enum : List (ℕ × ℕ) → Shape
    struct : Fields → Shape
    component : Fields → Shape
    array : DataType → ℕ → Shape
    untyped_array : ℕ → Shape
    list_shape : Shape
    channel : Shape
    get_if : Shape
    put_if : Shape
    address_space : Shape
    addr_handle : Shape
    type_ref : ℕ → Shape
    other_shape : Shape

  pub data Fields : Type 0 where
    no_fields : Fields
    field_then : ℕ → DataType → Fields → Fields

-- `dtype.name`, where no name and the empty one are 0, and the test of it.
unfoldable pub key : DataType → ℕ
key (typed i none s) = 0
key (typed i (some n) s) = n

unfoldable pub is_named : DataType → Bool
is_named t = not (key t == 0)

unfoldable pub identity : DataType → ℕ
identity (typed i n s) = i

-- The fields of a struct or component; other types have none that the pass looks at.
unfoldable pub shape_fields : Shape → Fields
shape_fields (struct fs) = fs
shape_fields (component fs) = fs
shape_fields s = no_fields

unfoldable pub fields : DataType → Fields
fields (typed i n s) = shape_fields s

-- `type_m`, in the order of its keys, which are distinct.
unfoldable pub lookup : ℕ → List (ℕ × DataType) → Option DataType
lookup n [] = none
lookup n ((k, t) ∷ r) = if n == k then some t else lookup n r
