-- ===== src/Passes/Elaborate/Syntax.antt =====
-- The types that src/zuspec/be/sw/passes/elaborate.py reads, and the dictionary that holds them. The
-- classes are third-party; names are numbers, and identifiers: no name holds a dot.
use zuspec_be_sw.Prelude.{
  ℕ, ◌≡◌, refl, Bool, true, false, if◌then◌else◌, ◌==◌, Option, none, some, List, [], ◌∷◌,
}

-- The side of a bind: `ref_field` is `ExprRefField` with its base and its index, which is not
-- negative.
pub data Ref : Type 0 where
  ref_field : Ref → ℕ → Ref
  self_ref : Ref
  other_ref : Ref

pub record Bind : Type 0 where
  pub lhs : Ref
  pub rhs : Ref

-- `other_type` is any other class. A component has its name, its fields and its binds.
mutual
  pub data DataType : Type 0 where
    component : Option ℕ → Fields → List Bind → DataType
    protocol : Option ℕ → DataType
    type_ref : ℕ → DataType
    other_type : Option ℕ → DataType

  pub data Fields : Type 0 where
    no_fields : Fields
    field_then : ℕ → DataType → Fields → Fields

pub record Field : Type 0 where
  pub name : ℕ
  pub datatype : DataType

unfoldable pub field_list : Fields → List Field
field_list no_fields = []
field_list (field_then n t fs) = record { name = n; datatype = t } ∷ field_list fs

unfoldable pub fields : DataType → List Field
fields (component n fs bs) = field_list fs
fields t = []

unfoldable pub name_of : DataType → Option ℕ
name_of (component n fs bs) = n
name_of (protocol n) = n
name_of (type_ref n) = none
name_of (other_type n) = n

unfoldable pub binds : DataType → List Bind
binds (component n fs bs) = bs
binds t = []

unfoldable pub is_component : DataType → Bool
is_component (component n fs bs) = true
is_component t = false

unfoldable pub is_protocol : DataType → Bool
is_protocol (protocol n) = true
is_protocol t = false

-- The names that the pass writes out.
abbrev pub empty_name : ℕ
empty_name = 0

abbrev pub top_word : ℕ
top_word = 1

-- `name or default`
unfoldable pub or_name : Option ℕ → ℕ → ℕ
or_name none d = d
or_name (some n) d = if n == empty_name then d else n

-- `type_m`, in the order of its keys, which are distinct.
unfoldable pub lookup : ℕ → List (ℕ × DataType) → Option DataType
lookup n [] = none
lookup n ((k, t) ∷ r) = if n == k then some t else lookup n r

-- The first of two options.
unfoldable pub or_else : Option DataType → Option DataType → Option DataType
or_else none b = b
or_else (some a) b = some a

infixl 5 ◌>>=◌
unfoldable pub ◌>>=◌ {ℓ ℓ'} : {A : Type ℓ} {B : Type ℓ'} → Option A → (A → Option B) → Option B
none >>= f = none
some a >>= f = f a

-- What a step that goes on has found.
pub >>=-some {ℓ ℓ'} :
    {A : Type ℓ} {B : Type ℓ'} (o : Option A) (f : A → Option B) (b : B)
    → (o >>= f) ≡ some b
    → (a : A) × (o ≡ some a) × (f a ≡ some b)
unfolding ◌>>=◌
>>=-some none f b e = absurd (cc)
>>=-some (some a) f b e = (a, refl, e)
