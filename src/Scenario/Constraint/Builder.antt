-- ===== src/Scenario/Constraint/Builder.antt =====
-- src/zuspec/be/sw/scenario/constraint_c.py: the generated lines, and the state of the emitter.
use zuspec_be_sw.Prelude.{ℕ, ◌+◌, List, [], ◌∷◌, ◌++◌}
use zuspec_be_sw.Prelude.Int.{ℤ}

-- The solver's operation codes that the tables `_BIN`, `_CMP` and `_UN` name.
pub data DvsBin : Type 0 where
  dvs_add dvs_sub dvs_mul dvs_div dvs_mod dvs_band dvs_bor dvs_bxor : DvsBin
  dvs_lshift dvs_rshift dvs_ashr dvs_eq dvs_neq dvs_lt dvs_lte dvs_gt dvs_gte dvs_and dvs_or :
      DvsBin

pub data DvsUn : Type 0 where
  dvs_neg dvs_not dvs_invert : DvsUn

-- A temporary `e<N>` is its number.
abbrev pub Ref : Type 0
Ref = ℕ

-- The calls `dvs_builder_expr_*`. The constant carries its `signed` flag.
pub data Call : Type 0 where
  const_call : ℤ → ℕ → Call
  var_call : ℕ → Call
  binary_call : DvsBin → Ref → Ref → Call
  unary_call : DvsUn → Ref → Call
  in_range_call : Ref → Ref → Ref → Call

-- `dvs_expr_t e<N> = <call>;` and `dvs_builder_add_constraint(sp, e<N>);`
pub data Line : Type 0 where
  define : Ref → Call → Line
  add_constraint : Ref → Line

-- `self.lines` and `self._n`.
pub record State : Type 0 where
  pub lines : List Line
  pub n : ℕ

-- The exceptions: `UnsupportedConstructError`, an index into an empty list, `int()` of a constant
-- that is no integer, and a negative shift count.
pub data Error : Type 0 where
  unsupported index_error conversion negative_shift : Error

pub data Result {ℓ} (A : Type ℓ) : Type ℓ where
  ok : A → Result A
  err : Error → Result A

-- A method of the emitter that returns an `A`.
abbrev pub Emit : Type 0 → Type 0
Emit A = State → Result (A × State)

infixl 5 ◌>>=◌
abbrev pub ◌>>=◌ : {A B : Type 0} → Emit A → (A → Emit B) → Emit B
◌>>=◌ m f st = elim (m st) [ ok (a, st') ↦ f a st' | err e ↦ err e ]

abbrev pub pure : {A : Type 0} → A → Emit A
pure a st = ok (a, st)

abbrev pub raise : {A : Type 0} → Error → Emit A
raise e st = err e

-- `_emit`, with `_tmp` in it.
unfoldable pub emit : Call → Emit Ref
emit call st =
    ok (st.n + 1, record { lines = st.lines ++ (define (st.n + 1) call ∷ []); n = st.n + 1 })

-- `_add`.
unfoldable pub add : Ref → Emit (Unit {0})
add ref st = ok (tt, record st { lines = st.lines ++ (add_constraint ref ∷ []) })
