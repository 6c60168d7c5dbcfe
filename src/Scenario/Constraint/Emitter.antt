-- ===== src/Scenario/Constraint/Emitter.antt =====
-- src/zuspec/be/sw/scenario/constraint_c.py: `ConstraintCEmitter` on expressions.
use Prim.Native.String.{String}
use zuspec_be_sw.Prelude.{
  ℕ, zero, suc, ◌+◌, ◌-◌, ◌*◌, ◌^◌, Bool, true, false, Option, none, some, List, [], ◌∷◌,
  if◌then◌else◌,
}
use zuspec_be_sw.Prelude.Int.{ℤ, pos, negsuc, ltb_ℤ, distance, low_bits}
use zuspec_be_sw.Scenario.Constraint.Builder.{
  DvsBin, dvs_band, dvs_rshift, dvs_eq, dvs_and, dvs_or, dvs_not, Ref, const_call, var_call,
  binary_call, unary_call, in_range_call, Emit, Error, unsupported, index_error, conversion,
  negative_shift, ◌>>=◌, pure, raise, emit,
}
use zuspec_be_sw.Scenario.Constraint.Syntax.{
  BinOp, op_eq, op_not_eq, un_add, Expr, constant, odd_constant, self_attr, bin, unary, compare,
  bool_and, bool_or, subscript, slice, in_ranges, opaque_in, other, Exprs, nil, cons, Links, end,
  link, Ranges, stop, value, range, no_range, bin_table, cmp_table, un_table,
}

-- `_const`, `_bin` and `_not`.
unfoldable pub const : ℤ → Emit Ref
unfolding emit
const (pos v) = emit (const_call (pos v) 0)
const (negsuc v) = emit (const_call (negsuc v) 1)

abbrev pub binary : DvsBin → Ref → Ref → Emit Ref
binary op l r = emit (binary_call op l r)

abbrev pub not_ref : Ref → Emit Ref
not_ref ref = emit (unary_call dvs_not ref)

-- `acc = refs[0]; for r in refs[1:]: acc = <op>(acc, r)`, of `_conj` and of the chains.
unfoldable pub fold_from : DvsBin → Ref → List Ref → Emit Ref
fold_from op acc [] = pure acc
fold_from op acc (r ∷ refs) = do acc' ← binary op acc r; fold_from op acc' refs

unfoldable pub fold_refs : DvsBin → List Ref → Emit Ref
unfolding fold_from
fold_refs op [] = raise index_error
fold_refs op (r ∷ refs) = fold_from op r refs

-- `_bitslice_bounds`: the higher and the lower bound, if the bounds are constants.
pub data Bounds : Type 0 where
  no_bounds bad_bounds : Bounds
  bounds : ℤ → ℤ → Bounds

abbrev pub order_bounds : ℤ → ℤ → Bounds
order_bounds hi lo = if ltb_ℤ hi lo then bounds lo hi else bounds hi lo

-- `int(e.value)` of a constant.
abbrev pub to_int : Expr → Option (Option ℤ)
to_int (constant v) = some (some v)
to_int (odd_constant v) = some v
to_int _ = none

abbrev bounds_of : Option (Option ℤ) → Option (Option ℤ) → Bounds
bounds_of (some (some hi)) (some (some lo)) = order_bounds hi lo
bounds_of (some hi) (some lo) = bad_bounds
bounds_of _ _ = no_bounds

unfoldable pub bitslice_bounds : Expr → Bounds
bitslice_bounds (slice true lower upper) = bounds_of (to_int lower) (to_int upper)
bitslice_bounds _ = no_bounds

abbrev pub slice_bounds : Expr → Bounds
slice_bounds (subscript x sl) = bitslice_bounds sl
slice_bounds _ = no_bounds

-- `((1 << width) - 1) << lo` and the like, with `width = hi - lo + 1`.
abbrev pub mask_of : ℕ → ℕ
mask_of width = 2 ^ width - 1

-- One round of the loop of `_try_masked_compare`: does the rewriting apply to these two sides?
pub data Masked : Type 0 where
  not_masked : Masked
  masked_error : Error → Masked
  masked : ℤ → ℤ → ℤ → Masked

abbrev side_at : ℤ → ℤ → Option (Option ℤ) → Masked
side_at hi lo none = not_masked
side_at hi lo (some none) = masked_error conversion
side_at hi lo (some (some c)) = masked hi lo c

abbrev pub side_of : Bounds → Expr → Masked
side_of no_bounds c = not_masked
side_of bad_bounds c = masked_error conversion
side_of (bounds hi lo) c = side_at hi lo (to_int c)

unfoldable pub masked_side : Expr → Expr → Masked
unfolding bitslice_bounds
masked_side slice_side const_side = side_of (slice_bounds slice_side) const_side

-- The rest of `_try_masked_compare`: `(x & (mask << lo)) <op> (const << lo)`.
unfoldable pub emit_masked : DvsBin → Emit Ref → ℤ → ℤ → ℤ → Emit Ref
unfolding emit
emit_masked code x hi (negsuc lo) c = raise negative_shift
emit_masked code x hi (pos lo) c = do
  let width = distance hi (pos lo) + 1
  r ← x
  mref ← emit (const_call (pos (mask_of width * 2 ^ lo)) 0)
  band ← binary dvs_band r mref
  cref ← emit (const_call (pos (low_bits c width * 2 ^ lo)) 0)
  binary code band cref

abbrev pub is_equality : BinOp → Bool
is_equality op_eq = true
is_equality op_not_eq = true
is_equality _ = false

unfoldable pub plain_bin : DvsBin → Emit Ref → Emit Ref → Emit Ref
unfolding emit
plain_bin code l r = do a ← l; b ← r; binary code a b

-- One round of the loop: the rewriting, an error, or the next round.
abbrev pub masked_or : DvsBin → Masked → Emit Ref → Emit Ref → Emit Ref
masked_or code not_masked x next = next
masked_or code (masked_error e) x next = raise e
masked_or code (masked hi lo c) x next = emit_masked code x hi lo c

-- The branch of `emit_expr` for `ExprBin`: `x`, `y` emit the values that the two sides slice, and
-- `l`, `r` the two sides.
unfoldable pub emit_bin :
    BinOp → Masked → Masked → Emit Ref → Emit Ref → Emit Ref → Emit Ref → Emit Ref
unfolding emit bin_table emit_masked plain_bin
emit_bin op left right x y l r = elim (bin_table op) [
  | none ↦ raise unsupported
  | some code ↦
      if is_equality op
      then masked_or code left x (masked_or code right y (plain_bin code l r))
      else plain_bin code l r
]

-- `_emit_bit_extract`: `(x >> lo) & mask`.
unfoldable pub shift_down : ℤ → Ref → Emit Ref
unfolding emit const
shift_down (pos zero) x = pure x
shift_down (pos (suc lo)) x = do k ← const (pos (suc lo)); binary dvs_rshift x k
shift_down (negsuc lo) x = do k ← const (negsuc lo); binary dvs_rshift x k

unfoldable pub emit_bit_extract : Emit Ref → Bounds → Emit Ref
unfolding emit const shift_down
emit_bit_extract x no_bounds = raise unsupported
emit_bit_extract x bad_bounds = raise conversion
emit_bit_extract x (bounds hi lo) = do
  r ← x
  shifted ← shift_down lo r
  mref ← const (pos (mask_of (distance hi lo + 1)))
  binary dvs_band shifted mref

module _ (var_id_map : String → Option ℕ) where
  unfoldable mutual
    unfolding emit const fold_refs emit_bin masked_side emit_bit_extract cmp_table un_table
        bitslice_bounds

    pub emit_expr : Expr → Emit Ref
    emit_expr (constant v) = const v
    emit_expr (odd_constant c) = raise unsupported
    emit_expr (self_attr name) = elim (var_id_map name) [
      | none ↦ raise unsupported
      | some id ↦ emit (var_call id)
    ]
    emit_expr (bin op l r) =
        emit_bin op (masked_side l r) (masked_side r l) (emit_sliced l) (emit_sliced r)
          (emit_expr l) (emit_expr r)
    emit_expr (unary un_add o) = emit_expr o
    emit_expr (unary op o) =
        let operand = emit_expr o in
        elim (un_table op) [
          | none ↦ raise unsupported
          | some code ↦ do a ← operand; emit (unary_call code a)
        ]
    emit_expr (compare left links) = do
      terms ← emit_links links (emit_expr left)
      fold_refs dvs_and terms
    emit_expr (bool_and es) = do refs ← emit_exprs es; fold_refs dvs_and refs
    emit_expr (bool_or es) = do refs ← emit_exprs es; fold_refs dvs_or refs
    emit_expr (subscript x sl) = emit_bit_extract (emit_expr x) (bitslice_bounds sl)
    emit_expr (slice is_bits lower upper) = raise unsupported
    emit_expr (in_ranges e ranges) = do
      v ← emit_expr e
      terms ← emit_ranges ranges v
      fold_refs dvs_or terms
    emit_expr (opaque_in e) = raise unsupported
    emit_expr other = raise unsupported

    -- The value that a subscript slices.
    pub emit_sliced : Expr → Emit Ref
    emit_sliced (subscript x sl) = emit_expr x
    emit_sliced _ = raise unsupported

    pub emit_exprs : Exprs → Emit (List Ref)
    emit_exprs nil = pure []
    emit_exprs (cons e es) = do r ← emit_expr e; refs ← emit_exprs es; pure (r ∷ refs)

    -- The loop of `_emit_compare`; `operand` emits `operands[i]`.
    pub emit_links : Links → Emit Ref → Emit (List Ref)
    emit_links end operand = pure []
    emit_links (link op e links) operand =
        let right = emit_expr e in
        let rest = emit_links links right in
        elim (cmp_table op) [
          | none ↦ raise unsupported
          | some code ↦ do
            l ← operand
            r ← right
            t ← binary code l r
            terms ← rest
            pure (t ∷ terms)
        ]

    -- The loop of `_emit_in`.
    pub emit_ranges : Ranges → Ref → Emit (List Ref)
    emit_ranges stop v = pure []
    emit_ranges (value lower ranges) v = do
      lo ← emit_expr lower
      t ← binary dvs_eq v lo
      terms ← emit_ranges ranges v
      pure (t ∷ terms)
    emit_ranges (range lower upper ranges) v = do
      lo ← emit_expr lower
      hi ← emit_expr upper
      t ← emit (in_range_call v lo hi)
      terms ← emit_ranges ranges v
      pure (t ∷ terms)
    emit_ranges (no_range ranges) v = raise unsupported
