-- ===== src/Scenario/Constraint/Meaning.antt =====
-- The values that constraints and their expressions are compiled to.
use Prim.Native.String.{String}
use zuspec_be_sw.Prelude.{
  ℕ, zero, suc, ◌+◌, ◌*◌, ◌^◌, Bool, true, not, ◌&&◌, ◌||◌, Option, none, some, List, [], ◌∷◌,
  if◌then◌else◌,
}
use zuspec_be_sw.Prelude.Int.{ℤ, pos, negsuc, distance, low_bits}
use zuspec_be_sw.Scenario.Constraint.Builder.{
  DvsBin, dvs_band, dvs_rshift, dvs_eq, dvs_neq, dvs_and, dvs_or,
}
use zuspec_be_sw.Scenario.Constraint.Syntax.{
  BinOp, un_add, Expr, constant, odd_constant, self_attr, bin, unary, compare, bool_and, bool_or,
  subscript, slice, in_ranges, opaque_in, other, Exprs, nil, cons, Links, end, link, Ranges, stop,
  value, range, no_range, bin_table, cmp_table, un_table,
}
use zuspec_be_sw.Scenario.Constraint.Emitter.{
  Bounds, no_bounds, bad_bounds, bounds, bitslice_bounds, mask_of, Masked, not_masked, masked_error,
  masked, masked_side, is_equality,
}
use zuspec_be_sw.Scenario.Constraint.Items.{
  Constraint, holds_expr, implies, if_else, unique, solve_before, foreign, bare, Body, empty, item,
}
use zuspec_be_sw.Scenario.Constraint.Solver.{Solver}

module _ (s : Solver) where
  open s use {Value, const_value, binary_value, unary_value, in_range_value, holds}

  abbrev pub nothing : Value
  nothing = const_value (pos 0) 0

  abbrev pub int_value : ℤ → Value
  int_value (pos v) = const_value (pos v) 0
  int_value (negsuc v) = const_value (negsuc v) 1

  -- A non-empty list joined by an operator, from the left.
  unfoldable pub join_from : DvsBin → Value → List Value → Value
  join_from op acc [] = acc
  join_from op acc (v ∷ vs) = join_from op (binary_value op acc v) vs

  abbrev pub join : DvsBin → List Value → Value
  join op [] = nothing
  join op (v ∷ vs) = join_from op v vs

  -- `(x & (mask << lo)) <op> (const << lo)`
  abbrev pub masked_value : DvsBin → Value → ℤ → ℤ → ℤ → Value
  masked_value code x hi (negsuc lo) c = nothing
  masked_value code x hi (pos lo) c =
      let width = distance hi (pos lo) + 1 in
      binary_value code (binary_value dvs_band x (const_value (pos (mask_of width * 2 ^ lo)) 0))
        (const_value (pos (low_bits c width * 2 ^ lo)) 0)

  abbrev pub masked_or_value : DvsBin → Masked → Value → Value → Value
  masked_or_value code not_masked x next = next
  masked_or_value code (masked_error e) x next = nothing
  masked_or_value code (masked hi lo c) x next = masked_value code x hi lo c

  abbrev pub bin_value : BinOp → Masked → Masked → Value → Value → Value → Value → Value
  bin_value op left right x y l r = elim (bin_table op) [
    | none ↦ nothing
    | some code ↦
        if is_equality op
        then masked_or_value code left x (masked_or_value code right y (binary_value code l r))
        else binary_value code l r
  ]

  -- `(x >> lo) & mask`, with no shift by 0.
  abbrev pub shifted_value : ℤ → Value → Value
  shifted_value (pos zero) x = x
  shifted_value (pos (suc lo)) x = binary_value dvs_rshift x (const_value (pos (suc lo)) 0)
  shifted_value (negsuc lo) x = binary_value dvs_rshift x (const_value (negsuc lo) 1)

  abbrev pub extract_value : Value → Bounds → Value
  extract_value x no_bounds = nothing
  extract_value x bad_bounds = nothing
  extract_value x (bounds hi lo) =
      binary_value dvs_band (shifted_value lo x)
        (const_value (pos (mask_of (distance hi lo + 1))) 0)

  -- `v` differs from each later value, and every two values of a list differ.
  unfoldable pub apart : Value → List Value → Bool
  apart v [] = true
  apart v (w ∷ ws) = holds (binary_value dvs_neq v w) && apart v ws

  unfoldable pub all_apart : List Value → Bool
  unfolding apart
  all_apart [] = true
  all_apart (v ∷ vs) = apart v vs && all_apart vs

  module _ (var_id_map : String → Option ℕ) (vars : ℕ → Value) where
    unfoldable mutual
      unfolding bin_table masked_side bitslice_bounds join_from cmp_table un_table

      pub eval : Expr → Value
      eval (constant v) = int_value v
      eval (odd_constant c) = nothing
      eval (self_attr name) = elim (var_id_map name) [ none ↦ nothing | some id ↦ vars id ]
      eval (bin op l r) =
          bin_value op (masked_side l r) (masked_side r l) (eval_sliced l) (eval_sliced r) (eval l)
            (eval r)
      eval (unary un_add o) = eval o
      eval (unary op o) =
          let v = eval o in elim (un_table op) [ none ↦ nothing | some code ↦ unary_value code v ]
      eval (compare left links) = join dvs_and (eval_links links (eval left))
      eval (bool_and es) = join dvs_and (eval_all es)
      eval (bool_or es) = join dvs_or (eval_all es)
      eval (subscript x sl) = extract_value (eval x) (bitslice_bounds sl)
      eval (slice is_bits lower upper) = nothing
      eval (in_ranges e ranges) = join dvs_or (eval_ranges ranges (eval e))
      eval (opaque_in e) = nothing
      eval other = nothing

      pub eval_sliced : Expr → Value
      eval_sliced (subscript x sl) = eval x
      eval_sliced _ = nothing

      pub eval_all : Exprs → List Value
      eval_all nil = []
      eval_all (cons e es) = eval e ∷ eval_all es

      -- `left op0 c0`, `c0 op1 c1`, …
      pub eval_links : Links → Value → List Value
      eval_links end left = []
      eval_links (link op e links) left =
          let right = eval e in
          let rest = eval_links links right in
          elim (cmp_table op) [ none ↦ [] | some code ↦ binary_value code left right ∷ rest ]

      pub eval_ranges : Ranges → Value → List Value
      eval_ranges stop v = []
      eval_ranges (value lower ranges) v = binary_value dvs_eq v (eval lower) ∷ eval_ranges ranges v
      eval_ranges (range lower upper ranges) v =
          in_range_value v (eval lower) (eval upper) ∷ eval_ranges ranges v
      eval_ranges (no_range ranges) v = []

    -- Does the constraint hold? An ordering hint always does, and so does a body with no item.
    unfoldable mutual
      unfolding eval all_apart

      pub meaning : Constraint → Bool
      meaning (holds_expr e) = holds (eval e)
      meaning (implies antecedent body) = not (holds (eval antecedent)) || body_meaning body
      meaning (if_else cond then_body else_body) =
          if holds (eval cond) then body_meaning then_body else body_meaning else_body
      meaning (unique items) = all_apart (eval_all items)
      meaning solve_before = true
      meaning foreign = true
      meaning (bare e) = holds (eval e)

      pub body_meaning : Body → Bool
      body_meaning empty = true
      body_meaning (item c body) = meaning c && body_meaning body
