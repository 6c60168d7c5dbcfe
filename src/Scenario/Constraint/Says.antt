-- ===== src/Scenario/Constraint/Says.antt =====
-- What constraints without bit slices say, operator by operator, for
-- src/zuspec/be/sw/scenario/constraint_c.py.
use Prim.Native.String.{String}
use zuspec_be_sw.Prelude.{ℕ, Bool, true, false, not, ◌&&◌, ◌||◌, Option, none, some, List, [], ◌∷◌}
use zuspec_be_sw.Scenario.Constraint.Builder.{
  dvs_add, dvs_sub, dvs_mul, dvs_div, dvs_mod, dvs_band, dvs_bor, dvs_bxor, dvs_lshift, dvs_ashr,
  dvs_eq, dvs_neq, dvs_lt, dvs_lte, dvs_gt, dvs_gte, dvs_and, dvs_or, dvs_neg, dvs_not, dvs_invert,
}
use zuspec_be_sw.Scenario.Constraint.Syntax.{
  BinOp, op_add, op_sub, op_mult, op_div, op_mod, op_bit_and, op_bit_or, op_bit_xor, op_lshift,
  op_rshift, op_eq, op_not_eq, op_lt, op_lt_e, op_gt, op_gt_e, op_and, op_or, op_other, CmpOp,
  cmp_eq, cmp_not_eq, cmp_lt, cmp_lt_e, cmp_gt, cmp_gt_e, cmp_other, UnaryOp, un_sub, un_not,
  un_invert, un_add, un_other, Expr, constant, odd_constant, self_attr, bin, unary, compare,
  bool_and, bool_or, subscript, slice, in_ranges, opaque_in, other, Exprs, nil, cons, Links, end,
  link, Ranges, stop, value, range, no_range,
}
use zuspec_be_sw.Scenario.Constraint.Items.{
  Constraint, holds_expr, implies, if_else, unique, solve_before, foreign, bare, Body, empty, item,
}
use zuspec_be_sw.Scenario.Constraint.Solver.{Solver}
use zuspec_be_sw.Scenario.Constraint.Meaning.{nothing, int_value, join, all_apart}

-- No bit slice, and no comparison of an unknown kind.
unfoldable mutual
  pub is_plain : Expr → Bool
  is_plain (bin op l r) = is_plain l && is_plain r
  is_plain (unary op o) = is_plain o
  is_plain (compare left links) = is_plain left && plain_links links
  is_plain (bool_and es) = all_plain es
  is_plain (bool_or es) = all_plain es
  is_plain (subscript x sl) = false
  is_plain (slice is_bits lower upper) = false
  is_plain (in_ranges e ranges) = is_plain e && plain_ranges ranges
  is_plain (constant v) = true
  is_plain (odd_constant c) = true
  is_plain (self_attr name) = true
  is_plain (opaque_in e) = true
  is_plain other = true

  pub all_plain : Exprs → Bool
  all_plain nil = true
  all_plain (cons e es) = is_plain e && all_plain es

  pub plain_links : Links → Bool
  plain_links end = true
  plain_links (link cmp_other e links) = false
  plain_links (link op e links) = is_plain e && plain_links links

  pub plain_ranges : Ranges → Bool
  plain_ranges stop = true
  plain_ranges (value lower ranges) = is_plain lower && plain_ranges ranges
  plain_ranges (range lower upper ranges) =
      is_plain lower && (is_plain upper && plain_ranges ranges)
  plain_ranges (no_range ranges) = plain_ranges ranges

unfoldable mutual
  unfolding is_plain all_plain

  pub plain_constraint : Constraint → Bool
  plain_constraint (holds_expr e) = is_plain e
  plain_constraint (implies e body) = is_plain e && plain_body body
  plain_constraint (if_else e a b) = is_plain e && (plain_body a && plain_body b)
  plain_constraint (unique items) = all_plain items
  plain_constraint solve_before = true
  plain_constraint foreign = true
  plain_constraint (bare e) = is_plain e

  pub plain_body : Body → Bool
  plain_body empty = true
  plain_body (item c body) = plain_constraint c && plain_body body

module _ (s : Solver) where
  open s use {Value, binary_value, unary_value, in_range_value, holds}

  -- The operators of Python by what the solver calls them.
  abbrev pub bin_says : BinOp → Value → Value → Value
  bin_says op_add a b = binary_value dvs_add a b
  bin_says op_sub a b = binary_value dvs_sub a b
  bin_says op_mult a b = binary_value dvs_mul a b
  bin_says op_div a b = binary_value dvs_div a b
  bin_says op_mod a b = binary_value dvs_mod a b
  bin_says op_bit_and a b = binary_value dvs_band a b
  bin_says op_bit_or a b = binary_value dvs_bor a b
  bin_says op_bit_xor a b = binary_value dvs_bxor a b
  bin_says op_lshift a b = binary_value dvs_lshift a b
  bin_says op_rshift a b = binary_value dvs_ashr a b
  bin_says op_eq a b = binary_value dvs_eq a b
  bin_says op_not_eq a b = binary_value dvs_neq a b
  bin_says op_lt a b = binary_value dvs_lt a b
  bin_says op_lt_e a b = binary_value dvs_lte a b
  bin_says op_gt a b = binary_value dvs_gt a b
  bin_says op_gt_e a b = binary_value dvs_gte a b
  bin_says op_and a b = binary_value dvs_and a b
  bin_says op_or a b = binary_value dvs_or a b
  bin_says op_other a b = nothing s

  abbrev pub cmp_says : CmpOp → Value → Value → Value
  cmp_says cmp_eq a b = binary_value dvs_eq a b
  cmp_says cmp_not_eq a b = binary_value dvs_neq a b
  cmp_says cmp_lt a b = binary_value dvs_lt a b
  cmp_says cmp_lt_e a b = binary_value dvs_lte a b
  cmp_says cmp_gt a b = binary_value dvs_gt a b
  cmp_says cmp_gt_e a b = binary_value dvs_gte a b
  cmp_says cmp_other a b = nothing s

  abbrev pub un_says : UnaryOp → Value → Value
  un_says un_sub a = unary_value dvs_neg a
  un_says un_not a = unary_value dvs_not a
  un_says un_invert a = unary_value dvs_invert a
  un_says un_add a = a
  un_says un_other a = nothing s

  module _ (var_id_map : String → Option ℕ) (vars : ℕ → Value) where
    unfoldable mutual
      pub says : Expr → Value
      says (constant v) = int_value s v
      says (odd_constant c) = nothing s
      says (self_attr name) = elim (var_id_map name) [ none ↦ nothing s | some id ↦ vars id ]
      says (bin op l r) = bin_says op (says l) (says r)
      says (unary op o) = un_says op (says o)
      says (compare left links) = join s dvs_and (says_links links (says left))
      says (bool_and es) = join s dvs_and (says_all es)
      says (bool_or es) = join s dvs_or (says_all es)
      says (subscript x sl) = nothing s
      says (slice is_bits lower upper) = nothing s
      says (in_ranges e ranges) = join s dvs_or (says_ranges ranges (says e))
      says (opaque_in e) = nothing s
      says other = nothing s

      pub says_all : Exprs → List Value
      says_all nil = []
      says_all (cons e es) = says e ∷ says_all es

      pub says_links : Links → Value → List Value
      says_links end left = []
      says_links (link op e links) left = cmp_says op left (says e) ∷ says_links links (says e)

      pub says_ranges : Ranges → Value → List Value
      says_ranges stop v = []
      says_ranges (value lower ranges) v = binary_value dvs_eq v (says lower) ∷ says_ranges ranges v
      says_ranges (range lower upper ranges) v =
          in_range_value v (says lower) (says upper) ∷ says_ranges ranges v
      says_ranges (no_range ranges) v = []

    -- Does the constraint hold? An ordering hint always does.
    unfoldable mutual
      unfolding says all_apart

      pub is_met : Constraint → Bool
      is_met (holds_expr e) = holds (says e)
      is_met (implies antecedent body) = not (holds (says antecedent)) || all_met body
      is_met (if_else cond then_body else_body) =
          (not (holds (says cond)) || all_met then_body) && (holds (says cond) || all_met else_body)
      is_met (unique items) = all_apart s (says_all items)
      is_met solve_before = true
      is_met foreign = true
      is_met (bare e) = holds (says e)

      pub all_met : Body → Bool
      all_met empty = true
      all_met (item c body) = is_met c && all_met body
