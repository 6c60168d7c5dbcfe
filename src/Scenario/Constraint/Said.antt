-- ===== src/Scenario/Constraint/Said.antt =====
-- The lines that src/zuspec/be/sw/scenario/constraint_c.py generates hold exactly when the constraints are met.
use Prim.Native.String.{String}
use mathlib.Core.Bool.{and-eq-true_iff}
use mathlib.Core.Path.{ap₂}
use zuspec_be_sw.Prelude.{
  ℕ, ◌≡◌, refl, ap, ◌∙◌, Bool, true, not, ◌&&◌, ◌||◌, Option, List, [], ◌∷◌, arith,
}
use zuspec_be_sw.Scenario.Constraint.Builder.{
  dvs_eq, dvs_neq, dvs_lt, dvs_lte, dvs_gt, dvs_gte, dvs_and, dvs_or, dvs_neg, dvs_not, dvs_invert,
}
use zuspec_be_sw.Scenario.Constraint.Syntax.{
  BinOp, op_add, op_sub, op_mult, op_div, op_mod, op_bit_and, op_bit_or, op_bit_xor, op_lshift,
  op_rshift, op_eq, op_not_eq, op_lt, op_lt_e, op_gt, op_gt_e, op_and, op_or, op_other, cmp_eq,
  cmp_not_eq, cmp_lt, cmp_lt_e, cmp_gt, cmp_gt_e, cmp_other, un_sub, un_not, un_invert, un_add,
  un_other, Expr, constant, odd_constant, self_attr, bin, unary, compare, bool_and, bool_or,
  subscript, slice, in_ranges, opaque_in, other, Exprs, nil, cons, Links, end, link, Ranges, stop,
  value, range, no_range, bin_table, cmp_table, un_table,
}
use zuspec_be_sw.Scenario.Constraint.Emitter.{slice_bounds, no_bounds, not_masked, masked_side}
use zuspec_be_sw.Scenario.Constraint.Items.{
  Constraint, holds_expr, implies, if_else, unique, solve_before, foreign, bare, Body, empty, item,
}
use zuspec_be_sw.Scenario.Constraint.Solver.{Solver}
use zuspec_be_sw.Scenario.Constraint.Meaning.{
  join, bin_value, eval, eval_sliced, eval_all, eval_links, eval_ranges, all_apart, meaning,
  body_meaning,
}
use zuspec_be_sw.Scenario.Constraint.Builder.{State, ok}
use zuspec_be_sw.Scenario.Constraint.Items.{emit_all}
use zuspec_be_sw.Scenario.Constraint.Solver.{Machine, exec}
use zuspec_be_sw.Scenario.Constraint.Program.{all_meaning, emit_all-meaning}
use zuspec_be_sw.Scenario.Constraint.Says.{
  is_plain, all_plain, plain_links, plain_ranges, plain_constraint, plain_body, bin_says, says,
  says_all, says_links, says_ranges, is_met, all_met,
}

both : (a b : Bool) → (a && b) ≡ true → (a ≡ true) × (b ≡ true)
both a b h = (and-eq-true_iff a b).0 h

module _ (s : Solver) where
  open s use {Value, binary_value, unary_value, in_range_value, holds}

  module _ (var_id_map : String → Option ℕ) (vars : ℕ → Value) where
    no_slice : (e : Expr) → is_plain e ≡ true → slice_bounds e ≡ no_bounds
    unfolding is_plain
    no_slice (constant v) h = refl
    no_slice (odd_constant c) h = refl
    no_slice (self_attr name) h = refl
    no_slice (bin op l r) h = refl
    no_slice (unary op o) h = refl
    no_slice (compare left links) h = refl
    no_slice (bool_and es) h = refl
    no_slice (bool_or es) h = refl
    no_slice (subscript x sl) h = cc
    no_slice (slice b l u) h = cc
    no_slice (in_ranges e ranges) h = refl
    no_slice (opaque_in e) h = refl
    no_slice other h = refl

    no_mask : (l r : Expr) → is_plain l ≡ true → masked_side l r ≡ not_masked
    unfolding masked_side
    no_mask l r h = rw (no_slice l h) refl

    bin_lem :
        (op : BinOp) (x y a b : Value)
        → bin_value s op not_masked not_masked x y a b ≡ bin_says s op a b
    unfolding bin_table
    bin_lem op_add x y a b = refl
    bin_lem op_sub x y a b = refl
    bin_lem op_mult x y a b = refl
    bin_lem op_div x y a b = refl
    bin_lem op_mod x y a b = refl
    bin_lem op_bit_and x y a b = refl
    bin_lem op_bit_or x y a b = refl
    bin_lem op_bit_xor x y a b = refl
    bin_lem op_lshift x y a b = refl
    bin_lem op_rshift x y a b = refl
    bin_lem op_eq x y a b = refl
    bin_lem op_not_eq x y a b = refl
    bin_lem op_lt x y a b = refl
    bin_lem op_lt_e x y a b = refl
    bin_lem op_gt x y a b = refl
    bin_lem op_gt_e x y a b = refl
    bin_lem op_and x y a b = refl
    bin_lem op_or x y a b = refl
    bin_lem op_other x y a b = refl

    mutual
      unfolding eval eval_all eval_links eval_ranges says says_all says_links says_ranges is_plain
          all_plain plain_links plain_ranges cmp_table un_table

      eval-says :
          (e : Expr) → is_plain e ≡ true → eval s var_id_map vars e ≡ says s var_id_map vars e
      eval-says (constant v) h = refl
      eval-says (odd_constant c) h = refl
      eval-says (self_attr name) h = refl
      eval-says (bin op l r) h =
          let (p, q) = both (is_plain l) (is_plain r) h in
          rw (no_mask l r p, no_mask r l q)
            (bin_lem op (eval_sliced s var_id_map vars l) (eval_sliced s var_id_map vars r) _ _
              ∙ ap₂ (bin_says s op) (eval-says l p) (eval-says r q))
      eval-says (unary un_sub o) h = ap (unary_value dvs_neg) (eval-says o h)
      eval-says (unary un_not o) h = ap (unary_value dvs_not) (eval-says o h)
      eval-says (unary un_invert o) h = ap (unary_value dvs_invert) (eval-says o h)
      eval-says (unary un_add o) h = eval-says o h
      eval-says (unary un_other o) h = refl
      eval-says (compare left links) h =
          let (p, q) = both (is_plain left) (plain_links links) h in
          ap (join s dvs_and) (
            eval_links-says links (eval s var_id_map vars left) (says s var_id_map vars left)
              (eval-says left p) q)
      eval-says (bool_and es) h = ap (join s dvs_and) (eval_all-says es h)
      eval-says (bool_or es) h = ap (join s dvs_or) (eval_all-says es h)
      eval-says (subscript x sl) h = cc
      eval-says (slice b l u) h = cc
      eval-says (in_ranges e ranges) h =
          let (p, q) = both (is_plain e) (plain_ranges ranges) h in
          ap (join s dvs_or) (
            eval_ranges-says ranges (eval s var_id_map vars e) (says s var_id_map vars e)
              (eval-says e p) q)
      eval-says (opaque_in e) h = refl
      eval-says other h = refl

      eval_all-says :
          (es : Exprs)
          → all_plain es ≡ true
          → eval_all s var_id_map vars es ≡ says_all s var_id_map vars es
      eval_all-says nil h = refl
      eval_all-says (cons e es) h =
          let (p, q) = both (is_plain e) (all_plain es) h in
          ap₂ ◌∷◌ (eval-says e p) (eval_all-says es q)

      eval_links-says :
          (links : Links) (a b : Value)
          → a ≡ b
          → plain_links links ≡ true
          → eval_links s var_id_map vars links a ≡ says_links s var_id_map vars links b
      eval_links-says end a b e h = refl
      eval_links-says (link cmp_eq x links) a b e h =
          let (p, q) = both (is_plain x) (plain_links links) h in
          let right = eval-says x p in
          ap₂ ◌∷◌ (ap₂ (binary_value dvs_eq) e right)
            (eval_links-says links _ (says s var_id_map vars x) right q)
      eval_links-says (link cmp_not_eq x links) a b e h =
          let (p, q) = both (is_plain x) (plain_links links) h in
          let right = eval-says x p in
          ap₂ ◌∷◌ (ap₂ (binary_value dvs_neq) e right)
            (eval_links-says links _ (says s var_id_map vars x) right q)
      eval_links-says (link cmp_lt x links) a b e h =
          let (p, q) = both (is_plain x) (plain_links links) h in
          let right = eval-says x p in
          ap₂ ◌∷◌ (ap₂ (binary_value dvs_lt) e right)
            (eval_links-says links _ (says s var_id_map vars x) right q)
      eval_links-says (link cmp_lt_e x links) a b e h =
          let (p, q) = both (is_plain x) (plain_links links) h in
          let right = eval-says x p in
          ap₂ ◌∷◌ (ap₂ (binary_value dvs_lte) e right)
            (eval_links-says links _ (says s var_id_map vars x) right q)
      eval_links-says (link cmp_gt x links) a b e h =
          let (p, q) = both (is_plain x) (plain_links links) h in
          let right = eval-says x p in
          ap₂ ◌∷◌ (ap₂ (binary_value dvs_gt) e right)
            (eval_links-says links _ (says s var_id_map vars x) right q)
      eval_links-says (link cmp_gt_e x links) a b e h =
          let (p, q) = both (is_plain x) (plain_links links) h in
          let right = eval-says x p in
          ap₂ ◌∷◌ (ap₂ (binary_value dvs_gte) e right)
            (eval_links-says links _ (says s var_id_map vars x) right q)
      eval_links-says (link cmp_other x links) a b e h = cc

      eval_ranges-says :
          (ranges : Ranges) (a b : Value)
          → a ≡ b
          → plain_ranges ranges ≡ true
          → eval_ranges s var_id_map vars ranges a ≡ says_ranges s var_id_map vars ranges b
      eval_ranges-says stop a b e h = refl
      eval_ranges-says (value x ranges) a b e h =
          let (p, q) = both (is_plain x) (plain_ranges ranges) h in
          ap₂ ◌∷◌ (ap₂ (binary_value dvs_eq) e (eval-says x p)) (eval_ranges-says ranges a b e q)
      eval_ranges-says (range x y ranges) a b e h =
          let (p, r) = both (is_plain x) (is_plain y && plain_ranges ranges) h in
          let (q, t) = both (is_plain y) (plain_ranges ranges) r in
          let low = eval-says x p in
          let high = eval-says y q in
          ap₂ ◌∷◌ (λ i. in_range_value (e i) (low i) (high i)) (eval_ranges-says ranges a b e t)
      eval_ranges-says (no_range ranges) a b e h = refl

    mutual
      unfolding meaning body_meaning is_met all_met plain_constraint plain_body

      meaning-is_met :
          (c : Constraint)
          → plain_constraint c ≡ true
          → meaning s var_id_map vars c ≡ is_met s var_id_map vars c
      meaning-is_met (holds_expr e) h = ap holds (eval-says e h)
      meaning-is_met (implies e body) h =
          let (p, q) = both (is_plain e) (plain_body body) h in
          ap₂ (λ v b. not (holds v) || b) (eval-says e p) (body_meaning-all_met body q)
      meaning-is_met (if_else e a b) h =
          let (p, r) = both (is_plain e) (plain_body a && plain_body b) h in
          let (q, t) = both (plain_body a) (plain_body b) r in
          let cond = ap holds (eval-says e p) in
          ground (arith, cond, body_meaning-all_met a q, body_meaning-all_met b t)
      meaning-is_met (unique items) h = ap (all_apart s) (eval_all-says items h)
      meaning-is_met solve_before h = refl
      meaning-is_met foreign h = refl
      meaning-is_met (bare e) h = ap holds (eval-says e h)

      body_meaning-all_met :
          (b : Body)
          → plain_body b ≡ true
          → body_meaning s var_id_map vars b ≡ all_met s var_id_map vars b
      body_meaning-all_met empty h = refl
      body_meaning-all_met (item c body) h =
          let (p, q) = both (plain_constraint c) (plain_body body) h in
          ap₂ ◌&&◌ (meaning-is_met c p) (body_meaning-all_met body q)

    abbrev pub are_met : List Constraint → Bool
    are_met [] = true
    are_met (c ∷ cs) = is_met s var_id_map vars c && are_met cs

    abbrev pub are_plain : List Constraint → Bool
    are_plain [] = true
    are_plain (c ∷ cs) = plain_constraint c && are_plain cs

    all_meaning-are_met :
        (start : Machine s) (cs : List Constraint)
        → are_plain cs ≡ true
        → all_meaning s vars start var_id_map cs ≡ are_met cs
    all_meaning-are_met start [] h = refl
    all_meaning-are_met start (c ∷ cs) h =
        let (p, q) = both (plain_constraint c) (are_plain cs) h in
        ap₂ ◌&&◌ (meaning-is_met c p) (all_meaning-are_met start cs q)

    -- When the constraints of a problem, which have no bit slices and no unknown comparisons, are
    -- emitted without an error, running the generated lines under an assignment of the variables
    -- adds constraints that all hold exactly when each of the given constraints is met: each Python
    -- operator as the solver's operation of that name.
    pub emit_all-is_met :
        (start : Machine s) (cs : List Constraint) (st st' : State) (u : Unit {0})
        → are_plain cs ≡ true
        → emit_all var_id_map cs st ≡ ok (u, st')
        → (exec s vars st'.lines start).sat ≡ ((exec s vars st.lines start).sat && are_met cs)
    emit_all-is_met start cs st st' u plain k =
        emit_all-meaning s vars start var_id_map cs st st' u k
        ∙ ap (λ b. (exec s vars st.lines start).sat && b) (all_meaning-are_met start cs plain)
