-- ===== src/Rtl/CombOrder/Fields.antt =====
-- The fields that the processes of src/zuspec/be/sw/passes/rtl/comb_order.py read and write, and the
-- order that `CombTopoSortPass.run` gives them.
use mathlib.Core.Path.{ap₂}
use mathlib.Core.Bool.{and-eq-true_iff}
use zuspec_be_sw.Prelude.{
  ℕ, ◌<◌, ◌≡◌, ◌≢◌, refl, Bool, true, false, ◌&&◌, Option, none, some, List, [], ◌++◌, length,
  count, get_or,
}
use zuspec_be_sw.Rtl.CombOrder.{
  Expr, self_ref, ref_field, unary, call, subscript, node, Exprs, nil, cons, Stmt, assign,
  aug_assign, expr_stmt, return_stmt, block, Stmts, done, seq, self_field, collect_reads_opt,
  target_writes, stmt_reads, stmts_reads, stmt_writes, stmts_writes, Func, empty_func,
}
use zuspec_be_sw.Rtl.CombOrder.Reads.{all_fields, is_plain, collect_reads-eq-all_fields}

abbrev opt_fields : Option Expr → List ℕ
opt_fields none = []
opt_fields (some e) = all_fields e

unfoldable targets_fields : Exprs → List ℕ
targets_fields nil = []
targets_fields (cons t ts) = all_fields t ++ targets_fields ts

-- Every field that is named in a value, a test or the target of an augmented assignment.
unfoldable mutual
  unfolding all_fields

  pub named_reads : Stmt → List ℕ
  named_reads (assign targets value) = all_fields value
  named_reads (aug_assign target value) = all_fields target ++ all_fields value
  named_reads (expr_stmt e) = all_fields e
  named_reads (return_stmt value) = opt_fields value
  named_reads (block body orelse handlers finalbody test) =
      named_reads_all body
      ++ (named_reads_all orelse
          ++ (named_reads_all handlers ++ (named_reads_all finalbody ++ opt_fields test)))

  pub named_reads_all : Stmts → List ℕ
  named_reads_all done = []
  named_reads_all (seq s ss) = named_reads s ++ named_reads_all ss

-- Every field that is named in a target.
unfoldable mutual
  unfolding all_fields targets_fields

  pub named_writes : Stmt → List ℕ
  named_writes (assign targets value) = targets_fields targets
  named_writes (aug_assign target value) = all_fields target
  named_writes (expr_stmt e) = []
  named_writes (return_stmt value) = []
  named_writes (block body orelse handlers finalbody test) =
      named_writes_all body
      ++ (named_writes_all orelse ++ (named_writes_all handlers ++ named_writes_all finalbody))

  pub named_writes_all : Stmts → List ℕ
  named_writes_all done = []
  named_writes_all (seq s ss) = named_writes s ++ named_writes_all ss

-- A target is a field of the component or a local; no expression has a unary operator, a call or an
-- index.
abbrev is_target : Expr → Bool
is_target (ref_field self_ref i) = true
is_target (node nil) = true
is_target _ = false

unfoldable are_targets : Exprs → Bool
are_targets nil = true
are_targets (cons t ts) = is_target t && are_targets ts

abbrev opt_plain : Option Expr → Bool
opt_plain none = true
opt_plain (some e) = is_plain e

unfoldable mutual
  unfolding is_plain are_targets

  pub plain_stmt : Stmt → Bool
  plain_stmt (assign targets value) = are_targets targets && is_plain value
  plain_stmt (aug_assign target value) = is_target target && is_plain value
  plain_stmt (expr_stmt e) = is_plain e
  plain_stmt (return_stmt value) = opt_plain value
  plain_stmt (block body orelse handlers finalbody test) =
      plain_stmts body
      && (plain_stmts orelse && (plain_stmts handlers && (plain_stmts finalbody && opt_plain test)))

  pub plain_stmts : Stmts → Bool
  plain_stmts done = true
  plain_stmts (seq s ss) = plain_stmt s && plain_stmts ss

both : (a b : Bool) → (a && b) ≡ true → (a ≡ true) × (b ≡ true)
both a b h = (and-eq-true_iff a b).0 h

target-fields : (t : Expr) → is_target t ≡ true → self_field t ≡ all_fields t
unfolding all_fields
target-fields (ref_field self_ref i) h = refl
target-fields (ref_field (ref_field b j) i) h = cc
target-fields (ref_field (unary b) i) h = cc
target-fields (ref_field (call b a) i) h = cc
target-fields (ref_field (subscript b a) i) h = cc
target-fields (ref_field (node b) i) h = cc
target-fields (node nil) h = refl
target-fields (node (cons e es)) h = cc
target-fields self_ref h = cc
target-fields (unary e) h = cc
target-fields (call e es) h = cc
target-fields (subscript e es) h = cc

targets-fields : (ts : Exprs) → are_targets ts ≡ true → target_writes ts ≡ targets_fields ts
unfolding are_targets target_writes targets_fields
targets-fields nil h = refl
targets-fields (cons t ts) h =
    let (p, q) = both (is_target t) (are_targets ts) h in
    ap₂ ◌++◌ (target-fields t p) (targets-fields ts q)

opt-fields : (o : Option Expr) → opt_plain o ≡ true → collect_reads_opt o ≡ opt_fields o
opt-fields none h = refl
opt-fields (some e) h = collect_reads-eq-all_fields e h

mutual
  unfolding stmt_reads stmts_reads named_reads named_reads_all plain_stmt plain_stmts

  stmt_reads-named : (s : Stmt) → plain_stmt s ≡ true → stmt_reads s ≡ named_reads s
  stmt_reads-named (assign ts e) h =
      collect_reads-eq-all_fields e (both (are_targets ts) (is_plain e) h).1
  stmt_reads-named (aug_assign t e) h =
      let (p, q) = both (is_target t) (is_plain e) h in
      ap₂ ◌++◌ (target-fields t p) (collect_reads-eq-all_fields e q)
  stmt_reads-named (expr_stmt e) h = collect_reads-eq-all_fields e h
  stmt_reads-named (return_stmt o) h = opt-fields o h
  stmt_reads-named (block a b c d t) h =
      let (p, h1) = both (plain_stmts a) _ h in
      let (q, h2) = both (plain_stmts b) _ h1 in
      let (r, h3) = both (plain_stmts c) _ h2 in
      let (u, v) = both (plain_stmts d) _ h3 in
      ap₂ ◌++◌ (stmts_reads-named a p) (
        ap₂ ◌++◌ (stmts_reads-named b q)
          (ap₂ ◌++◌ (stmts_reads-named c r) (ap₂ ◌++◌ (stmts_reads-named d u) (opt-fields t v))))

  stmts_reads-named : (ss : Stmts) → plain_stmts ss ≡ true → stmts_reads ss ≡ named_reads_all ss
  stmts_reads-named done h = refl
  stmts_reads-named (seq s ss) h =
      let (p, q) = both (plain_stmt s) (plain_stmts ss) h in
      ap₂ ◌++◌ (stmt_reads-named s p) (stmts_reads-named ss q)

mutual
  unfolding stmt_writes stmts_writes named_writes named_writes_all plain_stmt plain_stmts

  stmt_writes-named : (s : Stmt) → plain_stmt s ≡ true → stmt_writes s ≡ named_writes s
  stmt_writes-named (assign ts e) h = targets-fields ts (both (are_targets ts) (is_plain e) h).0
  stmt_writes-named (aug_assign t e) h = target-fields t (both (is_target t) (is_plain e) h).0
  stmt_writes-named (expr_stmt e) h = refl
  stmt_writes-named (return_stmt o) h = refl
  stmt_writes-named (block a b c d t) h =
      let (p, h1) = both (plain_stmts a) _ h in
      let (q, h2) = both (plain_stmts b) _ h1 in
      let (r, h3) = both (plain_stmts c) _ h2 in
      let (u, v) = both (plain_stmts d) _ h3 in
      ap₂ ◌++◌ (stmts_writes-named a p) (
        ap₂ ◌++◌ (stmts_writes-named b q)
          (ap₂ ◌++◌ (stmts_writes-named c r) (stmts_writes-named d u)))

  stmts_writes-named : (ss : Stmts) → plain_stmts ss ≡ true → stmts_writes ss ≡ named_writes_all ss
  stmts_writes-named done h = refl
  stmts_writes-named (seq s ss) h =
      let (p, q) = both (plain_stmt s) (plain_stmts ss) h in
      ap₂ ◌++◌ (stmt_writes-named s p) (stmts_writes-named ss q)

-- Two lists that share a number.
abbrev pub Shared : List ℕ → List ℕ → Type 0
Shared xs ys = (f : ℕ) × (0 < count f xs) × (0 < count f ys)

module _ (funcs : List Func) where
  abbrev body_of : ℕ → Stmts
  body_of i = (get_or funcs i empty_func).body

  -- A process drives another one: it writes a field that the other reads.
  abbrev pub Drives : ℕ → ℕ → Type 0
  Drives i j = (i ≢ j) × Shared (named_writes_all (body_of i)) (named_reads_all (body_of j))

  -- No process drives itself through others: the processes can be ranked along the fields.
  abbrev pub IsLoopFree : Type 0
  IsLoopFree =
      (rank : ℕ → ℕ) × ((i j : ℕ)
        → i < length funcs
        → j < length funcs
        → Drives i j
        → rank i < rank j)
