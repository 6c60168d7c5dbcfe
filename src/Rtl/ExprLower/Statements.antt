-- ===== src/Rtl/ExprLower/Statements.antt =====
-- `ExprLower.lower_stmts` of src/zuspec/be/sw/passes/rtl/expr_lower.py, and `collect_local_names`.
use zuspec_be_sw.Prelude.{
  ℕ, Bool, true, false, ◌||◌, Option, none, some, List, [], ◌∷◌, ◌++◌, ◌==◌, if◌then◌else◌,
}
use zuspec_be_sw.Rtl.ExprLower.Syntax.{
  Const, text, strings, BinOp, Expr, none_expr, self_ref, constant, local_ref, param_ref,
  unresolved, subscript, call, Exprs, Stmt, assign, aug_assign, if_stmt, for_stmt, while_stmt,
  expr_stmt, return_stmt, pass_stmt, other_stmt, Stmts, done, seq, setattr_name, range_name,
}
use zuspec_be_sw.Rtl.ExprLower.Syntax
use zuspec_be_sw.Rtl.ExprLower.CCode.{
  CBinary, add, sub, mul, div, rem, band, bor, bxor, shl, shr, CExpr, lit, name, field, index,
  raised, CExprs,
}
use zuspec_be_sw.Rtl.ExprLower.CCode
use zuspec_be_sw.Rtl.ExprLower.Lower.{Setup, space_of, lower_expr, lower_all}

-- The lines of C: `declare` is `uint32_t <name> = <value>;`, `block` the block for a loop over
-- anything but a range.
mutual
  pub data CStmt : Type 0 where
    line : CExpr → CStmt
    store : CExpr → CExpr → CStmt
    declare : ℕ → CExpr → CStmt
    store_op : CBinary → CExpr → CExpr → CStmt
    branch : CExpr → CStmts → CStmts → CStmt
    count_loop : CExpr → CExpr → CExpr → CExpr → CStmts → CStmt
    block : CStmts → CStmt
    test_loop : CExpr → CStmts → CStmt
    leave : CStmt
    leave_with : CExpr → CStmt
    comment : CStmt

  pub data CStmts : Type 0 where
    empty : CStmts
    after : CStmt → CStmts → CStmts

abbrev pub append : CStmts → CStmts → CStmts
append empty ys = ys
append (after x xs) ys = after x (append xs ys)

abbrev pub one_line : CStmt → CStmts
one_line s = after s empty

-- `_AUGOP_MAP`: an operator that it does not have is written +=.
abbrev pub augop_map : BinOp → CBinary
augop_map BinOp.minus = sub
augop_map BinOp.times = mul
augop_map BinOp.true_div = div
augop_map BinOp.floor_div = div
augop_map BinOp.modulo = rem
augop_map BinOp.shift_left = shl
augop_map BinOp.shift_right = shr
augop_map BinOp.bit_conj = band
augop_map BinOp.bit_disj = bor
augop_map BinOp.bit_excl = bxor
augop_map _ = add

abbrev pub is_declared : ℕ → List ℕ → Bool
is_declared n [] = false
is_declared n (d ∷ ds) = (n == d) || is_declared n ds

-- The lines, and `_locals` after them.
pub record Lowered : Type 0 where
  pub lines : CStmts
  pub locals : List ℕ

abbrev pub lowered : CStmts → List ℕ → Lowered
lowered ls ds = record { lines = ls; locals = ds }

-- The fields that a loop of `setattr(self, name, value)` over names sets, with the value.
abbrev pub setattr_value : Exprs → Option Expr
setattr_value
      (Syntax.Exprs.cons self_ref
        (Syntax.Exprs.cons (local_ref n) (Syntax.Exprs.cons v Syntax.Exprs.nil))) =
    some v
setattr_value _ = none

abbrev pub setattr_call : Expr → Option Expr
setattr_call (call (unresolved n) args) =
    let v = setattr_value args in if n == setattr_name then v else none
setattr_call _ = none

abbrev pub unrolled_value : Stmts → Option Expr
unrolled_value (seq (expr_stmt e) done) = setattr_call e
unrolled_value _ = none

pub data Loop : Type 0 where
  unrolled : List ℕ → Expr → Loop
  ranged : Exprs → Loop
  generic : Loop

abbrev pub unrolled_or : Option Expr → List ℕ → Loop
unrolled_or none ns = generic
unrolled_or (some v) ns = unrolled ns v

abbrev pub is_range : Expr → Bool
is_range (unresolved n) = n == range_name
is_range (local_ref n) = n == range_name
is_range (param_ref n) = n == range_name
is_range _ = false

abbrev pub loop_kind : Expr → Stmts → Loop
loop_kind (constant (strings ns)) body = unrolled_or (unrolled_value body) ns
loop_kind (call f args) body = if is_range f then ranged args else generic
loop_kind _ body = generic

-- The loop over a range, from its lowered arguments.
abbrev pub range_loop : CExpr → CExprs → CStmts → CStmt
range_loop tgt (CCode.CExprs.cons stop CCode.CExprs.nil) body =
    count_loop tgt (lit 0) stop (lit 1) body
range_loop tgt (CCode.CExprs.cons start (CCode.CExprs.cons stop CCode.CExprs.nil)) body =
    count_loop tgt start stop (lit 1) body
range_loop tgt (CCode.CExprs.cons start (CCode.CExprs.cons stop (CCode.CExprs.cons step more)))
      body =
    count_loop tgt start stop step body
range_loop tgt CCode.CExprs.nil body = count_loop tgt raised raised raised body

-- The three cases of `_lower_assign`.
pub data TargetKind : Type 0 where
  to_local : ℕ → TargetKind
  to_element : Expr → Expr → TargetKind
  to_place : TargetKind

abbrev pub target_kind : Expr → TargetKind
target_kind (local_ref n) = to_local n
target_kind (subscript v slc) = to_element v slc
target_kind _ = to_place

-- A string constant as a statement, and no value after a return.
abbrev pub is_docstring : Expr → Bool
is_docstring (constant (text t)) = true
is_docstring _ = false

abbrev pub is_none : Expr → Bool
is_none none_expr = true
is_none _ = false

module _ (setup : Setup) (predecl_locals write_ctx : Bool) where
  abbrev pub target_line : TargetKind → CExpr → CExpr → List ℕ → CStmt
  target_line (to_local n) place rhs locals =
      if predecl_locals
      then store (name n) rhs
      else if is_declared n locals
      then store (name n) rhs
      else declare n rhs
  target_line (to_element v slc) place rhs locals =
      store (index (lower_expr setup v false) (lower_expr setup slc false)) rhs
  target_line to_place place rhs locals = store place rhs

  abbrev pub lower_target : Expr → CExpr → List ℕ → CStmt
  lower_target e rhs locals = target_line (target_kind e) (lower_expr setup e write_ctx) rhs locals

  abbrev pub kind_local : TargetKind → List ℕ → List ℕ
  kind_local (to_local n) locals =
      if predecl_locals then locals else if is_declared n locals then locals else n ∷ locals
  kind_local _ locals = locals

  abbrev pub add_local : Expr → List ℕ → List ℕ
  add_local e locals = kind_local (target_kind e) locals

  -- `_lower_assign`
  unfoldable pub lower_targets : Exprs → CExpr → List ℕ → Lowered
  lower_targets Syntax.Exprs.nil rhs locals = lowered empty locals
  lower_targets (Syntax.Exprs.cons e es) rhs locals =
      let rest = lower_targets es rhs (add_local e locals) in
      lowered (after (lower_target e rhs locals) rest.lines) rest.locals

  abbrev pub unroll : List ℕ → CExpr → CStmts
  unroll [] val = empty
  unroll (n ∷ ns) val =
      after (store (field (space_of (setup.is_nxt n) write_ctx) n) val) (unroll ns val)

  abbrev pub lower_line : Expr → CStmts
  lower_line e = if is_docstring e then empty else one_line (line (lower_expr setup e false))

  abbrev pub lower_return : Expr → CStmt
  lower_return e = if is_none e then leave else leave_with (lower_expr setup e false)

  abbrev pub lower_loop : Loop → Expr → Lowered → List ℕ → Lowered
  lower_loop (unrolled ns v) tgt body locals = lowered (unroll ns (lower_expr setup v false)) locals
  lower_loop (ranged args) tgt body locals =
      lowered
        (one_line (range_loop (lower_expr setup tgt false) (lower_all setup args false) body.lines))
        body.locals
  lower_loop generic tgt body locals = lowered (one_line (block body.lines)) body.locals

  -- `_lower_stmt` and `lower_stmts`
  unfoldable mutual
    unfolding lower_targets

    pub lower_stmt : Stmt → List ℕ → Lowered
    lower_stmt (assign targets value) locals =
        lower_targets targets (lower_expr setup value false) locals
    lower_stmt (aug_assign op target value) locals =
        lowered
          (one_line (
            store_op (augop_map op) (lower_expr setup target write_ctx)
              (lower_expr setup value false)))
          locals
    lower_stmt (if_stmt test body orelse) locals =
        let b = lower_stmts body locals in
        let o = lower_stmts orelse b.locals in
        lowered (one_line (branch (lower_expr setup test false) b.lines o.lines)) o.locals
    lower_stmt (for_stmt tgt iter body orelse) locals =
        lower_loop (loop_kind iter body) tgt (lower_stmts body locals) locals
    lower_stmt (while_stmt test body orelse) locals =
        let b = lower_stmts body locals in
        lowered (one_line (test_loop (lower_expr setup test false) b.lines)) b.locals
    lower_stmt (expr_stmt e) locals = lowered (lower_line e) locals
    lower_stmt (return_stmt e) locals = lowered (one_line (lower_return e)) locals
    lower_stmt pass_stmt locals = lowered (one_line comment) locals
    lower_stmt other_stmt locals = lowered (one_line comment) locals

    pub lower_stmts : Stmts → List ℕ → Lowered
    lower_stmts done locals = lowered empty locals
    lower_stmts (seq s ss) locals =
        let x = lower_stmt s locals in
        let rest = lower_stmts ss x.locals in lowered (append x.lines rest.lines) rest.locals

-- `collect_local_names`
abbrev pub kind_name : TargetKind → List ℕ
kind_name (to_local n) = n ∷ []
kind_name _ = []

abbrev pub target_name : Expr → List ℕ
target_name e = kind_name (target_kind e)

abbrev pub target_names : Exprs → List ℕ
target_names Syntax.Exprs.nil = []
target_names (Syntax.Exprs.cons e es) = target_name e ++ target_names es

unfoldable mutual
  pub local_names : Stmt → List ℕ
  local_names (assign targets value) = target_names targets
  local_names (aug_assign op target value) = target_name target
  local_names (if_stmt test body orelse) = collect_local_names body ++ collect_local_names orelse
  local_names (for_stmt tgt iter body orelse) =
      collect_local_names body ++ collect_local_names orelse
  local_names (while_stmt test body orelse) = collect_local_names body ++ collect_local_names orelse
  local_names (expr_stmt e) = []
  local_names (return_stmt e) = []
  local_names pass_stmt = []
  local_names other_stmt = []

  pub collect_local_names : Stmts → List ℕ
  collect_local_names done = []
  collect_local_names (seq s ss) = local_names s ++ collect_local_names ss
