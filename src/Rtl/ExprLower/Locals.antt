-- ===== src/Rtl/ExprLower/Locals.antt =====
-- The declarations of locals that `lower_stmts` of src/zuspec/be/sw/passes/rtl/expr_lower.py writes.
use zuspec_be_sw.Prelude.{ℕ, refl, ap, Bool, false, List, [], ◌++◌, count, count-append, arith}
use zuspec_be_sw.Rtl.ExprLower.Syntax.{
  Stmt, assign, aug_assign, if_stmt, for_stmt, while_stmt, expr_stmt, return_stmt, pass_stmt,
  other_stmt, Stmts, done, seq,
}
use zuspec_be_sw.Rtl.ExprLower.Lower.{Setup, lower_expr}
use zuspec_be_sw.Rtl.ExprLower.Statements.{
  test_loop, empty, loop_kind, lower_return, lower_stmt, lower_stmts, target_name, local_names,
  collect_local_names,
}
use zuspec_be_sw.Rtl.ExprLower.Declared.{
  declared_in, declarations, Declares, silent, Declares-append, Declares-within, targets_Declares,
  loop_Declares, line_silent, return_silent,
}

module _ (setup : Setup) (predecl_locals write_ctx : Bool) (n : ℕ) where
  mutual
    unfolding declarations lower_stmts collect_local_names

    stmt_Declares :
        (s : Stmt) (locals : List ℕ)
        → Declares n
            (lower_stmt setup predecl_locals write_ctx s locals).lines
            (local_names s)
            locals
            (lower_stmt setup predecl_locals write_ctx s locals).locals
    stmt_Declares (assign ts v) locals =
        targets_Declares setup predecl_locals write_ctx n ts (lower_expr setup v false) locals
    stmt_Declares (aug_assign op t v) locals = silent n _ (target_name t) locals refl
    stmt_Declares (if_stmt t b o) locals =
        let x = lower_stmts setup predecl_locals write_ctx b locals in
        let y = lower_stmts setup predecl_locals write_ctx o x.locals in
        let p = stmts_Declare b locals in
        let q = stmts_Declare o x.locals in
        let both = count-append (declarations x.lines) n (declarations y.lines) in
        let all = count-append (declarations x.lines ++ declarations y.lines) n [] in
        record {
          new = omega (arith, both, all, p.new, q.new);
          once = λ h. q.once (p.once h);
          named = omega (
            arith,
            both,
            all,
            p.named,
            q.named,
            count-append (collect_local_names b) n (collect_local_names o),
          );
        }
    stmt_Declares (for_stmt t i b o) locals =
        loop_Declares setup predecl_locals write_ctx n (loop_kind i b) t
          (lower_stmts setup predecl_locals write_ctx b locals) (collect_local_names b)
          (collect_local_names o) locals (stmts_Declare b locals)
    stmt_Declares (while_stmt t b o) locals =
        let x = lower_stmts setup predecl_locals write_ctx b locals in
        Declares-within n (test_loop (lower_expr setup t false) x.lines) x.lines
          (collect_local_names b) (collect_local_names o) locals x.locals refl
          (stmts_Declare b locals)
    stmt_Declares (expr_stmt e) locals =
        silent n _ [] locals (line_silent setup predecl_locals write_ctx n e)
    stmt_Declares (return_stmt e) locals = silent n _ [] locals (
        omega (
          arith,
          count-append (declared_in (lower_return setup predecl_locals write_ctx e)) n [],
          ap (count n) (return_silent setup predecl_locals write_ctx n e),
        ))
    stmt_Declares pass_stmt locals = silent n _ [] locals refl
    stmt_Declares other_stmt locals = silent n _ [] locals refl

    stmts_Declare :
        (ss : Stmts) (locals : List ℕ)
        → Declares n
            (lower_stmts setup predecl_locals write_ctx ss locals).lines
            (collect_local_names ss)
            locals
            (lower_stmts setup predecl_locals write_ctx ss locals).locals
    stmts_Declare done locals = silent n empty [] locals refl
    stmts_Declare (seq s ss) locals =
        let x = lower_stmt setup predecl_locals write_ctx s locals in
        let rest = lower_stmts setup predecl_locals write_ctx ss x.locals in
        Declares-append n x.lines rest.lines (local_names s) (collect_local_names ss) locals
          x.locals rest.locals (stmt_Declares s locals) (stmts_Declare ss x.locals)
