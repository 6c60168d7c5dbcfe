-- ===== src/Rtl/ExprLower/Declared.antt =====
-- The declarations in the lines that src/zuspec/be/sw/passes/rtl/expr_lower.py writes for one
-- statement.
use zuspec_be_sw.Prelude.{
  ℕ, ◌+◌, ◌≤◌, ◌≡◌, inl, inr, refl, ap, Bool, false, List, [], ◌∷◌, ◌++◌, count, count-append,
  arith, Bool-cases,
}
use zuspec_be_sw.Rtl.ExprLower.Syntax.{Expr, Exprs, nil, cons}
use zuspec_be_sw.Rtl.ExprLower.CCode.{CExpr, CExprs}
use zuspec_be_sw.Rtl.ExprLower.Lower.{Setup, lower_expr, lower_all}
use zuspec_be_sw.Rtl.ExprLower.Statements.{
  TargetKind, to_local, to_element, to_place, target_kind, target_line, kind_local, kind_name,
  is_docstring, is_none, CStmt, line, store, declare, store_op, branch, count_loop, block,
  test_loop, leave, leave_with, comment, CStmts, empty, after, append, is_declared, Lowered, Loop,
  unrolled, ranged, generic, range_loop, lower_target, add_local, lower_targets, unroll, lower_line,
  lower_return, lower_loop, target_name, target_names,
}

-- The names that are declared in C.
unfoldable mutual
  pub declared_in : CStmt → List ℕ
  declared_in (line e) = []
  declared_in (store l e) = []
  declared_in (declare n e) = n ∷ []
  declared_in (store_op op l e) = []
  declared_in (branch t a b) = declarations a ++ declarations b
  declared_in (count_loop v a b c body) = declarations body
  declared_in (block body) = declarations body
  declared_in (test_loop t body) = declarations body
  declared_in leave = []
  declared_in (leave_with e) = []
  declared_in comment = []

  pub declarations : CStmts → List ℕ
  declarations empty = []
  declarations (after s ss) = declared_in s ++ declarations ss

-- The lines declare what is new in the second set, no name twice, and only names that are collected.
pub record Declares (n : ℕ) (ls : CStmts) (names before later : List ℕ) : Type 0 where
  pub new : count n (declarations ls) + count n before ≡ count n later
  pub once : count n before ≤ 1 → count n later ≤ 1
  pub named : count n (declarations ls) ≤ count n names

declarations-append :
    (n : ℕ) (a b : CStmts)
    → count n (declarations (append a b)) ≡ count n (declarations a) + count n (declarations b)
unfolding declarations
declarations-append n empty b = omega arith
declarations-append n (after s ss) b = omega (
  arith,
  declarations-append n ss b,
  count-append (declared_in s) n (declarations ss),
  count-append (declared_in s) n (declarations (append ss b)),
)

fresh : (n : ℕ) (ds : List ℕ) → is_declared n ds ≡ false → count n ds ≡ 0
fresh n [] h = refl
fresh n (d ∷ ds) h = ground (arith, fresh n ds)

-- No line declares anything.
pub silent :
    (n : ℕ) (ls : CStmts) (names d : List ℕ)
    → count n (declarations ls) ≡ 0
    → Declares n ls names d d
silent n ls names d h = record { new = omega arith; once = λ x. x; named = omega arith }

pub Declares-append :
    (n : ℕ) (a b : CStmts) (xs ys d e f : List ℕ)
    → Declares n a xs d e
    → Declares n b ys e f
    → Declares n (append a b) (xs ++ ys) d f
Declares-append n a b xs ys d e f p q = record {
  new = omega (arith, declarations-append n a b, p.new, q.new);
  once = λ h. q.once (p.once h);
  named = omega (arith, declarations-append n a b, count-append xs n ys, p.named, q.named);
}

-- A line with a body.
pub Declares-within :
    (n : ℕ) (s : CStmt) (ls : CStmts) (names more d e : List ℕ)
    → declared_in s ≡ declarations ls
    → Declares n ls names d e
    → Declares n (after s empty) (names ++ more) d e
unfolding declarations
Declares-within n s ls names more d e h p =
    let same : count n (declarations (after s empty)) ≡ count n (declarations ls) =
      omega (arith, count-append (declared_in s) n [], ap (count n) h) in
    record {
      new = omega (arith, p.new);
      once = p.once;
      named = omega (arith, p.named, count-append names n more);
    }

module _ (setup : Setup) (predecl_locals write_ctx : Bool) (n : ℕ) where
  target_Declares :
      (kind : TargetKind) (place rhs : CExpr) (locals : List ℕ)
      → Declares n
          (after (target_line setup predecl_locals write_ctx kind place rhs locals) empty)
          (kind_name kind)
          locals
          (kind_local setup predecl_locals write_ctx kind locals)
  unfolding declarations
  target_Declares (to_local k) place rhs locals = elim (Bool-cases predecl_locals) [
    | inl p ↦ rw p (silent n _ (k ∷ []) locals refl)
    | inr p ↦ elim (Bool-cases (is_declared k locals)) [
      | inl q ↦ rw (p, q) (silent n _ (k ∷ []) locals refl)
      | inr q ↦
          rw (p, q)
            (record {
              new = omega arith;
              once = λ h. ground (arith, fresh k locals q);
              named = omega arith;
            })
    ]
  ]
  target_Declares (to_element v slc) place rhs locals = silent n _ [] locals refl
  target_Declares to_place place rhs locals = silent n _ [] locals refl

  pub targets_Declares :
      (es : Exprs) (rhs : CExpr) (locals : List ℕ)
      → Declares n
          (lower_targets setup predecl_locals write_ctx es rhs locals).lines
          (target_names es)
          locals
          (lower_targets setup predecl_locals write_ctx es rhs locals).locals
  unfolding lower_targets declarations
  targets_Declares nil rhs locals = silent n empty [] locals refl
  targets_Declares (cons e es) rhs locals =
      let next_locals = add_local setup predecl_locals write_ctx e locals in
      let rest = lower_targets setup predecl_locals write_ctx es rhs next_locals in
      Declares-append n (after (lower_target setup predecl_locals write_ctx e rhs locals) empty)
        rest.lines (target_name e) (target_names es) locals next_locals rest.locals
        (target_Declares (target_kind e) (lower_expr setup e write_ctx) rhs locals)
        (targets_Declares es rhs next_locals)

  unroll_silent :
      (ns : List ℕ) (c : CExpr)
      → count n (declarations (unroll setup predecl_locals write_ctx ns c)) ≡ 0
  unfolding declarations
  unroll_silent [] c = refl
  unroll_silent (k ∷ ks) c = unroll_silent ks c

  range_declared :
      (tgt : CExpr) (args : CExprs) (body : CStmts)
      → declared_in (range_loop tgt args body) ≡ declarations body
  unfolding declared_in
  range_declared tgt CExprs.nil body = refl
  range_declared tgt (CExprs.cons a CExprs.nil) body = refl
  range_declared tgt (CExprs.cons a (CExprs.cons b CExprs.nil)) body = refl
  range_declared tgt (CExprs.cons a (CExprs.cons b (CExprs.cons c es))) body = refl

  pub loop_Declares :
      (kind : Loop) (tgt : Expr) (body : Lowered) (names more locals : List ℕ)
      → Declares n body.lines names locals body.locals
      → Declares n
          (lower_loop setup predecl_locals write_ctx kind tgt body locals).lines
          (names ++ more)
          locals
          (lower_loop setup predecl_locals write_ctx kind tgt body locals).locals
  unfolding declarations
  loop_Declares (unrolled ns v) tgt body names more locals h =
      silent n _ (names ++ more) locals (unroll_silent ns (lower_expr setup v false))
  loop_Declares (ranged args) tgt body names more locals h =
      Declares-within n _ body.lines names more locals body.locals
        (range_declared (lower_expr setup tgt false) (lower_all setup args false) body.lines) h
  loop_Declares generic tgt body names more locals h =
      Declares-within n _ body.lines names more locals body.locals refl h

  pub line_silent :
      (e : Expr) → count n (declarations (lower_line setup predecl_locals write_ctx e)) ≡ 0
  unfolding declarations
  line_silent e = elim (Bool-cases (is_docstring e)) [ inl h ↦ rw h refl | inr h ↦ rw h refl ]

  pub return_silent : (e : Expr) → declared_in (lower_return setup predecl_locals write_ctx e) ≡ []
  unfolding declared_in
  return_silent e = elim (Bool-cases (is_none e)) [ inl h ↦ rw h refl | inr h ↦ rw h refl ]
