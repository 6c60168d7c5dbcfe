-- ===== src/Scenario/Constraint/Expressions.antt =====
-- The generated lines of an expression compute its value.
use Prim.Native.String.{String}
use zuspec_be_sw.Prelude.{ℕ, ◌≤◌, ◌≡◌, ◌∙◌, Option, none, some, List, [], ◌∷◌, arith}
use zuspec_be_sw.Scenario.Constraint.Builder.{
  DvsBin, dvs_eq, dvs_and, dvs_or, DvsUn, Ref, var_call, unary_call, in_range_call, State, ok, Emit,
  ◌>>=◌, pure, raise, emit, unsupported,
}
use zuspec_be_sw.Scenario.Constraint.Syntax.{
  un_sub, un_not, un_invert, un_add, un_other, Expr, constant, odd_constant, self_attr, bin, unary,
  compare, bool_and, bool_or, subscript, slice, in_ranges, opaque_in, other, Exprs, nil, cons,
  Links, end, link, Ranges, stop, value, range, no_range, cmp_table, un_table,
}
use zuspec_be_sw.Scenario.Constraint.Emitter.{
  binary, bitslice_bounds, masked_side, emit_expr, emit_sliced, emit_exprs, emit_links, emit_ranges,
}
use zuspec_be_sw.Scenario.Constraint.Solver.{Solver, Machine}
use zuspec_be_sw.Scenario.Constraint.Meaning.{
  nothing, eval, eval_sliced, eval_all, eval_links, eval_ranges,
}
use zuspec_be_sw.Scenario.Constraint.Computes.{
  bind-ok, at, Gives, Gives-after, Gives-later, emit-Gives, binary-Gives, in_range-Gives, GivesAll,
  GivesAll-after, pure_all-Gives, fold-Spec, fold_refs-Gives,
}
use zuspec_be_sw.Scenario.Constraint.Parts.{
  Sound, SoundAll, const-Spec, emit_bin-Spec, extract-Spec,
}

module _ (s : Solver) (vars : ℕ → Solver.Value s) (start : Machine s)
    (var_id_map : String → Option ℕ) where
  open s use {Value, binary_value, unary_value}

  var-Spec :
      (id : Option ℕ)
      → Sound s vars start
          (elim id [ none ↦ raise unsupported | some i ↦ emit (var_call i) ])
          (elim id [ none ↦ nothing s | some i ↦ vars i ])
  var-Spec none st st' t k = cc
  var-Spec (some i) st st' t k = emit-Gives s vars start (var_call i) st st' t k

  unary-Spec :
      (code : Option DvsUn) {m : Emit Ref} {v : Value}
      → Sound s vars start m v
      → Sound s vars start
          (elim code [ none ↦ raise unsupported | some c ↦ m >>= λ a. emit (unary_call c a) ])
          (elim code [ none ↦ nothing s | some c ↦ unary_value c v ])
  unary-Spec none h st st' t k = cc
  unary-Spec (some c) {m} h st st' t k = bind-ok m _ st k λ a st₁ e₁ k₁.
      let g = h st st₁ a e₁ in
      rw (← g.value)
        (Gives-after s vars start g.ext (emit-Gives s vars start (unary_call c a) st₁ st' t k₁))

  -- A reference that is still good, in front of the list that was emitted after it.
  cons-Gives :
      {a b c : State} {t : Ref} {v : Value} {ts : List Ref} {vs : List Value} {out : List Ref}
      (st' : State)
      → Gives s vars start a b t v
      → GivesAll s vars start b c ts vs
      → pure (t ∷ ts) c ≡ ok (out, st')
      → GivesAll s vars start a st' out (v ∷ vs)
  cons-Gives {a} {b} {c} {t} {v} {ts} {vs} {out} st' g gs k =
      let g' = Gives-later s vars start g gs.ext in
      GivesAll-after s vars start g'.ext
        (pure_all-Gives s vars start (t ∷ ts) c st' out (g'.fresh, g'.value, gs.values) k)

  link-Spec :
      (code : Option DvsBin) {l r : Emit Ref} {rest : Emit (List Ref)} {v w : Value}
      {vs : List Value}
      → Sound s vars start l v
      → Sound s vars start r w
      → SoundAll s vars start rest vs
      → SoundAll s vars start
          (elim code [
            | none ↦ raise unsupported
            | some c ↦
                l >>= λ a. r >>= λ b. binary c a b >>= λ t. rest >>= λ terms. pure (t ∷ terms)
          ])
          (elim code [ none ↦ [] | some c ↦ binary_value c v w ∷ vs ])
  link-Spec none hl hr hs st st' ts k = cc
  link-Spec (some c) {l} {r} {rest} hl hr hs st st' ts k = bind-ok l _ st k λ a st₁ e₁ k₁.
      bind-ok r _ st₁ k₁ λ b st₂ e₂ k₂. bind-ok (binary c a b) _ st₂ k₂ λ t st₃ e₃ k₃.
        bind-ok rest _ st₃ k₃ λ terms st₄ e₄ k₄.
          let ga = hl st st₁ a e₁ in
          let gb = hr st₁ st₂ b e₂ in
          let ga' = Gives-later s vars start ga gb.ext in
          let gt =
            Gives-after s vars start ga'.ext
              (binary-Gives s vars start c a b st₂ st₃ t ga'.value gb.value e₃) in
          cons-Gives st' gt (hs st₃ st₄ terms e₄) k₄

  mutual
    unfolding emit_expr eval

    emit_expr-Spec :
        (e : Expr) → Sound s vars start (emit_expr var_id_map e) (eval s var_id_map vars e)
    emit_expr-Spec (constant v) st st' t k = const-Spec s vars start v st st' t k
    emit_expr-Spec (odd_constant c) st st' t k = cc
    emit_expr-Spec (self_attr name) st st' t k = var-Spec (var_id_map name) st st' t k
    emit_expr-Spec (bin op l r) st st' t k =
        emit_bin-Spec s vars start op (masked_side l r) (masked_side r l) (emit_sliced-Spec l)
          (emit_sliced-Spec r) (emit_expr-Spec l) (emit_expr-Spec r) st st' t k
    emit_expr-Spec (unary un_add o) st st' t k = emit_expr-Spec o st st' t k
    emit_expr-Spec (unary un_sub o) st st' t k =
        unary-Spec (un_table un_sub) (emit_expr-Spec o) st st' t k
    emit_expr-Spec (unary un_not o) st st' t k =
        unary-Spec (un_table un_not) (emit_expr-Spec o) st st' t k
    emit_expr-Spec (unary un_invert o) st st' t k =
        unary-Spec (un_table un_invert) (emit_expr-Spec o) st st' t k
    emit_expr-Spec (unary un_other o) st st' t k =
        unary-Spec (un_table un_other) (emit_expr-Spec o) st st' t k
    emit_expr-Spec (compare left links) st st' t k =
        fold-Spec s vars start dvs_and (emit_links-Spec links (emit_expr-Spec left)) st st' t k
    emit_expr-Spec (bool_and es) st st' t k =
        fold-Spec s vars start dvs_and (emit_exprs-Spec es) st st' t k
    emit_expr-Spec (bool_or es) st st' t k =
        fold-Spec s vars start dvs_or (emit_exprs-Spec es) st st' t k
    emit_expr-Spec (subscript x sl) st st' t k =
        extract-Spec s vars start (bitslice_bounds sl) (emit_expr-Spec x) st st' t k
    emit_expr-Spec (slice is_bits lower upper) st st' t k = cc
    emit_expr-Spec (in_ranges e ranges) st st' t k =
        bind-ok (emit_expr var_id_map e) _ st k λ v st₁ e₁ k₁.
          let g = emit_expr-Spec e st st₁ v e₁ in
          bind-ok (emit_ranges var_id_map ranges v) _ st₁ k₁ λ terms st₂ e₂ k₂.
            let gs = emit_ranges-Gives ranges v st₁ st₂ terms g.fresh g.value e₂ in
            Gives-after s vars start g.ext (
              Gives-after s vars start gs.ext (
                fold_refs-Gives s vars start dvs_or terms
                  (eval_ranges s var_id_map vars ranges (eval s var_id_map vars e)) st₂ st' t
                  gs.values k₂))
    emit_expr-Spec (opaque_in e) st st' t k = cc
    emit_expr-Spec other st st' t k = cc

    emit_sliced-Spec :
        (e : Expr) → Sound s vars start (emit_sliced var_id_map e) (eval_sliced s var_id_map vars e)
    emit_sliced-Spec (subscript x sl) st st' t k = emit_expr-Spec x st st' t k
    emit_sliced-Spec _ st st' t k = cc

    emit_exprs-Spec :
        (es : Exprs)
        → SoundAll s vars start (emit_exprs var_id_map es) (eval_all s var_id_map vars es)
    emit_exprs-Spec nil st st' ts k = pure_all-Gives s vars start [] st st' ts tt k
    emit_exprs-Spec (cons e es) st st' ts k = bind-ok (emit_expr var_id_map e) _ st k λ r st₁ e₁ k₁.
        bind-ok (emit_exprs var_id_map es) _ st₁ k₁ λ refs st₂ e₂ k₂.
          cons-Gives st' (emit_expr-Spec e st st₁ r e₁) (emit_exprs-Spec es st₁ st₂ refs e₂) k₂

    emit_links-Spec :
        (links : Links) {operand : Emit Ref} {v : Value}
        → Sound s vars start operand v
        → SoundAll s vars start
            (emit_links var_id_map links operand)
            (eval_links s var_id_map vars links v)
    emit_links-Spec end h st st' ts k = pure_all-Gives s vars start [] st st' ts tt k
    emit_links-Spec (link op e links) h st st' ts k =
        link-Spec (cmp_table op) h (emit_expr-Spec e) (emit_links-Spec links (emit_expr-Spec e)) st
          st' ts k

    emit_ranges-Gives :
        (ranges : Ranges) (r : Ref) (st st' : State) (ts : List Ref) {v : Value}
        → r ≤ st.n
        → (at s vars start st).env r ≡ v
        → emit_ranges var_id_map ranges r st ≡ ok (ts, st')
        → GivesAll s vars start st st' ts (eval_ranges s var_id_map vars ranges v)
    emit_ranges-Gives stop r st st' ts h e k = pure_all-Gives s vars start [] st st' ts tt k
    emit_ranges-Gives (value lower ranges) r st st' ts h e k =
        bind-ok (emit_expr var_id_map lower) _ st k λ lo st₁ e₁ k₁.
          bind-ok (binary dvs_eq r lo) _ st₁ k₁ λ t st₂ e₂ k₂.
            bind-ok (emit_ranges var_id_map ranges r) _ st₂ k₂ λ terms st₃ e₃ k₃.
              let g = emit_expr-Spec lower st st₁ lo e₁ in
              let keep₁ = g.ext.keep r h ∙ e in
              let gt =
                Gives-after s vars start g.ext
                  (binary-Gives s vars start dvs_eq r lo st₁ st₂ t keep₁ g.value e₂) in
              cons-Gives st' gt
                (emit_ranges-Gives ranges r st₂ st₃ terms (omega (arith, gt.ext.grow, h))
                  (gt.ext.keep r h ∙ e) e₃)
                k₃
    emit_ranges-Gives (range lower upper ranges) r st st' ts h e k =
        bind-ok (emit_expr var_id_map lower) _ st k λ lo st₁ e₁ k₁.
          bind-ok (emit_expr var_id_map upper) _ st₁ k₁ λ hi st₂ e₂ k₂.
            bind-ok (emit (in_range_call r lo hi)) _ st₂ k₂ λ t st₃ e₃ k₃.
              bind-ok (emit_ranges var_id_map ranges r) _ st₃ k₃ λ terms st₄ e₄ k₄.
                let g₁ = emit_expr-Spec lower st st₁ lo e₁ in
                let g₂ = emit_expr-Spec upper st₁ st₂ hi e₂ in
                let g₁' = Gives-later s vars start g₁ g₂.ext in
                let gt = Gives-after s vars start g₁'.ext (
                  in_range-Gives s vars start r lo hi st₂ st₃ t (g₁'.ext.keep r h ∙ e) g₁'.value
                    g₂.value e₃) in
                cons-Gives st' gt
                  (emit_ranges-Gives ranges r st₃ st₄ terms (omega (arith, gt.ext.grow, h))
                    (gt.ext.keep r h ∙ e) e₄)
                  k₄
    emit_ranges-Gives (no_range ranges) r st st' ts h e k = cc

  -- The lines that `emit_expr` adds compute the value of the expression in a new temporary; they
  -- leave the earlier temporaries as they are and add no constraint.
  pub emit_expr-Gives :
      (e : Expr) → Sound s vars start (emit_expr var_id_map e) (eval s var_id_map vars e)
  emit_expr-Gives e st st' t k = emit_expr-Spec e st st' t k

  pub emit_exprs-GivesAll :
      (es : Exprs)
      → SoundAll s vars start (emit_exprs var_id_map es) (eval_all s var_id_map vars es)
  emit_exprs-GivesAll es st st' ts k = emit_exprs-Spec es st st' ts k
