-- ===== src/Scenario/Constraint/Judges.antt =====
-- The parts of `_as_expr` compute the truth of the parts of a constraint.
use zuspec_be_sw.Prelude.{
  ℕ, ◌≤◌, ◌≡◌, sym, ap, ◌∙◌, Bool, true, not, ◌&&◌, ◌||◌, Option, none, some, List, [], ◌∷◌, arith,
}
use zuspec_be_sw.Scenario.Constraint.Builder.{
  dvs_and, dvs_or, dvs_not, Ref, unary_call, State, ok, ◌>>=◌, pure,
}
use zuspec_be_sw.Scenario.Constraint.Emitter.{binary, not_ref, fold_refs}
use zuspec_be_sw.Scenario.Constraint.Items.{conj, emit_implies, then_part, else_part, join_parts}
use zuspec_be_sw.Scenario.Constraint.Solver.{Solver, Machine}
use zuspec_be_sw.Scenario.Constraint.Meaning.{join, join_from}
use zuspec_be_sw.Scenario.Constraint.Computes.{
  bind-ok, at, Ext, Ext-trans, Gives, Gives-after, emit-Gives, binary-Gives, GivesAll,
  GivesAll-after, pure_all-Gives, fold_refs-Gives,
}

module _ (s : Solver) (vars : ℕ → Solver.Value s) (start : Machine s) where
  open s use {Value, binary_value, unary_value, holds, and_law, or_law, not_law}

  abbrev pub all_hold : List Value → Bool
  all_hold [] = true
  all_hold (v ∷ vs) = holds v && all_hold vs

  holds-join_from :
      (a : Value) (vs : List Value) → holds (join_from s dvs_and a vs) ≡ (holds a && all_hold vs)
  unfolding join_from
  holds-join_from a [] = ground arith
  holds-join_from a (v ∷ vs) =
      ground (arith, holds-join_from (binary_value dvs_and a v) vs, and_law a v)

  -- The temporary `t` is true exactly when `b` is.
  pub record Judged (st st' : State) (t : Ref) (b : Bool) : Type 0 where
    pub result : Value
    pub gives : Gives s vars start st st' t result
    pub truth : holds result ≡ b

  -- No temporary stands for a constraint that always holds.
  pub data JudgedOpt (st st' : State) (b : Bool) : Option Ref → Type 0 where
    vacuous : Ext s vars start st st' → b ≡ true → JudgedOpt st st' b none
    judged : {t : Ref} → Judged st st' t b → JudgedOpt st st' b (some t)

  -- All of the temporaries are true exactly when `b` is.
  pub record JudgedAll (st st' : State) (ts : List Ref) (b : Bool) : Type 0 where
    pub results : List Value
    pub gives : GivesAll s vars start st st' ts results
    pub truth : all_hold results ≡ b

  pub Judged-after :
      {a b c : State} {t : Ref} {p : Bool} → Ext s vars start a b → Judged b c t p → Judged a c t p
  Judged-after e j = record {
    result = j.result;
    gives = Gives-after s vars start e j.gives;
    truth = j.truth;
  }

  pub JudgedAll-after :
      {a b c : State} {ts : List Ref} {p : Bool}
      → Ext s vars start a b
      → JudgedAll b c ts p
      → JudgedAll a c ts p
  JudgedAll-after e j = record {
    results = j.results;
    gives = GivesAll-after s vars start e j.gives;
    truth = j.truth;
  }

  pub JudgedOpt-after :
      {a b c : State} {o : Option Ref} {p : Bool}
      → Ext s vars start a b
      → JudgedOpt b c p o
      → JudgedOpt a c p o
  JudgedOpt-after e (vacuous x t) = vacuous (Ext-trans s vars start e x) t
  JudgedOpt-after e (judged j) = judged (Judged-after e j)

  pub JudgedOpt-Ext :
      {a b : State} {o : Option Ref} {p : Bool} → JudgedOpt a b p o → Ext s vars start a b
  JudgedOpt-Ext (vacuous x t) = x
  JudgedOpt-Ext (judged j) = j.gives.ext

  -- A handed-on result.
  pub some-Judged :
      (t : Ref) (st st' : State) (o : Option Ref) {a : State} {b : Bool}
      → Judged a st t b
      → pure (some t) st ≡ ok (o, st')
      → JudgedOpt a st' b o
  some-Judged t st st' o {a} {b} j k =
      let out : st ≡ st' = cc in let same : some t ≡ o = cc in rw (← same) (rw (← out) (judged j))

  -- A fold by AND of at least one temporary.
  pub fold-Judged :
      (refs : List Ref) (st st' : State) (t : Ref) {a : State} {b : Bool}
      → JudgedAll a st refs b
      → fold_refs dvs_and refs st ≡ ok (t, st')
      → Judged a st' t b
  unfolding fold_refs
  fold-Judged [] st st' t j k = cc
  fold-Judged (r ∷ refs) st st' t {a} {b} j k = go j.results j.gives j.truth
    where
      go :
          (vs : List Value)
          → GivesAll s vars start a st (r ∷ refs) vs
          → all_hold vs ≡ b
          → Judged a st' t b
      go [] g e = absurd g.values
      go (v ∷ vs) g e = record {
        result = join s dvs_and (v ∷ vs);
        gives =
            Gives-after s vars start g.ext
              (fold_refs-Gives s vars start dvs_and (r ∷ refs) (v ∷ vs) st st' t g.values k);
        truth = holds-join_from v vs ∙ e;
      }

  pub conj-Judged :
      (refs : List Ref) (st st' : State) (o : Option Ref) {a : State} {b : Bool}
      → JudgedAll a st refs b
      → conj refs st ≡ ok (o, st')
      → JudgedOpt a st' b o
  unfolding conj
  conj-Judged [] st st' o {a} {b} j k = go j.results j.gives j.truth
    where
      out : st ≡ st'
      out = cc

      same : none ≡ o
      same = cc

      go :
          (vs : List Value)
          → GivesAll s vars start a st [] vs
          → all_hold vs ≡ b
          → JudgedOpt a st' b o
      go [] g e = rw (← same) (rw (← out) (vacuous g.ext (sym e)))
      go (v ∷ vs) g e = absurd g.values
  conj-Judged (r ∷ refs) st st' o j k =
      bind-ok (fold_refs dvs_and (r ∷ refs)) _ st k
        λ t st₁ e₁ k₁. some-Judged t st₁ st' o (fold-Judged (r ∷ refs) st st₁ t j e₁) k₁

  pub not_ref-Judged :
      (r : Ref) (st st' : State) (t : Ref) {v : Value}
      → (at s vars start st).env r ≡ v
      → not_ref r st ≡ ok (t, st')
      → Judged st st' t (not (holds v))
  not_ref-Judged r st st' t {v} e k = record {
    result = unary_value dvs_not v;
    gives = rw (← e) (emit-Gives s vars start (unary_call dvs_not r) st st' t k);
    truth = not_law v;
  }

  -- `!c || w` and `c || w`.
  implies-Judged :
      (c r : Ref) (st st' : State) (t : Ref) {v w : Value}
      → r ≤ st.n
      → (at s vars start st).env c ≡ v
      → (at s vars start st).env r ≡ w
      → (not_ref c >>= λ n. binary dvs_or n r) st ≡ ok (t, st')
      → Judged st st' t (not (holds v) || holds w)
  implies-Judged c r st st' t {v} {w} h p q k = bind-ok (not_ref c) _ st k λ n st₁ e₁ k₁.
      let j = not_ref-Judged c st st₁ n p e₁ in
      let g =
        binary-Gives s vars start dvs_or n r st₁ st' t j.gives.value (j.gives.ext.keep r h ∙ q)
          k₁ in
      Judged-after j.gives.ext (record {
        result = binary_value dvs_or j.result w;
        gives = g;
        truth = or_law j.result w ∙ ap (λ x. x || holds w) j.truth;
      })

  pub emit_implies-Judged :
      (c : Ref) {o : Option Ref} {st : State} (st' : State) (t : Ref) {a : State} {v : Value}
      {b : Bool}
      → c ≤ st.n
      → (at s vars start st).env c ≡ v
      → JudgedOpt a st b o
      → emit_implies c o st ≡ ok (t, st')
      → Judged st st' t (not (holds v) || b)
  unfolding emit_implies
  emit_implies-Judged c {st = st} st' t {v = v} {b = b} h e (vacuous x always) k =
      let r = implies-Judged c c st st' t h e e k in
      record { result = r.result; gives = r.gives; truth = ground (arith, r.truth, always) }
  emit_implies-Judged c {st = st} st' t h e (judged {t = w} j) k =
      let r = implies-Judged c w st st' t j.gives.fresh e j.gives.value k in
      record { result = r.result; gives = r.gives; truth = ground (arith, r.truth, j.truth) }

  -- A part list with one temporary or none.
  none-JudgedAll :
      (st st' : State) (ps : List Ref) {b : Bool}
      → b ≡ true
      → pure [] st ≡ ok (ps, st')
      → JudgedAll st st' ps b
  none-JudgedAll st st' ps e k = record {
    results = [];
    gives = pure_all-Gives s vars start [] st st' ps tt k;
    truth = sym e;
  }

  one-JudgedAll :
      (p : Ref) {a : State} (st st' : State) (ps : List Ref) {b : Bool}
      → Judged a st p b
      → pure (p ∷ []) st ≡ ok (ps, st')
      → JudgedAll a st' ps b
  one-JudgedAll p st st' ps j k =
      let g = pure_all-Gives s vars start (p ∷ []) st st' ps (j.gives.fresh, j.gives.value, tt) k in
      record {
        results = j.result ∷ [];
        gives = GivesAll-after s vars start j.gives.ext g;
        truth = ground (arith, j.truth);
      }

  pub then_part-Judged :
      (c : Ref) {o : Option Ref} {st : State} (st' : State) (ps : List Ref) {a : State} {v : Value}
      {b : Bool}
      → (at s vars start st).env c ≡ v
      → JudgedOpt a st b o
      → then_part c o st ≡ ok (ps, st')
      → JudgedAll st st' ps (not (holds v) || b)
  unfolding then_part
  then_part-Judged c {st = st} st' ps {v = v} e (vacuous x always) k =
      none-JudgedAll st st' ps (ground (arith, always)) k
  then_part-Judged c {st = st} st' ps e (judged {t = w} j) k =
      bind-ok (not_ref c) _ st k λ n st₁ e₁ k₁. bind-ok (binary dvs_or n w) _ st₁ k₁ λ p st₂ e₂ k₂.
        let r = not_ref-Judged c st st₁ n e e₁ in
        let g =
          binary-Gives s vars start dvs_or n w st₁ st₂ p r.gives.value
            (r.gives.ext.keep w j.gives.fresh ∙ j.gives.value) e₂ in
        one-JudgedAll p st₂ st' ps
          (Judged-after r.gives.ext (record {
            result = binary_value dvs_or r.result j.result;
            gives = g;
            truth = ground (arith, or_law r.result j.result, r.truth, j.truth);
          }))
          k₂

  pub else_part-Judged :
      (c : Ref) {o : Option Ref} {st : State} (st' : State) (ps : List Ref) {a : State} {v : Value}
      {b : Bool}
      → (at s vars start st).env c ≡ v
      → JudgedOpt a st b o
      → else_part c o st ≡ ok (ps, st')
      → JudgedAll st st' ps (holds v || b)
  unfolding else_part
  else_part-Judged c {st = st} st' ps {v = v} e (vacuous x always) k =
      none-JudgedAll st st' ps (ground (arith, always)) k
  else_part-Judged c {st = st} st' ps {v = v} e (judged {t = w} j) k =
      bind-ok (binary dvs_or c w) _ st k λ p st₁ e₁ k₁.
        one-JudgedAll p st₁ st' ps
          (record {
            result = binary_value dvs_or v j.result;
            gives = binary-Gives s vars start dvs_or c w st st₁ p e j.gives.value e₁;
            truth = ground (arith, or_law v j.result, j.truth);
          })
          k₁

  -- The disjunction `!c || c` for no part, and the conjunction of the parts else.
  pub join_parts-Judged :
      (c : Ref) (ps : List Ref) {a : State} (st st' : State) (t : Ref) {v : Value} {b : Bool}
      → c ≤ st.n
      → (at s vars start st).env c ≡ v
      → JudgedAll a st ps b
      → join_parts c ps st ≡ ok (t, st')
      → Judged a st' t b
  unfolding join_parts
  join_parts-Judged c [] {a} st st' t {v} {b} h e j k = go j.results j.gives j.truth
    where
      go : (vs : List Value) → GivesAll s vars start a st [] vs → all_hold vs ≡ b → Judged a st' t b
      go [] g always =
          let r = implies-Judged c c st st' t h e e k in
          Judged-after g.ext
            (record { result = r.result; gives = r.gives; truth = ground (arith, r.truth, always) })
      go (w ∷ vs) g x = absurd g.values
  join_parts-Judged c (p ∷ ps) st st' t h e j k = fold-Judged (p ∷ ps) st st' t j k
