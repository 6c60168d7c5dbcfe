-- ===== src/Scenario/Constraint/Sound.antt =====
-- The lists of temporaries that `_as_expr` puts together.
use mathlib.Core.Path.{ap₂}
use zuspec_be_sw.Prelude.{ℕ, ◌≤◌, ◌≡◌, refl, ◌∙◌, Bool, ◌&&◌, Option, List, [], ◌∷◌, ◌++◌, arith}
use zuspec_be_sw.Scenario.Constraint.Builder.{dvs_neq, Ref, State, ok, pure}
use zuspec_be_sw.Scenario.Constraint.Emitter.{binary}
use zuspec_be_sw.Scenario.Constraint.Items.{keep, neq_row, neq_pairs}
use zuspec_be_sw.Scenario.Constraint.Solver.{Solver, Machine}
use zuspec_be_sw.Scenario.Constraint.Meaning.{apart, all_apart}
use zuspec_be_sw.Scenario.Constraint.Computes.{
  bind-ok, at, Ext-trans, Gives-later, binary-Gives, Valued, Valued-later, pure_all-Gives,
}
use zuspec_be_sw.Scenario.Constraint.Judges.{
  all_hold, Judged, JudgedAll, JudgedAll-after, JudgedOpt, vacuous, judged,
}

module _ (s : Solver) (vars : ℕ → Solver.Value s) (start : Machine s) where
  open s use {Value, binary_value, holds}

  Valued-append :
      (st : State) (ps qs : List Ref) (vs ws : List Value)
      → Valued s vars start st ps vs
      → Valued s vars start st qs ws
      → Valued s vars start st (ps ++ qs) (vs ++ ws)
  Valued-append st [] qs [] ws h k = k
  Valued-append st [] qs (v ∷ vs) ws h k = absurd h
  Valued-append st (p ∷ ps) qs [] ws h k = absurd h
  Valued-append st (p ∷ ps) qs (v ∷ vs) ws h k = (h.0, h.1, Valued-append st ps qs vs ws h.2 k)

  all_hold-append :
      (vs ws : List Value)
      → all_hold s vars start (vs ++ ws) ≡ (all_hold s vars start vs && all_hold s vars start ws)
  all_hold-append [] ws = refl
  all_hold-append (v ∷ vs) ws = ground (arith, all_hold-append vs ws)

  pub append-JudgedAll :
      {a b c : State} (ps qs : List Ref) {p q : Bool}
      → JudgedAll s vars start a b ps p
      → JudgedAll s vars start b c qs q
      → JudgedAll s vars start a c (ps ++ qs) (p && q)
  append-JudgedAll {a} {b} {c} ps qs {p} {q} j k = record {
    results = j.results ++ k.results;
    gives = record {
      ext = Ext-trans s vars start j.gives.ext k.gives.ext;
      values =
          Valued-append c ps qs j.results k.results
            (Valued-later s vars start ps j.results k.gives.ext j.gives.values) k.gives.values;
    };
    truth = ground (arith, all_hold-append j.results k.results, j.truth, k.truth);
  }

  pub pure-JudgedAll :
      (ps qs : List Ref) {a : State} (st st' : State) {b : Bool}
      → JudgedAll s vars start a st ps b
      → pure ps st ≡ ok (qs, st')
      → JudgedAll s vars start a st' qs b
  pure-JudgedAll ps qs st st' j k =
      let out : st ≡ st' = cc in let same : ps ≡ qs = cc in rw (← same) (rw (← out) j)

  cons-JudgedAll :
      {a b c : State} (p : Ref) (qs : List Ref) {x y : Bool}
      → Judged s vars start a b p x
      → JudgedAll s vars start b c qs y
      → JudgedAll s vars start a c (p ∷ qs) (x && y)
  cons-JudgedAll p qs {x} {y} j k =
      let g = Gives-later s vars start j.gives k.gives.ext in
      record {
        results = j.result ∷ k.results;
        gives = record { ext = g.ext; values = (g.fresh, g.value, k.gives.values) };
        truth = ap₂ ◌&&◌ j.truth k.truth;
      }

  neq_row-Judged :
      (l : Ref) (refs : List Ref) (vs : List Value) (st st' : State) (ts : List Ref) {v : Value}
      → l ≤ st.n
      → (at s vars start st).env l ≡ v
      → Valued s vars start st refs vs
      → neq_row l refs st ≡ ok (ts, st')
      → JudgedAll s vars start st st' ts (apart s v vs)
  unfolding neq_row apart
  neq_row-Judged l [] [] st st' ts h e k q = record {
    results = [];
    gives = pure_all-Gives s vars start [] st st' ts tt q;
    truth = refl;
  }
  neq_row-Judged l [] (w ∷ ws) st st' ts h e k q = absurd k
  neq_row-Judged l (r ∷ refs) [] st st' ts h e k q = absurd k
  neq_row-Judged l (r ∷ refs) (w ∷ ws) st st' ts {v} h e k q =
      bind-ok (binary dvs_neq l r) _ st q λ t st₁ e₁ q₁.
        bind-ok (neq_row l refs) _ st₁ q₁ λ terms st₂ e₂ q₂.
          let g = binary-Gives s vars start dvs_neq l r st st₁ t e k.1 e₁ in
          let j =
            neq_row-Judged l refs ws st₁ st₂ terms (omega (arith, g.ext.grow, h))
              (g.ext.keep l h ∙ e) (Valued-later s vars start refs ws g.ext k.2) e₂ in
          pure-JudgedAll (t ∷ terms) ts st₂ st'
            (cons-JudgedAll t terms
              (record { result = binary_value dvs_neq v w; gives = g; truth = refl }) j)
            q₂

  pub neq_pairs-Judged :
      (refs : List Ref) (vs : List Value) (st st' : State) (ts : List Ref)
      → Valued s vars start st refs vs
      → neq_pairs refs st ≡ ok (ts, st')
      → JudgedAll s vars start st st' ts (all_apart s vs)
  unfolding neq_pairs all_apart
  neq_pairs-Judged [] [] st st' ts k q = record {
    results = [];
    gives = pure_all-Gives s vars start [] st st' ts tt q;
    truth = refl;
  }
  neq_pairs-Judged [] (w ∷ ws) st st' ts k q = absurd k
  neq_pairs-Judged (r ∷ refs) [] st st' ts k q = absurd k
  neq_pairs-Judged (r ∷ refs) (w ∷ ws) st st' ts k q =
      bind-ok (neq_row r refs) _ st q λ row st₁ e₁ q₁.
        bind-ok (neq_pairs refs) _ st₁ q₁ λ terms st₂ e₂ q₂.
          let j = neq_row-Judged r refs ws st st₁ row k.0 k.1 k.2 e₁ in
          let js =
            neq_pairs-Judged refs ws st₁ st₂ terms
              (Valued-later s vars start refs ws j.gives.ext k.2) e₂ in
          pure-JudgedAll (row ++ terms) ts st₂ st' (append-JudgedAll row terms j js) q₂

  pub keep-JudgedAll :
      {a b c : State} {o : Option Ref} (refs : List Ref) {x y : Bool}
      → JudgedOpt s vars start a b x o
      → JudgedAll s vars start b c refs y
      → JudgedAll s vars start a c (keep o refs) (x && y)
  keep-JudgedAll refs {x} {y} (vacuous e always) j =
      let k = JudgedAll-after s vars start e j in
      record { results = k.results; gives = k.gives; truth = ground (arith, k.truth, always) }
  keep-JudgedAll refs (judged {t = t} g) j = cons-JudgedAll t refs g j
