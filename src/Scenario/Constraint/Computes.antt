-- ===== src/Scenario/Constraint/Computes.antt =====
-- What a piece of the emitter leaves behind: lines that compute a value and disturb nothing.
use zuspec_be_sw.Prelude.{ℕ, ◌+◌, ◌≤◌, ◌≡◌, refl, ◌∙◌, List, [], ◌∷◌, ◌++◌, arith}
use zuspec_be_sw.Scenario.Constraint.Builder.{
  DvsBin, Ref, Call, binary_call, in_range_call, State, Result, ok, err, Emit, ◌>>=◌, pure, emit,
  define,
}
use zuspec_be_sw.Scenario.Constraint.Emitter.{fold_from, fold_refs, plain_bin}
use zuspec_be_sw.Scenario.Constraint.Solver.{
  Solver, Machine, call_value, exec, exec_line, exec-snoc,
}
use zuspec_be_sw.Scenario.Constraint.Meaning.{join_from, join}

-- A bind that succeeds: both parts do.
pub >>=-eq-ok :
    {A B : Type 0} (m : Emit A) (f : A → Emit B) (st : State) {r : B × State}
    → (m >>= f) st ≡ ok r
    → (a : A) × (st₁ : State) × (m st ≡ ok (a, st₁)) × (f a st₁ ≡ ok r)
>>=-eq-ok {A} {B} m f st {r} h = go (m st) refl h
  where
    go :
        (x : Result (A × State))
        → m st ≡ x
        → (elim x [ ok (a, st') ↦ f a st' | err e ↦ err e ]) ≡ ok r
        → (a : A) × (st₁ : State) × (m st ≡ ok (a, st₁)) × (f a st₁ ≡ ok r)
    go (ok (a, st₁)) e k = (a, st₁, e, k)
    go (err x) e k = cc

-- The same, for a goal that is proved from the two parts.
pub bind-ok :
    {A B P : Type 0} (m : Emit A) (f : A → Emit B) (st : State) {r : B × State}
    → (m >>= f) st ≡ ok r
    → ((a : A) (st₁ : State) → m st ≡ ok (a, st₁) → f a st₁ ≡ ok r → P)
    → P
bind-ok m f st h k = let (a, st₁, e, rest) = >>=-eq-ok m f st h in k a st₁ e rest

module _ (s : Solver) (vars : ℕ → Solver.Value s) (start : Machine s) where
  open s use {Value, binary_value, in_range_value}

  -- The machine after the lines emitted so far.
  abbrev pub at : State → Machine s
  at st = exec s vars st.lines start

  -- Later lines keep the temporaries and add no constraint.
  pub record Ext (st st' : State) : Type 0 where
    pub grow : st.n ≤ st'.n
    pub keep : (k : ℕ) → k ≤ st.n → (at st').env k ≡ (at st).env k
    pub same : (at st').sat ≡ (at st).sat

  pub Ext-refl : (st : State) → Ext st st
  Ext-refl st = record { grow = omega arith; keep = λ k h. refl; same = refl }

  pub Ext-trans : {a b c : State} → Ext a b → Ext b c → Ext a c
  Ext-trans {a} {b} p q = record {
    grow = omega (arith, p.grow, q.grow);
    keep = λ k h. q.keep k (omega (arith, p.grow)) ∙ p.keep k h;
    same = q.same ∙ p.same;
  }

  -- `t` is a temporary that holds `v`.
  pub record Gives (st st' : State) (t : Ref) (v : Value) : Type 0 where
    pub ext : Ext st st'
    pub fresh : t ≤ st'.n
    pub value : (at st').env t ≡ v

  pub Gives-after : {a b c : State} {t : Ref} {v : Value} → Ext a b → Gives b c t v → Gives a c t v
  Gives-after p g = record { ext = Ext-trans p g.ext; fresh = g.fresh; value = g.value }

  -- A value is kept by what follows.
  pub Gives-later : {a b c : State} {t : Ref} {v : Value} → Gives a b t v → Ext b c → Gives a c t v
  Gives-later {t = t} g q = record {
    ext = Ext-trans g.ext q;
    fresh = omega (arith, g.fresh, q.grow);
    value = q.keep t g.fresh ∙ g.value;
  }

  abbrev pub Spec : Emit Ref → Value → Type 0
  Spec m v = (st st' : State) (t : Ref) → m st ≡ ok (t, st') → Gives st st' t v

  pub emit-Gives :
      (call : Call) (st st' : State) (t : Ref)
      → emit call st ≡ ok (t, st')
      → Gives st st' t (call_value s vars (at st).env call)
  unfolding emit
  emit-Gives call st st' t e = rw (← out) (
      rw (← ref) (record {
        ext = record { grow = omega arith; keep = λ k h. rw snoc (ground arith); same = rw snoc };
        fresh = omega arith;
        value = rw snoc (ground arith);
      }))
    where
      next : State
      next = record { lines = st.lines ++ (define (st.n + 1) call ∷ []); n = st.n + 1 }

      ref : st.n + 1 ≡ t
      ref = cc

      out : next ≡ st'
      out = cc

      snoc : at next ≡ exec_line s vars (define (st.n + 1) call) (at st)
      snoc = exec-snoc s vars st.lines (define (st.n + 1) call) start

  pub binary-Gives :
      (op : DvsBin) (l r : Ref) (st st' : State) (t : Ref) {v w : Value}
      → (at st).env l ≡ v
      → (at st).env r ≡ w
      → emit (binary_call op l r) st ≡ ok (t, st')
      → Gives st st' t (binary_value op v w)
  binary-Gives op l r st st' t p q e = rw (← p, ← q) (emit-Gives (binary_call op l r) st st' t e)

  pub in_range-Gives :
      (a l r : Ref) (st st' : State) (t : Ref) {u v w : Value}
      → (at st).env a ≡ u
      → (at st).env l ≡ v
      → (at st).env r ≡ w
      → emit (in_range_call a l r) st ≡ ok (t, st')
      → Gives st st' t (in_range_value u v w)
  in_range-Gives a l r st st' t o p q e =
      rw (← o, ← p, ← q) (emit-Gives (in_range_call a l r) st st' t e)

  -- Temporaries that hold a list of values.
  abbrev pub Valued : State → List Ref → List Value → Type 0
  Valued st [] [] = Unit
  Valued st [] (v ∷ vs) = ⊥
  Valued st (t ∷ ts) [] = ⊥
  Valued st (t ∷ ts) (v ∷ vs) = (t ≤ st.n) × ((at st).env t ≡ v) × Valued st ts vs

  pub Valued-later :
      {a b : State} (ts : List Ref) (vs : List Value) → Ext a b → Valued a ts vs → Valued b ts vs
  Valued-later [] [] p h = tt
  Valued-later [] (v ∷ vs) p h = h
  Valued-later (t ∷ ts) [] p h = h
  Valued-later (t ∷ ts) (v ∷ vs) p h =
      (omega (arith, p.grow, h.0), p.keep t h.0 ∙ h.1, Valued-later ts vs p h.2)

  pub record GivesAll (st st' : State) (ts : List Ref) (vs : List Value) : Type 0 where
    pub ext : Ext st st'
    pub values : Valued st' ts vs

  abbrev pub SpecAll : Emit (List Ref) → List Value → Type 0
  SpecAll m vs = (st st' : State) (ts : List Ref) → m st ≡ ok (ts, st') → GivesAll st st' ts vs

  -- A temporary that is handed on.
  pub pure-Gives :
      (r : Ref) (st st' : State) (t : Ref) {v : Value}
      → r ≤ st.n
      → (at st).env r ≡ v
      → pure r st ≡ ok (t, st')
      → Gives st st' t v
  pure-Gives r st st' t h e k =
      let out : st ≡ st' = cc in
      let ref : r ≡ t = cc in
      rw (← out) (rw (← ref) (record { ext = Ext-refl st; fresh = h; value = e }))

  pub pure_all-Gives :
      (refs : List Ref) (st st' : State) (ts : List Ref) {vs : List Value}
      → Valued st refs vs
      → pure refs st ≡ ok (ts, st')
      → GivesAll st st' ts vs
  pure_all-Gives refs st st' ts h k =
      let out : st ≡ st' = cc in
      let same : refs ≡ ts = cc in
      rw (← out) (rw (← same) (record { ext = Ext-refl st; values = h }))

  pub GivesAll-after :
      {a b c : State} {ts : List Ref} {vs : List Value}
      → Ext a b
      → GivesAll b c ts vs
      → GivesAll a c ts vs
  GivesAll-after p g = record { ext = Ext-trans p g.ext; values = g.values }

  pub fold_from-Gives :
      (op : DvsBin) (acc : Ref) (refs : List Ref) (a : Value) (vs : List Value) (st st' : State)
      (t : Ref)
      → acc ≤ st.n
      → (at st).env acc ≡ a
      → Valued st refs vs
      → fold_from op acc refs st ≡ ok (t, st')
      → Gives st st' t (join_from s op a vs)
  unfolding fold_from join_from
  fold_from-Gives op acc [] a [] st st' t h e v k = pure-Gives acc st st' t h e k
  fold_from-Gives op acc [] a (w ∷ vs) st st' t h e v k = absurd v
  fold_from-Gives op acc (r ∷ refs) a [] st st' t h e v k = absurd v
  fold_from-Gives op acc (r ∷ refs) a (w ∷ vs) st st' t h e v k =
      let (acc', st₁, made, rest) =
        >>=-eq-ok (emit (binary_call op acc r)) (λ x. fold_from op x refs) st k in
      let g = binary-Gives op acc r st st₁ acc' e v.1 made in
      Gives-after g.ext (
        fold_from-Gives op acc' refs (binary_value op a w) vs st₁ st' t g.fresh g.value
          (Valued-later refs vs g.ext v.2) rest)

  pub fold_refs-Gives :
      (op : DvsBin) (refs : List Ref) (vs : List Value) (st st' : State) (t : Ref)
      → Valued st refs vs
      → fold_refs op refs st ≡ ok (t, st')
      → Gives st st' t (join s op vs)
  unfolding fold_refs
  fold_refs-Gives op [] vs st st' t v k = cc
  fold_refs-Gives op (r ∷ refs) [] st st' t v k = absurd v
  fold_refs-Gives op (r ∷ refs) (w ∷ vs) st st' t v k =
      fold_from-Gives op r refs w vs st st' t v.0 v.1 v.2 k

  -- A list of references, then its fold.
  pub fold-Spec :
      (op : DvsBin) {m : Emit (List Ref)} {vs : List Value}
      → SpecAll m vs
      → Spec (m >>= fold_refs op) (join s op vs)
  fold-Spec op {m} {vs} h st st' t k =
      let (refs, st₁, made, rest) = >>=-eq-ok m (fold_refs op) st k in
      let g = h st st₁ refs made in
      Gives-after g.ext (fold_refs-Gives op refs vs st₁ st' t g.values rest)

  pub plain_bin-Spec :
      (code : DvsBin) {l r : Emit Ref} {v w : Value}
      → Spec l v
      → Spec r w
      → Spec (plain_bin code l r) (binary_value code v w)
  unfolding plain_bin
  plain_bin-Spec code {l} {r} hl hr st st' t k =
      let (a, st₁, ea, k₁) = >>=-eq-ok l (λ a. r >>= λ b. emit (binary_call code a b)) st k in
      let (b, st₂, eb, k₂) = >>=-eq-ok r (λ b. emit (binary_call code a b)) st₁ k₁ in
      let ga = hl st st₁ a ea in
      let gb = hr st₁ st₂ b eb in
      let ga' = Gives-later ga gb.ext in
      Gives-after ga'.ext (binary-Gives code a b st₂ st' t ga'.value gb.value k₂)
