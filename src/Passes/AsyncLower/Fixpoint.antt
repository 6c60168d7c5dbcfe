-- ===== src/Passes/AsyncLower/Fixpoint.antt =====
-- The rounds of the classification only lower the values of the map, and end at a fixed point.
use mathlib.Core.List.{Memᴰ}
use mathlib.Core.Path.{fun_ext}
use zuspec_be_sw.Prelude.{
  ℕ, zero, suc, ◌≤◌, ◌<◌, ◌≡◌, refl, sym, ap, ◌∙◌, subst, inl, inr, Bool, true, false, not, some,
  List, [], ◌∷◌, arith, Bool-cases,
}
use zuspec_be_sw.Passes.AsyncLower.Classify.{
  Func, Key, eq_key, SyncMap, set_key, classify_function, key, eq_value, round, rounds,
}
use zuspec_be_sw.Passes.AsyncLower.Ranks.{
  HasOneFuncPerKey, rank, eq_key-eq, eq_key_refl, eq_value-eq, FalseLe, RankLe, classify_mono,
  lowered, changed_rank, total, total-le, total-lt,
}

module _ (proto : List Key) (es : List (ℕ × Func)) where
  abbrev value : SyncMap → ℕ × Func → Bool
  value m e = classify_function proto m e.0 e.1

  abbrev step : SyncMap → ℕ × Func → SyncMap
  step m e = set_key (key e) (value m e) m

  -- What is false is so for a reason that holds in this map.
  abbrev pub IsJustified : SyncMap → Type 0
  IsJustified m = (e : ℕ × Func) → Memᴰ e es → m (key e) ≡ some false → value m e ≡ false

  step-FalseLe : (m : SyncMap) (e : ℕ × Func) → Memᴰ e es → IsJustified m → FalseLe m (step m e)
  step-FalseLe m e mem just k h = elim (Bool-cases (eq_key k (key e))) [
    | inl s ↦
        let low : m (key e) ≡ some false = ap m (sym (eq_key-eq k (key e) s)) ∙ h in
        ground (arith, just e mem low)
    | inr s ↦ ground arith
  ]

  step-IsJustified :
      (m : SyncMap) (e : ℕ × Func)
      → HasOneFuncPerKey es
      → Memᴰ e es
      → IsJustified m
      → IsJustified (step m e)
  step-IsJustified m e one mem just e' mem' h = elim (Bool-cases (eq_key (key e') (key e))) [
    | inl s ↦
        let same : e' ≡ e = one e' e mem' mem s in
        let low : value m e ≡ false = ground arith in
        subst (λ x. value (step m e) x ≡ false) (sym same)
          (classify_mono proto m (step m e) e.0 e.1 (step-FalseLe m e mem just) low)
    | inr s ↦
        let old : m (key e') ≡ some false = ground arith in
        classify_mono proto m (step m e) e'.0 e'.1 (step-FalseLe m e mem just) (just e' mem' old)
  ]

  step-RankLe : (m : SyncMap) (e : ℕ × Func) → Memᴰ e es → IsJustified m → RankLe (step m e) m
  step-RankLe m e mem just k = elim (Bool-cases (eq_key k (key e))) [
    | inl s ↦
        let at : m k ≡ m (key e) = ap m (eq_key-eq k (key e) s) in
        let below : rank (some (value m e)) ≤ rank (m (key e)) =
          lowered (m (key e)) (value m e) (just e mem) in
        ground arith
    | inr s ↦ ground arith
  ]

  -- A step that does not change the value under its key changes nothing.
  step-same :
      (m : SyncMap) (e : ℕ × Func) → eq_value (some (value m e)) (m (key e)) ≡ true → step m e ≡ m
  step-same m e h = fun_ext λ k. elim (Bool-cases (eq_key k (key e))) [
    | inl s ↦
        let at : m k ≡ m (key e) = ap m (eq_key-eq k (key e) s) in
        let old : some (value m e) ≡ m (key e) = eq_value-eq _ _ h in ground arith
    | inr s ↦ ground arith
  ]

  step-lowers :
      (m : SyncMap) (e : ℕ × Func)
      → Memᴰ e es
      → IsJustified m
      → eq_value (some (value m e)) (m (key e)) ≡ false
      → rank (step m e (key e)) < rank (m (key e))
  step-lowers m e mem just h =
      ground (arith, eq_key_refl (key e), changed_rank (m (key e)) (value m e) (just e mem) h)

  -- What every step keeps, a round keeps.
  pub round_keeps :
      (P : SyncMap → Type 0)
      → ((m : SyncMap) (e : ℕ × Func) → Memᴰ e es → P m → P (step m e))
      → (xs : List (ℕ × Func)) → ((e : ℕ × Func) → Memᴰ e xs → Memᴰ e es)
      → (m : SyncMap) (c : Bool) → P m
      → P ((round proto xs m c).0)
  unfolding round
  round_keeps P keep [] sub m c p = p
  round_keeps P keep (e ∷ xs) sub m c p =
      round_keeps P keep xs (λ x i. sub x (Memᴰ.tail i)) (step m e) _
        (keep m e (sub e (Memᴰ.head refl)) p)

  module _ (one : HasOneFuncPerKey es) where
    -- A justified map that is below another one.
    abbrev IsBelow : SyncMap → SyncMap → Type 0
    IsBelow m n = IsJustified n × (FalseLe m n × RankLe n m)

    step-IsBelow : (o m : SyncMap) (e : ℕ × Func) → Memᴰ e es → IsBelow o m → IsBelow o (step m e)
    step-IsBelow o m e mem below = (
      step-IsJustified m e one mem below.0,
      (
        λ k h. step-FalseLe m e mem below.0 k (below.1.0 k h),
        λ k. omega (arith, step-RankLe m e mem below.0 k, below.1.1 k),
      ),
    )

    round-IsBelow :
        (xs : List (ℕ × Func))
        → ((e : ℕ × Func) → Memᴰ e xs → Memᴰ e es)
        → (m : SyncMap) (c : Bool) → IsJustified m
        → IsBelow m ((round proto xs m c).0)
    round-IsBelow xs sub m c just =
        round_keeps (IsBelow m) (step-IsBelow m) xs sub m c (just, (λ k h. h, λ k. omega arith))

    -- The map holds for each function what the classification gives in it.
    abbrev pub IsFixedOn : List (ℕ × Func) → SyncMap → Type 0
    IsFixedOn xs m = (e : ℕ × Func) → Memᴰ e xs → m (key e) ≡ some (value m e)

    fixed_at :
        (m : SyncMap) (e : ℕ × Func) (xs : List (ℕ × Func))
        → eq_value (some (value m e)) (m (key e)) ≡ true
        → IsFixedOn xs m
        → IsFixedOn (e ∷ xs) m
    fixed_at m e xs s fix x (Memᴰ.head same) =
        subst (λ y. m (key y) ≡ some (value m y)) (sym same) (sym (eq_value-eq _ _ s))
    fixed_at m e xs s fix x (Memᴰ.tail i) = fix x i

    round-changed : (xs : List (ℕ × Func)) (m : SyncMap) → (round proto xs m true).1 ≡ true
    unfolding round
    round-changed [] m = refl
    round-changed (e ∷ xs) m = round-changed xs (step m e)

    round-lowers :
        (xs : List (ℕ × Func))
        → ((e : ℕ × Func) → Memᴰ e xs → Memᴰ e es)
        → (m : SyncMap) → IsJustified m
        → (round proto xs m false).1 ≡ true
        → total es ((round proto xs m false).0) < total es m
    unfolding round
    round-lowers [] sub m just h = cc
    round-lowers (e ∷ xs) sub m just h =
        let mem = sub e (Memᴰ.head refl) in
        let rest : (x : ℕ × Func) → Memᴰ x xs → Memᴰ x es = λ x i. sub x (Memᴰ.tail i) in
        let stepped = step-IsJustified m e one mem just in
        let after = round proto xs (step m e) in
        let same = eq_value (some (value m e)) (m (key e)) in
        elim (Bool-cases same) [
          | inl s ↦
              let flag : not same ≡ false = ap not s in
              let still : (after false).1 ≡ true = subst (λ c. (after c).1 ≡ true) flag h in
              subst (λ c. total es ((after c).0) < total es m) (sym flag)
                (omega (
                  arith,
                  total-le es m (step m e) (step-RankLe m e mem just),
                  round-lowers xs rest (step m e) stepped still,
                ))
          | inr s ↦ omega (
            arith,
            total-lt es m (step m e) e mem (step-RankLe m e mem just) (step-lowers m e mem just s),
            total-le es (step m e) ((after (not same)).0)
                (round-IsBelow xs rest (step m e) (not same) stepped).1.1,
          )
        ]

    round-fixed :
        (xs : List (ℕ × Func)) (m : SyncMap)
        → (round proto xs m false).1 ≡ false
        → ((round proto xs m false).0 ≡ m)
          × ((e : ℕ × Func) → Memᴰ e xs → m (key e) ≡ some (value m e))
    unfolding round
    round-fixed [] m h = (refl, λ e i. elim i [ ])
    round-fixed (e ∷ xs) m h =
        let after = round proto xs (step m e) in
        let same = eq_value (some (value m e)) (m (key e)) in
        elim (Bool-cases same) [
          | inl s ↦
              let flag : not same ≡ false = ap not s in
              let still : m ≡ step m e = sym (step-same m e s) in
              let quiet : (after false).1 ≡ false = subst (λ c. (after c).1 ≡ false) flag h in
              let ih = round-fixed xs (step m e) quiet in
              (
                ap (λ c. (after c).0) flag ∙ (ih.0 ∙ sym still),
                λ x i. fixed_at m e xs s (subst (IsFixedOn xs) (sym still) ih.1) x i,
              )
          | inr s ↦
              let flag : not same ≡ true = ap not s in
              let loud : (after true).1 ≡ false = subst (λ c. (after c).1 ≡ false) flag h in
              let wrong = round-changed xs (step m e) in absurd (ground arith)
        ]

    -- Enough fuel gives the map that a round leaves as it is.
    pub rounds_end :
        (P : SyncMap → Type 0)
        → ((m : SyncMap) (e : ℕ × Func) → Memᴰ e es → P m → P (step m e))
        → (fuel : ℕ) (m : SyncMap) → total es m < fuel
        → IsJustified m
        → P m
        → (n : SyncMap) × ((rounds fuel proto es m ≡ some n) × (P n × IsFixedOn es n))
    unfolding rounds
    rounds_end P keep zero m lt just p = absurd (omega arith)
    rounds_end P keep (suc fuel) m lt just p =
        let out = round proto es m false in
        let p' = round_keeps P keep es (λ x i. i) m false p in
        elim (Bool-cases out.1) [
          | inl s ↦
              let less : total es out.0 < fuel =
                omega (arith, round-lowers es (λ x i. i) m just s) in
              let ih =
                rounds_end P keep fuel out.0 less (round-IsBelow es (λ x i. i) m false just).0 p' in
              (ih.0, (rw (s, ih.1.0), ih.1.1))
          | inr s ↦
              let fix = round-fixed es m s in
              (out.0, (rw (s), (p', subst (IsFixedOn es) (sym fix.0) fix.1)))
        ]
