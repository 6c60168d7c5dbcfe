-- ===== src/Passes/WaitPoints/Bounds.antt =====
-- The bounds of src/zuspec/be/sw/passes/wait_point_analysis.py for one step of its scans.
use mathlib.Core.List.{Memᴰ}
use zuspec_be_sw.Prelude.{
  ℕ, zero, suc, ◌+◌, ◌≤◌, ◌≡◌, ◌⊎◌, inl, inr, refl, sym, ap, ◌∙◌, subst, Bool, true, false, ◌||◌,
  Option, none, some, List, [], ◌∷◌, ◌==◌, if◌then◌else◌, arith, Bool-cases,
}
use zuspec_be_sw.Passes.WaitPoints.Syntax.{
  Expr, await, call, attribute, ref_name, self_ref, constant, node, Exprs, nil, cons, Func,
}
use zuspec_be_sw.Passes.WaitPoints.Scan.{
  unbounded, Latency, latency, no_wait, bare_name, find_method, callee, is_self_wait, scan_expr,
  scan_exprs, scan_stmts, add_latency, join_if, or_later, visited_name, analyze,
}
use zuspec_be_sw.Passes.WaitPoints.Takes.{ExprTakes, ExprsTakes, awaits, awaits_of}

-- The time lies between the bounds, where `unbounded` and more is no bound, and code without a wait
-- takes no time.
pub record IsBound (r : Latency) (l : ℕ) : Type 0 where
  pub below : r.min_ps ≤ l
  pub above : (l ≤ r.max_ps) ⊎ (unbounded ≤ r.max_ps)
  pub quiet : r.has_wait ≡ false → l ≡ 0

pub any_time : (l : ℕ) → IsBound (latency 0 unbounded true) l
any_time l = record { below = omega arith; above = inr (omega arith); quiet = λ h. cc }

pub no_time : IsBound no_wait 0
no_time = record { below = omega arith; above = inl (omega arith); quiet = λ h. refl }

add_above :
    (m n a b : ℕ)
    → (a ≤ m) ⊎ (unbounded ≤ m)
    → (b ≤ n) ⊎ (unbounded ≤ n)
    → (a + b ≤ (if (m == unbounded) || (n == unbounded) then unbounded else m + n))
      ⊎ (unbounded ≤ (if (m == unbounded) || (n == unbounded) then unbounded else m + n))
add_above m n a b p q = elim (Bool-cases ((m == unbounded) || (n == unbounded))) [
  | inl h ↦ inr (rw h (omega arith))
  | inr h ↦ rw h (elim p [
    | inr u ↦ inr (omega arith)
    | inl le ↦ elim q [ inr u ↦ inr (omega arith) | inl le' ↦ inl (omega arith) ]
  ])
]

pub add-IsBound :
    (t s : Latency) (a b : ℕ) → IsBound t a → IsBound s b → IsBound (add_latency t s) (a + b)
add-IsBound t s a b p q = record {
  below = omega (arith, p.below, q.below);
  above = add_above t.max_ps s.max_ps a b p.above q.above;
  quiet = λ h. ground (arith, p.quiet, q.quiet);
}

-- Two branches, each with its time.
pub join_then :
    (no_orelse : Bool) (t e : Latency) (l : ℕ)
    → IsBound t l
    → IsBound (join_if false no_orelse t e) l
join_then true t e l p = record {
  below = omega arith;
  above = p.above;
  quiet = λ h. ground (arith, p.quiet);
}
join_then false t e l p = record {
  below = omega (arith, p.below);
  above = elim p.above [ inl a ↦ inl (omega arith) | inr u ↦ inr (omega arith) ];
  quiet = λ h. ground (arith, p.quiet);
}

pub join_else : (t e : Latency) (l : ℕ) → IsBound e l → IsBound (join_if false false t e) l
join_else t e l p = record {
  below = omega (arith, p.below);
  above = elim p.above [ inl a ↦ inl (omega arith) | inr u ↦ inr (omega arith) ];
  quiet = λ h. ground (arith, p.quiet);
}

pub join_no_else : (t : Latency) → IsBound (join_if false true t no_wait) 0
join_no_else t = record { below = omega arith; above = inl (omega arith); quiet = λ h. refl }

pub later_IsBound :
    (r s : Latency) (a b : ℕ)
    → IsBound r a
    → IsBound s b
    → ((r ≡ no_wait) × (a ≡ 0)) ⊎ ((s ≡ no_wait) × (b ≡ 0))
    → IsBound (or_later r s) (a + b)
later_IsBound r s a b p q (inl e) =
    let same : or_later r s ≡ s = ap (λ x. or_later x s) e.0 in
    let sum : a + b ≡ b = omega (arith, e.1) in
    subst (λ x. IsBound x (a + b)) (sym same) (subst (IsBound s) (sym sum) q)
later_IsBound r s a b p q (inr e) =
    let sum : a + b ≡ a = omega (arith, e.1) in
    subst (IsBound (or_later r s)) (sym sum) (elim (Bool-cases r.has_wait) [
      | inl h ↦ let same : or_later r s ≡ r = rw h in subst (λ x. IsBound x a) (sym same) p
      | inr h ↦
          let same : or_later r s ≡ s = rw h in
          let none_taken : a ≡ 0 = p.quiet h in
          subst (λ x. IsBound x a) (sym (same ∙ e.0))
            (subst (IsBound no_wait) (sym none_taken) no_time)
    ])

pub or_nothing : (r : Latency) (l : ℕ) → IsBound r l → IsBound (or_later r no_wait) l
or_nothing r l p = elim (Bool-cases r.has_wait) [
  | inl h ↦ let same : or_later r no_wait ≡ r = rw h in subst (λ x. IsBound x l) (sym same) p
  | inr h ↦
      let same : or_later r no_wait ≡ no_wait = rw h in
      subst (λ x. IsBound x l) (sym same) (subst (IsBound no_wait) (sym (p.quiet h)) no_time)
]

found_method :
    (methods : List Func) (n : Option ℕ) (m : Func)
    → find_method methods n ≡ some m
    → Memᴰ m methods
unfolding find_method
found_method methods none m h = cc
found_method [] (some n) m h = cc
found_method (f ∷ fs) (some n) m h = elim (Bool-cases (f.name == n)) [
  | inl e ↦ let same : f ≡ m = ground arith in Memᴰ.head (sym same)
  | inr e ↦ Memᴰ.tail (found_method fs (some n) m (ground arith))
]

module _ (starts_wait : ℕ → Bool) (methods : List Func) where
  pub found_callee :
      (name : Option (List ℕ)) (m : Func)
      → callee starts_wait methods name ≡ some m
      → Memᴰ m methods
  unfolding callee
  found_callee name m h = elim (Bool-cases (is_self_wait starts_wait name)) [
    | inl e ↦ absurd (ground arith)
    | inr e ↦ found_method methods (bare_name name) m (ground arith)
  ]

  mutual
    unfolding scan_expr scan_exprs awaits awaits_of

    quiet_expr :
        (rec : Func → Latency) (e : Expr) (l : ℕ)
        → awaits methods e ≡ 0
        → ExprTakes methods e l
        → (scan_expr starts_wait methods rec e ≡ no_wait) × (l ≡ 0)
    quiet_expr rec (await v) l h t = absurd (ground arith)
    quiet_expr rec (call f es) l h (ExprTakes.called x y e) =
        let one = quiet_expr rec f _ (omega arith) x in
        let two = quiet_exprs rec es _ (omega arith) y in
        (ground (arith, one.0, two.0), omega (arith, one.1, two.1))
    quiet_expr rec (attribute v n) l h (ExprTakes.selected x) =
        let one = quiet_expr rec v l h x in (ground (arith, one.0), one.1)
    quiet_expr rec (ref_name n) l h (ExprTakes.named e) = (refl, e)
    quiet_expr rec self_ref l h (ExprTakes.own e) = (refl, e)
    quiet_expr rec (constant v) l h (ExprTakes.literal e) = (refl, e)
    quiet_expr rec (node es) l h (ExprTakes.noded x) = quiet_exprs rec es l h x

    quiet_exprs :
        (rec : Func → Latency) (es : Exprs) (l : ℕ)
        → awaits_of methods es ≡ 0
        → ExprsTakes methods es l
        → (scan_exprs starts_wait methods rec es ≡ no_wait) × (l ≡ 0)
    quiet_exprs rec nil l h (ExprsTakes.nothing e) = (refl, e)
    quiet_exprs rec (cons e es) l h (ExprsTakes.each x y k) =
        let one = quiet_expr rec e _ (omega arith) x in
        let two = quiet_exprs rec es _ (omega arith) y in
        (ground (arith, one.0, two.0), omega (arith, one.1, two.1))

  -- With one await at most, one of two parts has none.
  pub sides :
      (rec : Func → Latency) (f : Expr) (es : Exprs) (a b : ℕ)
      → awaits methods f + awaits_of methods es ≤ 1
      → ExprTakes methods f a
      → ExprsTakes methods es b
      → ((scan_expr starts_wait methods rec f ≡ no_wait) × (a ≡ 0))
        ⊎ ((scan_exprs starts_wait methods rec es ≡ no_wait) × (b ≡ 0))
  sides rec f es a b h x y = elim (Bool-cases (awaits methods f == 0)) [
    | inl e ↦ inl (quiet_expr rec f a (ground arith) x)
    | inr e ↦ inr (quiet_exprs rec es b (ground arith) y)
  ]

  -- `_analyze` at a method, from the scan of its body.
  pub analyzed :
      (fuel : ℕ) (visited : List ℕ) (m : Func) (l : ℕ)
      → ((fuel' : ℕ) (visited' : List ℕ)
          → IsBound
              (scan_stmts starts_wait methods
                (analyze starts_wait methods fuel' visited')
                m.body
                no_wait)
              l)
      → IsBound (analyze starts_wait methods fuel visited m) l
  unfolding analyze
  analyzed zero visited m l h = any_time l
  analyzed (suc fuel) visited m l h = elim (Bool-cases (visited_name starts_wait m.name visited)) [
    | inl e ↦ rw e (any_time l)
    | inr e ↦ rw e (h fuel (m.name ∷ visited))
  ]
