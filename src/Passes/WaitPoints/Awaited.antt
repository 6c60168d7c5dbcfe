-- ===== src/Passes/WaitPoints/Awaited.antt =====
-- The await of a call in src/zuspec/be/sw/passes/wait_point_analysis.py: its name, its wait and its method.
use mathlib.Core.List.{Memᴰ}
use zuspec_be_sw.Prelude.{
  ℕ, ◌≡◌, inl, inr, refl, sym, subst, ap, Bool, true, false, ◌||◌, ◌==◌, Option, none, some, List,
  [], ◌∷◌, ◌++◌, arith, Bool-cases,
}
use zuspec_be_sw.Passes.WaitPoints.Syntax.{
  Expr, await, call, attribute, ref_name, self_ref, constant, node, Exprs, cons, Func,
}
use zuspec_be_sw.Passes.WaitPoints.Scan.{
  Latency, call_name_from_expr, call_name, extend, last_part, bare_name, literal_int, literal_first,
  wait_table, extract_wait_ps, find_method, is_self_wait, callee, fixed_or, scan_callee, scan_await,
}
use zuspec_be_sw.Passes.WaitPoints.Takes.{
  WaitsFor, is_wait_name, has_name, is_own, is_covered, AreNamed,
}
use zuspec_be_sw.Passes.WaitPoints.Bounds.{IsBound, any_time}

timed_lem : (n v l : ℕ) → WaitsFor n v l → wait_table n v ≡ some l
unfolding wait_table
timed_lem n v l (WaitsFor.picoseconds (inl a) e) = rw (a, e) refl
timed_lem n v l (WaitsFor.picoseconds (inr a) e) = rw (a, e) refl
timed_lem n v l (WaitsFor.nanoseconds (inl a) e) = rw (a, e) refl
timed_lem n v l (WaitsFor.nanoseconds (inr a) e) = rw (a, e) refl
timed_lem n v l (WaitsFor.microseconds (inl a) e) = rw a (ap some (omega (arith, e)))
timed_lem n v l (WaitsFor.microseconds (inr a) e) = rw a (ap some (omega (arith, e)))
timed_lem n v l (WaitsFor.milliseconds a e) = rw a (ap some (omega (arith, e)))

not_wait : (n : ℕ) (o : Option ℕ) → is_wait_name n ≡ false → extract_wait_ps (some n) o ≡ none
unfolding extract_wait_ps wait_table
not_wait n none h = refl
not_wait n (some v) h = ground arith

last_part-append : (xs : List ℕ) (n : ℕ) → last_part (xs ++ (n ∷ [])) ≡ some n
unfolding last_part
last_part-append [] n = refl
last_part-append (x ∷ []) n = refl
last_part-append (x ∷ y ∷ xs) n = last_part-append (y ∷ xs) n

last_part-extend : (o : Option (List ℕ)) (n : ℕ) → last_part (extend o n) ≡ some n
unfolding last_part
last_part-extend none n = refl
last_part-extend (some xs) n = last_part-append xs n

no_method : (n : ℕ) (fs : List Func) → has_name n fs ≡ false → find_method fs (some n) ≡ none
unfolding has_name find_method
no_method n [] h = refl
no_method n (f ∷ fs) h = elim (Bool-cases (f.name == n)) [
  | inl e ↦ absurd (ground arith)
  | inr e ↦ rw e (no_method n fs (ground arith))
]

-- The first method of a name.
method_found :
    (m : Func) (fs : List Func)
    → Memᴰ m fs
    → (g : Func) × Memᴰ g fs × (g.name ≡ m.name) × (find_method fs (some m.name) ≡ some g)
unfolding find_method
method_found m [] k = elim k [ ]
method_found m (f ∷ fs) (Memᴰ.head e) =
    let same : f.name ≡ m.name = ap (λ (x : Func). x.name) (sym e) in
    let hit : (f.name == m.name) ≡ true = ground arith in (f, Memᴰ.head refl, same, rw hit refl)
method_found m (f ∷ fs) (Memᴰ.tail k) = elim (Bool-cases (f.name == m.name)) [
  | inl e ↦ (f, Memᴰ.head refl, ground arith, rw e refl)
  | inr e ↦ let (g, mem, same, found) = method_found m fs k in (g, Memᴰ.tail mem, same, rw e found)
]

module _ (starts_wait : ℕ → Bool) (methods : List Func) (rec : Func → Latency) where
  no_callee :
      (name : Option (List ℕ))
      → find_method methods (bare_name name) ≡ none
      → callee starts_wait methods name ≡ none
  unfolding callee
  no_callee name h = elim (Bool-cases (is_self_wait starts_wait name)) [
    | inl e ↦ rw e refl
    | inr e ↦ rw e h
  ]

  -- What the pass makes of a call by its name and the constant in it.
  abbrev scan_named : Option (List ℕ) → Option ℕ → Latency
  scan_named name o =
      fixed_or (extract_wait_ps (bare_name name) o)
        (scan_callee starts_wait methods rec (callee starts_wait methods name))

  unknown_named :
      (name : Option (List ℕ)) (n l : ℕ) (o : Option ℕ)
      → bare_name name ≡ some n
      → (is_wait_name n || has_name n methods) ≡ false
      → IsBound (scan_named name o) l
  unknown_named name n l o b h =
      let silent : extract_wait_ps (bare_name name) o ≡ none =
        subst (λ x. extract_wait_ps x o ≡ none) (sym b) (not_wait n o (ground arith)) in
      let nowhere =
        no_callee name (
          subst (λ x. find_method methods x ≡ none) (sym b) (no_method n methods (ground arith))) in
      rw (silent, nowhere) (any_time l)

  unknown_attribute :
      (base : Option (List ℕ)) (n l : ℕ) (o : Option ℕ)
      → (is_wait_name n || has_name n methods) ≡ false
      → IsBound (scan_named (some (extend base n)) o) l
  unknown_attribute base n l o h =
      unknown_named (some (extend base n)) n l o (last_part-extend base n) h

  unnamed :
      (name : Option (List ℕ)) (l : ℕ) (o : Option ℕ)
      → bare_name name ≡ none
      → IsBound (scan_named name o) l
  unfolding extract_wait_ps callee find_method
  unnamed name l o b =
      let silent : extract_wait_ps (bare_name name) o ≡ none = rw b refl in
      let nowhere = no_callee name (rw b refl) in rw (silent, nowhere) (any_time l)

  -- A call of which nothing is known.
  pub unknown-IsBound :
      (f : Expr) (es : Exprs) (l : ℕ)
      → is_covered methods (call f es) ≡ true
      → is_own methods f ≡ false
      → IsBound (scan_await starts_wait methods rec (call f es)) l
  unfolding scan_await call_name call_name_from_expr
  unknown-IsBound (attribute self_ref n) es l c h =
      unknown_attribute (some (7 ∷ [])) n l (literal_first es) h
  unknown-IsBound (attribute (attribute v m) n) es l c h =
      unknown_attribute (call_name_from_expr (attribute v m)) n l (literal_first es) (ground arith)
  unknown-IsBound (attribute (ref_name m) n) es l c h =
      unknown_attribute (some (m ∷ [])) n l (literal_first es) (ground arith)
  unknown-IsBound (attribute (await v) n) es l c h =
      unknown_attribute none n l (literal_first es) (ground arith)
  unknown-IsBound (attribute (call v vs) n) es l c h =
      unknown_attribute none n l (literal_first es) (ground arith)
  unknown-IsBound (attribute (constant v) n) es l c h =
      unknown_attribute none n l (literal_first es) (ground arith)
  unknown-IsBound (attribute (node v) n) es l c h =
      unknown_attribute none n l (literal_first es) (ground arith)
  unknown-IsBound (ref_name n) es l c h =
      unknown_named (some (n ∷ [])) n l (literal_first es) (last_part-append [] n) (ground arith)
  unknown-IsBound (await v) es l c h = unnamed none l (literal_first es) refl
  unknown-IsBound (call v vs) es l c h = unnamed none l (literal_first es) refl
  unknown-IsBound self_ref es l c h = unnamed none l (literal_first es) refl
  unknown-IsBound (constant v) es l c h = unnamed none l (literal_first es) refl
  unknown-IsBound (node v) es l c h = unnamed none l (literal_first es) refl

  -- A wait of the component.
  pub timed-IsBound :
      (n v l : ℕ) (es : Exprs)
      → WaitsFor n v l
      → IsBound
          (scan_await starts_wait methods rec
            (call (attribute self_ref n) (cons (constant (some v)) es)))
          l
  unfolding scan_await call_name call_name_from_expr last_part literal_first literal_int
      extract_wait_ps
  timed-IsBound n v l es w =
      rw (timed_lem n v l w)
        (record { below = omega arith; above = inl (omega arith); quiet = λ h. cc })

  -- A method of the component.
  pub of_method-IsBound :
      (m : Func) (es : Exprs) (l : ℕ)
      → AreNamed methods
      → Memᴰ m methods
      → IsBound (rec m) l
      → IsBound (scan_await starts_wait methods rec (call (attribute self_ref m.name) es)) l
  unfolding scan_await call_name call_name_from_expr last_part callee
  of_method-IsBound m es l named k bound =
      let (g, mem, same, found) = method_found m methods k in
      let only : g ≡ m = named.unique g m mem k same in
      let silent = not_wait m.name (literal_first es) (named.no_wait_name m k) in
      elim (Bool-cases (starts_wait m.name)) [
        | inl e ↦ rw (silent, e) (any_time l)
        | inr e ↦ rw (silent, e, found, only) bound
      ]
