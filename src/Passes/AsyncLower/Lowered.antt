-- ===== src/Passes/AsyncLower/Lowered.antt =====
-- What `AsyncLowerPass.run` leaves for each async function.
use mathlib.Core.List.{Memᴰ}
use zuspec_be_sw.Prelude.{
  ℕ, ◌≡◌, refl, sym, ap, ◌∙◌, subst, inl, inr, ◌⊎◌, Bool, true, false, not, ◌&&◌, Option, none,
  some, List, [], ◌∷◌, ◌++◌, arith, Bool-cases,
}
use zuspec_be_sw.Passes.AsyncLower.Nodes.{is_some_list}
use zuspec_be_sw.Passes.AsyncLower.Classify.{
  Func, protocol, component, other_type, TypeMap, Key, SyncMap, key, entries, async_funcs,
}
use zuspec_be_sw.Passes.AsyncLower.Ranks.{HasOneFuncPerKey}
use zuspec_be_sw.Passes.AsyncLower.Classified.{IsBlocked, classify_all-IsBlocked}
use zuspec_be_sw.Passes.AsyncLower.Frames.{SwCoroutineFrame}
use zuspec_be_sw.Passes.AsyncLower.Lowering.{
  Output, empty_output, is_true, mark, frame_of, add_frame, lower_func, lower_funcs, lower_types,
  lower_all, run,
}

module _ {A : Type 0} where
  mem-left : (a : A) (xs ys : List A) → Memᴰ a xs → Memᴰ a (xs ++ ys)
  mem-left a [] ys i = elim i [ ]
  mem-left a (x ∷ xs) ys (Memᴰ.head e) = Memᴰ.head e
  mem-left a (x ∷ xs) ys (Memᴰ.tail i) = Memᴰ.tail (mem-left a xs ys i)

  mem-last : (a : A) (xs : List A) → Memᴰ a (xs ++ (a ∷ []))
  mem-last a [] = Memᴰ.head refl
  mem-last a (x ∷ xs) = Memᴰ.tail (mem-last a xs)

  mem-snoc : (a b : A) (xs : List A) → Memᴰ a (xs ++ (b ∷ [])) → Memᴰ a xs ⊎ (a ≡ b)
  mem-snoc a b [] (Memᴰ.head e) = inr e
  mem-snoc a b [] (Memᴰ.tail i) = elim i [ ]
  mem-snoc a b (x ∷ xs) (Memᴰ.head e) = inl (Memᴰ.head e)
  mem-snoc a b (x ∷ xs) (Memᴰ.tail i) = elim (mem-snoc a b xs i) [
    | inl j ↦ inl (Memᴰ.tail j)
    | inr e ↦ inr e
  ]

  mem-append : (a : A) (xs ys : List A) → Memᴰ a (xs ++ ys) → Memᴰ a xs ⊎ Memᴰ a ys
  mem-append a [] ys i = inr i
  mem-append a (x ∷ xs) ys (Memᴰ.head e) = inl (Memᴰ.head e)
  mem-append a (x ∷ xs) ys (Memᴰ.tail i) = elim (mem-append a xs ys i) [
    | inl j ↦ inl (Memᴰ.tail j)
    | inr j ↦ inr j
  ]

async_funcs-yes :
    (t : ℕ) (f : Func) (fs : List Func)
    → f.is_async ≡ true
    → async_funcs t (f ∷ fs) ≡ (t, f) ∷ async_funcs t fs
async_funcs-yes t f fs a = rw a

async_funcs-no :
    (t : ℕ) (f : Func) (fs : List Func)
    → f.is_async ≡ false
    → async_funcs t (f ∷ fs) ≡ async_funcs t fs
async_funcs-no t f fs a = rw a

cons_cases : (e x : ℕ × Func) (es : List (ℕ × Func)) → Memᴰ e (x ∷ es) → Memᴰ e es ⊎ (e ≡ x)
cons_cases e x es (Memᴰ.head h) = inr h
cons_cases e x es (Memᴰ.tail i) = inl i

async_funcs-cons :
    (e : ℕ × Func) (t : ℕ) (f : Func) (fs : List Func)
    → Memᴰ e (async_funcs t (f ∷ fs))
    → Memᴰ e (async_funcs t fs) ⊎ ((e ≡ (t, f)) × (f.is_async ≡ true))
async_funcs-cons e t f fs i = elim (Bool-cases f.is_async) [
  | inl a ↦
      elim (cons_cases e (t, f) (async_funcs t fs)
        (subst (λ es. Memᴰ e es) (async_funcs-yes t f fs a) i)) [
          | inl j ↦ inl j
          | inr h ↦ inr (h, a)
        ]
  | inr a ↦ inl (subst (λ es. Memᴰ e es) (async_funcs-no t f fs a) i)
]

is_true-eq : (o : Option Bool) → is_true o ≡ true → o ≡ some true
is_true-eq none h = cc
is_true-eq (some true) h = refl
is_true-eq (some false) h = cc

module _ (sync : SyncMap) where
  -- Only keys with the value true are marked.
  abbrev MarksTrue : Output → Type 0
  MarksTrue out = (k : Key) → Memᴰ k out.sync_convertible → sync k ≡ some true

  -- What is marked or has a frame keeps it.
  abbrev Keeps : Output → Output → Type 0
  Keeps out next =
      ((k : Key) → Memᴰ k out.sync_convertible → Memᴰ k next.sync_convertible)
      × ((n : ℕ × SwCoroutineFrame) → Memᴰ n out.sw_nodes → Memᴰ n next.sw_nodes)

  -- The function is marked, or it has its frame.
  abbrev pub IsLowered : ℕ × Func → Output → Type 0
  IsLowered e out =
      (sync (key e) ≡ some true → Memᴰ (key e) out.sync_convertible)
      × (sync (key e) ≡ some false
          → is_some_list e.1.body ≡ true
          → Memᴰ (e.0, frame_of e.0 e.1) out.sw_nodes)

  -- What one function adds.
  abbrev IsStep : ℕ → Func → Output → Output → Type 0
  IsStep t f out next =
      (MarksTrue out → MarksTrue next)
      × (Keeps out next × (f.is_async ≡ true → f.is_process ≡ false → IsLowered (t, f) next))

  skip-IsStep :
      (t : ℕ) (f : Func) (out : Output)
      → (f.is_async ≡ true → f.is_process ≡ false → IsLowered (t, f) out)
      → IsStep t f out out
  skip-IsStep t f out low = (λ m. m, ((λ k i. i, λ n i. i), low))

  mark-IsStep :
      (t : ℕ) (f : Func) (out : Output)
      → sync (t, f.name) ≡ some true
      → IsStep t f out (mark (t, f.name) out)
  mark-IsStep t f out h = (
    λ m k i. elim (mem-snoc k (t, f.name) out.sync_convertible i) [
      | inl j ↦ m k j
      | inr e ↦ ap sync e ∙ h
    ],
    (
      (λ k i. mem-left k out.sync_convertible ((t, f.name) ∷ []) i, λ n i. i),
      λ a p. (λ g. mem-last (t, f.name) out.sync_convertible, λ g b. absurd (cc)),
    ),
  )

  frame-IsStep :
      (t : ℕ) (f : Func) (out : Output)
      → (f.is_process ≡ false → sync (t, f.name) ≡ some true → ⊥)
      → IsStep t f out (add_frame t f out)
  frame-IsStep t f out unmarked = (
    λ m. m,
    (
      (λ k i. i, λ n i. mem-left n out.sw_nodes ((t, frame_of t f) ∷ []) i),
      λ a p. (λ g. absurd (unmarked p g), λ g b. mem-last (t, frame_of t f) out.sw_nodes),
    ),
  )

  lower_func-IsStep : (t : ℕ) (f : Func) (out : Output) → IsStep t f out (lower_func sync t f out)
  unfolding lower_func
  lower_func-IsStep t f out =
      let skipped = not f.is_process && not f.is_async in
      let marked = not f.is_process && is_true (sync (t, f.name)) in
      elim (Bool-cases skipped) [
        | inl s ↦
            let same : lower_func sync t f out ≡ out = rw s in
            subst (IsStep t f out) (sym same) (skip-IsStep t f out (λ a p. absurd (ground arith)))
        | inr s ↦ elim (Bool-cases marked) [
          | inl g ↦
              let same : lower_func sync t f out ≡ mark (t, f.name) out = rw (s, g) in
              subst (IsStep t f out) (sym same) (mark-IsStep t f out (is_true-eq _ (ground arith)))
          | inr g ↦ elim (Bool-cases (is_some_list f.body)) [
            | inl b ↦
                let same : lower_func sync t f out ≡ add_frame t f out = rw (s, g, b) in
                subst (IsStep t f out) (sym same)
                  (frame-IsStep t f out (λ p h. absurd (ground arith)))
            | inr b ↦
                let same : lower_func sync t f out ≡ out = rw (s, g, b) in
                subst (IsStep t f out) (sym same)
                  (skip-IsStep t f out (λ a p. (λ h. absurd (ground arith), λ h c. absurd (cc))))
          ]
        ]
      ]

  Keeps-IsLowered :
      (e : ℕ × Func) (out next : Output) → Keeps out next → IsLowered e out → IsLowered e next
  Keeps-IsLowered e out next keep low = (λ h. keep.0 _ (low.0 h), λ h b. keep.1 _ (low.1 h b))

  Keeps-trans : (a b c : Output) → Keeps a b → Keeps b c → Keeps a c
  Keeps-trans a b c p q = (λ k i. q.0 k (p.0 k i), λ n i. q.1 n (p.1 n i))

  -- What the functions of a list add.
  AreLowered : List (ℕ × Func) → Output → Output → Type 0
  AreLowered es out next =
      (MarksTrue out → MarksTrue next)
      × (Keeps out next × ((e : ℕ × Func) → Memᴰ e es → e.1.is_process ≡ false → IsLowered e next))

  lower_funcs-AreLowered :
      (t : ℕ) (fs : List Func) (out : Output)
      → AreLowered (async_funcs t fs) out (lower_funcs sync t fs out)
  unfolding AreLowered lower_funcs
  lower_funcs-AreLowered t [] out = (λ m. m, ((λ k i. i, λ n i. i), λ e i. elim i [ ]))
  lower_funcs-AreLowered t (f ∷ fs) out =
      let next = lower_func sync t f out in
      let one = lower_func-IsStep t f out in
      let ih = lower_funcs-AreLowered t fs next in
      (
        λ m. ih.0 (one.0 m),
        (
          Keeps-trans out next (lower_funcs sync t fs next) one.1.0 ih.1.0,
          λ e i p. elim (async_funcs-cons e t f fs i) [
            | inl j ↦ ih.1.1 e j p
            | inr h ↦ Keeps-IsLowered e next (lower_funcs sync t fs next) ih.1.0 (
                subst (λ x. IsLowered x next) (sym h.0)
                  (one.1.1 h.1 (ap (λ x. x.1.is_process) (sym h.0) ∙ p)))
          ],
        ),
      )

  lower_funcs-append :
      (t : ℕ) (fs gs : List Func) (out : Output)
      → lower_funcs sync t (fs ++ gs) out ≡ lower_funcs sync t gs (lower_funcs sync t fs out)
  unfolding lower_funcs
  lower_funcs-append t [] gs out = refl
  lower_funcs-append t (f ∷ fs) gs out = lower_funcs-append t fs gs (lower_func sync t f out)

  lower_types-AreLowered :
      (types : TypeMap) (out : Output) → AreLowered (entries types) out (lower_types sync types out)
  unfolding AreLowered lower_types entries
  lower_types-AreLowered [] out = (λ m. m, ((λ k i. i, λ n i. i), λ e i. elim i [ ]))
  lower_types-AreLowered ((t, protocol methods) ∷ types) out = lower_types-AreLowered types out
  lower_types-AreLowered ((t, other_type) ∷ types) out = lower_types-AreLowered types out
  lower_types-AreLowered ((t, component functions processes) ∷ types) out =
      let mid = lower_funcs sync t functions out in
      let next = lower_funcs sync t processes mid in
      let own = lower_funcs-AreLowered t functions out in
      let more = lower_funcs-AreLowered t processes mid in
      let rest = lower_types-AreLowered types next in
      let later = Keeps-trans mid next (lower_types sync types next) more.1.0 rest.1.0 in
      subst
        (λ x. AreLowered (async_funcs t functions ++ entries types) out (lower_types sync types x))
        (sym (lower_funcs-append t functions processes out))
        (
          λ m. rest.0 (more.0 (own.0 m)),
          (
            Keeps-trans out mid (lower_types sync types next) own.1.0 later,
            λ e i p. elim (mem-append e (async_funcs t functions) (entries types) i) [
              | inl j ↦ Keeps-IsLowered e mid (lower_types sync types next) later (own.1.1 e j p)
              | inr j ↦ rest.1.1 e j p
            ],
          ),
        )

-- Where every key names one function, the pass ends. It marks no function that has to stay async.
-- Every async function that is no `Process` is marked if it does not have to stay async, and gets
-- the frame of its body if it has to and the body is not empty.
pub run-lowers :
    (types : TypeMap)
    → HasOneFuncPerKey (entries types)
    → (out : Output) × ((run types ≡ some out)
        × (((k : Key) → Memᴰ k out.sync_convertible → ¬ IsBlocked types k)
            × ((e : ℕ × Func)
                → Memᴰ e (entries types)
                → e.1.is_process ≡ false
                → ((¬ IsBlocked types (key e)) → Memᴰ (key e) out.sync_convertible)
                  × (IsBlocked types (key e)
                      → is_some_list e.1.body ≡ true
                      → Memᴰ (e.0, frame_of e.0 e.1) out.sw_nodes))))
unfolding run AreLowered
run-lowers types one =
    let got = classify_all-IsBlocked types one in
    let sync = got.0 in
    let low = lower_types-AreLowered sync types empty_output in
    (
      lower_types sync types empty_output,
      (
        ap (lower_all types) got.1.0,
        (
          λ k i b.
              let yes : sync k ≡ some true = low.0 (λ l j. elim j [ ]) k i in
              let never : sync k ≡ some false = (got.1.1.0 k).1 b in cc,
          λ e i p.
              let own = low.1.1 e i p in
              (λ nb. own.0 ((got.1.1.1 e i).1 nb), λ b body. own.1 ((got.1.1.0 (key e)).1 b) body),
        ),
      ),
    )
