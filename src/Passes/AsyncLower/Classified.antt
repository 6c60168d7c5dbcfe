-- ===== src/Passes/AsyncLower/Classified.antt =====
-- What the classification of src/zuspec/be/sw/passes/async_lower.py computes.
use mathlib.Core.List.{Memᴰ}
use zuspec_be_sw.Prelude.{
  ℕ, suc, ◌*◌, ◌≡◌, refl, sym, subst, inl, inr, ◌↔◌, true, false, some, List, [], ◌∷◌, arith,
  length, Bool-cases,
}
use zuspec_be_sw.Passes.AsyncLower.Nodes.{called_names, body_awaits}
use zuspec_be_sw.Passes.AsyncLower.Classify.{
  Func, Key, eq_key, has_key, SyncMap, set_key, is_false, calls_async, classify_function, key,
  TypeMap, entries, build_proto_methods, marked, classify_all,
}
use zuspec_be_sw.Passes.AsyncLower.Ranks.{HasOneFuncPerKey, is_false-eq, total-bound, eq_key-eq}
use zuspec_be_sw.Passes.AsyncLower.Fixpoint.{rounds_end}

-- The functions that have to stay async: the protocol methods, the import functions, those with an
-- await, and those that call one of these in their own type.
pub data IsBlocked (types : TypeMap) : Key → Type 0 where
  protocol_method : {k : Key} → has_key k (build_proto_methods types) ≡ true → IsBlocked types k
  imported :
      {e : ℕ × Func} → Memᴰ e (entries types) → e.1.is_import ≡ true → IsBlocked types (key e)
  awaiting :
      {e : ℕ × Func}
      → Memᴰ e (entries types)
      → body_awaits e.1.body ≡ true
      → IsBlocked types (key e)
  calling :
      {e : ℕ × Func} {n : ℕ}
      → Memᴰ e (entries types)
      → Memᴰ n (called_names e.1.body)
      → IsBlocked types (e.0, n)
      → IsBlocked types (key e)

calls_async-found :
    (m : SyncMap) (c : ℕ) (xs : List ℕ)
    → calls_async m c xs ≡ true
    → (n : ℕ) × (Memᴰ n xs × (m (c, n) ≡ some false))
unfolding calls_async
calls_async-found m c [] h = cc
calls_async-found m c (x ∷ xs) h = elim (Bool-cases (is_false (m (c, x)))) [
  | inl s ↦ (x, (Memᴰ.head refl, is_false-eq _ s))
  | inr s ↦ let ih = calls_async-found m c xs (ground arith) in (ih.0, (Memᴰ.tail ih.1.0, ih.1.1))
]

calls_async-of :
    (m : SyncMap) (c n : ℕ) (xs : List ℕ)
    → Memᴰ n xs
    → m (c, n) ≡ some false
    → calls_async m c xs ≡ true
unfolding calls_async
calls_async-of m c n [] i h = elim i [ ]
calls_async-of m c n (x ∷ xs) (Memᴰ.head same) h =
    let here : m (c, x) ≡ some false = subst (λ y. m (c, y) ≡ some false) same h in ground arith
calls_async-of m c n (x ∷ xs) (Memᴰ.tail i) h = ground (arith, calls_async-of m c n xs i h)

marked-false : (proto : List Key) (k : Key) → marked proto k ≡ some false → has_key k proto ≡ true
unfolding marked
marked-false proto k h = ground arith

marked_justified :
    (proto : List Key) (m : SyncMap) (e : ℕ × Func)
    → marked proto (key e) ≡ some false
    → classify_function proto m e.0 e.1 ≡ false
unfolding marked classify_function
marked_justified proto m e h = ground arith

marked-marked : (proto : List Key) (k : Key) → has_key k proto ≡ true → marked proto k ≡ some false
unfolding marked
marked-marked proto k h = ground arith

module _ (types : TypeMap) where
  abbrev IsSound : SyncMap → Type 0
  IsSound m = (k : Key) → m k ≡ some false → IsBlocked types k

  abbrev IsMarked : SyncMap → Type 0
  IsMarked m = (k : Key) → has_key k (build_proto_methods types) ≡ true → m k ≡ some false

  classify_function-IsBlocked :
      (m : SyncMap) (e : ℕ × Func)
      → Memᴰ e (entries types)
      → IsSound m
      → classify_function (build_proto_methods types) m e.0 e.1 ≡ false
      → IsBlocked types (key e)
  unfolding classify_function
  classify_function-IsBlocked m e mem sound h =
      elim (Bool-cases (has_key (key e) (build_proto_methods types))) [
        | inl p ↦ protocol_method p
        | inr p ↦ elim (Bool-cases e.1.is_import) [
          | inl i ↦ imported mem i
          | inr i ↦ elim (Bool-cases (body_awaits e.1.body)) [
            | inl a ↦ awaiting mem a
            | inr a ↦
                let found = calls_async-found m e.0 (called_names e.1.body) (ground arith) in
                calling mem found.1.0 (sound (e.0, found.0) found.1.1)
          ]
        ]
      ]

  step-IsSound :
      (m : SyncMap) (e : ℕ × Func)
      → Memᴰ e (entries types)
      → IsSound m × IsMarked m
      → IsSound (set_key (key e) (classify_function (build_proto_methods types) m e.0 e.1) m)
        × IsMarked (set_key (key e) (classify_function (build_proto_methods types) m e.0 e.1) m)
  unfolding classify_function
  step-IsSound m e mem both = (
    λ k h. elim (Bool-cases (eq_key k (key e))) [
      | inl s ↦
          subst (IsBlocked types) (sym (eq_key-eq k (key e) s))
            (classify_function-IsBlocked m e mem both.0 (ground arith))
      | inr s ↦ both.0 k (ground arith)
    ],
    λ k h. elim (Bool-cases (eq_key k (key e))) [
      | inl s ↦
          let same = eq_key-eq k (key e) s in
          let own : has_key (key e) (build_proto_methods types) ≡ true =
            subst (λ l. has_key l (build_proto_methods types) ≡ true) same h in
          ground arith
      | inr s ↦ ground (arith, both.1 k h)
    ],
  )

  IsBlocked-classified :
      (m : SyncMap) (k : Key)
      → IsMarked m
      → ((e : ℕ × Func)
          → Memᴰ e (entries types)
          → m (key e) ≡ some (classify_function (build_proto_methods types) m e.0 e.1))
      → IsBlocked types k
      → m k ≡ some false
  unfolding classify_function
  IsBlocked-classified m k mark fix (protocol_method p) = mark _ p
  IsBlocked-classified m k mark fix (imported {e} mem i) = ground (arith, fix e mem)
  IsBlocked-classified m k mark fix (awaiting {e} mem a) = ground (arith, fix e mem)
  IsBlocked-classified m k mark fix (calling {e} {n} mem i b) =
      let callee = IsBlocked-classified m (e.0, n) mark fix b in
      ground (arith, fix e mem, calls_async-of m e.0 n (called_names e.1.body) i callee)

  decided :
      (m : SyncMap) (e : ℕ × Func)
      → ((m (key e) ≡ some false) ↔ IsBlocked types (key e))
      → m (key e) ≡ some (classify_function (build_proto_methods types) m e.0 e.1)
      → (m (key e) ≡ some true) ↔ (¬ IsBlocked types (key e))
  decided m e same fix = (
    λ t b. let f = same.1 b in cc,
    λ nb. elim (Bool-cases (classify_function (build_proto_methods types) m e.0 e.1)) [
      | inl t ↦ cc
      | inr f ↦ let low : m (key e) ≡ some false = cc in absurd (nb (same.0 low))
    ],
  )

  -- Where every key names one function, the classification ends. It gives false to the functions
  -- that have to stay async and to no other, and true to every other async function.
  pub classify_all-IsBlocked :
      HasOneFuncPerKey (entries types)
      → (m : SyncMap) × ((classify_all types ≡ some m)
          × (((k : Key) → (m k ≡ some false) ↔ IsBlocked types k)
              × ((e : ℕ × Func)
                  → Memᴰ e (entries types)
                  → (m (key e) ≡ some true) ↔ (¬ IsBlocked types (key e)))))
  unfolding classify_all
  classify_all-IsBlocked one =
      let proto = build_proto_methods types in
      let es = entries types in
      let out =
        rounds_end proto es one (λ m. IsSound m × IsMarked m) step-IsSound (suc (2 * length es))
          (marked proto) (omega (arith, total-bound es (marked proto)))
          (λ e mem h. marked_justified proto (marked proto) e h)
          (λ k h. protocol_method (marked-false proto k h), marked-marked proto) in
      let same : (k : Key) → (out.0 k ≡ some false) ↔ IsBlocked types k =
        λ k. (out.1.1.0.0 k, IsBlocked-classified out.0 k out.1.1.0.1 out.1.1.1) in
      (out.0, (out.1.0, (same, λ e mem. decided out.0 e (same (key e)) (out.1.1.1 e mem))))
