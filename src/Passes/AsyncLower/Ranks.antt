-- ===== src/Passes/AsyncLower/Ranks.antt =====
-- The values of the classification map, and the order in which rounds go through them.
use mathlib.Core.List.{Memᴰ}
use zuspec_be_sw.Prelude.{
  ℕ, ◌+◌, ◌*◌, ◌≤◌, ◌<◌, ◌≡◌, refl, subst, inl, inr, Bool, true, false, Option, none, some, List,
  [], ◌∷◌, arith, length, Bool-cases,
}
use zuspec_be_sw.Passes.AsyncLower.Nodes.{called_names}
use zuspec_be_sw.Passes.AsyncLower.Classify.{
  Func, Key, eq_key, SyncMap, is_false, calls_async, classify_function, key, eq_value,
}

-- Every key names one function.
abbrev pub HasOneFuncPerKey : List (ℕ × Func) → Type 0
HasOneFuncPerKey es =
    (e e' : ℕ × Func) → Memᴰ e es → Memᴰ e' es → eq_key (key e) (key e') ≡ true → e ≡ e'

-- How often the value of a key can still be lowered.
abbrev pub rank : Option Bool → ℕ
rank none = 2
rank (some true) = 1
rank (some false) = 0

rank_bound : (o : Option Bool) → rank o ≤ 2
rank_bound none = omega arith
rank_bound (some true) = omega arith
rank_bound (some false) = omega arith

pub eq_key-eq : (k l : Key) → eq_key k l ≡ true → k ≡ l
eq_key-eq k l h =
    let first : k.0 ≡ l.0 = ground arith in let second : k.1 ≡ l.1 = ground arith in cc

pub eq_key_refl : (k : Key) → eq_key k k ≡ true
eq_key_refl k = ground arith

pub eq_value-eq : (a b : Option Bool) → eq_value a b ≡ true → a ≡ b
eq_value-eq none none h = refl
eq_value-eq (some true) (some true) h = refl
eq_value-eq (some false) (some false) h = refl
eq_value-eq (some true) (some false) h = cc
eq_value-eq (some false) (some true) h = cc
eq_value-eq none (some b) h = cc
eq_value-eq (some true) none h = cc
eq_value-eq (some false) none h = cc

-- What is false stays so.
abbrev pub FalseLe : SyncMap → SyncMap → Type 0
FalseLe m n = (k : Key) → m k ≡ some false → n k ≡ some false

abbrev pub RankLe : SyncMap → SyncMap → Type 0
RankLe m n = (k : Key) → rank (m k) ≤ rank (n k)

pub is_false-eq : (o : Option Bool) → is_false o ≡ true → o ≡ some false
is_false-eq none h = cc
is_false-eq (some true) h = cc
is_false-eq (some false) h = refl

calls_async_mono :
    (m n : SyncMap) (c : ℕ) (xs : List ℕ)
    → FalseLe m n
    → calls_async m c xs ≡ true
    → calls_async n c xs ≡ true
unfolding calls_async
calls_async_mono m n c [] le h = h
calls_async_mono m n c (x ∷ xs) le h = elim (Bool-cases (is_false (m (c, x)))) [
  | inl s ↦ let hit : n (c, x) ≡ some false = le (c, x) (is_false-eq _ s) in ground arith
  | inr s ↦ ground (arith, calls_async_mono m n c xs le)
]

pub classify_mono :
    (proto : List Key) (m n : SyncMap) (c : ℕ) (f : Func)
    → FalseLe m n
    → classify_function proto m c f ≡ false
    → classify_function proto n c f ≡ false
unfolding classify_function
classify_mono proto m n c f le h = ground (arith, calls_async_mono m n c (called_names f.body) le)

pub lowered : (o : Option Bool) (v : Bool) → (o ≡ some false → v ≡ false) → rank (some v) ≤ rank o
lowered none v h = ground arith
lowered (some true) v h = ground arith
lowered (some false) v h = ground (arith, h refl)

pub changed_rank :
    (o : Option Bool) (v : Bool)
    → (o ≡ some false → v ≡ false)
    → eq_value (some v) o ≡ false
    → rank (some v) < rank o
changed_rank none v h d = ground arith
changed_rank (some true) true h d = cc
changed_rank (some true) false h d = omega arith
changed_rank (some false) true h d = let wrong = h refl in cc
changed_rank (some false) false h d = cc

-- How often the values of the functions can still be lowered.
abbrev pub total : List (ℕ × Func) → SyncMap → ℕ
total [] m = 0
total (e ∷ es) m = rank (m (key e)) + total es m

pub total-le : (es : List (ℕ × Func)) (m n : SyncMap) → RankLe n m → total es n ≤ total es m
total-le [] m n le = omega arith
total-le (e ∷ es) m n le = omega (arith, le (key e), total-le es m n le)

pub total-lt :
    (es : List (ℕ × Func)) (m n : SyncMap) (e : ℕ × Func)
    → Memᴰ e es
    → RankLe n m
    → rank (n (key e)) < rank (m (key e))
    → total es n < total es m
total-lt [] m n e i le lt = elim i [ ]
total-lt (x ∷ es) m n e (Memᴰ.head same) le lt =
    let here : rank (n (key x)) < rank (m (key x)) =
      subst (λ y. rank (n (key y)) < rank (m (key y))) same lt in
    omega (arith, total-le es m n le)
total-lt (x ∷ es) m n e (Memᴰ.tail i) le lt = omega (arith, le (key x), total-lt es m n e i le lt)

pub total-bound : (es : List (ℕ × Func)) (m : SyncMap) → total es m ≤ 2 * length es
total-bound [] m = omega arith
total-bound (e ∷ es) m = omega (arith, rank_bound (m (key e)), total-bound es m)
