-- ===== src/Crt/Waiters.antt =====
-- src/zuspec/be/sw/crt/zdc_queue.py: an array of waiting coroutines with its count, as in
-- `get_waiters` and `get_waiter_count`.
use zuspec_be_sw.Prelude.{
  ◌⊎◌, ℕ, zero, suc, ◌+◌, ◌-◌, ◌<◌, ◌≤◌, ◌≡◌, refl, sym, ap, ◌∙◌, true, Option, none, some, List,
  [], ◌∷◌, ◌++◌, ltb, ◌==◌, if◌then◌else◌, arith, inl, inr, Bool-cases,
}

-- `ZDC_MAX_WAITERS`
abbrev pub max_waiters : ℕ
max_waiters = 16

-- A coroutine is a number.
pub record Waiters : Type 0 where
  pub entries : ℕ → ℕ
  pub waiter_count : ℕ

abbrev pub no_waiters : Waiters
no_waiters = record { entries = λ _. 0; waiter_count = 0 }

-- `xs[j] = v`
abbrev pub update {ℓ} : {A : Type ℓ} → (ℕ → A) → ℕ → A → ℕ → A
update xs j v k = if k == j then v else xs k

-- `waiters[waiter_count++] = coro`. `none` is a write behind the end of the array.
abbrev pub register : ℕ → Waiters → Option Waiters
register coro w =
    if ltb w.waiter_count max_waiters
    then some (record {
      entries = update w.entries w.waiter_count coro;
      waiter_count = w.waiter_count + 1;
    })
    else none

-- `for (int i = 1; i < waiter_count; i++) waiters[i-1] = waiters[i];`, with `n` rounds
-- to go, at `i = j + 1`.
unfoldable pub shift_waiters : ℕ → ℕ → (ℕ → ℕ) → ℕ → ℕ
shift_waiters zero j xs = xs
shift_waiters (suc n) j xs = shift_waiters n (j + 1) (update xs j (xs (j + 1)))

-- The first waiter, and the others.
abbrev pub wake_first : Waiters → Option (ℕ × Waiters)
wake_first w =
    if w.waiter_count == 0
    then none
    else some (
      w.entries 0,
      record {
        entries = shift_waiters (w.waiter_count - 1) 0 w.entries;
        waiter_count = w.waiter_count - 1;
      },
    )

-- The waiting coroutines in order.
unfoldable pub range_of : (ℕ → ℕ) → ℕ → ℕ → List ℕ
range_of xs i zero = []
range_of xs i (suc n) = xs i ∷ range_of xs (i + 1) n

abbrev pub waiting : Waiters → List ℕ
waiting w = range_of w.entries 0 w.waiter_count

pub range_of-congr :
    (xs ys : ℕ → ℕ) (i n : ℕ)
    → ((k : ℕ) → i ≤ k → k < i + n → xs k ≡ ys k)
    → range_of xs i n ≡ range_of ys i n
unfolding range_of
range_of-congr xs ys i zero h = refl
range_of-congr xs ys i (suc n) h =
    let first : xs i ≡ ys i = h i (omega arith) (omega arith) in
    let rest : range_of xs (i + 1) n ≡ range_of ys (i + 1) n =
      range_of-congr xs ys (i + 1) n (λ k a b. h k (omega arith) (omega arith)) in
    cc

range_of-snoc :
    (xs : ℕ → ℕ) (i n : ℕ) → range_of xs i (suc n) ≡ range_of xs i n ++ (xs (i + n) ∷ [])
unfolding range_of
range_of-snoc xs i zero = ap (λ k. xs k ∷ []) (omega arith)
range_of-snoc xs i (suc n) =
    ap (λ rest. xs i ∷ rest)
      (range_of-snoc xs (i + 1) n ∙ ap (λ k. range_of xs (i + 1) n ++ (xs k ∷ [])) (omega arith))

pub range_of-later : (xs : ℕ → ℕ) (i n : ℕ) → range_of (λ k. xs (k + 1)) i n ≡ range_of xs (i + 1) n
unfolding range_of
range_of-later xs i zero = refl
range_of-later xs i (suc n) = ap (λ rest. xs (i + 1) ∷ rest) (range_of-later xs (i + 1) n)

-- What the loop leaves at each index.
pub shift_waiters-at :
    (n j : ℕ) (xs : ℕ → ℕ) (k : ℕ)
    → shift_waiters n j xs k
      ≡ (if ltb k j then xs k else if ltb k (j + n) then xs (k + 1) else xs k)
unfolding shift_waiters
shift_waiters-at zero j xs k = ground arith
shift_waiters-at (suc n) j xs k = elim (Bool-cases (k == j)) [
  | inl e ↦
      let same : k ≡ j = ground arith in
      let next = ap (λ z. xs (z + 1)) same in
      ground (arith, shift_waiters-at n (j + 1) (update xs j (xs (j + 1))) k)
  | inr e ↦
      let other : (k + 1 == j) ≡ true → k + 1 ≡ j = λ h. ground arith in
      ground (arith, shift_waiters-at n (j + 1) (update xs j (xs (j + 1))) k)
]

waiting-appended :
    (coro n : ℕ) (xs : ℕ → ℕ)
    → range_of (update xs n coro) 0 (n + 1) ≡ range_of xs 0 n ++ (coro ∷ [])
waiting-appended coro n xs =
    let ys = update xs n coro in
    let one_more : n + 1 ≡ suc n = omega arith in
    let last : ys (0 + n) ≡ coro = ground arith in
    let before : range_of ys 0 n ≡ range_of xs 0 n =
      range_of-congr ys xs 0 n (λ k a b. ground arith) in
    ap (range_of ys 0) one_more
    ∙ (range_of-snoc ys 0 n
        ∙ (ap (λ z. range_of ys 0 n ++ (z ∷ [])) last ∙ ap (λ zs. zs ++ (coro ∷ [])) before))

-- A coroutine that registers is the last one to wait.
pub waiting-register :
    (coro : ℕ) (w next : Waiters)
    → register coro w ≡ some next
    → waiting next ≡ waiting w ++ (coro ∷ [])
waiting-register coro w next h = elim (Bool-cases (ltb w.waiter_count max_waiters)) [
  | inl l ↦
      let same : record {
        entries = update w.entries w.waiter_count coro;
        waiter_count = w.waiter_count + 1;
      }
          ≡ next =
        ground arith in
      ap waiting (sym same) ∙ waiting-appended coro w.waiter_count w.entries
  | inr l ↦ absurd (ground arith)
]

-- The first one to wait is woken, and the others keep their order.
pub waiting-wake_first :
    (w : Waiters)
    → ((waiting w ≡ []) × (wake_first w ≡ none))
      ⊎ ((coro : ℕ) × (rest : Waiters) × ((wake_first w ≡ some (coro, rest))
            × (waiting w ≡ coro ∷ waiting rest)))
unfolding range_of
waiting-wake_first w = elim (Bool-cases (w.waiter_count == 0)) [
  | inl z ↦
      let none_left : w.waiter_count ≡ 0 = ground arith in
      inl (ap (range_of w.entries 0) none_left, ground arith)
  | inr z ↦
      let fewer = w.waiter_count - 1 in
      let same : w.waiter_count ≡ suc fewer = ground arith in
      let moved : range_of (shift_waiters fewer 0 w.entries) 0 fewer ≡ range_of w.entries 1 fewer =
        range_of-congr (shift_waiters fewer 0 w.entries) (λ k. w.entries (k + 1)) 0 fewer
          (λ k a b. ground (arith, shift_waiters-at fewer 0 w.entries k))
        ∙ (range_of-later w.entries 0 fewer ∙ ap (λ j. range_of w.entries j fewer) (omega arith)) in
      inr (
        w.entries 0,
        record { entries = shift_waiters fewer 0 w.entries; waiter_count = fewer },
        (
          ground arith,
          ap (range_of w.entries 0) same
              ∙ (ap (λ j. w.entries 0 ∷ range_of w.entries j fewer) (omega arith)
                  ∙ ap (λ zs. w.entries 0 ∷ zs) (sym moved)),
        ),
      )
]
