-- ===== src/Crt/Select/Removed.antt =====
-- What `zdc_select_notify` of src/zuspec/be/sw/crt/zdc_select.py leaves in the arrays of waiters.
use zuspec_be_sw.Prelude.{
  ℕ, zero, suc, ◌+◌, ◌-◌, ◌≤◌, ◌<◌, ◌≡◌, inl, inr, refl, sym, ap, ◌∙◌, Bool, true, false, not, ◌&&◌,
  none, some, List, [], ◌∷◌, ◌++◌, ◌==◌, ==_iff, ltb, bit, if◌then◌else◌, arith, Bool-cases,
  Option-cases,
}
use zuspec_be_sw.Crt.Waiters.{
  Waiters, update, shift_waiters, shift_waiters-at, range_of, range_of-congr, range_of-later,
  waiting,
}
use zuspec_be_sw.Crt.Queue.{Queue, Scheduled}
use zuspec_be_sw.Crt.Select.{
  Select, find_waiter, remove_waiter, Store, with_getters, leave_others, select_notify,
}

-- A list without the first occurrence of a number, and without the first `n` occurrences.
abbrev pub erase_first : ℕ → List ℕ → List ℕ
erase_first c [] = []
erase_first c (x ∷ xs) = if x == c then xs else x ∷ erase_first c xs

abbrev pub erase_times : ℕ → ℕ → List ℕ → List ℕ
erase_times zero c xs = xs
erase_times (suc n) c xs = erase_times n c (erase_first c xs)

-- How many branches from `i` on watch the queue, the ready branch left out.
abbrev pub other_branches : ℕ → ℕ → List ℕ → ℕ → ℕ
other_branches q ready [] i = 0
other_branches q ready (p ∷ ps) i =
    bit (not (i == ready) && (q == p)) + other_branches q ready ps (i + 1)

abbrev gap : (ℕ → ℕ) → ℕ → ℕ → ℕ
gap xs i k = if ltb k i then xs k else xs (k + 1)

find_none :
    (c : ℕ) (xs : ℕ → ℕ) (n j : ℕ)
    → find_waiter c xs n j ≡ none
    → erase_first c (range_of xs j n) ≡ range_of xs j n
unfolding find_waiter range_of
find_none c xs zero j h = refl
find_none c xs (suc n) j h = elim (Bool-cases (xs j == c)) [
  | inl e ↦ absurd (ground arith)
  | inr e ↦ rw e (ap (λ ys. xs j ∷ ys) (find_none c xs n (j + 1) (ground arith)))
]

find_bounds :
    (c : ℕ) (xs : ℕ → ℕ) (n j i : ℕ) → find_waiter c xs n j ≡ some i → (j ≤ i) × (i < j + n)
unfolding find_waiter
find_bounds c xs zero j i h = absurd (ground arith)
find_bounds c xs (suc n) j i h = elim (Bool-cases (xs j == c)) [
  | inl e ↦ let same : j ≡ i = ground arith in (omega arith, omega arith)
  | inr e ↦
      let b = find_bounds c xs n (j + 1) i (ground arith) in
      (omega (arith, b.0), omega (arith, b.1))
]

find_some :
    (c : ℕ) (xs : ℕ → ℕ) (n j i : ℕ)
    → find_waiter c xs (suc n) j ≡ some i
    → range_of (gap xs i) j n ≡ erase_first c (range_of xs j (suc n))
unfolding find_waiter range_of
find_some c xs zero j i h = elim (Bool-cases (xs j == c)) [
  | inl e ↦ rw e refl
  | inr e ↦ absurd (ground arith)
]
find_some c xs (suc n) j i h = elim (Bool-cases (xs j == c)) [
  | inl e ↦
      let same : j ≡ i = ground arith in
      rw e (
        range_of-congr (gap xs i) (λ k. xs (k + 1)) j (suc n) (λ k a b. ground arith)
        ∙ range_of-later xs j (suc n))
  | inr e ↦
      let found : find_waiter c xs (suc n) (j + 1) ≡ some i = ground arith in
      let b = find_bounds c xs (suc n) (j + 1) i found in
      let first : gap xs i j ≡ xs j = ground (arith, b.0) in
      let rest : range_of (gap xs i) (j + 1) n ≡ erase_first c (range_of xs (j + 1) (suc n)) =
        find_some c xs n (j + 1) i found in
      rw e (ap (λ x. x ∷ range_of (gap xs i) (j + 1) n) first ∙ ap (λ ys. xs j ∷ ys) rest)
]

-- The removal of a coroutine removes its first occurrence, and the others keep their order.
pub remove_waiter_lem :
    (c : ℕ) (w : Waiters) → waiting (remove_waiter c w) ≡ erase_first c (waiting w)
remove_waiter_lem c w = elim (Option-cases (find_waiter c w.entries w.waiter_count 0)) [
  | inl e ↦ rw e (sym (find_none c w.entries w.waiter_count 0 e))
  | inr e ↦
      let i = e.0 in
      let b = find_bounds c w.entries w.waiter_count 0 i e.1 in
      let n = w.waiter_count - 1 in
      let size : w.waiter_count ≡ suc n = omega (arith, b.1) in
      let shifted : range_of (shift_waiters (n - i) i w.entries) 0 n
          ≡ range_of (gap w.entries i) 0 n =
        range_of-congr (shift_waiters (n - i) i w.entries) (gap w.entries i) 0 n
          (λ k p q. ground (arith, shift_waiters-at (n - i) i w.entries k)) in
      let rounds : w.waiter_count - i - 1 ≡ n - i = omega arith in
      let found : find_waiter c w.entries (suc n) 0 ≡ some i =
        ap (λ m. find_waiter c w.entries m 0) (sym size) ∙ e.1 in
      rw (e.1) (
        ap (λ m. range_of (shift_waiters m i w.entries) 0 n) rounds
        ∙ (shifted
            ∙ (find_some c w.entries n 0 i found
                ∙ ap (λ m. erase_first c (range_of w.entries 0 m)) (sym size))))
]

erase_times-add :
    (b : Bool) (n c : ℕ) (xs : List ℕ)
    → erase_times (bit b + n) c xs ≡ erase_times n c (erase_times (bit b) c xs)
erase_times-add true n c xs =
    let more : 1 + n ≡ suc n = omega arith in ap (λ k. erase_times k c xs) more
erase_times-add false n c xs =
    let same : 0 + n ≡ n = omega arith in ap (λ k. erase_times k c xs) same

module _ {ℓ} {A : Type ℓ} where
  abbrev pub getters : Queue A → List ℕ
  getters q = waiting q.get_waiters

  one_branch :
      (skip : Bool) (c p q : ℕ) (st : Store A)
      → getters (
          (if skip
              then st
              else update st p (with_getters (st p) (remove_waiter c (st p).get_waiters)))
            q)
        ≡ erase_times (bit (not skip && (q == p))) c (getters (st q))
  one_branch true c p q st = refl
  one_branch false c p q st = elim (Bool-cases (q == p)) [
    | inl k ↦
        let same : q ≡ p = (==_iff q p).0 k in
        rw k (
          remove_waiter_lem c (st p).get_waiters
          ∙ ap (λ o. erase_first c (getters (st o))) (sym same))
    | inr k ↦ rw k refl
  ]

  leave_others_lem :
      (c ready : ℕ) (qs : List ℕ) (i : ℕ) (st : Store A) (q : ℕ)
      → getters (leave_others (some c) ready qs i st q)
        ≡ erase_times (other_branches q ready qs i) c (getters (st q))
  unfolding leave_others
  leave_others_lem c ready [] i st q = refl
  leave_others_lem c ready (p ∷ ps) i st q =
      let rest = other_branches q ready ps (i + 1) in
      leave_others_lem c ready ps (i + 1) _ q
      ∙ (ap (erase_times rest c) (one_branch (i == ready) c p q st)
          ∙ sym (erase_times-add (not (i == ready) && (q == p)) rest c (getters (st q))))

  -- A notified select leaves the arrays of its other queues, keeps the order of the others there, and
  -- schedules its coroutine.
  pub select_notify-getters :
      (sel : Select) (c i : ℕ) (st : Store A) (s : Scheduled) (q : ℕ)
      → sel.ready_idx ≡ none
      → sel.waiter ≡ some c
      → (getters ((select_notify sel i st s).1 q)
          ≡ erase_times (other_branches q i sel.queues 0) c (getters (st q)))
        × ((select_notify sel i st s).2 ≡ s ++ (c ∷ []))
  unfolding select_notify
  select_notify-getters sel c i st s q h k =
      rw (h, k) (leave_others_lem c i sel.queues 0 st q, refl)
