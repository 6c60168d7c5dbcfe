-- ===== src/Crt/Select/Woken.antt =====
-- The waits of src/zuspec/be/sw/crt/zdc_select.py on the queues of zdc_queue.py.
use zuspec_be_sw.Prelude.{
  ℕ, zero, suc, ◌<◌, ◌≡◌, inl, inr, refl, sym, ap, ◌∙◌, subst, true, false, none, List, [], ◌∷◌,
  ◌++◌, ◌==◌, ==_iff, ltb, count, arith, Bool-cases, Option-cases,
}
use zuspec_be_sw.Crt.Waiters.{
  Waiters, update, register, max_waiters, range_of, waiting, waiting-register, waiting-wake_first,
}
use zuspec_be_sw.Crt.Queue.{Queue, Scheduled, suspended, put_nowait}
use zuspec_be_sw.Crt.Select.{
  Select, Store, registered_or, scan, join_queue, register_waiter, select_from, select_wait,
}

-- The coroutine is the first to wait.
IsFirst : ℕ → List ℕ → Type 0
IsFirst c xs = (ys : List ℕ) × (xs ≡ c ∷ ys)

no_waiting : (xs : ℕ → ℕ) (i n : ℕ) → range_of xs i n ≡ [] → n ≡ 0
unfolding range_of
no_waiting xs i zero h = refl
no_waiting xs i (suc n) h = absurd cc

module _ (c : ℕ) where
  registered_empty :
      (w : Waiters) → waiting w ≡ [] → IsFirst c (waiting (registered_or w (register c w)))
  unfolding IsFirst range_of
  registered_empty w h = elim (Option-cases (register c w)) [
    | inl e ↦
        let none_left = no_waiting w.entries 0 w.waiter_count h in
        let room : ltb w.waiter_count max_waiters ≡ true = rw none_left refl in
        absurd (ground (arith, room))
    | inr e ↦ rw (e.1) ([], waiting-register c w e.0 e.1 ∙ ap (λ xs. xs ++ (c ∷ [])) h)
  ]

  registered-IsFirst :
      (w : Waiters) → IsFirst c (waiting w) → IsFirst c (waiting (registered_or w (register c w)))
  unfolding IsFirst
  registered-IsFirst w (ys, h) = elim (Option-cases (register c w)) [
    | inl e ↦ rw e (ys, h)
    | inr e ↦ rw (e.1) (ys ++ (c ∷ []), waiting-register c w e.0 e.1 ∙ ap (λ xs. xs ++ (c ∷ [])) h)
  ]

  module _ {ℓ} {A : Type ℓ} where
    abbrev getters : Queue A → List ℕ
    getters q = waiting q.get_waiters

    joined_same :
        (p q : ℕ) (st : Store A)
        → (q == p) ≡ true
        → getters (update st p (join_queue c (st p)) q)
          ≡ waiting (registered_or (st q).get_waiters (register c (st q).get_waiters))
    joined_same p q st e =
        let same : q ≡ p = (==_iff q p).0 e in
        rw e (
          ap (λ o. waiting (registered_or (st o).get_waiters (register c (st o).get_waiters)))
            (sym same))

    joined_other :
        (p q : ℕ) (st : Store A)
        → (q == p) ≡ false
        → getters (update st p (join_queue c (st p)) q) ≡ getters (st q)
    joined_other p q st e = rw e refl

    stays-IsFirst :
        (qs : List ℕ) (st : Store A) (q : ℕ)
        → IsFirst c (getters (st q))
        → IsFirst c (getters (register_waiter c qs st q))
    unfolding register_waiter
    stays-IsFirst [] st q h = h
    stays-IsFirst (p ∷ ps) st q h =
        stays-IsFirst ps (update st p (join_queue c (st p))) q (elim (Bool-cases (q == p)) [
          | inl e ↦
              subst (IsFirst c) (sym (joined_same p q st e))
                (registered-IsFirst (st q).get_waiters h)
          | inr e ↦ subst (IsFirst c) (sym (joined_other p q st e)) h
        ])

    becomes-IsFirst :
        (qs : List ℕ) (st : Store A) (q : ℕ)
        → getters (st q) ≡ []
        → 0 < count q qs
        → IsFirst c (getters (register_waiter c qs st q))
    unfolding register_waiter
    becomes-IsFirst [] st q h k = absurd (omega arith)
    becomes-IsFirst (p ∷ ps) st q h k = elim (Bool-cases (q == p)) [
      | inl e ↦
          stays-IsFirst ps (update st p (join_queue c (st p))) q
            (subst (IsFirst c) (sym (joined_same p q st e)) (registered_empty (st q).get_waiters h))
      | inr e ↦
          becomes-IsFirst ps (update st p (join_queue c (st p))) q (joined_other p q st e ∙ h)
            (ground arith)
    ]

    put_wakes :
        (q : Queue A) (item : A) (s : Scheduled)
        → IsFirst c (getters q)
        → (put_nowait q item s).1 ≡ s ++ (c ∷ [])
    unfolding put_nowait IsFirst
    put_wakes q item s (ys, h) = elim (waiting-wake_first q.get_waiters) [
      | inl e ↦ let impossible : [] ≡ c ∷ ys = sym e.0 ∙ h in absurd cc
      | inr e ↦
          let heads : e.0 ∷ waiting e.1 ≡ c ∷ ys = sym e.2.1 ∙ h in
          let same : e.0 ≡ c = cc in rw (e.2.0) (ap (λ k. s ++ (k ∷ [])) same)
    ]

    -- A coroutine that suspends in a select is scheduled by the first put into any queue of the select
    -- that no coroutine waited on before.
    pub select_wait-put_nowait :
        (sel next : Select) (st after : Store A) (q : ℕ) (item : A) (s : Scheduled)
        → select_wait sel c st ≡ suspended (next, after)
        → 0 < count q sel.queues
        → getters (st q) ≡ []
        → (put_nowait (after q) item s).1 ≡ s ++ (c ∷ [])
    unfolding select_wait
    select_wait-put_nowait sel next st after q item s h k free =
        elim (Option-cases (scan st sel.queues 0)) [
          | inr e ↦ absurd (ground (arith))
          | inl e ↦
              let stored : register_waiter c sel.queues st ≡ after =
                let opened : select_from sel c st none ≡ suspended (next, after) =
                  ap (select_from sel c st) (sym e) ∙ h in
                cc in
              subst (λ z. (put_nowait (z q) item s).1 ≡ s ++ (c ∷ [])) stored
                (put_wakes (register_waiter c sel.queues st q) item s
                  (becomes-IsFirst sel.queues st q free k))
        ]
