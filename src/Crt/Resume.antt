-- ===== src/Crt/Resume.antt =====
-- A coroutine that waits to put and is resumed puts without a new test of the queue.
use native.Mathlib.Nat.{mod-eq_of_lt, add-mod_right}
use zuspec_be_sw.Prelude.{
  ℕ, suc, ◌+◌, ◌%◌, ◌<◌, ◌≡◌, ap, ◌∙◌, true, false, Option, none, some, ◌==◌, arith,
}
use zuspec_be_sw.Crt.Waiters.{wake_first}
use zuspec_be_sw.Crt.Queue.{
  Queue, Scheduled, left, schedule, queue_full, put_nowait, get_nowait, queue_put, Result, done,
}
use zuspec_be_sw.Crt.Fifo.{IsWf, without_first, without_first-IsWf, put_nowait-contents}

module _ {ℓ} {A : Type ℓ} where
  abbrev resumed_put : A → Result (Queue A) (Queue A × Scheduled) → Option (Queue A)
  resumed_put y (done r) = some (put_nowait r.0 y r.1).0
  resumed_put y _ = none

  abbrev other_put : A → A → ℕ → Option (Queue A × A × Scheduled) → Option (Queue A)
  other_put x y coro none = none
  other_put x y coro (some r) = resumed_put y (queue_put r.0 x coro r.2)

  -- A get, which wakes a coroutine that waits to put `y`; then `ZDC_QUEUE_PUT` of `x` by another
  -- coroutine; then the one that was woken goes on.
  unfoldable pub barge : Queue A → A → A → ℕ → Scheduled → Option (Queue A)
  unfolding get_nowait queue_put put_nowait
  barge q x y coro s = other_put x y coro (get_nowait q s)

  -- When a full queue is read and another coroutine puts before the one that was woken, the queue
  -- ends with more elements than its depth, and the next get takes the last element that was put.
  pub barge-overwrites :
      (q : Queue A) (x y : A) (coro : ℕ) (s : Scheduled)
      → IsWf q
      → q.count ≡ q.depth
      → (out : Queue A) × ((barge q x y coro s ≡ some out)
          × ((out.count ≡ suc out.depth) × (out.buf out.head ≡ y)))
  unfolding barge
  barge-overwrites q x y coro s wf full =
      let positive : 0 < q.count = omega (arith, wf.head_in) in
      let woken = wake_first q.put_waiters in
      let q1 = without_first q (left q.put_waiters woken) in
      let t = schedule s woken in
      let wf1 = without_first-IsWf q (left q.put_waiters woken) wf positive in
      let room : q1.count < q1.depth = omega arith in
      let q2 = (put_nowait q1 x t).0 in
      let t2 = (put_nowait q1 x t).1 in
      let wf2 = (put_nowait-contents q1 x t wf1 room).0 in
      let some_left : (q.count == 0) ≡ false = ground arith in
      let not_full : queue_full q1 ≡ false = ground arith in
      let again : q2.count ≡ q2.depth = omega arith in
      let round : q2.tail ≡ q2.head =
        wf2.tail_at
        ∙ (ap (λ z. (q2.head + z) % q2.depth) again
            ∙ (add-mod_right q2.head q2.depth ∙ mod-eq_of_lt wf2.head_in)) in
      let hit : (q2.head == q2.tail) ≡ true = ground arith in
      ((put_nowait q2 y t2).0, (rw (some_left, not_full), (omega arith, rw hit)))
