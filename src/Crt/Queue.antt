-- ===== src/Crt/Queue.antt =====
-- src/zuspec/be/sw/crt/zdc_queue.py: the ring-buffer queue of the C runtime, `zdc_queue_t`.
-- An element is one slot of `buf`, of `elem_size` bytes, and `item` and `out` have that size. The
-- integers of the C code stay below `depth`, but for the count of an empty queue that is read.
use zuspec_be_sw.Prelude.{
  ℕ, ◌+◌, ◌-◌, ◌%◌, Bool, Option, none, some, List, [], ◌∷◌, ◌++◌, leb, ◌==◌, if◌then◌else◌,
}
use zuspec_be_sw.Crt.Waiters.{Waiters, no_waiters, update, register, wake_first}

-- `zdc_queue_t`. An array is a function on its indices.
pub record Queue {ℓ} (A : Type ℓ) : Type ℓ where
  pub buf : ℕ → A
  pub depth : ℕ
  pub head : ℕ
  pub tail : ℕ
  pub count : ℕ
  pub put_waiters : Waiters
  pub get_waiters : Waiters

-- What `zdc_coro_schedule` was called with, oldest first: the scheduler itself is not under src/.
abbrev pub Scheduled : Type 0
Scheduled = List ℕ

-- The scheduled coroutine and the waiters that stay, or nothing to wake.
abbrev pub schedule : Scheduled → Option (ℕ × Waiters) → Scheduled
schedule s none = s
schedule s (some (coro, rest)) = s ++ (coro ∷ [])

abbrev pub left : Waiters → Option (ℕ × Waiters) → Waiters
left w none = w
left w (some (coro, rest)) = rest

-- What a macro leaves: the coroutine is suspended, or the operation is done. `overrun` is a write
-- behind the end of the array of waiters, and `underrun` a read of an empty queue.
pub data Result {ℓ} (Q B : Type ℓ) : Type ℓ where
  suspended : Q → Result Q B
  done : B → Result Q B
  overrun : Result Q B
  underrun : Result Q B

module _ {ℓ} {A : Type ℓ} where
  -- `ZDC_QUEUE_INIT`, on a buffer.
  abbrev pub queue_init : (ℕ → A) → ℕ → Queue A
  queue_init buf depth = record {
    buf = buf;
    depth = depth;
    head = 0;
    tail = 0;
    count = 0;
    put_waiters = no_waiters;
    get_waiters = no_waiters;
  }

  abbrev pub queue_full : Queue A → Bool
  queue_full q = leb q.depth q.count

  abbrev pub queue_empty : Queue A → Bool
  queue_empty q = q.count == 0

  abbrev pub queue_size : Queue A → ℕ
  queue_size q = q.count

  unfoldable pub put_nowait : Queue A → A → Scheduled → Queue A × Scheduled
  put_nowait q item s =
      let woken = wake_first q.get_waiters in
      (
        record {
          buf = update q.buf q.tail item;
          depth = q.depth;
          head = q.head;
          tail = (q.tail + 1) % q.depth;
          count = q.count + 1;
          put_waiters = q.put_waiters;
          get_waiters = left q.get_waiters woken;
        },
        schedule s woken,
      )

  -- The queue, the element that is copied to `out`, and what is scheduled. `none` is a call on an
  -- empty queue: the count goes below 0 there, and the header of the function excludes it.
  unfoldable pub get_nowait : Queue A → Scheduled → Option (Queue A × A × Scheduled)
  get_nowait q s =
      let woken = wake_first q.put_waiters in
      if q.count == 0
      then none
      else some (
        record {
          buf = q.buf;
          depth = q.depth;
          head = (q.head + 1) % q.depth;
          tail = q.tail;
          count = q.count - 1;
          put_waiters = left q.put_waiters woken;
          get_waiters = q.get_waiters;
        },
        q.buf q.head,
        schedule s woken,
      )

  abbrev suspend_put : {B : Type ℓ} → Queue A → Option Waiters → Result (Queue A) B
  suspend_put q none = overrun
  suspend_put q (some w) = suspended (record {
    buf = q.buf;
    depth = q.depth;
    head = q.head;
    tail = q.tail;
    count = q.count;
    put_waiters = w;
    get_waiters = q.get_waiters;
  })

  abbrev suspend_get : {B : Type ℓ} → Queue A → Option Waiters → Result (Queue A) B
  suspend_get q none = overrun
  suspend_get q (some w) = suspended (record {
    buf = q.buf;
    depth = q.depth;
    head = q.head;
    tail = q.tail;
    count = q.count;
    put_waiters = q.put_waiters;
    get_waiters = w;
  })

  abbrev from_get : {B : Type ℓ} → Option B → Result (Queue A) B
  from_get none = underrun
  from_get (some b) = done b

  -- `ZDC_QUEUE_PUT` of the coroutine `coro`. When the coroutine is resumed at `next_label` it goes
  -- on with `put_nowait`, with no new test.
  unfoldable pub queue_put : Queue A → A → ℕ → Scheduled → Result (Queue A) (Queue A × Scheduled)
  unfolding put_nowait
  queue_put q item coro s =
      if queue_full q
      then suspend_put q (register coro q.put_waiters)
      else done (put_nowait q item s)

  -- `ZDC_QUEUE_GET`; a resumed coroutine goes on with `get_nowait`.
  unfoldable pub queue_get : Queue A → ℕ → Scheduled → Result (Queue A) (Queue A × A × Scheduled)
  unfolding get_nowait
  queue_get q coro s =
      if queue_empty q
      then suspend_get q (register coro q.get_waiters)
      else from_get (get_nowait q s)
