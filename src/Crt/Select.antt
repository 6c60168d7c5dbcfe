-- ===== src/Crt/Select.antt =====
-- src/zuspec/be/sw/crt/zdc_select.py: `zdc_select_t`, the wait for the first of several queues.
pub mod Removed
pub mod Woken
mod Tests
use zuspec_be_sw.Prelude.{
  ℕ, zero, suc, ◌+◌, ◌-◌, Bool, true, false, Option, none, some, List, [], ◌∷◌, ◌++◌, ◌==◌,
  if◌then◌else◌,
}
use zuspec_be_sw.Crt.Waiters.{Waiters, update, register, shift_waiters}
use zuspec_be_sw.Crt.Queue.{Queue, Scheduled, Result, suspended, done, queue_empty}

-- `zdc_select_t`. A queue is its number in the store, so that two branches may watch one queue;
-- `none` is -1 as an index and NULL as a coroutine.
pub record Select : Type 0 where
  pub queues : List ℕ
  pub ready_idx : Option ℕ
  pub waiter : Option ℕ

-- The first waiter that is the coroutine, among `n` from `i` on.
unfoldable pub find_waiter : ℕ → (ℕ → ℕ) → ℕ → ℕ → Option ℕ
find_waiter coro xs zero i = none
find_waiter coro xs (suc n) i = if xs i == coro then some i else find_waiter coro xs n (i + 1)

abbrev pub removed_at : Waiters → Option ℕ → Waiters
removed_at w none = w
removed_at w (some i) = record {
  entries = shift_waiters (w.waiter_count - i - 1) i w.entries;
  waiter_count = w.waiter_count - 1;
}

abbrev pub remove_waiter : ℕ → Waiters → Waiters
remove_waiter coro w = removed_at w (find_waiter coro w.entries w.waiter_count 0)

abbrev pub remove_if : Option ℕ → Waiters → Waiters
remove_if none w = w
remove_if (some coro) w = remove_waiter coro w

abbrev pub registered_or : Waiters → Option Waiters → Waiters
registered_or w none = w
registered_or w (some next) = next

abbrev pub schedule_waiter : Scheduled → Option ℕ → Scheduled
schedule_waiter s none = s
schedule_waiter s (some coro) = s ++ (coro ∷ [])

-- The queues by their numbers.
abbrev pub Store {ℓ} : Type ℓ → Type ℓ
Store A = ℕ → Queue A

module _ {ℓ} {A : Type ℓ} where
  abbrev pub with_getters : Queue A → Waiters → Queue A
  with_getters q w = record {
    buf = q.buf;
    depth = q.depth;
    head = q.head;
    tail = q.tail;
    count = q.count;
    put_waiters = q.put_waiters;
    get_waiters = w;
  }

  -- The quick scan of `ZDC_SELECT_WAIT`, from branch `i` on.
  unfoldable pub scan : Store A → List ℕ → ℕ → Option ℕ
  scan st [] i = none
  scan st (q ∷ qs) i = if queue_empty (st q) then scan st qs (i + 1) else some i

  -- `zdc_select_register_waiter`: a full array of waiters is passed over.
  abbrev pub join_queue : ℕ → Queue A → Queue A
  join_queue coro q = with_getters q (registered_or q.get_waiters (register coro q.get_waiters))

  unfoldable pub register_waiter : ℕ → List ℕ → Store A → Store A
  register_waiter coro [] st = st
  register_waiter coro (q ∷ qs) st = register_waiter coro qs (update st q (join_queue coro (st q)))

  -- `ZDC_SELECT_WAIT`, in a frame of the coroutine.
  abbrev pub select_from :
      Select → ℕ → Store A → Option ℕ → Result (Select × Store A) (Select × Store A)
  select_from sel coro st none = suspended (
    record { queues = sel.queues; ready_idx = none; waiter = some coro },
    register_waiter coro sel.queues st,
  )
  select_from sel coro st (some i) =
      done (record { queues = sel.queues; ready_idx = some i; waiter = sel.waiter }, st)

  unfoldable pub select_wait : Select → ℕ → Store A → Result (Select × Store A) (Select × Store A)
  unfolding scan register_waiter
  select_wait sel coro st = select_from sel coro st (scan st sel.queues 0)

  -- The loop of `zdc_select_notify` over the branches from `i` on.
  unfoldable pub leave_others : Option ℕ → ℕ → List ℕ → ℕ → Store A → Store A
  leave_others coro ready [] i st = st
  leave_others coro ready (q ∷ qs) i st = leave_others coro ready qs (i + 1) (
      if i == ready
      then st
      else update st q (with_getters (st q) (remove_if coro (st q).get_waiters)))

  -- `zdc_select_notify`
  abbrev pub notify_from :
      Option ℕ → Select → ℕ → Store A → Scheduled → Select × Store A × Scheduled
  notify_from (some k) sel i st s = (sel, st, s)
  notify_from none sel i st s = (
    record { queues = sel.queues; ready_idx = some i; waiter = none },
    leave_others sel.waiter i sel.queues 0 st,
    schedule_waiter s sel.waiter,
  )

  unfoldable pub select_notify : Select → ℕ → Store A → Scheduled → Select × Store A × Scheduled
  unfolding leave_others
  select_notify sel i st s = notify_from sel.ready_idx sel i st s
