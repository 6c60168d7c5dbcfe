-- ===== src/Crt/Select/Tests.antt =====
-- A select on two empty queues, and the theorems on src/zuspec/be/sw/crt/zdc_select.py at it.
use zuspec_be_sw.Prelude.{ℕ, ◌≡◌, refl, none, some, [], ◌∷◌, ◌++◌, arith}
use zuspec_be_sw.Crt.Waiters.{waiting, range_of}
use zuspec_be_sw.Crt.Queue.{Scheduled, suspended, queue_init, put_nowait}
use zuspec_be_sw.Crt.Select.{Select, Store, register_waiter, select_wait, select_notify}
use zuspec_be_sw.Crt.Select.Removed.{erase_times, other_branches, select_notify-getters}
use zuspec_be_sw.Crt.Select.Woken.{select_wait-put_nowait}

abbrev empty_queues : Store ℕ
empty_queues q = queue_init (λ i. 0) 4

abbrev idle : Select
idle = record { queues = 5 ∷ 6 ∷ []; ready_idx = none; waiter = none }

abbrev waits : Select
waits = record { queues = 5 ∷ 6 ∷ []; ready_idx = none; waiter = some 9 }

abbrev registered : Store ℕ
registered = register_waiter 9 (5 ∷ 6 ∷ []) empty_queues

abbrev nothing_scheduled : Scheduled
nothing_scheduled = []

suspends : select_wait idle 9 empty_queues ≡ suspended (waits, registered)
unfolding select_wait
suspends = refl

nobody_waits : waiting (empty_queues 6).get_waiters ≡ []
unfolding range_of
nobody_waits = refl

select_wait-put_nowait_example :
    (put_nowait (registered 6) 3 nothing_scheduled).1 ≡ nothing_scheduled ++ (9 ∷ [])
select_wait-put_nowait_example =
    select_wait-put_nowait 9 idle waits empty_queues registered 6 3 nothing_scheduled suspends
      (omega arith) nobody_waits

select_notify-getters_example :
    (waiting ((select_notify waits 1 registered nothing_scheduled).1 5).get_waiters
      ≡ erase_times (other_branches 5 1 waits.queues 0) 9 (waiting (registered 5).get_waiters))
    × ((select_notify waits 1 registered nothing_scheduled).2 ≡ nothing_scheduled ++ (9 ∷ []))
select_notify-getters_example =
    select_notify-getters waits 9 1 registered nothing_scheduled 5 refl refl
