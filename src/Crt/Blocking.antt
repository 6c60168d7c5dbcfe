-- ===== src/Crt/Blocking.antt =====
-- The blocking `zdc_queue_put` and `zdc_queue_get` of src/zuspec/be/sw/crt/zdc_queue.py, which spin.
use zuspec_be_sw.Prelude.{ℕ, zero, suc, Bool, if◌then◌else◌, Option, none, some}
use zuspec_be_sw.Crt.Queue.{Queue, Scheduled, queue_full, queue_empty, put_nowait, get_nowait}

-- `others` is what the other threads do to the queue in a round of the loop.
module _ {ℓ} {A : Type ℓ} (others : Queue A → Queue A) where
  -- The queue after the rounds of the loop, which goes on as long as `waits`; it has fuel.
  unfoldable pub spin : (Queue A → Bool) → ℕ → Queue A → Option (Queue A)
  spin waits zero q = none
  spin waits (suc n) q = let rest = spin waits n (others q) in if waits q then rest else some q

  unfoldable pub put_after : A → Scheduled → Option (Queue A) → Option (Queue A × Scheduled)
  put_after item s none = none
  put_after item s (some q) = some (put_nowait q item s)

  unfoldable pub get_after : Scheduled → Option (Queue A) → Option (Queue A × A × Scheduled)
  get_after s none = none
  get_after s (some q) = get_nowait q s

  -- `zdc_queue_put` and `zdc_queue_get`
  unfoldable pub blocking_put : ℕ → Queue A → A → Scheduled → Option (Queue A × Scheduled)
  blocking_put fuel q item s = put_after item s (spin queue_full fuel q)

  unfoldable pub blocking_get : ℕ → Queue A → Scheduled → Option (Queue A × A × Scheduled)
  blocking_get fuel q s = get_after s (spin queue_empty fuel q)
