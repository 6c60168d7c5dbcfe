-- ===== src/Crt/Tests.antt =====
-- A queue of two elements, and the theorems at it.
use zuspec_be_sw.Prelude.{◌-◌, ℕ, suc, ◌⊎◌, inl, inr, ◌≡◌, refl, none, some, [], ◌∷◌, ◌++◌, arith}
use zuspec_be_sw.Crt.Waiters.{Waiters, no_waiters}
use zuspec_be_sw.Crt.Queue.{Queue, Scheduled, put_nowait, get_nowait}
use zuspec_be_sw.Crt.Fifo.{IsWf, IsWoken, contents, put_nowait-contents, get_nowait-contents}
use zuspec_be_sw.Crt.Resume.{barge, barge-overwrites}
use zuspec_be_sw.Crt.Completion.{
  Completion, completion_init, completion_set, completion_await, completion_result,
  completion_await-set,
}

abbrev waits : Waiters
waits = record { entries = λ _. 7; waiter_count = 1 }

-- The buffer holds 5 and 6; `head` is in its second slot.
abbrev two_items : Queue ℕ
two_items = record {
  buf = λ i. 6 - i;
  depth = 2;
  head = 1;
  tail = 1;
  count = 2;
  put_waiters = waits;
  get_waiters = no_waiters;
}

abbrev one_item : Queue ℕ
one_item = record {
  buf = λ i. 6 - i;
  depth = 2;
  head = 1;
  tail = 0;
  count = 1;
  put_waiters = no_waiters;
  get_waiters = waits;
}

two_items-IsWf : IsWf two_items
two_items-IsWf = record { head_in = omega arith; tail_at = refl; count_in = omega arith }

one_item-IsWf : IsWf one_item
one_item-IsWf = record { head_in = omega arith; tail_at = refl; count_in = omega arith }

put_nowait-contents_example :
    IsWf ((put_nowait one_item 9 []).0)
    × (contents ((put_nowait one_item 9 []).0) ≡ contents one_item ++ (9 ∷ []))
    × IsWoken [] ((put_nowait one_item 9 []).1) waits (put_nowait one_item 9 []).0.get_waiters
put_nowait-contents_example = put_nowait-contents one_item 9 [] one_item-IsWf (omega arith)

get_nowait-contents_example :
    ((contents two_items ≡ []) × (get_nowait two_items [] ≡ none))
    ⊎ ((next : Queue ℕ) × (item : ℕ) × (t : Scheduled) × ((get_nowait two_items []
            ≡ some (next, item, t))
          × ((contents two_items ≡ item ∷ contents next)
              × (IsWf next × IsWoken [] t waits next.put_waiters))))
get_nowait-contents_example = get_nowait-contents two_items [] two_items-IsWf

barge-overwrites_example :
    (out : Queue ℕ) × ((barge two_items 8 9 3 [] ≡ some out)
      × ((out.count ≡ suc out.depth) × (out.buf out.head ≡ 9)))
barge-overwrites_example = barge-overwrites two_items 8 9 3 [] two_items-IsWf refl

completion_await-set_example :
    ((c : Completion) × ((completion_await (completion_init []) 2 4 ≡ inl c)
        × (((completion_set c (some (1 ∷ 2 ∷ [])) []).1 ≡ 4 ∷ [])
            × (completion_result ((completion_set c (some (1 ∷ 2 ∷ [])) []).0) 2
                ≡ some (1 ∷ 2 ∷ [])))))
    × (((completion_set (completion_init []) (some (1 ∷ 2 ∷ [])) []).1 ≡ [])
        × (completion_await ((completion_set (completion_init []) (some (1 ∷ 2 ∷ [])) []).0) 2 4
            ≡ inr (some (1 ∷ 2 ∷ []))))
completion_await-set_example = completion_await-set (1 ∷ 2 ∷ []) [] 4 [] refl refl
