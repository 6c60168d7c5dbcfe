-- ===== src/Crt/Fifo.antt =====
-- The queue of src/zuspec/be/sw/crt/zdc_queue.py is a list that elements enter at the end and leave
-- at the front.
use native.Mathlib.Nat.{mod-lt, mod-eq_of_lt, mod-add-mod}
use zuspec_be_sw.Prelude.Mod.{wrap}
use zuspec_be_sw.Prelude.{
  ℕ, zero, suc, ◌+◌, ◌-◌, ◌%◌, ◌<◌, ◌≤◌, ◌≡◌, ◌≢◌, ◌⊎◌, inl, inr, refl, sym, ap, ◌∙◌, true, false,
  none, some, List, [], ◌∷◌, ◌++◌, ◌==◌, arith, Bool-cases,
}
use zuspec_be_sw.Crt.Waiters.{Waiters, update, wake_first, waiting, waiting-wake_first}
use zuspec_be_sw.Crt.Queue.{Queue, Scheduled, schedule, left, put_nowait, get_nowait}

-- What waking did: nothing where nobody waits, and else the first one that waits is scheduled.
abbrev pub IsWoken : Scheduled → Scheduled → Waiters → Waiters → Type 0
IsWoken s t w v =
    ((waiting w ≡ []) × ((t ≡ s) × (v ≡ w)))
    ⊎ ((coro : ℕ) × ((t ≡ s ++ (coro ∷ [])) × (waiting w ≡ coro ∷ waiting v)))

wake_first-IsWoken :
    (s : Scheduled) (w : Waiters) → IsWoken s (schedule s (wake_first w)) w (left w (wake_first w))
wake_first-IsWoken s w = elim (waiting-wake_first w) [
  | inl h ↦ inl (h.0, (ap (schedule s) h.1, ap (left w) h.1))
  | inr h ↦
      inr
        (h.0, (ap (schedule s) h.2.0, h.2.1 ∙ ap (λ v. h.0 ∷ waiting v) (sym (ap (left w) h.2.0))))
]

-- Two slots of the buffer are the same only at the same distance from `head`.
slots-ne : (h d k c : ℕ) → h < d → k < c → c < d → ((h + k) % d == (h + c) % d) ≡ false
slots-ne h d k c hd kc cd =
    let one = wrap (h + k) d (omega arith) (omega arith) in
    let two = wrap (h + c) d (omega arith) (omega arith) in
    let apart : (h + k) % d ≢ (h + c) % d = λ e. ground arith in ground arith

module _ {ℓ} {A : Type ℓ} where
  -- The elements from the `i`-th one on, `n` of them.
  unfoldable pub contents_from : Queue A → ℕ → ℕ → List A
  contents_from q i zero = []
  contents_from q i (suc n) = q.buf ((q.head + i) % q.depth) ∷ contents_from q (i + 1) n

  -- What the queue holds, the element to leave first at the front.
  abbrev pub contents : Queue A → List A
  contents q = contents_from q 0 q.count

  -- The indices are in the buffer, and `tail` is `count` slots after `head`.
  pub record IsWf (q : Queue A) : Type 0 where
    pub head_in : q.head < q.depth
    pub tail_at : q.tail ≡ (q.head + q.count) % q.depth
    pub count_in : q.count ≤ q.depth

  contents_from-congr :
      (q r : Queue A) (i j n : ℕ)
      → ((k : ℕ)
          → k < n
          → q.buf ((q.head + (i + k)) % q.depth) ≡ r.buf ((r.head + (j + k)) % r.depth))
      → contents_from q i n ≡ contents_from r j n
  unfolding contents_from
  contents_from-congr q r i j zero h = refl
  contents_from-congr q r i j (suc n) h =
      let first : q.buf ((q.head + i) % q.depth) ≡ r.buf ((r.head + j) % r.depth) =
        ap (λ z. q.buf ((q.head + z) % q.depth)) (omega arith)
        ∙ (h 0 (omega arith) ∙ ap (λ z. r.buf ((r.head + z) % r.depth)) (omega arith)) in
      let rest : contents_from q (i + 1) n ≡ contents_from r (j + 1) n =
        contents_from-congr q r (i + 1) (j + 1) n λ k l.
          ap (λ z. q.buf ((q.head + z) % q.depth)) (omega arith)
          ∙ (h (suc k) (omega arith) ∙ ap (λ z. r.buf ((r.head + z) % r.depth)) (omega arith)) in
      ap (λ z. z ∷ contents_from q (i + 1) n) first
      ∙ ap (λ zs. r.buf ((r.head + j) % r.depth) ∷ zs) rest

  contents_from-snoc :
      (q : Queue A) (i n : ℕ)
      → contents_from q i (suc n)
        ≡ contents_from q i n ++ (q.buf ((q.head + (i + n)) % q.depth) ∷ [])
  unfolding contents_from
  contents_from-snoc q i zero = ap (λ z. q.buf ((q.head + z) % q.depth) ∷ []) (omega arith)
  contents_from-snoc q i (suc n) =
      ap (λ rest. q.buf ((q.head + i) % q.depth) ∷ rest)
        (contents_from-snoc q (i + 1) n
          ∙ ap (λ z. contents_from q (i + 1) n ++ (q.buf ((q.head + z) % q.depth) ∷ []))
              (omega arith))

  -- The queue after a put, whatever waiters it has.
  abbrev pub with_item : Queue A → A → Waiters → Queue A
  with_item q item w = record {
    buf = update q.buf q.tail item;
    depth = q.depth;
    head = q.head;
    tail = (q.tail + 1) % q.depth;
    count = q.count + 1;
    put_waiters = q.put_waiters;
    get_waiters = w;
  }

  contents-put :
      (q : Queue A) (item : A) (w : Waiters)
      → IsWf q
      → q.count < q.depth
      → contents (with_item q item w) ≡ contents q ++ (item ∷ [])
  contents-put q item w wf room =
      let r = with_item q item w in
      let one_more : q.count + 1 ≡ suc q.count = omega arith in
      let kept : contents_from r 0 q.count ≡ contents q = contents_from-congr r q 0 0 q.count λ k l.
        let at : 0 + k ≡ k = omega arith in
        let apart : ((q.head + (0 + k)) % q.depth == q.tail) ≡ false =
          ap (λ z. (q.head + z) % q.depth == q.tail) at
          ∙ (ap (λ z. (q.head + k) % q.depth == z) wf.tail_at
              ∙ slots-ne q.head q.depth k q.count wf.head_in l room) in
        ground arith in
      let last : update q.buf q.tail item ((q.head + (0 + q.count)) % q.depth) ≡ item =
        let at : (q.head + (0 + q.count)) % q.depth ≡ q.tail =
          ap (λ z. (q.head + z) % q.depth) (omega arith) ∙ sym wf.tail_at in
        let hit : ((q.head + (0 + q.count)) % q.depth == q.tail) ≡ true = ground arith in
        ground arith in
      ap (contents_from r 0) one_more
      ∙ (contents_from-snoc r 0 q.count
          ∙ (ap (λ z. contents_from r 0 q.count ++ (z ∷ [])) last
              ∙ ap (λ zs. zs ++ (item ∷ [])) kept))

  -- The queue after a get.
  abbrev pub without_first : Queue A → Waiters → Queue A
  without_first q w = record {
    buf = q.buf;
    depth = q.depth;
    head = (q.head + 1) % q.depth;
    tail = q.tail;
    count = q.count - 1;
    put_waiters = w;
    get_waiters = q.get_waiters;
  }

  contents-get :
      (q : Queue A) (w : Waiters)
      → IsWf q
      → 0 < q.count
      → contents q ≡ q.buf q.head ∷ contents (without_first q w)
  unfolding contents_from
  contents-get q w wf some_left =
      let fewer = q.count - 1 in
      let r = without_first q w in
      let all : q.count ≡ suc fewer = omega arith in
      let front : (q.head + 0) % q.depth ≡ q.head =
        ap (λ z. z % q.depth) (omega arith) ∙ mod-eq_of_lt wf.head_in in
      let moved : contents_from q 1 fewer ≡ contents_from r 0 fewer =
        contents_from-congr q r 1 0 fewer λ k l.
          ap q.buf (
            sym (mod-add-mod (q.head + 1) q.depth (0 + k) ∙ ap (λ z. z % q.depth) (omega arith))) in
      ap (contents_from q 0) all
      ∙ (ap (λ z. q.buf z ∷ contents_from q (0 + 1) fewer) front
          ∙ (ap (λ z. q.buf q.head ∷ contents_from q z fewer) (omega arith)
              ∙ ap (λ zs. q.buf q.head ∷ zs) moved))

  pub without_first-IsWf :
      (q : Queue A) (w : Waiters) → IsWf q → 0 < q.count → IsWf (without_first q w)
  without_first-IsWf q w wf some_left =
      let back : q.tail ≡ ((q.head + 1) % q.depth + (q.count - 1)) % q.depth =
        wf.tail_at
        ∙ sym (
            mod-add-mod (q.head + 1) q.depth (q.count - 1) ∙ ap (λ z. z % q.depth) (omega arith)) in
      let positive : 0 < q.depth = omega (arith, wf.head_in) in
      record {
        head_in = mod-lt (q.head + 1) positive;
        tail_at = back;
        count_in = omega (arith, wf.count_in);
      }

  -- A put on a queue that is not full adds the element at the end, and wakes the first coroutine
  -- that waits to get, if there is one.
  pub put_nowait-contents :
      (q : Queue A) (item : A) (s : Scheduled)
      → IsWf q
      → q.count < q.depth
      → IsWf ((put_nowait q item s).0)
        × (contents ((put_nowait q item s).0) ≡ contents q ++ (item ∷ []))
        × IsWoken s ((put_nowait q item s).1) q.get_waiters (put_nowait q item s).0.get_waiters
  unfolding put_nowait
  put_nowait-contents q item s wf room =
      let tail_moved : (q.tail + 1) % q.depth ≡ (q.head + (q.count + 1)) % q.depth =
        ap (λ z. (z + 1) % q.depth) wf.tail_at
        ∙ (mod-add-mod (q.head + q.count) q.depth 1 ∙ ap (λ z. z % q.depth) (omega arith)) in
      (
        record { head_in = wf.head_in; tail_at = tail_moved; count_in = omega arith },
        contents-put q item _ wf room,
        wake_first-IsWoken s q.get_waiters,
      )

  -- A get takes the element at the front, and wakes the first coroutine that waits to put, if there
  -- is one. An empty queue is the only one that it excludes.
  pub get_nowait-contents :
      (q : Queue A) (s : Scheduled)
      → IsWf q
      → ((contents q ≡ []) × (get_nowait q s ≡ none))
        ⊎ ((next : Queue A) × (item : A) × (t : Scheduled) × ((get_nowait q s
                ≡ some (next, item, t))
              × ((contents q ≡ item ∷ contents next)
                  × (IsWf next × IsWoken s t q.put_waiters next.put_waiters))))
  unfolding get_nowait contents_from
  get_nowait-contents q s wf = elim (Bool-cases (q.count == 0)) [
    | inl z ↦
        let none_left : q.count ≡ 0 = ground arith in inl (ap (contents_from q 0) none_left, rw z)
    | inr z ↦
        let some_left : 0 < q.count = ground arith in
        inr (
          without_first q (left q.put_waiters (wake_first q.put_waiters)),
          q.buf q.head,
          schedule s (wake_first q.put_waiters),
          (
            rw z,
            (
              contents-get q (left q.put_waiters (wake_first q.put_waiters)) wf some_left,
              (
                without_first-IsWf q (left q.put_waiters (wake_first q.put_waiters)) wf some_left,
                wake_first-IsWoken s q.put_waiters,
              ),
            ),
          ),
        )
  ]
