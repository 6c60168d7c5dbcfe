-- ===== src/Crt/Completion.antt =====
-- src/zuspec/be/sw/crt/zdc_completion.py: the one-shot result token.
-- A payload is a list of bytes; a `NULL` value is `none`. The part of the array that no `set` has
-- written is unspecified, and is the list `payload` of the record.
use zuspec_be_sw.Prelude.{
  ℕ, zero, suc, ◌≡◌, refl, sym, ap, ◌∙◌, Bool, true, false, not, ◌&&◌, Option, none, some, List, [],
  ◌∷◌, ◌++◌, ltb, leb, if◌then◌else◌, length, arith, Bool-cases, inl, inr, ◌⊎◌,
}
use zuspec_be_sw.Crt.Queue.{Scheduled}

-- `ZDC_COMPLETION_MAX_INLINE`
abbrev pub max_inline : ℕ
max_inline = 64

-- `zdc_completion_t`: `waiter` is `none` for `NULL`.
pub record Completion : Type 0 where
  pub set : Bool
  pub waiter : Option ℕ
  pub payload : List ℕ
  pub payload_size : ℕ

-- `zdc_completion_init`
abbrev pub completion_init : List ℕ → Completion
completion_init old = record { set = false; waiter = none; payload = old; payload_size = 0 }

-- `memcpy(c->payload, value, size)`: the bytes behind the first `size` stay.
abbrev pub overwrite : List ℕ → List ℕ → List ℕ
overwrite [] old = old
overwrite (b ∷ bs) [] = b ∷ bs
overwrite (b ∷ bs) (o ∷ old) = b ∷ overwrite bs old

abbrev wake : Scheduled → Option ℕ → Scheduled
wake s none = s
wake s (some coro) = s ++ (coro ∷ [])

-- `if (value && size > 0 && size <= ZDC_COMPLETION_MAX_INLINE)`
abbrev store : Option (List ℕ) → Completion → List ℕ × ℕ
store none c = (c.payload, c.payload_size)
store (some value) c =
    if ltb 0 (length value) && leb (length value) max_inline
    then (overwrite value c.payload, length value)
    else (c.payload, c.payload_size)

-- `zdc_completion_set`
unfoldable pub completion_set : Completion → Option (List ℕ) → Scheduled → Completion × Scheduled
completion_set c value s =
    if c.set
    then (c, s)
    else let stored = store value c in
      (
        record { set = true; waiter = none; payload = stored.0; payload_size = stored.1 },
        wake s c.waiter,
      )

-- `__builtin_memcpy(out, c->payload, size)`
abbrev pub first_bytes : ℕ → List ℕ → List ℕ
first_bytes zero bs = []
first_bytes (suc n) [] = []
first_bytes (suc n) (b ∷ bs) = b ∷ first_bytes n bs

-- What the coroutine does from `next_label` on: the bytes that are copied to `out`.
unfoldable pub completion_result : Completion → ℕ → Option (List ℕ)
completion_result c size = if leb size max_inline then some (first_bytes size c.payload) else none

-- `ZDC_COMPLETION_AWAIT`: the coroutine waits, or goes on.
unfoldable pub completion_await : Completion → ℕ → ℕ → Completion ⊎ Option (List ℕ)
unfolding completion_result
completion_await c size coro =
    if not c.set
    then inl (record {
      set = c.set;
      waiter = some coro;
      payload = c.payload;
      payload_size = c.payload_size;
    })
    else inr (completion_result c size)

first_bytes_all : (bs : List ℕ) → first_bytes (length bs) bs ≡ bs
first_bytes_all [] = refl
first_bytes_all (b ∷ bs) = ap (λ rest. b ∷ rest) (first_bytes_all bs)

first_bytes-overwrite :
    (value old : List ℕ) → first_bytes (length value) (overwrite value old) ≡ value
first_bytes-overwrite [] old = refl
first_bytes-overwrite (b ∷ bs) [] = ap (λ rest. b ∷ rest) (first_bytes_all bs)
first_bytes-overwrite (b ∷ bs) (o ∷ old) = ap (λ rest. b ∷ rest) (first_bytes-overwrite bs old)

-- A token that is set, with what was stored in it.
abbrev was_set : List ℕ × ℕ → Completion
was_set p = record { set = true; waiter = none; payload = p.0; payload_size = p.1 }

completion_result-stored :
    (value : List ℕ) (c : Completion)
    → leb (length value) max_inline ≡ true
    → ltb 0 (length value) ≡ true
    → completion_result (was_set (store (some value) c)) (length value) ≡ some value
unfolding completion_result
completion_result-stored value c fits some_bytes =
    let stored : store (some value) c ≡ (overwrite value c.payload, length value) = ground arith in
    let read : completion_result (was_set (overwrite value c.payload, length value)) (length value)
        ≡ some (first_bytes (length value) (overwrite value c.payload)) =
      rw fits in
    ap (λ p. completion_result (was_set p) (length value)) stored
    ∙ (read ∙ ap some (first_bytes-overwrite value c.payload))

-- The coroutine that awaits and the responder may come in either order. Where the await is first,
-- the coroutine waits, the set schedules it and nobody else, and it then reads the value. Where the
-- set is first, the await reads the value and does not wait.
pub completion_await-set :
    (value old : List ℕ) (coro : ℕ) (s : Scheduled)
    → leb (length value) max_inline ≡ true
    → ltb 0 (length value) ≡ true
    → ((c : Completion) × ((completion_await (completion_init old) (length value) coro ≡ inl c)
          × (((completion_set c (some value) s).1 ≡ s ++ (coro ∷ []))
              × (completion_result ((completion_set c (some value) s).0) (length value)
                  ≡ some value))))
      × ((((completion_set (completion_init old) (some value) s).1 ≡ s))
          × (completion_await
                ((completion_set (completion_init old) (some value) s).0)
                (length value)
                coro
              ≡ inr (some value)))
unfolding completion_await completion_set completion_result
completion_await-set value old coro s fits some_bytes =
    let early : Completion = record {
      set = false;
      waiter = some coro;
      payload = old;
      payload_size = 0;
    } in
    (
      (early, (refl, (refl, completion_result-stored value early fits some_bytes))),
      (refl, ap inr (completion_result-stored value (completion_init old) fits some_bytes)),
    )

-- A second set changes nothing: neither the token nor what is scheduled.
pub completion_set_twice :
    (c : Completion) (value again : Option (List ℕ)) (s t : Scheduled)
    → completion_set ((completion_set c value s).0) again t ≡ ((completion_set c value s).0, t)
unfolding completion_set
completion_set_twice c value again s t = elim (Bool-cases c.set) [
  | inl h ↦
      let one : completion_set c value s ≡ (c, s) = rw h in
      let two : completion_set c again t ≡ (c, t) = rw h in
      ap (λ z. completion_set z.0 again t) one ∙ (two ∙ sym (ap (λ z. (z.0, t)) one))
  | inr h ↦
      let one : completion_set c value s ≡ (was_set (store value c), wake s c.waiter) = rw h in
      ap (λ z. completion_set z.0 again t) one ∙ sym (ap (λ z. (z.0, t)) one)
]
