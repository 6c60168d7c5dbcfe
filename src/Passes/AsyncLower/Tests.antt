-- ===== src/Passes/AsyncLower/Tests.antt =====
-- A component with an awaiting function and its caller, and the theorems at them.
use mathlib.Core.List.{Memᴰ}
use zuspec_be_sw.Prelude.{
  ℕ, suc, ◌↔◌, ◌≡◌, refl, sym, ◌∙◌, subst, true, false, none, some, List, [], ◌∷◌, length,
}
use zuspec_be_sw.Passes.AsyncLower.Nodes.{
  Node, node, Nodes, nil, cons, await, call, attribute, ref_local, assign, other, is_some_list,
}
use zuspec_be_sw.Passes.AsyncLower.Classify.{
  Func, component, TypeMap, Key, SyncMap, key, eq_key, entries, classify_all,
}
use zuspec_be_sw.Passes.AsyncLower.Ranks.{HasOneFuncPerKey}
use zuspec_be_sw.Passes.AsyncLower.Classified.{IsBlocked, classify_all-IsBlocked}
use zuspec_be_sw.Passes.AsyncLower.Suspend.{wait_name}
use zuspec_be_sw.Passes.AsyncLower.Frames.{split_at_awaits}
use zuspec_be_sw.Passes.AsyncLower.Lowering.{Output, var_names, frame_of, run}
use zuspec_be_sw.Passes.AsyncLower.Lowered.{run-lowers}
use zuspec_be_sw.Passes.AsyncLower.Splitting.{
  all_stmts, awaiting_stmts, IsPlaced, all_stmts-split_at_awaits, split_at_awaits-continuation,
}
use zuspec_be_sw.Passes.AsyncLower.Liveness.{IsAscending, elem}
use zuspec_be_sw.Passes.AsyncLower.Assigned.{IsLive, is_single}
use zuspec_be_sw.Passes.AsyncLower.Live.{locals_struct-IsLive}

-- `self.<name>(...)`
abbrev self_call : ℕ → Nodes → Node
self_call name args = node call (cons (node (attribute name) (cons (node other nil) nil)) args)

abbrev sets : ℕ → Node
sets x = node (assign 1) (cons (node (ref_local x) nil) (cons (node other nil) nil))

abbrev reads : ℕ → Node
reads x = node other (cons (node (ref_local x) nil) nil)

abbrev waits : Node
waits = node other (cons (node await (cons (self_call wait_name nil) nil)) nil)

-- `x = ...; await self.wait(); <use of x>`
abbrev body : List Node
body = sets 30 ∷ waits ∷ reads 30 ∷ []

abbrev async_func : ℕ → List Node → Func
async_func name stmts = record {
  name = name;
  is_async = true;
  is_import = false;
  is_process = false;
  process_metadata = false;
  args = [];
  returns = none;
  body = stmts;
}

abbrev types : TypeMap
types = (50, component (async_func 41 (self_call 40 nil ∷ []) ∷ async_func 40 body ∷ []) []) ∷ []

two_keys :
    (a b : ℕ × Func)
    → eq_key (key a) (key b) ≡ false
    → eq_key (key b) (key a) ≡ false
    → HasOneFuncPerKey (a ∷ b ∷ [])
two_keys a b n m e e' (Memᴰ.head p) (Memᴰ.head q) h = p ∙ sym q
two_keys a b n m e e' (Memᴰ.head p) (Memᴰ.tail (Memᴰ.head q)) h =
    let wrong =
      subst (λ x. eq_key (key x) (key b) ≡ true) p
        (subst (λ x. eq_key (key e) (key x) ≡ true) q h) in
    cc
two_keys a b n m e e' (Memᴰ.tail (Memᴰ.head p)) (Memᴰ.head q) h =
    let wrong =
      subst (λ x. eq_key (key x) (key a) ≡ true) p
        (subst (λ x. eq_key (key e) (key x) ≡ true) q h) in
    cc
two_keys a b n m e e' (Memᴰ.tail (Memᴰ.head p)) (Memᴰ.tail (Memᴰ.head q)) h = p ∙ sym q
two_keys a b n m e e' (Memᴰ.tail (Memᴰ.tail i)) j h = elim i [ ]
two_keys a b n m e e' i (Memᴰ.tail (Memᴰ.tail j)) h = elim j [ ]

types-HasOneFuncPerKey : HasOneFuncPerKey (entries types)
unfolding entries
types-HasOneFuncPerKey = two_keys _ _ refl refl

classify_all-IsBlocked_example :
    (m : SyncMap) × ((classify_all types ≡ some m)
      × (((k : Key) → (m k ≡ some false) ↔ IsBlocked types k)
          × ((e : ℕ × Func)
              → Memᴰ e (entries types)
              → (m (key e) ≡ some true) ↔ (¬ IsBlocked types (key e)))))
classify_all-IsBlocked_example = classify_all-IsBlocked types types-HasOneFuncPerKey

run-lowers_example :
    (out : Output) × ((run types ≡ some out)
      × (((k : Key) → Memᴰ k out.sync_convertible → ¬ IsBlocked types k)
          × ((e : ℕ × Func)
              → Memᴰ e (entries types)
              → e.1.is_process ≡ false
              → ((¬ IsBlocked types (key e)) → Memᴰ (key e) out.sync_convertible)
                × (IsBlocked types (key e)
                    → is_some_list e.1.body ≡ true
                    → Memᴰ (e.0, frame_of e.0 e.1) out.sw_nodes))))
run-lowers_example = run-lowers types types-HasOneFuncPerKey

all_stmts-split_at_awaits_example :
    (all_stmts (split_at_awaits body 50 40).continuations ≡ body)
    × (length (split_at_awaits body 50 40).continuations ≡ suc (awaiting_stmts body))
all_stmts-split_at_awaits_example = all_stmts-split_at_awaits body 50 40

split_at_awaits-continuation_example :
    IsPlaced 1
      (length (split_at_awaits body 50 40).continuations)
      (record { index = 1; stmts = reads 30 ∷ []; suspend = none; next_index = none })
unfolding split_at_awaits
split_at_awaits-continuation_example = split_at_awaits-continuation body 50 40 1 _ refl

body_single : (s : Node) → Memᴰ s body → is_single s ≡ true
body_single s (Memᴰ.head e) = subst (λ x. is_single x ≡ true) (sym e) refl
body_single s (Memᴰ.tail (Memᴰ.head e)) = subst (λ x. is_single x ≡ true) (sym e) refl
body_single s (Memᴰ.tail (Memᴰ.tail (Memᴰ.head e))) = subst (λ x. is_single x ≡ true) (sym e) refl
body_single s (Memᴰ.tail (Memᴰ.tail (Memᴰ.tail m))) = elim m [ ]

locals_struct-IsLive_example :
    IsAscending (var_names (split_at_awaits body 50 40).locals_struct)
    × ((n : ℕ)
        → (elem n (var_names (split_at_awaits body 50 40).locals_struct) ≡ true)
          ↔ IsLive n (split_at_awaits body 50 40).continuations)
locals_struct-IsLive_example = locals_struct-IsLive body 50 40 body_single

locals_struct-body : var_names (split_at_awaits body 50 40).locals_struct ≡ 30 ∷ []
unfolding split_at_awaits
locals_struct-body = refl
