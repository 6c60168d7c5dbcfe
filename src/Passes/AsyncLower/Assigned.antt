-- ===== src/Passes/AsyncLower/Assigned.antt =====
-- What the statements of a coroutine frame assign and read, for the frame's locals in
-- src/zuspec/be/sw/passes/async_lower.py.
use mathlib.Core.List.{Memᴰ}
use zuspec_be_sw.Prelude.{
  ℕ, ◌<◌, ◌≡◌, inl, inr, refl, sym, ap, ◌∙◌, subst, Bool, true, false, not, Option, none, some,
  List, [], ◌∷◌, arith, ◌==◌, Bool-cases,
}
use zuspec_be_sw.Passes.AsyncLower.Nodes.{
  Kind, await, call, attribute, ref_local, ref_unresolved, completion_await, queue_get, assign,
  aug_assign, ann_assign, other, Node, node, Nodes, cons, nth, node_local, assigns_in_stmts,
  stmt_assigns,
}
use zuspec_be_sw.Passes.AsyncLower.Frames.{SwContinuation}
use zuspec_be_sw.Passes.AsyncLower.Splitting.{all_stmts}
use zuspec_be_sw.Passes.AsyncLower.Liveness.{elem, elem-append}

-- The statement assigns the local: it is one of its targets.
pub data Assigns (n : ℕ) : Node → Type 0 where
  target :
      {count i : ℕ} {cs under : Nodes}
      → i < count
      → nth cs i ≡ some (node (ref_local n) under)
      → Assigns n (node (assign count) cs)
  augmented :
      {cs under : Nodes}
      → nth cs 0 ≡ some (node (ref_local n) under)
      → Assigns n (node aug_assign cs)
  annotated :
      {ir_type : Option ℕ} {cs under : Nodes}
      → nth cs 0 ≡ some (node (ref_local n) under)
      → Assigns n (node (ann_assign ir_type) cs)

-- The local stands somewhere in the node.
mutual
  pub data Mentions (n : ℕ) : Node → Type 0 where
    itself : {m : ℕ} {cs : Nodes} → n ≡ m → Mentions n (node (ref_local m) cs)
    below : {k : Kind} {cs : Nodes} → MentionsIn n cs → Mentions n (node k cs)

  pub data MentionsIn (n : ℕ) : Nodes → Type 0 where
    first : {x : Node} {xs : Nodes} → Mentions n x → MentionsIn n (cons x xs)
    later : {x : Node} {xs : Nodes} → MentionsIn n xs → MentionsIn n (cons x xs)

-- A continuation assigns the local, and a later one has it in a statement.
pub data IsLive (n : ℕ) : List SwContinuation → Type 0 where
  here :
      {c : SwContinuation} {cs : List SwContinuation} {s t : Node}
      → Memᴰ s c.stmts
      → Assigns n s
      → Memᴰ t (all_stmts cs)
      → Mentions n t
      → IsLive n (c ∷ cs)
  later : {c : SwContinuation} {cs : List SwContinuation} → IsLive n cs → IsLive n (c ∷ cs)

-- An assignment has one target, and no augmented assignment is to a local.
abbrev pub is_local : Option Node → Bool
is_local (some (node (ref_local n) cs)) = true
is_local _ = false

abbrev pub is_single : Node → Bool
is_single (node (assign targets) cs) = targets == 1
is_single (node aug_assign cs) = not (is_local (nth cs 0))
is_single _ = true

node_local-at :
    (n : ℕ) (o : Option Node)
    → elem n (node_local o) ≡ true
    → (under : Nodes) × (o ≡ some (node (ref_local n) under))
node_local-at n none h = cc
node_local-at n (some (node (ref_local m) cs)) h =
    let same : n ≡ m = ground arith in (cs, ap (λ x. some (node (ref_local x) cs)) (sym same))
node_local-at n (some (node await cs)) h = cc
node_local-at n (some (node call cs)) h = cc
node_local-at n (some (node (attribute a) cs)) h = cc
node_local-at n (some (node (ref_unresolved a) cs)) h = cc
node_local-at n (some (node (completion_await a) cs)) h = cc
node_local-at n (some (node queue_get cs)) h = cc
node_local-at n (some (node (assign k) cs)) h = cc
node_local-at n (some (node aug_assign cs)) h = cc
node_local-at n (some (node (ann_assign a) cs)) h = cc
node_local-at n (some (node other cs)) h = cc

at-node_local :
    (n : ℕ) (o : Option Node) (under : Nodes)
    → o ≡ some (node (ref_local n) under)
    → elem n (node_local o) ≡ true
at-node_local n o under e = subst (λ x. elem n (node_local x) ≡ true) (sym e) (ground arith)

found_assign :
    (n : ℕ) (s : Node) → is_single s ≡ true → elem n (stmt_assigns s) ≡ true → Assigns n s
found_assign n (node (assign k) cs) one h =
    let (under, e) = node_local-at n (nth cs 0) h in target {i = 0} (ground arith) e
found_assign n (node (ann_assign a) cs) one h =
    let (under, e) = node_local-at n (nth cs 0) h in annotated e
found_assign n (node await cs) one h = cc
found_assign n (node call cs) one h = cc
found_assign n (node (attribute a) cs) one h = cc
found_assign n (node (ref_local a) cs) one h = cc
found_assign n (node (ref_unresolved a) cs) one h = cc
found_assign n (node (completion_await a) cs) one h = cc
found_assign n (node queue_get cs) one h = cc
found_assign n (node aug_assign cs) one h = cc
found_assign n (node other cs) one h = cc

listed_assign :
    (n : ℕ) (s : Node) → is_single s ≡ true → Assigns n s → elem n (stmt_assigns s) ≡ true
listed_assign n (node (assign k) cs) one (target {i} {under} l e) =
    let only : k ≡ 1 = ground arith in
    let zeroth : i ≡ 0 = omega arith in
    at-node_local n (nth cs 0) under (sym (ap (nth cs) zeroth) ∙ e)
listed_assign n (node (ann_assign a) cs) one (annotated {under} e) =
    at-node_local n (nth cs 0) under e
listed_assign n (node aug_assign cs) one (augmented {under} e) = absurd (
    let l : is_local (nth cs 0) ≡ true = subst (λ o. is_local o ≡ true) (sym e) refl in
    ground arith)
listed_assign n (node await cs) one a = elim a [ ]
listed_assign n (node call cs) one a = elim a [ ]
listed_assign n (node (attribute x) cs) one a = elim a [ ]
listed_assign n (node (ref_local x) cs) one a = elim a [ ]
listed_assign n (node (ref_unresolved x) cs) one a = elim a [ ]
listed_assign n (node (completion_await x) cs) one a = elim a [ ]
listed_assign n (node queue_get cs) one a = elim a [ ]
listed_assign n (node other cs) one a = elim a [ ]

pub found_stmt :
    (n : ℕ) (ss : List Node)
    → ((s : Node) → Memᴰ s ss → is_single s ≡ true)
    → elem n (assigns_in_stmts ss) ≡ true
    → (s : Node) × Memᴰ s ss × Assigns n s
unfolding assigns_in_stmts
found_stmt n [] one h = cc
found_stmt n (s ∷ ss) one h = elim (Bool-cases (elem n (stmt_assigns s))) [
  | inl e ↦ (s, Memᴰ.head refl, found_assign n s (one s (Memᴰ.head refl)) e)
  | inr e ↦
      let rest : elem n (assigns_in_stmts ss) ≡ true =
        ground (arith, elem-append n (stmt_assigns s) (assigns_in_stmts ss)) in
      let (t, m, a) = found_stmt n ss (λ t m. one t (Memᴰ.tail m)) rest in (t, Memᴰ.tail m, a)
]

pub listed_stmt :
    (n : ℕ) (ss : List Node) (s : Node)
    → is_single s ≡ true
    → Memᴰ s ss
    → Assigns n s
    → elem n (assigns_in_stmts ss) ≡ true
unfolding assigns_in_stmts
listed_stmt n [] s one m a = elim m [ ]
listed_stmt n (x ∷ ss) s one (Memᴰ.head e) a =
    let own : elem n (stmt_assigns x) ≡ true =
      sym (ap (λ y. elem n (stmt_assigns y)) e) ∙ listed_assign n s one a in
    ground (arith, elem-append n (stmt_assigns x) (assigns_in_stmts ss))
listed_stmt n (x ∷ ss) s one (Memᴰ.tail m) a =
    ground (arith, elem-append n (stmt_assigns x) (assigns_in_stmts ss), listed_stmt n ss s one m a)
