-- ===== src/Passes/AsyncLower/Live.antt =====
-- The locals that a coroutine frame keeps, by what the statements of the frame assign and read, in
-- src/zuspec/be/sw/passes/async_lower.py.
use mathlib.Core.List.{Memᴰ}
use mathlib.Core.List.Memᴰ.{append_left, append_right}
use zuspec_be_sw.Prelude.{
  ℕ, ◌≡◌, ◌↔◌, refl, sym, ap, ◌∙◌, subst, inl, inr, true, List, [], ◌∷◌, arith, Bool-cases,
}
use zuspec_be_sw.Passes.AsyncLower.Nodes.{
  Kind, ref_local, Node, node, Nodes, nil, cons, local_name, refs_in_stmts, collect_refs,
  collect_refs_in,
}
use zuspec_be_sw.Passes.AsyncLower.Frames.{SwContinuation, split_at_awaits}
use zuspec_be_sw.Passes.AsyncLower.Lowering.{var_names}
use zuspec_be_sw.Passes.AsyncLower.Splitting.{all_stmts, all_stmts-split_at_awaits}
use zuspec_be_sw.Passes.AsyncLower.Liveness.{
  elem, elem-append, IsAscending, Crosses, locals_struct-Crosses,
}
use zuspec_be_sw.Passes.AsyncLower.Assigned.{
  Mentions, MentionsIn, IsLive, is_single, found_stmt, listed_stmt,
}

own_local : (n : ℕ) (k : Kind) (cs : Nodes) → elem n (local_name k) ≡ true → Mentions n (node k cs)
own_local n (ref_local m) cs h = Mentions.itself (ground arith)
own_local n Kind.await cs h = cc
own_local n Kind.call cs h = cc
own_local n (Kind.attribute a) cs h = cc
own_local n (Kind.ref_unresolved a) cs h = cc
own_local n (Kind.completion_await a) cs h = cc
own_local n Kind.queue_get cs h = cc
own_local n (Kind.assign k) cs h = cc
own_local n Kind.aug_assign cs h = cc
own_local n (Kind.ann_assign a) cs h = cc
own_local n Kind.other cs h = cc

mutual
  unfolding collect_refs collect_refs_in

  found_ref : (n : ℕ) (x : Node) → elem n (collect_refs x) ≡ true → Mentions n x
  found_ref n (node k cs) h = elim (Bool-cases (elem n (local_name k))) [
    | inl e ↦ own_local n k cs e
    | inr e ↦
        let deep : elem n (collect_refs_in cs) ≡ true =
          ground (arith, elem-append n (local_name k) (collect_refs_in cs)) in
        Mentions.below (found_ref_in n cs deep)
  ]

  found_ref_in : (n : ℕ) (xs : Nodes) → elem n (collect_refs_in xs) ≡ true → MentionsIn n xs
  found_ref_in n nil h = cc
  found_ref_in n (cons x xs) h = elim (Bool-cases (elem n (collect_refs x))) [
    | inl e ↦ MentionsIn.first (found_ref n x e)
    | inr e ↦
        let deep : elem n (collect_refs_in xs) ≡ true =
          ground (arith, elem-append n (collect_refs x) (collect_refs_in xs)) in
        MentionsIn.later (found_ref_in n xs deep)
  ]

mutual
  unfolding collect_refs collect_refs_in

  listed_ref : (n : ℕ) (x : Node) → Mentions n x → elem n (collect_refs x) ≡ true
  listed_ref n (node (ref_local m) cs) (Mentions.itself e) = ground arith
  listed_ref n (node k cs) (Mentions.below d) =
      ground (arith, elem-append n (local_name k) (collect_refs_in cs), listed_ref_in n cs d)

  listed_ref_in : (n : ℕ) (xs : Nodes) → MentionsIn n xs → elem n (collect_refs_in xs) ≡ true
  listed_ref_in n nil d = elim d [ ]
  listed_ref_in n (cons x xs) (MentionsIn.first d) =
      ground (arith, elem-append n (collect_refs x) (collect_refs_in xs), listed_ref n x d)
  listed_ref_in n (cons x xs) (MentionsIn.later d) =
      ground (arith, elem-append n (collect_refs x) (collect_refs_in xs), listed_ref_in n xs d)

found_in_stmts :
    (n : ℕ) (ss : List Node)
    → elem n (refs_in_stmts ss) ≡ true
    → (s : Node) × Memᴰ s ss × Mentions n s
unfolding refs_in_stmts
found_in_stmts n [] h = cc
found_in_stmts n (s ∷ ss) h = elim (Bool-cases (elem n (collect_refs s))) [
  | inl e ↦ (s, Memᴰ.head refl, found_ref n s e)
  | inr e ↦
      let rest : elem n (refs_in_stmts ss) ≡ true =
        ground (arith, elem-append n (collect_refs s) (refs_in_stmts ss)) in
      let (t, m, d) = found_in_stmts n ss rest in (t, Memᴰ.tail m, d)
]

listed_in_stmts :
    (n : ℕ) (ss : List Node) (s : Node)
    → Memᴰ s ss
    → Mentions n s
    → elem n (refs_in_stmts ss) ≡ true
unfolding refs_in_stmts
listed_in_stmts n [] s m d = elim m [ ]
listed_in_stmts n (x ∷ ss) s (Memᴰ.head e) d =
    let own : elem n (collect_refs x) ≡ true =
      sym (ap (λ y. elem n (collect_refs y)) e) ∙ listed_ref n s d in
    ground (arith, elem-append n (collect_refs x) (refs_in_stmts ss))
listed_in_stmts n (x ∷ ss) s (Memᴰ.tail m) d =
    ground (arith, elem-append n (collect_refs x) (refs_in_stmts ss), listed_in_stmts n ss s m d)

Crosses-IsLive :
    (n : ℕ) (cs : List SwContinuation)
    → ((s : Node) → Memᴰ s (all_stmts cs) → is_single s ≡ true)
    → Crosses n cs ↔ IsLive n cs
unfolding all_stmts
Crosses-IsLive n [] one = ((λ x. elim x [ ]), (λ x. elim x [ ]))
Crosses-IsLive n (c ∷ cs) one = both (Crosses-IsLive n cs (λ s m. one s (append_right c.stmts m)))
  where
    to : (Crosses n cs ↔ IsLive n cs) → Crosses n (c ∷ cs) → IsLive n (c ∷ cs)
    to rest (Crosses.here a r) =
        let (s, m, x) = found_stmt n c.stmts (λ s m. one s (append_left (all_stmts cs) m)) a in
        let (t, k, d) = found_in_stmts n (all_stmts cs) r in IsLive.here m x k d
    to rest (Crosses.later x) = IsLive.later (rest.0 x)

    from : (Crosses n cs ↔ IsLive n cs) → IsLive n (c ∷ cs) → Crosses n (c ∷ cs)
    from rest (IsLive.here {s} {t} m x k d) =
        Crosses.here (listed_stmt n c.stmts s (one s (append_left (all_stmts cs) m)) m x)
          (listed_in_stmts n (all_stmts cs) t k d)
    from rest (IsLive.later x) = Crosses.later (rest.1 x)

    both : (Crosses n cs ↔ IsLive n cs) → Crosses n (c ∷ cs) ↔ IsLive n (c ∷ cs)
    both rest = (to rest, from rest)

-- The locals of a frame are in ascending order, and they are the names that a statement of a
-- continuation, itself no part of another statement, assigns and a later continuation has in a
-- statement. An assignment has one target, and no augmented assignment is to a local.
pub locals_struct-IsLive :
    (body : List Node) (comp func : ℕ)
    → ((s : Node) → Memᴰ s body → is_single s ≡ true)
    → IsAscending (var_names (split_at_awaits body comp func).locals_struct)
      × ((n : ℕ)
          → (elem n (var_names (split_at_awaits body comp func).locals_struct) ≡ true)
            ↔ IsLive n (split_at_awaits body comp func).continuations)
locals_struct-IsLive body comp func one =
    let (sorted, cross) = locals_struct-Crosses body comp func in
    let cs = (split_at_awaits body comp func).continuations in
    let same : all_stmts cs ≡ body = (all_stmts-split_at_awaits body comp func).0 in
    let live : (n : ℕ) → Crosses n cs ↔ IsLive n cs =
      λ n. Crosses-IsLive n cs (λ s m. one s (subst (λ ss. Memᴰ s ss) same m)) in
    (sorted, λ n. (λ h. (live n).0 ((cross n).0 h), λ x. (cross n).1 ((live n).1 x)))
