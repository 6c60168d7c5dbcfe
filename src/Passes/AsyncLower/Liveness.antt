-- ===== src/Passes/AsyncLower/Liveness.antt =====
-- The locals that a frame keeps over its suspensions.
use mathlib.Core.List.{append_assoc}
use zuspec_be_sw.Prelude.{
  ℕ, ◌+◌, ◌<◌, ◌≡◌, ◌↔◌, refl, sym, ap, ◌∙◌, subst, inl, inr, Bool, true, false, not, ◌&&◌, ◌||◌,
  Option, none, some, List, [], ◌∷◌, ◌++◌, arith, ◌==◌, ==_refl, ltb, ltb→lt, count, Bool-cases,
}
use zuspec_be_sw.Passes.AsyncLower.Nodes.{
  Node, assigns_in_stmts, stmt_assigns, refs_in_stmts, collect_refs,
}
use zuspec_be_sw.Passes.AsyncLower.Frames.{
  Segment, segments, local_vars, SwContinuation, continuation, continuations_from, split_at_awaits,
  common, refs_later, frame_vars, insert_name, sorted_set, type_hints,
}
use zuspec_be_sw.Passes.AsyncLower.Lowering.{var_names}
use zuspec_be_sw.Passes.AsyncLower.Splitting.{all_stmts, all_stmts-split_at_awaits}

abbrev pub elem : ℕ → List ℕ → Bool
elem n [] = false
elem n (x ∷ xs) = n == x || elem n xs

pub elem-append : (n : ℕ) (xs ys : List ℕ) → elem n (xs ++ ys) ≡ elem n xs || elem n ys
elem-append n [] ys = refl
elem-append n (x ∷ xs) ys = ground (arith, elem-append n xs ys)

elem-count : (n : ℕ) (xs : List ℕ) → (count n xs == 0) ≡ not (elem n xs)
elem-count n [] = refl
elem-count n (x ∷ xs) = ground (arith, elem-count n xs)

elem-insert_name : (n x : ℕ) (ys : List ℕ) → elem n (insert_name x ys) ≡ (n == x || elem n ys)
unfolding insert_name
elem-insert_name n x [] = refl
elem-insert_name n x (y ∷ ys) = ground (arith, elem-insert_name n x ys)

elem-sorted_set : (n : ℕ) (xs : List ℕ) → elem n (sorted_set xs) ≡ elem n xs
unfolding sorted_set
elem-sorted_set n [] = refl
elem-sorted_set n (x ∷ xs) =
    ground (arith, elem-insert_name n x (sorted_set xs), elem-sorted_set n xs)

elem-common : (n : ℕ) (xs ys : List ℕ) → elem n (common xs ys) ≡ (elem n xs && elem n ys)
unfolding common
elem-common n [] ys = refl
elem-common n (x ∷ xs) ys = elim (Bool-cases (n == x)) [
  | inl e ↦
      let same : n ≡ x = ground arith in
      let found = ap (λ y. elem y ys) same in ground (arith, elem-common n xs ys, elem-count x ys)
  | inr e ↦ ground (arith, elem-common n xs ys, elem-count x ys)
]

-- Every number is below the ones that follow it.
pub data IsAscending : List ℕ → Type 0 where
  empty : IsAscending []
  first :
      {x : ℕ} {xs : List ℕ}
      → ((y : ℕ) → elem y xs ≡ true → x < y)
      → IsAscending xs
      → IsAscending (x ∷ xs)

above_all :
    (x y z : ℕ) (ys : List ℕ)
    → x < y
    → ((w : ℕ) → elem w ys ≡ true → y < w)
    → elem z (y ∷ ys) ≡ true
    → x < z
above_all x y z ys lt low h = elim (Bool-cases (z == y)) [
  | inl e ↦ ground arith
  | inr e ↦ let next : y < z = low z (ground arith) in omega arith
]

above_inserted :
    (x y z : ℕ) (ys : List ℕ)
    → y < x
    → ((w : ℕ) → elem w ys ≡ true → y < w)
    → (z == x || elem z ys) ≡ true
    → y < z
above_inserted x y z ys lt low h = elim (Bool-cases (z == x)) [
  | inl e ↦ ground arith
  | inr e ↦ low z (ground arith)
]

insert_name-IsAscending : (x : ℕ) (ys : List ℕ) → IsAscending ys → IsAscending (insert_name x ys)
unfolding insert_name
insert_name-IsAscending x [] asc = first (λ y h. cc) empty
insert_name-IsAscending x (y ∷ ys) (first low asc) = elim (Bool-cases (ltb x y)) [
  | inl l ↦
      let out : insert_name x (y ∷ ys) ≡ x ∷ y ∷ ys = ground arith in
      subst IsAscending (sym out)
        (first (λ z h. above_all x y z ys (ltb→lt x y l) low h) (first low asc))
  | inr l ↦ elim (Bool-cases (x == y)) [
    | inl e ↦
        let out : insert_name x (y ∷ ys) ≡ y ∷ ys = ground arith in
        subst IsAscending (sym out) (first low asc)
    | inr e ↦
        let out : insert_name x (y ∷ ys) ≡ y ∷ insert_name x ys = ground arith in
        subst IsAscending (sym out) (
          first
            (λ z h. above_inserted x y z ys (ground arith) low (sym (elem-insert_name z x ys) ∙ h))
            (insert_name-IsAscending x ys asc))
  ]
]

sorted_set-IsAscending : (xs : List ℕ) → IsAscending (sorted_set xs)
unfolding sorted_set
sorted_set-IsAscending [] = empty
sorted_set-IsAscending (x ∷ xs) =
    insert_name-IsAscending x (sorted_set xs) (sorted_set-IsAscending xs)

var_names-local_vars : (hints : ℕ → Option ℕ) (ns : List ℕ) → var_names (local_vars hints ns) ≡ ns
var_names-local_vars hints [] = refl
var_names-local_vars hints (n ∷ ns) = ap (λ ms. n ∷ ms) (var_names-local_vars hints ns)

-- A name that a continuation assigns and a later one reads.
pub data Crosses (n : ℕ) : List SwContinuation → Type 0 where
  here :
      {c : SwContinuation} {cs : List SwContinuation}
      → elem n (assigns_in_stmts c.stmts) ≡ true
      → elem n (refs_in_stmts (all_stmts cs)) ≡ true
      → Crosses n (c ∷ cs)
  later : {c : SwContinuation} {cs : List SwContinuation} → Crosses n cs → Crosses n (c ∷ cs)

-- The same on segments, as a test.
abbrev crosses : ℕ → List Segment → Bool
crosses n [] = false
crosses n (s ∷ ss) = elem n (assigns_in_stmts s.0) && elem n (refs_later ss) || crosses n ss

elem-frame_vars : (n : ℕ) (segs : List Segment) → elem n (frame_vars segs) ≡ crosses n segs
unfolding frame_vars
elem-frame_vars n [] = refl
elem-frame_vars n (s ∷ ss) =
    elem-append n (common (assigns_in_stmts s.0) (refs_later ss)) (frame_vars ss)
    ∙ ground (arith, elem-common n (assigns_in_stmts s.0) (refs_later ss), elem-frame_vars n ss)

refs_in_stmts-append :
    (xs ys : List Node) → refs_in_stmts (xs ++ ys) ≡ refs_in_stmts xs ++ refs_in_stmts ys
unfolding refs_in_stmts
refs_in_stmts-append [] ys = refl
refs_in_stmts-append (x ∷ xs) ys =
    ap (λ rest. collect_refs x ++ rest) (refs_in_stmts-append xs ys)
    ∙ sym (append_assoc (collect_refs x) (refs_in_stmts xs) (refs_in_stmts ys))

continuation-stmts : (k : ℕ) (s : Segment) → (continuation k s).stmts ≡ s.0
continuation-stmts k (stmts, none) = refl
continuation-stmts k (stmts, some aw) = refl

refs-continuations_from :
    (k : ℕ) (segs : List Segment)
    → refs_in_stmts (all_stmts (continuations_from k segs)) ≡ refs_later segs
unfolding continuations_from all_stmts refs_later refs_in_stmts
refs-continuations_from k [] = refl
refs-continuations_from k (s ∷ ss) =
    refs_in_stmts-append (continuation k s).stmts (all_stmts (continuations_from (k + 1) ss))
    ∙ (ap (λ xs. refs_in_stmts xs ++ refs_in_stmts (all_stmts (continuations_from (k + 1) ss)))
          (continuation-stmts k s)
        ∙ ap (λ rest. refs_in_stmts s.0 ++ rest) (refs-continuations_from (k + 1) ss))

crosses-Crosses :
    (n k : ℕ) (segs : List Segment) → crosses n segs ≡ true → Crosses n (continuations_from k segs)
unfolding continuations_from
crosses-Crosses n k [] h = cc
crosses-Crosses n k (s ∷ ss) h = elim (Bool-cases (crosses n ss)) [
  | inl c ↦ later (crosses-Crosses n (k + 1) ss c)
  | inr c ↦
      let own : elem n (assigns_in_stmts s.0) ≡ true = ground arith in
      let read : elem n (refs_later ss) ≡ true = ground arith in
      here (ap (λ xs. elem n (assigns_in_stmts xs)) (continuation-stmts k s) ∙ own)
        (ap (elem n) (refs-continuations_from (k + 1) ss) ∙ read)
]

Crosses-crosses :
    (n k : ℕ) (segs : List Segment) → Crosses n (continuations_from k segs) → crosses n segs ≡ true
unfolding continuations_from
Crosses-crosses n k [] h = elim h [ ]
Crosses-crosses n k (s ∷ ss) (here a r) =
    let own = sym (ap (λ xs. elem n (assigns_in_stmts xs)) (continuation-stmts k s)) ∙ a in
    let read = sym (ap (elem n) (refs-continuations_from (k + 1) ss)) ∙ r in ground arith
Crosses-crosses n k (s ∷ ss) (later h) = ground (arith, Crosses-crosses n (k + 1) ss h)

-- The locals of a frame are in ascending order, and they are the names that the pass finds assigned
-- in a continuation and read in a later one.
pub locals_struct-Crosses :
    (body : List Node) (comp func : ℕ)
    → IsAscending (var_names (split_at_awaits body comp func).locals_struct)
      × ((n : ℕ)
          → (elem n (var_names (split_at_awaits body comp func).locals_struct) ≡ true)
            ↔ Crosses n (split_at_awaits body comp func).continuations)
unfolding split_at_awaits
locals_struct-Crosses body comp func =
    let segs = segments body [] in
    let names : var_names (local_vars (type_hints segs) (sorted_set (frame_vars segs)))
        ≡ sorted_set (frame_vars segs) =
      var_names-local_vars (type_hints segs) _ in
    let found : (n : ℕ) → elem n (sorted_set (frame_vars segs)) ≡ crosses n segs =
      λ n. elem-sorted_set n (frame_vars segs) ∙ elem-frame_vars n segs in
    (
      subst IsAscending (sym names) (sorted_set-IsAscending (frame_vars segs)),
      λ n. (
        λ h. crosses-Crosses n 0 segs (sym (found n) ∙ (sym (ap (elem n) names) ∙ h)),
        λ c. ap (elem n) names ∙ (found n ∙ Crosses-crosses n 0 segs c),
      ),
    )

elem-assigns_in_stmts :
    (n : ℕ) (xs ys : List Node)
    → elem n (assigns_in_stmts (xs ++ ys))
      ≡ (elem n (assigns_in_stmts xs) || elem n (assigns_in_stmts ys))
unfolding assigns_in_stmts
elem-assigns_in_stmts n [] ys = refl
elem-assigns_in_stmts n (x ∷ xs) ys = ground (
  arith,
  elem-append n (stmt_assigns x) (assigns_in_stmts (xs ++ ys)),
  elem-append n (stmt_assigns x) (assigns_in_stmts xs),
  elem-assigns_in_stmts n xs ys,
)

Crosses-assigned :
    (n : ℕ) (cs : List SwContinuation)
    → Crosses n cs
    → elem n (assigns_in_stmts (all_stmts cs)) ≡ true
unfolding all_stmts
Crosses-assigned n [] h = elim h [ ]
Crosses-assigned n (c ∷ cs) (here a r) =
    ground (arith, elem-assigns_in_stmts n c.stmts (all_stmts cs))
Crosses-assigned n (c ∷ cs) (later h) =
    ground (arith, elem-assigns_in_stmts n c.stmts (all_stmts cs), Crosses-assigned n cs h)

no_elem-nil : (xs : List ℕ) → ((n : ℕ) → elem n xs ≡ true → ⊥) → xs ≡ []
no_elem-nil [] h = refl
no_elem-nil (x ∷ xs) h = absurd (h x (ground (arith, ==_refl x)))

-- A body with no assignment among its own statements keeps no local over its awaits, whatever the
-- statements nested in it assign and later ones read.
pub locals_struct-nested :
    (body : List Node) (comp func : ℕ)
    → assigns_in_stmts body ≡ []
    → var_names (split_at_awaits body comp func).locals_struct ≡ []
locals_struct-nested body comp func none_assigned =
    let frame = split_at_awaits body comp func in
    no_elem-nil (var_names frame.locals_struct) λ n h.
      let found =
        Crosses-assigned n frame.continuations (((locals_struct-Crosses body comp func).1 n).0 h) in
      let same = (all_stmts-split_at_awaits body comp func).0 in
      let empty = ap (λ xs. elem n (assigns_in_stmts xs)) same ∙ ap (elem n) none_assigned in
      ground arith
