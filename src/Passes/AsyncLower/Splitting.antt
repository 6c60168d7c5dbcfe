-- ===== src/Passes/AsyncLower/Splitting.antt =====
-- The continuations of a frame cover the body of the function, and each but the last ends at an
-- await.
use mathlib.Core.List.{append_assoc}
use zuspec_be_sw.Prelude.{
  ℕ, zero, suc, ◌+◌, ◌<◌, ◌≡◌, refl, sym, ap, ◌∙◌, subst, inl, inr, ◌⊎◌, true, false, ◌||◌, Option,
  none, some, List, [], ◌∷◌, ◌++◌, arith, bit, length, get_elem?,
}
use zuspec_be_sw.Passes.AsyncLower.Nodes.{
  Node, find_awaits, has_await, body_awaits, is_some_list, is_some-find_awaits,
}
use zuspec_be_sw.Passes.AsyncLower.Suspend.{classify_await}
use zuspec_be_sw.Passes.AsyncLower.Frames.{
  Segment, segments, SwContinuation, continuation, continuations_from, split_at_awaits,
}

-- The statements of the continuations, one after the other.
unfoldable pub all_stmts : List SwContinuation → List Node
all_stmts [] = []
all_stmts (c ∷ cs) = c.stmts ++ all_stmts cs

-- The number of statements with an await in them.
unfoldable pub awaiting_stmts : List Node → ℕ
unfolding has_await
awaiting_stmts [] = 0
awaiting_stmts (s ∷ ss) = bit (has_await s) + awaiting_stmts ss

body_awaits-snoc :
    (xs : List Node) (s : Node) → body_awaits (xs ++ (s ∷ [])) ≡ body_awaits xs || has_await s
unfolding body_awaits
body_awaits-snoc [] s = ground arith
body_awaits-snoc (x ∷ xs) s = ground (arith, body_awaits-snoc xs s)

calm_nil : body_awaits [] ≡ false
unfolding body_awaits
calm_nil = refl

-- How `segments` goes on at a statement, by what the search finds in it.
segments-plain :
    (s : Node) (ss cur : List Node)
    → find_awaits s ≡ []
    → segments (s ∷ ss) cur ≡ segments ss (cur ++ (s ∷ []))
unfolding segments
segments-plain s ss cur h = rw (h, segments)

segments-break :
    (s : Node) (ss cur : List Node) (aw : Node) (rest : List Node)
    → find_awaits s ≡ aw ∷ rest
    → segments (s ∷ ss) cur ≡ (cur ++ (s ∷ []), some aw) ∷ segments ss []
unfolding segments
segments-break s ss cur aw rest h = rw (h, segments)

List-cases : (xs : List Node) → (xs ≡ []) ⊎ ((x : Node) × (rest : List Node) × (xs ≡ x ∷ rest))
List-cases [] = inl refl
List-cases (x ∷ xs) = inr (x, xs, refl)

plain-no_await : (s : Node) → find_awaits s ≡ [] → has_await s ≡ false
plain-no_await s h = sym (is_some-find_awaits s) ∙ ap is_some_list h

break-await : (s aw : Node) (rest : List Node) → find_awaits s ≡ aw ∷ rest → has_await s ≡ true
break-await s aw rest h = sym (is_some-find_awaits s) ∙ ap is_some_list h

segments-nonempty : (ss cur : List Node) → 0 < length (segments ss cur)
unfolding segments
segments-nonempty [] cur = omega arith
segments-nonempty (s ∷ ss) cur = elim (List-cases (find_awaits s)) [
  | inl e ↦
      omega (arith, ap length (segments-plain s ss cur e), segments-nonempty ss (cur ++ (s ∷ [])))
  | inr f ↦ omega (arith, ap length (segments-break s ss cur f.0 f.1 f.2))
]

-- A segment at its place: the last one has no await, and the others have one in their last
-- statement, which the segment ends with.
abbrev pub IsLast : List Node → Option Node → Type 0
IsLast stmts aw = (aw ≡ none) × (body_awaits stmts ≡ false)

abbrev pub EndsAtAwait : List Node → Option Node → Type 0
EndsAtAwait stmts aw =
    (init : List Node) × (s : Node) × (a : Node) × (rest : List Node) × ((stmts ≡ init ++ (s ∷ []))
      × ((body_awaits init ≡ false) × ((find_awaits s ≡ a ∷ rest) × (aw ≡ some a))))

abbrev Shape : ℕ → List Segment → Segment → Type 0
Shape i segs seg =
    ((suc i ≡ length segs) × IsLast seg.0 seg.1) ⊎ ((suc i < length segs) × EndsAtAwait seg.0 seg.1)

break-Shape :
    (s : Node) (ss cur : List Node) (i : ℕ) (seg : Segment) (aw : Node) (rest : List Node)
    → find_awaits s ≡ aw ∷ rest
    → body_awaits cur ≡ false
    → ((j : ℕ) (g : Segment) → get_elem? (segments ss []) j ≡ some g → Shape j (segments ss []) g)
    → get_elem? ((cur ++ (s ∷ []), some aw) ∷ segments ss []) i ≡ some seg
    → Shape i ((cur ++ (s ∷ []), some aw) ∷ segments ss []) seg
break-Shape s ss cur zero seg aw rest f quiet ih h =
    let here : seg ≡ (cur ++ (s ∷ []), some aw) = cc in
    subst (Shape 0 ((cur ++ (s ∷ []), some aw) ∷ segments ss [])) (sym here)
      (inr (omega (arith, segments-nonempty ss []), (cur, s, aw, rest, (refl, (quiet, (f, refl))))))
break-Shape s ss cur (suc i) seg aw rest f quiet ih h = elim (ih i seg h) [
  | inl last ↦ inl (omega (arith, last.0), last.1)
  | inr more ↦ inr (omega (arith, more.0), more.1)
]

segments-Shape :
    (ss cur : List Node) (i : ℕ) (seg : Segment)
    → body_awaits cur ≡ false
    → get_elem? (segments ss cur) i ≡ some seg
    → Shape i (segments ss cur) seg
unfolding segments body_awaits
segments-Shape [] cur zero seg quiet h =
    let last : seg ≡ (cur, none) = cc in
    subst (Shape 0 ((cur, none) ∷ [])) (sym last) (inl (refl, (refl, quiet)))
segments-Shape [] cur (suc i) seg quiet h = cc
segments-Shape (s ∷ ss) cur i seg quiet h = elim (List-cases (find_awaits s)) [
  | inl e ↦
      let same = segments-plain s ss cur e in
      let calm : body_awaits (cur ++ (s ∷ [])) ≡ false =
        ground (arith, body_awaits-snoc cur s, plain-no_await s e) in
      subst (λ segs. Shape i segs seg) (sym same)
        (segments-Shape ss (cur ++ (s ∷ [])) i seg calm
          (subst (λ segs. get_elem? segs i ≡ some seg) same h))
  | inr f ↦
      let same = segments-break s ss cur f.0 f.1 f.2 in
      subst (λ segs. Shape i segs seg) (sym same)
        (break-Shape s ss cur i seg f.0 f.1 f.2 quiet (λ j g k. segments-Shape ss [] j g refl k)
          (subst (λ segs. get_elem? segs i ≡ some seg) same h))
]

-- The continuations number the segments.
continuations-at :
    (k i : ℕ) (segs : List Segment) (c : SwContinuation)
    → get_elem? (continuations_from k segs) i ≡ some c
    → (seg : Segment) × (get_elem? segs i ≡ some seg) × (c ≡ continuation (k + i) seg)
unfolding continuations_from
continuations-at k i [] c h = cc
continuations-at k zero (s ∷ ss) c h =
    let same : continuation k s ≡ c = cc in
    (s, refl, sym same ∙ ap (λ n. continuation n s) (omega arith))
continuations-at k (suc i) (s ∷ ss) c h =
    let ih = continuations-at (k + 1) i ss c h in
    (ih.0, ih.1, ih.2 ∙ ap (λ n. continuation n ih.0) (omega arith))

length-continuations_from :
    (k : ℕ) (segs : List Segment) → length (continuations_from k segs) ≡ length segs
unfolding continuations_from
length-continuations_from k [] = refl
length-continuations_from k (s ∷ ss) = ap suc (length-continuations_from (k + 1) ss)

length-segments : (ss cur : List Node) → length (segments ss cur) ≡ suc (awaiting_stmts ss)
unfolding segments awaiting_stmts
length-segments [] cur = refl
length-segments (s ∷ ss) cur = elim (List-cases (find_awaits s)) [
  | inl e ↦ ground (
    arith,
    ap length (segments-plain s ss cur e),
    plain-no_await s e,
    length-segments ss (cur ++ (s ∷ [])),
  )
  | inr f ↦ ground (
    arith,
    ap length (segments-break s ss cur f.0 f.1 f.2),
    break-await s f.0 f.1 f.2,
    length-segments ss [],
  )
]

all_stmts-continuation :
    (k : ℕ) (seg : Segment) (cs : List SwContinuation)
    → all_stmts (continuation k seg ∷ cs) ≡ seg.0 ++ all_stmts cs
unfolding all_stmts
all_stmts-continuation k (stmts, none) cs = refl
all_stmts-continuation k (stmts, some aw) cs = refl

all_stmts-segments :
    (ss cur : List Node) (k : ℕ) → all_stmts (continuations_from k (segments ss cur)) ≡ cur ++ ss
unfolding segments continuations_from all_stmts
all_stmts-segments [] cur k = refl
all_stmts-segments (s ∷ ss) cur k = elim (List-cases (find_awaits s)) [
  | inl e ↦
      ap (λ segs. all_stmts (continuations_from k segs)) (segments-plain s ss cur e)
      ∙ (all_stmts-segments ss (cur ++ (s ∷ [])) k ∙ append_assoc cur (s ∷ []) ss)
  | inr f ↦
      ap (λ segs. all_stmts (continuations_from k segs)) (segments-break s ss cur f.0 f.1 f.2)
      ∙ (ap (λ rest. (cur ++ (s ∷ [])) ++ rest) (all_stmts-segments ss [] (k + 1))
          ∙ append_assoc cur (s ∷ []) ss)
]

-- The continuations of a frame hold the statements of the body, each once and in order, and there
-- is one more of them than there are statements with an await.
pub all_stmts-split_at_awaits :
    (body : List Node) (comp func : ℕ)
    → (all_stmts (split_at_awaits body comp func).continuations ≡ body)
      × (length (split_at_awaits body comp func).continuations ≡ suc (awaiting_stmts body))
unfolding split_at_awaits
all_stmts-split_at_awaits body comp func = (
  all_stmts-segments body [] 0,
  length-continuations_from 0 (segments body []) ∙ length-segments body [],
)

-- A continuation at its place among `n`.
abbrev pub IsPlaced : ℕ → ℕ → SwContinuation → Type 0
IsPlaced i n c =
    (c.index ≡ i)
    × (((suc i ≡ n)
          × ((body_awaits c.stmts ≡ false) × ((c.suspend ≡ none) × (c.next_index ≡ none))))
        ⊎ ((suc i < n)
            × ((c.next_index ≡ some (suc i))
                × ((aw : Node) × (EndsAtAwait c.stmts (some aw)
                      × (c.suspend ≡ some (classify_await aw)))))))

continuation-IsPlaced :
    (i : ℕ) (segs : List Segment) (seg : Segment)
    → Shape i segs seg
    → IsPlaced i (length segs) (continuation i seg)
continuation-IsPlaced i segs (stmts, none) (inl last) =
    (refl, inl (last.0, (last.1.1, (refl, refl))))
continuation-IsPlaced i segs (stmts, none) (inr more) = let wrong = more.1.4.1.1.1 in cc
continuation-IsPlaced i segs (stmts, some aw) (inl last) = let wrong = last.1.0 in cc
continuation-IsPlaced i segs (stmts, some aw) (inr more) =
    (refl, inr (more.0, (ap some (omega arith), (aw, (more.1, refl)))))

-- Each continuation has its position as its index. The last one has no await, no suspension and no
-- next index. Every other one has an await in its last statement and nowhere before it, suspends at
-- the first await of that statement, and goes on with the continuation that follows.
pub split_at_awaits-continuation :
    (body : List Node) (comp func i : ℕ) (c : SwContinuation)
    → get_elem? (split_at_awaits body comp func).continuations i ≡ some c
    → IsPlaced i (length (split_at_awaits body comp func).continuations) c
unfolding split_at_awaits
split_at_awaits-continuation body comp func i c h =
    let at = continuations-at 0 i (segments body []) c h in
    subst (λ n. IsPlaced i n c) (sym (length-continuations_from 0 (segments body [])))
      (subst (IsPlaced i (length (segments body [])))
        (sym (at.2 ∙ ap (λ n. continuation n at.0) (omega arith)))
        (continuation-IsPlaced i (segments body []) at.0
          (segments-Shape body [] i at.0 (calm_nil) at.1)))
