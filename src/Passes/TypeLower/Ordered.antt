-- ===== src/Passes/TypeLower/Ordered.antt =====
-- The order that `_topological_sort` of src/zuspec/be/sw/passes/type_lower.py finds.
use zuspec_be_sw.Prelude.{
  ℕ, zero, suc, ◌+◌, ◌≡◌, refl, sym, subst, inl, inr, true, false, ◌==◌, ==_refl, bit, Option, none,
  some, List, [], ◌∷◌, ◌++◌, arith, count, Bool-cases,
}
use zuspec_be_sw.Passes.TypeLower.Syntax.{DataType, key}
use zuspec_be_sw.Passes.TypeLower.Visits.{mem, Visiting, then_visit, visit_each, place, deps, visit}

abbrev pub keys : List DataType → List ℕ
keys [] = []
keys (t ∷ ts) = key t ∷ keys ts

count-keys :
    (k : ℕ) (a : List DataType) (t : DataType)
    → count k (keys (a ++ (t ∷ []))) ≡ count k (keys a) + bit (k == key t)
count-keys k [] t = omega arith
count-keys k (u ∷ a) t = omega (arith, count-keys k a t)

-- What was visited is visited after a call, and each new name has one place more in the order.
pub record Grew (st st' : Visiting) : Type 0 where
  pub counts :
      (k : ℕ)
      → count k (keys st'.order) + bit (mem k st.visited)
        ≡ count k (keys st.order) + bit (mem k st'.visited)
  pub grows : (k : ℕ) → mem k st.visited ≡ true → mem k st'.visited ≡ true

abbrev pub AllVisited : List DataType → List ℕ → Type 0
AllVisited [] v = Unit
AllVisited (d ∷ ds) v = (mem (key d) v ≡ true) × AllVisited ds v

pub AllVisited-grows :
    (ds : List DataType) (v w : List ℕ)
    → ((k : ℕ) → mem k v ≡ true → mem k w ≡ true)
    → AllVisited ds v
    → AllVisited ds w
AllVisited-grows [] v w h a = tt
AllVisited-grows (d ∷ ds) v w h (here, rest) = (h (key d) here, AllVisited-grows ds v w h rest)

pub then_visit-some :
    (o : Option Visiting) (f : Visiting → Option Visiting) (r : Visiting)
    → then_visit o f ≡ some r
    → (st : Visiting) × (o ≡ some st) × (f st ≡ some r)
unfolding then_visit
then_visit-some none f r e = absurd (cc)
then_visit-some (some st) f r e = (st, refl, e)

pub place-some :
    (t : DataType) (o : Option Visiting) (r : Visiting)
    → place t o ≡ some r
    → (st : Visiting) × (o ≡ some st)
      × (r ≡ record { visited = st.visited; order = st.order ++ (t ∷ []) })
unfolding place
place-some t none r e = absurd (cc)
place-some t (some st) r e = (st, refl, cc)

pub visit_each-Grew :
    (rec : DataType → Visiting → Option Visiting) (ds : List DataType) (st st' : Visiting)
    → ((d : DataType) (a b : Visiting)
        → rec d a ≡ some b
        → Grew a b × (mem (key d) b.visited ≡ true))
    → visit_each rec ds st ≡ some st'
    → Grew st st' × AllVisited ds st'.visited
unfolding visit_each
visit_each-Grew rec [] st st' h e =
    (subst (Grew st) (cc) (record { counts = λ k. refl; grows = λ k v. v }), tt)
visit_each-Grew rec (d ∷ ds) st st' h e =
    let (mid, first, later) = then_visit-some (rec d st) (visit_each rec ds) st' e in
    let (one, here) = h d st mid first in
    let (rest, all) = visit_each-Grew rec ds mid st' h later in
    (
      record {
        counts = λ k. omega (arith, one.counts k, rest.counts k);
        grows = λ k v. rest.grows k (one.grows k v);
      },
      (rest.grows (key d) here, all),
    )

-- The state in which the dependencies of a type are visited.
abbrev pub entered : DataType → Visiting → Visiting
entered t st = record { visited = key t ∷ st.visited; order = st.order }

pub entered-mem : (t : DataType) (st : Visiting) → mem (key t) (entered t st).visited ≡ true
unfolding mem
entered-mem t st = ground (arith, ==_refl (key t))

pub left_Grew :
    (t : DataType) (st end : Visiting)
    → mem (key t) st.visited ≡ false
    → Grew (entered t st) end
    → Grew st (record { visited = end.visited; order = end.order ++ (t ∷ []) })
unfolding mem
left_Grew t st end q grew = record { counts = counts; grows = grows }
  where
    fresh : (k : ℕ) → (k == key t) ≡ true → mem k st.visited ≡ false
    fresh k e = let same : k ≡ key t = ground arith in rw same q

    counts :
        (k : ℕ)
        → count k (keys (end.order ++ (t ∷ []))) + bit (mem k st.visited)
          ≡ count k (keys st.order) + bit (mem k end.visited)
    counts k = ground (arith, grew.counts k, count-keys k end.order t, fresh k)

    grows : (k : ℕ) → mem k st.visited ≡ true → mem k end.visited ≡ true
    grows k v = grew.grows k (ground arith)

module _ (type_m : List (ℕ × DataType)) where
  pub visit-Grew :
      (n : ℕ) (t : DataType) (st st' : Visiting)
      → visit type_m n t st ≡ some st'
      → Grew st st' × (mem (key t) st'.visited ≡ true)
  unfolding visit
  visit-Grew zero t st st' e = absurd (cc)
  visit-Grew (suc n) t st st' e = elim (Bool-cases (mem (key t) st.visited)) [
    | inl q ↦
        let same : some st ≡ some st' = subst (λ o. o ≡ some st') (rw q refl) e in
        let eq : st ≡ st' = cc in
        (
          subst (Grew st) eq (record { counts = λ k. refl; grows = λ k v. v }),
          subst (λ (s : Visiting). mem (key t) s.visited ≡ true) eq q,
        )
    | inr q ↦
        let (end, each, last) = place-some t _ st' (subst (λ o. o ≡ some st') (rw q refl) e) in
        let (grew, all) =
          visit_each-Grew (visit type_m n) (deps type_m t) (entered t st) end (visit-Grew n) each in
        (
          subst (Grew st) (sym last) (left_Grew t st end q grew),
          subst (λ (s : Visiting). mem (key t) s.visited ≡ true) (sym last)
              (grew.grows (key t) (entered-mem t st)),
        )
  ]
