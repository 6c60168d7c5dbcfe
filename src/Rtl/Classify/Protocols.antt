-- ===== src/Rtl/Classify/Protocols.antt =====
-- When src/zuspec/be/sw/passes/rtl/component_classify.py chooses the RTL protocol.
use mathlib.Core.List.{Memᴰ}
use zuspec_be_sw.Prelude.{
  ◌≡◌, ◌↔◌, refl, ap, ◌∙◌, true, false, ◌||◌, List, [], ◌∷◌, ◌++◌, arith, Bool-cases, inl, inr,
}
use zuspec_be_sw.Rtl.Classify.{
  Exprs, assignment, done, seq, Process, EvalProtocol, stmts_have_await, process_awaits, any_awaits,
  has_any, classify_component,
}
use zuspec_be_sw.Rtl.Classify.Awaits.{AnySuspends, OpenStmts, found_stmts, seen_stmts}

quiet_all :
    (ps : List Process)
    → any_awaits ps ≡ false
    → (p : Process) → Memᴰ p ps
    → process_awaits p ≡ false
unfolding any_awaits
quiet_all [] h p m = elim m [ ]
quiet_all (q ∷ ps) h p (Memᴰ.head e) =
    let first : process_awaits q ≡ false = ground arith in ap process_awaits e ∙ first
quiet_all (q ∷ ps) h p (Memᴰ.tail m) = quiet_all ps (ground arith) p m

all_quiet :
    (ps : List Process)
    → ((p : Process) → Memᴰ p ps → process_awaits p ≡ false)
    → any_awaits ps ≡ false
unfolding any_awaits
all_quiet [] h = refl
all_quiet (p ∷ ps) h =
    let first : process_awaits p ≡ false = h p (Memᴰ.head refl) in
    ground (arith, all_quiet ps (λ q m. h q (Memᴰ.tail m)))

has_any-append : (xs ys : List Process) → has_any (xs ++ ys) ≡ has_any xs || has_any ys
has_any-append [] ys = refl
has_any-append (x ∷ xs) ys = refl

-- No await in the process, wherever it may stand.
abbrev pub IsQuiet : Process → Type 0
IsQuiet p = (p.is_async ≡ false) × (¬ AnySuspends p.body)

process_awaits-IsQuiet : (p : Process) → OpenStmts p.body → (process_awaits p ≡ false) ↔ IsQuiet p
unfolding process_awaits
process_awaits-IsQuiet p covered = (
  λ h. (ground arith, λ a. absurd (let s = seen_stmts p.body covered a in ground arith)),
  λ q. elim (Bool-cases (stmts_have_await p.body)) [
    | inl e ↦ absurd (q.1 (found_stmts p.body e))
    | inr e ↦ rw (q.0, e) refl
  ],
)

-- The protocol is RTL exactly where there is a process and none of them is async or has an await. No
-- await stands where the walk does not look: under other attributes of an expression than those it
-- names, in an expression that is no statement of its own, or in `orelse` of a loop.
pub classify_component-rtl :
    (sync comb : List Process)
    → ((p : Process) → Memᴰ p (sync ++ comb) → OpenStmts p.body)
    → (classify_component sync comb ≡ EvalProtocol.rtl)
      ↔ ((has_any (sync ++ comb) ≡ true) × ((p : Process) → Memᴰ p (sync ++ comb) → IsQuiet p))
unfolding classify_component
classify_component-rtl sync comb covered = (
  λ h. elim (Bool-cases (any_awaits (sync ++ comb))) [
    | inl a ↦ absurd (ground arith)
    | inr a ↦ (
      ground (arith, has_any-append sync comb),
      λ p m. (process_awaits-IsQuiet p (covered p m)).0 (quiet_all (sync ++ comb) a p m),
    )
  ],
  λ h.
      let a : any_awaits (sync ++ comb) ≡ false =
        all_quiet (sync ++ comb) (λ p m. (process_awaits-IsQuiet p (covered p m)).1 (h.1 p m)) in
      let some_process = h.0 in ground (arith, has_any-append sync comb),
)

-- A process of one assignment that is not marked async makes an RTL component, whatever its value
-- awaits.
pub classify_component-assignment :
    (parts : Exprs)
    → classify_component (record { is_async = false; body = seq (assignment parts) done } ∷ []) []
      ≡ EvalProtocol.rtl
unfolding classify_component
classify_component-assignment parts = refl
