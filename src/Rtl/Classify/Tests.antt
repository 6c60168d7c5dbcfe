-- ===== src/Rtl/Classify/Tests.antt =====
-- One @sync process with a loop and no await, and the theorems at it.
use mathlib.Core.List.{Memᴰ}
use zuspec_be_sw.Prelude.{◌≡◌, ◌↔◌, sym, subst, true, false, List, [], ◌∷◌}
use zuspec_be_sw.Rtl.Classify.{
  node, nil, expr_stmt, loop, done, seq, Process, EvalProtocol, has_any, classify_component,
}
use zuspec_be_sw.Rtl.Classify.Awaits.{IsOpen, AreOpen, OpenStmt, OpenStmts}
use zuspec_be_sw.Rtl.Classify.Protocols.{IsQuiet, classify_component-rtl}

abbrev quiet : Process
quiet = record {
  is_async = false;
  body = seq (loop nil (seq (expr_stmt (node nil nil)) done) done) done;
}

abbrev one_process : List Process
one_process = quiet ∷ []

one_open : (p : Process) → Memᴰ p one_process → OpenStmts p.body
unfolding OpenStmts OpenStmt IsOpen AreOpen
one_open p (Memᴰ.head e) =
    subst (λ (q : Process). OpenStmts q.body) (sym e)
      (((λ a. elim a [ ]), (((tt, λ a. elim a [ ]), tt), λ a. elim a [ ])), tt)
one_open p (Memᴰ.tail m) = elim m [ ]

classify_component-rtl_example :
    (classify_component one_process [] ≡ EvalProtocol.rtl)
    ↔ ((has_any one_process ≡ true) × ((p : Process) → Memᴰ p one_process → IsQuiet p))
classify_component-rtl_example = classify_component-rtl one_process [] one_open
