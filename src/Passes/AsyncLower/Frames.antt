-- ===== src/Passes/AsyncLower/Frames.antt =====
-- src/zuspec/be/sw/passes/async_lower.py: the coroutine frame of an async function. The classes of
-- a frame are those of src/zuspec/be/sw/ir/coroutine.py.
use zuspec_be_sw.Prelude.{
  ℕ, ◌+◌, Option, none, some, List, [], ◌∷◌, ◌++◌, ◌==◌, ltb, if◌then◌else◌, count,
}
use zuspec_be_sw.Passes.AsyncLower.Nodes.{
  ref_local, ann_assign, Node, node, Nodes, find_awaits, assigns_in_stmts, refs_in_stmts,
}
use zuspec_be_sw.Passes.AsyncLower.Classify.{Key}
use zuspec_be_sw.Passes.AsyncLower.Suspend.{SuspendPoint, classify_await, classify_inner}

-- A segment: its statements, and the await that ends it.
abbrev pub Segment : Type 0
Segment = List Node × Option Node

-- The loop over the statements of `_split_at_awaits`, with `current`.
unfoldable pub segments : List Node → List Node → List Segment
unfolding find_awaits
segments [] current = (current, none) ∷ []
segments (stmt ∷ stmts) current = elim (find_awaits stmt) [
  | [] ↦ segments stmts (current ++ (stmt ∷ []))
  | aw ∷ _ ↦ (current ++ (stmt ∷ []), some aw) ∷ segments stmts []
]

-- `assigned_here & refs_later`
unfoldable pub common : List ℕ → List ℕ → List ℕ
common [] ys = []
common (x ∷ xs) ys = let rest = common xs ys in if count x ys == 0 then rest else x ∷ rest

unfoldable pub refs_later : List Segment → List ℕ
unfolding refs_in_stmts
refs_later [] = []
refs_later (s ∷ ss) = refs_in_stmts s.0 ++ refs_later ss

-- `frame_vars`: the last segment has no segment after it.
unfoldable pub frame_vars : List Segment → List ℕ
unfolding common refs_later assigns_in_stmts
frame_vars [] = []
frame_vars (s ∷ ss) = common (assigns_in_stmts s.0) (refs_later ss) ++ frame_vars ss

-- `sorted` of a set.
unfoldable pub insert_name : ℕ → List ℕ → List ℕ
insert_name x [] = x ∷ []
insert_name x (y ∷ ys) =
    let rest = insert_name x ys in
    if ltb x y then x ∷ y ∷ ys else if x == y then y ∷ ys else y ∷ rest

unfoldable pub sorted_set : List ℕ → List ℕ
unfolding insert_name
sorted_set [] = []
sorted_set (x ∷ xs) = insert_name x (sorted_set xs)

-- `type_hints`: the last annotation of a name counts.
abbrev pub own_hint : Node → ℕ → Option ℕ
own_hint (node (ann_assign (some ir_type)) (Nodes.cons (node (ref_local m) cs) rest)) n =
    if m == n then some ir_type else none
own_hint _ n = none

abbrev or_else : Option ℕ → Option ℕ → Option ℕ
or_else (some t) o = some t
or_else none o = o

unfoldable pub stmt_hints : List Node → ℕ → Option ℕ
stmt_hints [] n = none
stmt_hints (s ∷ ss) n = or_else (stmt_hints ss n) (own_hint s n)

unfoldable pub type_hints : List Segment → ℕ → Option ℕ
unfolding stmt_hints
type_hints [] n = none
type_hints (s ∷ ss) n = or_else (type_hints ss n) (stmt_hints s.0 n)

pub record SwLocalVar : Type 0 where
  pub var_name : ℕ
  pub var_type : Option ℕ

abbrev pub local_vars : (ℕ → Option ℕ) → List ℕ → List SwLocalVar
local_vars hints [] = []
local_vars hints (n ∷ ns) = record { var_name = n; var_type = hints n } ∷ local_vars hints ns

pub record SwContinuation : Type 0 where
  pub index : ℕ
  pub stmts : List Node
  pub suspend : Option SuspendPoint
  pub next_index : Option ℕ

abbrev pub continuation : ℕ → Segment → SwContinuation
continuation idx (stmts, none) = record {
  index = idx;
  stmts = stmts;
  suspend = none;
  next_index = none;
}
continuation idx (stmts, some aw) = record {
  index = idx;
  stmts = stmts;
  suspend = some (classify_await aw);
  next_index = some (idx + 1);
}

unfoldable pub continuations_from : ℕ → List Segment → List SwContinuation
unfolding classify_inner
continuations_from idx [] = []
continuations_from idx (s ∷ ss) = continuation idx s ∷ continuations_from (idx + 1) ss

pub record SwCoroutineFrame : Type 0 where
  pub func_name : Key
  pub comp_type_name : ℕ
  pub locals_struct : List SwLocalVar
  pub continuations : List SwContinuation
  pub process_params : List ℕ
  pub return_dtype : Option ℕ

-- `_split_at_awaits`
unfoldable pub split_at_awaits : List Node → ℕ → ℕ → SwCoroutineFrame
unfolding segments frame_vars sorted_set type_hints continuations_from
split_at_awaits stmts comp func =
    let segs = segments stmts [] in
    record {
      func_name = (comp, func);
      comp_type_name = comp;
      locals_struct = local_vars (type_hints segs) (sorted_set (frame_vars segs));
      continuations = continuations_from 0 segs;
      process_params = [];
      return_dtype = none;
    }
