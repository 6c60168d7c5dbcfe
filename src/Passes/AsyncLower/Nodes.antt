-- ===== src/Passes/AsyncLower/Nodes.antt =====
-- src/zuspec/be/sw/passes/async_lower.py: the walks over statements and expressions.
use zuspec_be_sw.Prelude.{
  ℕ, suc, ◌+◌, ◌≡◌, refl, Bool, true, false, ◌||◌, Option, none, some, List, [], ◌∷◌, ◌++◌,
}

-- The classes of statements and expressions that the pass tells apart, with the fields that it
-- reads and that are no nodes. The classes are third-party. Names are numbers. `other` is any class
-- that the pass does not name.
pub data Kind : Type 0 where
  await : Kind
  call : Kind
  attribute : ℕ → Kind
  ref_local : ℕ → Kind
  ref_unresolved : ℕ → Kind
  completion_await : Option ℕ → Kind
  queue_get : Kind
  assign : ℕ → Kind
  aug_assign : Kind
  ann_assign : Option ℕ → Kind
  other : Kind

-- A node and what `_children` yields for it, in the order of its fields: `await` begins with
-- `value`, `call` has `func` and then `args`, `attribute` begins with `value`,
-- `completion_await` with `completion_expr`, `queue_get` with `queue_expr`, `assign` with its
-- targets, whose number it has and of which there is one at least, and `aug_assign` and `ann_assign`
-- with `target`.
mutual
  pub data Node : Type 0 where
    node : Kind → Nodes → Node

  pub data Nodes : Type 0 where
    nil : Nodes
    cons : Node → Nodes → Nodes

abbrev pub kind : Node → Kind
kind (node k children) = k

abbrev pub children : Node → Nodes
children (node k nodes) = nodes

abbrev pub nth : Nodes → ℕ → Option Node
nth nil i = none
nth (cons n ns) ℕ.zero = some n
nth (cons n ns) (suc i) = nth ns i

abbrev pub is_await : Kind → Bool
is_await await = true
is_await _ = false

-- `_has_await`
unfoldable mutual
  pub has_await : Node → Bool
  has_await (node k cs) = is_await k || any_await cs

  pub any_await : Nodes → Bool
  any_await nil = false
  any_await (cons n ns) = has_await n || any_await ns

-- `_find_awaits`
unfoldable mutual
  pub find_awaits : Node → List Node
  find_awaits (node await cs) = node await cs ∷ []
  find_awaits (node k cs) = find_awaits_in cs

  pub find_awaits_in : Nodes → List Node
  find_awaits_in nil = []
  find_awaits_in (cons n ns) = find_awaits n ++ find_awaits_in ns

-- `_collect_awaits`
abbrev tagged : ℕ → List Node → List (ℕ × Node)
tagged i [] = []
tagged i (a ∷ rest) = (i, a) ∷ tagged i rest

unfoldable pub collect_awaits_from : ℕ → List Node → List (ℕ × Node)
unfolding find_awaits find_awaits_in
collect_awaits_from i [] = []
collect_awaits_from i (s ∷ ss) = tagged i (find_awaits s) ++ collect_awaits_from (i + 1) ss

-- The name of the function that a call names, and of the method of an attribute.
abbrev pub func_name : Option Node → Option ℕ
func_name none = none
func_name (some (node (attribute attr) cs)) = some attr
func_name (some (node (ref_local name) cs)) = some name
func_name (some (node (ref_unresolved name) cs)) = some name
func_name (some _) = none

abbrev pub to_list {ℓ} : {A : Type ℓ} → Option A → List A
to_list none = []
to_list (some a) = a ∷ []

abbrev pub own_call : Kind → Nodes → List ℕ
own_call call cs = to_list (func_name (nth cs 0))
own_call _ cs = []

-- `_collect_calls`: a set is the list of what is added to it.
unfoldable mutual
  pub collect_calls : Node → List ℕ
  collect_calls (node k cs) = own_call k cs ++ collect_calls_in cs

  pub collect_calls_in : Nodes → List ℕ
  collect_calls_in nil = []
  collect_calls_in (cons n ns) = collect_calls n ++ collect_calls_in ns

-- `_called_names`
unfoldable pub called_names : List Node → List ℕ
unfolding collect_calls
called_names [] = []
called_names (s ∷ ss) = collect_calls s ++ called_names ss

abbrev pub local_name : Kind → List ℕ
local_name (ref_local name) = name ∷ []
local_name _ = []

abbrev pub node_local : Option Node → List ℕ
node_local none = []
node_local (some n) = local_name (kind n)

-- `_assigns_in_stmts`: the second branch of the source is behind a test that the first one makes.
abbrev pub stmt_assigns : Node → List ℕ
stmt_assigns (node (assign targets) cs) = node_local (nth cs 0)
stmt_assigns (node (ann_assign ir_type) cs) = node_local (nth cs 0)
stmt_assigns _ = []

unfoldable pub assigns_in_stmts : List Node → List ℕ
assigns_in_stmts [] = []
assigns_in_stmts (s ∷ ss) = stmt_assigns s ++ assigns_in_stmts ss

-- `_collect_refs`
unfoldable mutual
  pub collect_refs : Node → List ℕ
  collect_refs (node k cs) = local_name k ++ collect_refs_in cs

  pub collect_refs_in : Nodes → List ℕ
  collect_refs_in nil = []
  collect_refs_in (cons n ns) = collect_refs n ++ collect_refs_in ns

-- `_refs_in_stmts`
unfoldable pub refs_in_stmts : List Node → List ℕ
unfolding collect_refs
refs_in_stmts [] = []
refs_in_stmts (s ∷ ss) = collect_refs s ++ refs_in_stmts ss

-- `any(_has_await(stmt) for stmt in body)`
unfoldable pub body_awaits : List Node → Bool
unfolding has_await
body_awaits [] = false
body_awaits (s ∷ ss) = has_await s || body_awaits ss

-- `bool(xs)`
abbrev pub is_some_list {ℓ} : {A : Type ℓ} → List A → Bool
is_some_list [] = false
is_some_list (x ∷ xs) = true

is_some_list-append :
    {A : Type 0} (xs ys : List A) → is_some_list (xs ++ ys) ≡ is_some_list xs || is_some_list ys
is_some_list-append [] ys = refl
is_some_list-append (x ∷ xs) ys = refl

-- The search finds an await exactly where the test does.
mutual
  unfolding find_awaits find_awaits_in has_await any_await

  pub is_some-find_awaits : (n : Node) → is_some_list (find_awaits n) ≡ has_await n
  is_some-find_awaits (node await cs) = refl
  is_some-find_awaits (node call cs) = is_some-find_awaits_in cs
  is_some-find_awaits (node (attribute attr) cs) = is_some-find_awaits_in cs
  is_some-find_awaits (node (ref_local name) cs) = is_some-find_awaits_in cs
  is_some-find_awaits (node (ref_unresolved name) cs) = is_some-find_awaits_in cs
  is_some-find_awaits (node (completion_await result_type) cs) = is_some-find_awaits_in cs
  is_some-find_awaits (node queue_get cs) = is_some-find_awaits_in cs
  is_some-find_awaits (node (assign targets) cs) = is_some-find_awaits_in cs
  is_some-find_awaits (node aug_assign cs) = is_some-find_awaits_in cs
  is_some-find_awaits (node (ann_assign ir_type) cs) = is_some-find_awaits_in cs
  is_some-find_awaits (node other cs) = is_some-find_awaits_in cs

  pub is_some-find_awaits_in : (ns : Nodes) → is_some_list (find_awaits_in ns) ≡ any_await ns
  is_some-find_awaits_in nil = refl
  is_some-find_awaits_in (cons n ns) = rw (
    is_some_list-append (find_awaits n) (find_awaits_in ns),
    is_some-find_awaits n,
    is_some-find_awaits_in ns,
  )
