-- ===== src/Rtl/CombOrder.antt =====
-- src/zuspec/be/sw/passes/rtl/comb_order.py: the order of the @comb processes.
-- A Python set of field indices is the list of the indices added to it. An array indexed by
-- process number is a function on numbers.
pub mod Counting
pub mod Building
pub mod Draining
pub mod Sorted
pub mod Reads
pub mod Fields
mod Tests
use zuspec_be_sw.Prelude.{
  ℕ, zero, suc, ◌+◌, ◌-◌, Bool, true, false, not, ◌&&◌, ◌||◌, Option, none, some, List, [], ◌∷◌,
  ◌++◌, map, ◌==◌, if◌then◌else◌, length, get_or, count,
}

-- The expression nodes as `_collect_reads` tells them apart. The third-party node classes enter by
-- the attributes that hold their children: `unary` has `operand`, `call` has `func` and `args`,
-- `subscript` has `value` and `slice`, and `node` is any class whose children all stand under
-- the attributes that the function lists.
mutual
  pub data Expr : Type 0 where
    self_ref : Expr
    ref_field : Expr → ℕ → Expr
    unary : Expr → Expr
    call : Expr → Exprs → Expr
    subscript : Expr → Expr → Expr
    node : Exprs → Expr

  pub data Exprs : Type 0 where
    nil : Exprs
    cons : Expr → Exprs → Exprs

-- The statements as `_collect_stmt_reads_writes` tells them apart. `block` is any other class, by
-- its `body`, `orelse`, `handlers`, `finalbody` and `test`.
mutual
  pub data Stmt : Type 0 where
    assign : Exprs → Expr → Stmt
    aug_assign : Expr → Expr → Stmt
    expr_stmt : Expr → Stmt
    return_stmt : Option Expr → Stmt
    block : Stmts → Stmts → Stmts → Stmts → Option Expr → Stmt

  pub data Stmts : Type 0 where
    done : Stmts
    seq : Stmt → Stmts → Stmts

-- `isinstance(e, ExprRefField) and isinstance(e.base, TypeExprRefSelf)`, then `[e.index]`.
abbrev pub self_field : Expr → List ℕ
self_field (ref_field self_ref i) = i ∷ []
self_field _ = []

unfoldable mutual
  pub collect_reads : Expr → List ℕ
  collect_reads self_ref = []
  collect_reads (ref_field base i) = self_field (ref_field base i) ++ collect_reads base
  collect_reads (unary operand) = []
  collect_reads (call func args) = []
  collect_reads (subscript value slice) = collect_reads value
  collect_reads (node children) = collect_reads_all children

  pub collect_reads_all : Exprs → List ℕ
  collect_reads_all nil = []
  collect_reads_all (cons e es) = collect_reads e ++ collect_reads_all es

abbrev pub collect_reads_opt : Option Expr → List ℕ
collect_reads_opt none = []
collect_reads_opt (some e) = collect_reads e

unfoldable pub target_writes : Exprs → List ℕ
target_writes nil = []
target_writes (cons t ts) = self_field t ++ target_writes ts

unfoldable mutual
  pub stmt_reads : Stmt → List ℕ
  stmt_reads (assign targets value) = collect_reads value
  stmt_reads (aug_assign target value) = self_field target ++ collect_reads value
  stmt_reads (expr_stmt e) = collect_reads e
  stmt_reads (return_stmt value) = collect_reads_opt value
  stmt_reads (block body orelse handlers finalbody test) =
      stmts_reads body
      ++ (stmts_reads orelse
          ++ (stmts_reads handlers ++ (stmts_reads finalbody ++ collect_reads_opt test)))

  pub stmts_reads : Stmts → List ℕ
  stmts_reads done = []
  stmts_reads (seq s ss) = stmt_reads s ++ stmts_reads ss

unfoldable mutual
  pub stmt_writes : Stmt → List ℕ
  stmt_writes (assign targets value) = target_writes targets
  stmt_writes (aug_assign target value) = self_field target
  stmt_writes (expr_stmt e) = []
  stmt_writes (return_stmt value) = []
  stmt_writes (block body orelse handlers finalbody test) =
      stmts_writes body
      ++ (stmts_writes orelse ++ (stmts_writes handlers ++ stmts_writes finalbody))

  pub stmts_writes : Stmts → List ℕ
  stmts_writes done = []
  stmts_writes (seq s ss) = stmt_writes s ++ stmts_writes ss

-- `set(xs) & set(ys)` is not empty.
unfoldable pub intersects : List ℕ → List ℕ → Bool
intersects [] ys = false
intersects (x ∷ xs) ys = not (count x ys == 0) || intersects xs ys

-- A `Function`: `ctx.rtl_component.comb_processes` is a list of these.
pub record Func : Type 0 where
  pub name : ℕ
  pub body : Stmts

abbrev pub empty_func : Func
empty_func = record { name = 0; body = done }

-- `fn_writes[i] & fn_reads[j]` at two different processes.
unfoldable pub depends : List Func → ℕ → ℕ → Bool
unfolding intersects stmts_reads stmts_writes collect_reads collect_reads_all target_writes
depends funcs i j =
    not (i == j)
    && intersects (stmts_writes (get_or funcs i empty_func).body)
        (stmts_reads (get_or funcs j empty_func).body)

-- `range(n)`, from `lo`.
unfoldable pub range_from : ℕ → ℕ → List ℕ
range_from lo zero = []
range_from lo (suc n) = lo ∷ range_from (lo + 1) n

-- `xs[j] = v`, on an array that is a function.
abbrev pub update {ℓ} : {A : Type ℓ} → (ℕ → A) → ℕ → A → ℕ → A
update d j v k = if k == j then v else d k

-- The arrays `adj` and `in_degree`.
pub record Graph : Type 0 where
  pub adj : ℕ → List ℕ
  pub in_degree : ℕ → ℕ

module _ (edge : ℕ → ℕ → Bool) where
  -- `adj[i].append(j); in_degree[j] += 1`
  abbrev pub add_edge : ℕ → ℕ → Graph → Graph
  add_edge i j g = record {
    adj = update g.adj i (g.adj i ++ (j ∷ []));
    in_degree = update g.in_degree j (g.in_degree j + 1);
  }

  -- The loop over `j`, then the loop over `i`.
  unfoldable pub build_row : ℕ → List ℕ → Graph → Graph
  build_row i [] g = g
  build_row i (j ∷ js) g = build_row i js (if edge i j then add_edge i j g else g)

  unfoldable pub build : List ℕ → List ℕ → Graph → Graph
  build [] js g = g
  build (i ∷ is) js g = build is js (build_row i js g)

abbrev pub no_edges : Graph
no_edges = record { adj = λ _. []; in_degree = λ _. 0 }

-- `deque(i for i in range(n) if in_degree[i] == 0)`
unfoldable pub sources : (ℕ → ℕ) → List ℕ → List ℕ
sources deg [] = []
sources deg (i ∷ is) = let rest = sources deg is in if deg i == 0 then i ∷ rest else rest

-- The loop over `adj[i]`: the new queue and the new in-degrees. The decremented degree is 0 where
-- the old one is 1; the subtraction does not meet 0.
unfoldable pub relax : List ℕ → List ℕ → (ℕ → ℕ) → List ℕ × (ℕ → ℕ)
relax [] queue deg = (queue, deg)
relax (j ∷ js) queue deg =
    relax js (if deg j == 1 then queue ++ (j ∷ []) else queue) (update deg j (deg j - 1))

-- The `while queue` loop on fuel. `none` means that the fuel ran out.
unfoldable pub drain : (ℕ → List ℕ) → ℕ → List ℕ → List ℕ → (ℕ → ℕ) → Option (List ℕ)
drain adj fuel [] order deg = some order
drain adj zero (i ∷ queue) order deg = none
drain adj (suc fuel) (i ∷ queue) order deg =
    let next = relax (adj i) queue deg in drain adj fuel next.0 (order ++ (i ∷ [])) next.1

-- What `run` leaves: the order, or `ValueError`. `stuck` is a loop out of fuel.
pub data Outcome : Type 0 where
  sorted : List ℕ → Outcome
  value_error : Outcome
  stuck : Outcome

abbrev pub finish : ℕ → Option (List ℕ) → Outcome
finish n none = stuck
finish n (some order) = if length order == n then sorted order else value_error

-- Kahn's algorithm on `n` processes; each round of the loop removes one process.
unfoldable pub topo_sort : (ℕ → ℕ → Bool) → ℕ → Outcome
unfolding range_from build build_row sources drain relax
topo_sort edge n =
    let all = range_from 0 n in
    let g = build edge all all no_edges in
    finish n (drain g.adj n (sources g.in_degree all) [] g.in_degree)

-- `CombTopoSortPass.run`: the process numbers in the order of `ctx.rtl_comb_order`. With no
-- process the list is empty.
unfoldable pub run : List Func → Outcome
unfolding topo_sort depends
run [] = sorted []
run (f ∷ fs) = topo_sort (depends (f ∷ fs)) (length (f ∷ fs))
