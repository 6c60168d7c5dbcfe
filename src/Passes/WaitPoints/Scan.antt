-- ===== src/Passes/WaitPoints/Scan.antt =====
-- src/zuspec/be/sw/passes/wait_point_analysis.py: `WaitPointAnalysisPass`.
use zuspec_be_sw.Prelude.{
  ℕ, zero, suc, ◌+◌, ◌-◌, ◌*◌, ◌^◌, min, max, Bool, true, false, not, ◌&&◌, ◌||◌, Option, none,
  some, List, [], ◌∷◌, ◌++◌, ◌==◌, if◌then◌else◌, length,
}
use zuspec_be_sw.Passes.WaitPoints.Syntax.{
  Expr, await, call, attribute, ref_name, self_ref, constant, node, Exprs, nil, cons, Stmt,
  expr_stmt, assign, if_stmt, loop, return_stmt, other_stmt, Stmts, done, seq, Func, wait_ps_name,
  wait_ns_name, wait_us_name, wait_ms_name, ns_name, us_name, ps_name, self_name,
}

-- `UNBOUNDED`: `sys.maxsize`.
abbrev pub unbounded : ℕ
unbounded = 2 ^ 63 - 1

-- `MethodLatency`, and the triple that the scans return.
pub record Latency : Type 0 where
  pub min_ps : ℕ
  pub max_ps : ℕ
  pub has_wait : Bool

abbrev pub latency : ℕ → ℕ → Bool → Latency
latency lo hi w = record { min_ps = lo; max_ps = hi; has_wait = w }

abbrev pub no_wait : Latency
no_wait = latency 0 0 false

-- `_call_name_from_expr`: a dotted name is the list of its parts.
abbrev pub extend : Option (List ℕ) → ℕ → List ℕ
extend none attr = attr ∷ []
extend (some base) attr = base ++ (attr ∷ [])

unfoldable pub call_name_from_expr : Expr → Option (List ℕ)
call_name_from_expr (attribute value attr) = some (extend (call_name_from_expr value) attr)
call_name_from_expr (ref_name name) = some (name ∷ [])
call_name_from_expr self_ref = some (self_name ∷ [])
call_name_from_expr _ = none

-- `_call_name`, at `call.func`.
unfoldable pub call_name : Expr → Option (List ℕ)
unfolding call_name_from_expr
call_name (attribute value attr) = some (extend (call_name_from_expr value) attr)
call_name (ref_name name) = some (name ∷ [])
call_name _ = none

-- `name.split(".")[-1]`
unfoldable pub last_part : List ℕ → Option ℕ
last_part [] = none
last_part (n ∷ []) = some n
last_part (n ∷ m ∷ ns) = last_part (m ∷ ns)

abbrev pub bare_name : Option (List ℕ) → Option ℕ
bare_name none = none
bare_name (some parts) = last_part parts

-- `_literal_int`
unfoldable mutual
  pub literal_int : Expr → Option ℕ
  literal_int (constant value) = value
  literal_int (call func args) = literal_first args
  literal_int (await e) = none
  literal_int (attribute value attr) = none
  literal_int (ref_name name) = none
  literal_int self_ref = none
  literal_int (node under) = none

  pub literal_first : Exprs → Option ℕ
  literal_first nil = none
  literal_first (cons e es) = literal_int e

-- The table of `_extract_wait_ps`; `wait` and `wait_cycles` are among the names that it does not
-- know.
unfoldable pub wait_table : ℕ → ℕ → Option ℕ
wait_table n v =
    if n == wait_ps_name
    then some v
    else if n == wait_ns_name
    then some (v * 1000)
    else if n == wait_us_name
    then some (v * 1000000)
    else if n == wait_ms_name
    then some (v * 1000000000)
    else if n == ns_name
    then some (v * 1000)
    else if n == us_name
    then some (v * 1000000)
    else if n == ps_name
    then some v
    else none

-- `_extract_wait_ps`
unfoldable pub extract_wait_ps : Option ℕ → Option ℕ → Option ℕ
unfolding wait_table
extract_wait_ps (some n) (some v) = wait_table n v
extract_wait_ps _ _ = none

-- `_find_method`
unfoldable pub find_method : List Func → Option ℕ → Option Func
find_method fs none = none
find_method [] (some n) = none
find_method (f ∷ fs) (some n) = if f.name == n then some f else find_method fs (some n)

abbrev pub fixed_or : Option ℕ → Latency → Latency
fixed_or none r = r
fixed_or (some ps) r = latency ps ps true

abbrev pub or_later : Latency → Latency → Latency
or_later r s = if r.has_wait then r else s

-- The totals of `_scan_stmts`.
abbrev pub add_latency : Latency → Latency → Latency
add_latency t s =
    latency (t.min_ps + s.min_ps)
      (if (t.max_ps == unbounded) || (s.max_ps == unbounded)
        then unbounded
        else t.max_ps + s.max_ps)
      (t.has_wait || s.has_wait)

abbrev pub is_empty : Stmts → Bool
is_empty done = true
is_empty (seq s ss) = false

abbrev pub join_if : Bool → Bool → Latency → Latency → Latency
join_if no_body no_orelse t e =
    let w = t.has_wait || e.has_wait in
    if no_body
    then latency e.min_ps e.max_ps w
    else if no_orelse
    then latency 0 t.max_ps w
    else latency (min t.min_ps e.min_ps) (max t.max_ps e.max_ps) w

abbrev pub join_loop : Latency → Latency
join_loop b = if b.has_wait then latency 0 unbounded true else no_wait

-- `starts_wait` tells the names that start with "wait".
module _ (starts_wait : ℕ → Bool) where
  -- `func_name.startswith("self.wait")`
  abbrev pub is_self_wait : Option (List ℕ) → Bool
  is_self_wait (some (a ∷ b ∷ parts)) = (a == self_name) && starts_wait b
  is_self_wait _ = false

  -- The method that `_scan_await` looks into, by its name.
  unfoldable pub callee : List Func → Option (List ℕ) → Option Func
  unfolding find_method last_part
  callee methods name = if is_self_wait name then none else find_method methods (bare_name name)

  -- The scans, where `rec` is `_analyze` at the methods that are called.
  module _ (methods : List Func) (rec : Func → Latency) where
    abbrev pub scan_callee : Option Func → Latency
    scan_callee none = latency 0 unbounded true
    scan_callee (some f) = rec f

    -- `_scan_await`
    unfoldable pub scan_await : Expr → Latency
    unfolding call_name last_part literal_int literal_first extract_wait_ps callee
    scan_await (call func args) =
        fixed_or (extract_wait_ps (bare_name (call_name func)) (literal_first args))
          (scan_callee (callee methods (call_name func)))
    scan_await _ = latency 0 0 true

    -- `_scan_expr`
    unfoldable mutual
      unfolding scan_await

      pub scan_expr : Expr → Latency
      scan_expr (await value) = scan_await value
      scan_expr (call func args) = or_later (scan_expr func) (scan_exprs args)
      scan_expr (attribute value attr) = or_later (scan_expr value) no_wait
      scan_expr (ref_name name) = no_wait
      scan_expr self_ref = no_wait
      scan_expr (constant value) = no_wait
      scan_expr (node under) = scan_exprs under

      pub scan_exprs : Exprs → Latency
      scan_exprs nil = no_wait
      scan_exprs (cons e es) = or_later (scan_expr e) (scan_exprs es)

    -- `_scan_stmt` and `_scan_stmts`, with the totals so far.
    unfoldable mutual
      unfolding scan_expr

      pub scan_stmt : Stmt → Latency
      scan_stmt (expr_stmt e) = scan_expr e
      scan_stmt (assign targets value) = scan_expr value
      scan_stmt (if_stmt test body orelse) =
          join_if (is_empty body) (is_empty orelse) (scan_stmts body no_wait)
            (scan_stmts orelse no_wait)
      scan_stmt (loop test body) = join_loop (scan_stmts body no_wait)
      scan_stmt (return_stmt value) = no_wait
      scan_stmt (other_stmt exprs stmts) = no_wait

      pub scan_stmts : Stmts → Latency → Latency
      scan_stmts done total = total
      scan_stmts (seq s ss) total = scan_stmts ss (add_latency total (scan_stmt s))

  unfoldable pub visited_name : ℕ → List ℕ → Bool
  visited_name n [] = false
  visited_name n (m ∷ ms) = n == m || visited_name n ms

  -- `_analyze`: `visited` holds the names of the methods on the way here. The fuel is for the
  -- methods that are not on the way yet.
  unfoldable pub analyze : List Func → ℕ → List ℕ → Func → Latency
  unfolding scan_stmts visited_name
  analyze methods zero visited f = latency 0 unbounded true
  analyze methods (suc fuel) visited f =
      if visited_name f.name visited
      then latency 0 unbounded true
      else scan_stmts methods (analyze methods fuel (f.name ∷ visited)) f.body no_wait

  -- `run` on one component, with `ctxt.method_latencies`.
  abbrev pub Latencies : Type 0
  Latencies = List ((ℕ × ℕ) × Latency)

  unfoldable pub has_latency : ℕ → ℕ → Latencies → Bool
  has_latency t n [] = false
  has_latency t n (p ∷ ps) = ((t == p.0.0) && (n == p.0.1)) || has_latency t n ps

  unfoldable pub run_functions : ℕ → List Func → List Func → Latencies → Latencies
  unfolding analyze has_latency
  run_functions type_name methods [] out = out
  run_functions type_name methods (f ∷ fs) out = run_functions type_name methods fs (
      if not f.is_async || has_latency type_name f.name out
      then out
      else out ++ (((type_name, f.name), analyze methods (suc (length methods)) [] f) ∷ []))

  -- `run`: the components with their methods.
  unfoldable pub run : List (ℕ × List Func) → Latencies → Latencies
  unfolding run_functions
  run [] out = out
  run (t ∷ ts) out = run ts (run_functions t.0 t.1 t.1 out)
