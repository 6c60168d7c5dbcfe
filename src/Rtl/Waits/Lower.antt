-- ===== src/Rtl/Waits/Lower.antt =====
-- src/zuspec/be/sw/passes/rtl/wait_lower.py: `WaitLowerPass`.
use zuspec_be_sw.Prelude.{
  ℕ, zero, suc, ◌+◌, ◌-◌, ◌*◌, Bool, true, false, ◌&&◌, Option, none, some, List, [], ◌∷◌, ◌++◌,
  ◌==◌, ltb, if◌then◌else◌,
}
use zuspec_be_sw.Rtl.Waits.CExpr.{
  CExpr, lit, tick, self_field, raw_field, unknown, add, sub, mul, div, mod_by, ceil_div,
}
use zuspec_be_sw.Rtl.Waits.Counters.{CounterInfo, CounterMap, get}

-- The expressions that the pass tells apart; a constant is no negative number.
mutual
  pub data Expr : Type 0 where
    constant : ℕ → Expr
    ref_field : ℕ → Expr
    ref_unresolved : ℕ → Expr
    attribute : Expr → ℕ → Expr
    call : Expr → Exprs → Expr
    await : Expr → Expr
    other : Expr

  pub data Exprs : Type 0 where
    nil : Exprs
    cons : Expr → Exprs → Exprs

-- The names that the pass compares with; every other name is another number.
abbrev pub wait_cycles_name : ℕ
wait_cycles_name = 0

abbrev pub wait_time_name : ℕ
wait_time_name = 1

abbrev pub wait_for_name : ℕ
wait_for_name = 2

abbrev pub wait_next_name : ℕ
wait_next_name = 3

-- `_UNIT_PS.get(unit_name, 1_000)`: PS, NS, US, MS and S are the names 10 to 14.
abbrev pub unit_ps : ℕ → ℕ
unit_ps n =
    if n == 10
    then 1
    else if n == 12
    then 1000000
    else if n == 13
    then 1000000000
    else if n == 14
    then 1000000000000
    else 1000

-- A warning: the picoseconds asked for, those that are waited, and the clock period.
abbrev pub Warning : Type 0
Warning = ℕ × ℕ × ℕ

pub record LoweredSuspend : Type 0 where
  pub tick_delta_expr : CExpr
  pub is_yield : Bool
  pub is_counter_jump : Bool
  pub warning : Option Warning

abbrev pub plain : CExpr → LoweredSuspend
plain e = record { tick_delta_expr = e; is_yield = false; is_counter_jump = false; warning = none }

-- `_call_name`; the empty name is no number that is compared with.
abbrev pub call_name : Expr → Option ℕ
call_name (attribute value attr) = some attr
call_name (ref_unresolved name) = some name
call_name _ = none

abbrev pub is_name : Option ℕ → ℕ → Bool
is_name none n = false
is_name (some m) n = m == n

-- `_lower_amount`, where the component has `n` fields.
unfoldable mutual
  pub lower_amount : ℕ → Expr → CExpr
  lower_amount n (constant value) = lit value
  lower_amount n (ref_field index) = if ltb index n then self_field index else raw_field index
  lower_amount n (call func args) = lower_first n args
  lower_amount n (ref_unresolved name) = unknown
  lower_amount n (attribute value attr) = unknown
  lower_amount n (await value) = unknown
  lower_amount n other = unknown

  pub lower_first : ℕ → Exprs → CExpr
  lower_first n nil = lit 0
  lower_first n (cons e es) = lower_amount n e

-- The counter value now, `(tick / P) % M`.
abbrev pub current : ℕ → ℕ → CExpr
current M P = mod_by (div tick (lit P)) (lit M)

unfoldable pub jump_next : ℕ → ℕ → CExpr
jump_next M P = mul (sub (lit M) (current M P)) (lit P)

unfoldable pub jump_for : CExpr → ℕ → ℕ → CExpr
jump_for target M P =
    mul (add (mod_by (sub (add (sub target (current M P)) (lit M)) (lit 1)) (lit M)) (lit 1))
      (lit P)

abbrev jump : CExpr → LoweredSuspend
jump e = record { tick_delta_expr = e; is_yield = false; is_counter_jump = true; warning = none }

abbrev lower_jump : ℕ → Bool → Exprs → Option CounterInfo → Option LoweredSuspend
lower_jump n next args none = none
lower_jump n next args (some info) = some (
    jump (
      if next
      then jump_next info.modulus info.period_ps
      else jump_for (lower_first n args) info.modulus info.period_ps))

-- `_try_lower_counter_wait`
unfoldable pub try_lower_counter_wait : ℕ → CounterMap → Bool → Expr → Exprs → Option LoweredSuspend
unfolding get jump_next jump_for lower_amount lower_first
try_lower_counter_wait n counters next (attribute (attribute value field_name) attr) args =
    lower_jump n next args (get field_name counters)
try_lower_counter_wait n counters next _ args = none

-- `_lower_cycles`
unfoldable pub lower_cycles : ℕ → ℕ → Expr → LoweredSuspend
unfolding lower_amount
lower_cycles n period (constant zero) = record {
  tick_delta_expr = lit 0;
  is_yield = true;
  is_counter_jump = false;
  warning = none;
}
lower_cycles n period (constant (suc k)) = plain (lit (suc k * period))
lower_cycles n period amount = plain (mul (lower_amount n amount) (lit period))

-- `upper` is `str.upper`, and `ceil_ratio t p` is `math.ceil(t / p)`, whose quotient is a float.
module _ (upper : ℕ → ℕ) (ceil_ratio : ℕ → ℕ → ℕ) where
  abbrev pub unit_of : Option Expr → ℕ
  unit_of (some (ref_unresolved name)) = unit_ps (upper name)
  unit_of _ = 1000

  -- `t_ps > 0 and abs(actual_ps - t_ps) > t_ps * 0.5`
  abbrev pub is_rough : ℕ → ℕ → Bool
  is_rough t actual = ltb 0 t && ltb t (2 * ((actual - t) + (t - actual)))

  abbrev constant_time : ℕ → ℕ → ℕ → LoweredSuspend
  constant_time period t actual = record {
    tick_delta_expr = lit actual;
    is_yield = false;
    is_counter_jump = false;
    warning = if is_rough t actual then some (t, actual, period) else none;
  }

  -- `_lower_time`: the warning is also appended to `warnings`.
  unfoldable pub lower_time : ℕ → ℕ → Expr → Option Expr → LoweredSuspend
  unfolding lower_amount
  lower_time n period (constant value) unit_arg =
      let t = value * unit_of unit_arg in constant_time period t (ceil_ratio t period * period)
  lower_time n period amount unit_arg = plain (
      mul (ceil_div (mul (lower_amount n amount) (lit (unit_of unit_arg))) (lit period))
        (lit period))

  abbrev second : Exprs → Option Expr
  second (cons e (cons f es)) = some f
  second _ = none

  abbrev with_first : (Expr → LoweredSuspend) → Exprs → Option LoweredSuspend
  with_first lower nil = none
  with_first lower (cons e es) = some (lower e)

  -- `lower_await` for a call that is no wait of a counter. `none` is the error of `call.args[0]` on
  -- a call without arguments.
  unfoldable pub lower_plain : ℕ → ℕ → Option ℕ → Exprs → Option LoweredSuspend
  unfolding lower_cycles lower_time
  lower_plain n period name args =
      if is_name name wait_cycles_name
      then with_first (lower_cycles n period) args
      else if is_name name wait_time_name
      then with_first (λ e. lower_time n period e (second args)) args
      else some (plain (lit period))

  abbrev or_plain : Option LoweredSuspend → Option LoweredSuspend → Option LoweredSuspend
  or_plain none s = s
  or_plain (some t) s = some t

  -- `lower_await`
  unfoldable pub lower_await : ℕ → ℕ → CounterMap → Expr → Exprs → Option LoweredSuspend
  unfolding try_lower_counter_wait lower_plain
  lower_await n period counters func args =
      let name = call_name func in
      let rest = lower_plain n period name args in
      if is_name name wait_for_name
      then or_plain (try_lower_counter_wait n counters false func args) rest
      else if is_name name wait_next_name
      then or_plain (try_lower_counter_wait n counters true func args) rest
      else rest

  -- `warnings.append(warn)`, where there is one.
  abbrev pub appended : Option Warning → List Warning → List Warning
  appended none ws = ws
  appended (some w) ws = ws ++ (w ∷ [])

  -- `lower_await` appends the warning, and `_walk_stmts` appends it once more.
  abbrev pub after_wait : Option LoweredSuspend → List Warning → Option (List Warning)
  after_wait none ws = none
  after_wait (some s) ws = some (appended s.warning (appended s.warning ws))

  unfoldable pub walk_expr : ℕ → ℕ → Option Expr → List Warning → Option (List Warning)
  unfolding lower_await
  walk_expr n period (some (await (call func args))) ws =
      after_wait (lower_await n period [] func args) ws
  walk_expr n period _ ws = some ws

-- A statement by the attributes that `_walk_stmts` reads: `expr`, `body`, `orelse` and `handlers`.
mutual
  pub data Stmt : Type 0 where
    stmt : Option Expr → Stmts → Stmts → Stmts → Stmt

  pub data Stmts : Type 0 where
    none_left : Stmts
    seq : Stmt → Stmts → Stmts

abbrev pub chain :
    Option (List Warning) → (List Warning → Option (List Warning)) → Option (List Warning)
chain none k = none
chain (some ws) k = k ws

module _ (upper : ℕ → ℕ) (ceil_ratio : ℕ → ℕ → ℕ) (n period : ℕ) where
  -- `_walk_stmts`
  unfoldable mutual
    unfolding walk_expr

    pub walk_stmt : Stmt → List Warning → Option (List Warning)
    walk_stmt (stmt e body orelse handlers) ws =
        chain (walk_expr upper ceil_ratio n period e ws) λ ws₁.
          chain (walk_stmts body ws₁)
            λ ws₂. chain (walk_stmts orelse ws₂) λ ws₃. walk_stmts handlers ws₃

    pub walk_stmts : Stmts → List Warning → Option (List Warning)
    walk_stmts none_left ws = some ws
    walk_stmts (seq s ss) ws = chain (walk_stmt s ws) λ ws₁. walk_stmts ss ws₁

  -- `run`, on the bodies of the processes: the warnings that it leaves.
  unfoldable pub lower_processes : List Stmts → List Warning → Option (List Warning)
  unfolding walk_stmts
  lower_processes [] ws = some ws
  lower_processes (body ∷ bodies) ws = chain (walk_stmts body ws) λ ws₁. lower_processes bodies ws₁
