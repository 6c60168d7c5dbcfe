-- ===== src/Passes/WaitPoints/Takes.antt =====
-- How long the code takes that src/zuspec/be/sw/passes/wait_point_analysis.py looks at.
use mathlib.Core.List.{Memᴰ}
use zuspec_be_sw.Prelude.{
  ℕ, ◌+◌, ◌*◌, ◌≡◌, ◌⊎◌, Bool, true, false, not, ◌&&◌, ◌||◌, ◌==◌, Option, some, List, [], ◌∷◌, leb,
  if◌then◌else◌,
}
use zuspec_be_sw.Passes.WaitPoints.Syntax.{
  Expr, await, call, attribute, ref_name, self_ref, constant, node, Exprs, nil, cons, Stmt,
  expr_stmt, assign, if_stmt, loop, return_stmt, other_stmt, Stmts, done, seq, Func, wait_ps_name,
  wait_ns_name, wait_us_name, wait_ms_name, ns_name, us_name, ps_name,
}

-- The picoseconds of a wait by its name and its amount.
pub data WaitsFor : ℕ → ℕ → ℕ → Type 0 where
  picoseconds : {n v l : ℕ} → (n ≡ wait_ps_name) ⊎ (n ≡ ps_name) → l ≡ v → WaitsFor n v l
  nanoseconds : {n v l : ℕ} → (n ≡ wait_ns_name) ⊎ (n ≡ ns_name) → l ≡ v * 1000 → WaitsFor n v l
  microseconds :
      {n v l : ℕ} → (n ≡ wait_us_name) ⊎ (n ≡ us_name) → l ≡ v * 1000 * 1000 → WaitsFor n v l
  milliseconds : {n v l : ℕ} → n ≡ wait_ms_name → l ≡ v * 1000 * 1000 * 1000 → WaitsFor n v l

abbrev pub is_wait_name : ℕ → Bool
is_wait_name n =
    (n == wait_ps_name)
    || ((n == ps_name)
        || ((n == wait_ns_name)
            || ((n == ns_name)
                || ((n == wait_us_name) || ((n == us_name) || (n == wait_ms_name))))))

unfoldable pub has_name : ℕ → List Func → Bool
has_name n [] = false
has_name n (f ∷ fs) = f.name == n || has_name n fs

-- A call of a method or a wait of the component itself.
abbrev pub is_own : List Func → Expr → Bool
is_own methods (attribute self_ref n) = is_wait_name n || has_name n methods
is_own methods _ = false

-- The times that an execution may take which leaves no statement out: no return or break, and no
-- exception. `self.wait_ns(5)` and its like take their time, a call of a method of the component
-- what its body takes, and any other awaited call any time.
module _ (methods : List Func) where
  mutual
    pub data ExprTakes : Expr → ℕ → Type 0 where
      awaited : {v : Expr} {l : ℕ} → AwaitTakes v l → ExprTakes (await v) l
      called :
          {f : Expr} {es : Exprs} {a b l : ℕ}
          → ExprTakes f a
          → ExprsTakes es b
          → l ≡ a + b
          → ExprTakes (call f es) l
      selected : {v : Expr} {n l : ℕ} → ExprTakes v l → ExprTakes (attribute v n) l
      named : {n l : ℕ} → l ≡ 0 → ExprTakes (ref_name n) l
      own : {l : ℕ} → l ≡ 0 → ExprTakes self_ref l
      literal : {v : Option ℕ} {l : ℕ} → l ≡ 0 → ExprTakes (constant v) l
      noded : {es : Exprs} {l : ℕ} → ExprsTakes es l → ExprTakes (node es) l

    pub data ExprsTakes : Exprs → ℕ → Type 0 where
      nothing : {l : ℕ} → l ≡ 0 → ExprsTakes nil l
      each :
          {e : Expr} {es : Exprs} {a b l : ℕ}
          → ExprTakes e a
          → ExprsTakes es b
          → l ≡ a + b
          → ExprsTakes (cons e es) l

    pub data AwaitTakes : Expr → ℕ → Type 0 where
      timed :
          {n v : ℕ} {es : Exprs} {l : ℕ}
          → WaitsFor n v l
          → AwaitTakes (call (attribute self_ref n) (cons (constant (some v)) es)) l
      of_method :
          {n : ℕ} {es : Exprs} {m : Func} {l : ℕ}
          → Memᴰ m methods
          → m.name ≡ n
          → StmtsTake m.body l
          → AwaitTakes (call (attribute self_ref n) es) l
      unknown :
          {f : Expr} {es : Exprs} {l : ℕ} → is_own methods f ≡ false → AwaitTakes (call f es) l

    pub data StmtTakes : Stmt → ℕ → Type 0 where
      evaluates : {e : Expr} {l : ℕ} → ExprTakes e l → StmtTakes (expr_stmt e) l
      assigns : {ts : Exprs} {e : Expr} {l : ℕ} → ExprTakes e l → StmtTakes (assign ts e) l
      then_branch : {t : Expr} {b o : Stmts} {l : ℕ} → StmtsTake b l → StmtTakes (if_stmt t b o) l
      else_branch : {t : Expr} {b o : Stmts} {l : ℕ} → StmtsTake o l → StmtTakes (if_stmt t b o) l
      iterates : {t : Expr} {b : Stmts} {l : ℕ} → Repeats b l → StmtTakes (loop t b) l
      passes : {es : Exprs} {ss : Stmts} {l : ℕ} → l ≡ 0 → StmtTakes (other_stmt es ss) l

    pub data StmtsTake : Stmts → ℕ → Type 0 where
      ended : {l : ℕ} → l ≡ 0 → StmtsTake done l
      then_on :
          {s : Stmt} {ss : Stmts} {a b l : ℕ}
          → StmtTakes s a
          → StmtsTake ss b
          → l ≡ a + b
          → StmtsTake (seq s ss) l

    pub data Repeats : Stmts → ℕ → Type 0 where
      stops : {b : Stmts} {l : ℕ} → l ≡ 0 → Repeats b l
      again : {b : Stmts} {x y l : ℕ} → StmtsTake b x → Repeats b y → l ≡ x + y → Repeats b l

abbrev pub is_filled : Stmts → Bool
is_filled done = false
is_filled (seq s ss) = true

abbrev pub has_amount : Exprs → Bool
has_amount (cons (constant (some v)) es) = true
has_amount _ = false

-- A wait of the component has its amount as a constant, and what is not called on the component
-- itself has neither a wait's nor a method's name.
module _ (methods : List Func) where
  abbrev pub is_covered : Expr → Bool
  is_covered (call (attribute self_ref n) es) = not (is_wait_name n) || has_amount es
  is_covered (call (attribute v n) es) = not (is_wait_name n || has_name n methods)
  is_covered (call (ref_name n) es) = not (is_wait_name n || has_name n methods)
  is_covered (call f es) = true
  is_covered _ = false

  -- The awaits of an expression. One that is not covered counts twice.
  unfoldable mutual
    pub awaits : Expr → ℕ
    awaits (await v) = (if is_covered v then 1 else 2) + awaits v
    awaits (call f es) = awaits f + awaits_of es
    awaits (attribute v n) = awaits v
    awaits (ref_name n) = 0
    awaits self_ref = 0
    awaits (constant v) = 0
    awaits (node es) = awaits_of es

    pub awaits_of : Exprs → ℕ
    awaits_of nil = 0
    awaits_of (cons e es) = awaits e + awaits_of es

  -- One await in an expression at most, no empty `if` and no return. Tests and the statements that
  -- the pass does not name take no time in `StmtTakes`.
  unfoldable mutual
    unfolding awaits awaits_of

    pub is_plain : Stmt → Bool
    is_plain (expr_stmt e) = leb (awaits e) 1
    is_plain (assign ts e) = leb (awaits e) 1
    is_plain (if_stmt t b o) = is_filled b && (all_plain b && all_plain o)
    is_plain (loop t b) = all_plain b
    is_plain (return_stmt v) = false
    is_plain (other_stmt es ss) = true

    pub all_plain : Stmts → Bool
    all_plain done = true
    all_plain (seq s ss) = is_plain s && all_plain ss

-- Methods of different names, none of which is a wait's.
pub record AreNamed (methods : List Func) : Type 0 where
  pub unique : (f g : Func) → Memᴰ f methods → Memᴰ g methods → f.name ≡ g.name → f ≡ g
  pub no_wait_name : (f : Func) → Memᴰ f methods → is_wait_name f.name ≡ false
