-- ===== src/Rtl/Waits/CExpr.antt =====
-- The C expressions that src/zuspec/be/sw/passes/rtl/wait_lower.py writes, and their values. All
-- their operands are uint64_t, so that every operation wraps at 2 ^ 64.
use zuspec_be_sw.Prelude.{ℕ, ◌+◌, ◌-◌, ◌*◌, ◌/◌, ◌%◌, ◌^◌}

-- `self_field` is `self-><name>` of a field by its index, `raw_field` the name that is made up for
-- an index that is no field, and `unknown` the text `0 /* unknown */`.
pub data CExpr : Type 0 where
  lit : ℕ → CExpr
  tick : CExpr
  self_field : ℕ → CExpr
  raw_field : ℕ → CExpr
  unknown : CExpr
  add : CExpr → CExpr → CExpr
  sub : CExpr → CExpr → CExpr
  mul : CExpr → CExpr → CExpr
  div : CExpr → CExpr → CExpr
  mod_by : CExpr → CExpr → CExpr
  ceil_div : CExpr → CExpr → CExpr

abbrev pub word : ℕ
word = 2 ^ 64

-- The value at a tick, where a field has the value that its conversion to uint64_t gives. The macro
-- `ZSP_CEIL_DIV(n, d)` is `(n + d - 1u) / d` in share/include/zsp_rtl.h.
module _ (fields : ℕ → ℕ) (now : ℕ) where
  unfoldable pub eval : CExpr → ℕ
  eval (lit n) = n % word
  eval tick = now % word
  eval (self_field i) = fields i % word
  eval (raw_field i) = 0
  eval unknown = 0
  eval (add a b) = (eval a + eval b) % word
  eval (sub a b) = (eval a + (word - eval b)) % word
  eval (mul a b) = (eval a * eval b) % word
  eval (div a b) = eval a / eval b
  eval (mod_by a b) = eval a % eval b
  eval (ceil_div a b) = ((eval a + eval b) % word + (word - 1)) % word / eval b
