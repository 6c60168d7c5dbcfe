-- ===== src/Passes/AsyncLower/Suspend.antt =====
-- src/zuspec/be/sw/passes/async_lower.py: the suspension point of an await. The classes are those of
-- src/zuspec/be/sw/ir/coroutine.py.
use zuspec_be_sw.Prelude.{ℕ, Bool, true, false, ◌&&◌, ◌||◌, Option, none, some, ◌==◌, if◌then◌else◌}
use zuspec_be_sw.Passes.AsyncLower.Nodes.{
  call, attribute, completion_await, queue_get, Node, node, nth, func_name, children,
}

-- The names that the pass compares with, or gives; every other name is another number. The order
-- of the numbers stands for that of the strings.
abbrev pub wait_name : ℕ
wait_name = 0

abbrev pub delay_name : ℕ
delay_name = 1

abbrev pub get_name : ℕ
get_name = 2

abbrev pub pop_name : ℕ
pop_name = 3

abbrev pub put_name : ℕ
put_name = 4

abbrev pub push_name : ℕ
push_name = 5

abbrev pub lock_name : ℕ
lock_name = 6

abbrev pub completion_name : ℕ
completion_name = 7

abbrev pub queue_name : ℕ
queue_name = 8

-- The subclasses of `SwSuspendPoint` that the pass builds.
pub data SuspendPoint : Type 0 where
  suspend_wait : Option Node → SuspendPoint
  suspend_fifo_pop : Option ℕ → SuspendPoint
  suspend_fifo_push : Option ℕ → Option Node → SuspendPoint
  suspend_mutex : Option ℕ → SuspendPoint
  suspend_completion : ℕ → Option ℕ → SuspendPoint
  suspend_call : Option Node → SuspendPoint

-- `_attr_base_name`
abbrev pub attr_base_name : Option Node → Option ℕ
attr_base_name = func_name

-- `name or default`
abbrev pub or_name : Option ℕ → ℕ → ℕ
or_name none d = d
or_name (some n) d = n

abbrev pub is_named : Option ℕ → ℕ → Bool
is_named none n = false
is_named (some m) n = m == n

-- `isinstance(fn, ir.ExprAttribute)`, and then `fn.value`.
abbrev pub is_attribute : Option Node → Bool
is_attribute (some (node (attribute attr) cs)) = true
is_attribute _ = false

abbrev pub value_of : Option Node → Option Node
value_of none = none
value_of (some (node k cs)) = nth cs 0

-- The call in an await: the call, its function and its first argument.
unfoldable pub classify_call : Node → Option Node → Option Node → SuspendPoint
classify_call inner fn arg =
    let name = func_name fn in
    let method : ℕ → Bool = λ n. is_attribute fn && is_named name n in
    if is_named name wait_name || is_named name delay_name
    then suspend_wait arg
    else if method get_name || method pop_name
    then suspend_fifo_pop (attr_base_name (value_of fn))
    else if method put_name || method push_name
    then suspend_fifo_push (attr_base_name (value_of fn)) arg
    else if method lock_name
    then suspend_mutex (attr_base_name (value_of fn))
    else suspend_call (some inner)

-- `_classify_await`, at the value of the await.
unfoldable pub classify_inner : Option Node → SuspendPoint
unfolding classify_call
classify_inner none = suspend_call none
classify_inner (some (node (completion_await result_type) cs)) =
    suspend_completion (or_name (attr_base_name (nth cs 0)) completion_name) result_type
classify_inner (some (node queue_get cs)) =
    suspend_fifo_pop (some (or_name (attr_base_name (nth cs 0)) queue_name))
classify_inner (some (node call cs)) = classify_call (node call cs) (nth cs 0) (nth cs 1)
classify_inner (some n) = suspend_call (some n)

abbrev pub classify_await : Node → SuspendPoint
classify_await aw = classify_inner (nth (children aw) 0)
