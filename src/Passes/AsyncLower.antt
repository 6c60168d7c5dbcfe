-- ===== src/Passes/AsyncLower.antt =====
-- src/zuspec/be/sw/passes/async_lower.py: which async functions become plain C functions, and the
-- coroutine frames of the others.
pub mod Nodes
pub mod Classify
mod Ranks
mod Fixpoint
pub mod Classified
pub mod Suspend
pub mod Frames
pub mod Lowering
pub mod Lowered
pub mod Splitting
pub mod Liveness
pub mod Assigned
pub mod Live
mod Tests
