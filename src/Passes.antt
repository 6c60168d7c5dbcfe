-- ===== src/Passes.antt =====
-- src/zuspec/be/sw/passes: the passes over the whole model.
pub mod AsyncLower
pub mod WaitPoints
pub mod Elaborate
pub mod Devirtualize
pub mod Scheduling
pub mod TypeLower
