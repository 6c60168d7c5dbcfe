-- ===== src/Rtl.antt =====
-- passes/rtl: the passes of the RTL path.
pub mod CombOrder
pub mod Waits
pub mod NextState
pub mod Classify
pub mod ExprLower
pub mod Types
