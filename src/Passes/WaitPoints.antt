-- ===== src/Passes/WaitPoints.antt =====
-- src/zuspec/be/sw/passes/wait_point_analysis.py: bounds on the time that a method waits.
pub mod Syntax
pub mod Scan
pub mod Takes
pub mod Bounds
pub mod Awaited
pub mod Sound
pub mod Fuel
mod Tests
