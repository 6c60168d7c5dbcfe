-- ===== src/Rtl/Waits.antt =====
-- src/zuspec/be/sw/passes/rtl/wait_lower.py and counter_recognition.py: the waits of the processes
-- of an RTL component.
pub mod CExpr
pub mod Counters
pub mod Lower
pub mod Jumps
pub mod Warnings
mod Tests
