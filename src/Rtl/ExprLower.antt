-- ===== src/Rtl/ExprLower.antt =====
-- src/zuspec/be/sw/passes/rtl/expr_lower.py: `ExprLower`, from nodes of the IR to C.
pub mod Syntax
pub mod CCode
pub mod Texts
pub mod Lower
pub mod Source
pub mod Operators
pub mod Slices
pub mod Truths
pub mod Parts
pub mod Correct
pub mod Statements
pub mod Declared
pub mod Locals
pub mod Targets
pub mod Writes
mod Tests
