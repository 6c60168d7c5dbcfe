-- ===== src/Scenario/Constraint.antt =====
-- src/zuspec/be/sw/scenario/constraint_c.py: constraints to builder calls of the solver.
pub mod Builder
pub mod Syntax
pub mod Emitter
pub mod Items
pub mod Solver
pub mod Meaning
pub mod Computes
pub mod Parts
pub mod Expressions
pub mod Judges
pub mod Sound
pub mod Correct
pub mod Says
pub mod Program
pub mod Said
pub mod Slices
pub mod Comparisons
mod Tests
