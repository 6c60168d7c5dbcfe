-- ===== src/Scenario.antt =====
-- scenario: the PSS-to-C path.
pub mod Constraint
