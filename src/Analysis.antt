-- ===== src/Analysis.antt =====
-- src/zuspec/be/sw/async_analyzer.py: which async functions of the components may be made sync.
pub mod Syntax
pub mod Analyzer
pub mod Walks
pub mod Reports
mod Tests
