-- ===== src/Passes/Elaborate.antt =====
-- src/zuspec/be/sw/passes/elaborate.py: the instances of the components and their connections.
pub mod Syntax
pub mod Instances
pub mod Paths
pub mod Indexed
pub mod Model
mod Tops
pub mod Binds
mod Decoded
pub mod Complete
mod Tests
