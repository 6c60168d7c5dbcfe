-- ===== src/Crt.antt =====
-- src/zuspec/be/sw/crt: the C runtime that the generated coroutines link with.
pub mod Waiters
pub mod Queue
pub mod Fifo
pub mod Blocking
pub mod Resume
pub mod Completion
pub mod Select
mod Tests
