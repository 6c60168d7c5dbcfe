-- ===== src/Mmr.antt =====
-- src/zuspec/be/sw/mmr: the C view of the registers.
pub mod CHeader
