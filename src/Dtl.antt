-- ===== src/Dtl.antt =====
-- The transports of dyad/dtl/.
pub mod Flux
pub mod EpCache
pub mod Ucx
