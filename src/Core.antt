-- ===== src/Core.antt =====
-- The context of dyad/core and the return codes.
pub mod Codes
pub mod Context
pub mod SetPath
pub mod Samples
pub mod Init
