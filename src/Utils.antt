-- ===== src/Utils.antt =====
-- The helper functions of dyad/utils.
pub mod Strings
pub mod Paths
pub mod Directories
pub mod Flock
