-- ===== src/Client.antt =====
-- dyad/client/dyad_client.c.
pub mod Store
pub mod Consume
pub mod ConsumeWMetadata
pub mod ConsumeRange
pub mod PathKey
pub mod Metadata
pub mod Commit
pub mod GetData
