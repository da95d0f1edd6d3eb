-- ===== src/Sync.antt =====
-- crates/sync: from the chain to the tables.
pub mod World
pub mod Cursor
pub mod Convert
pub mod TokenDecode
pub mod BlockWriter
pub mod Ingest
pub mod Backfill
pub mod Reorg
pub mod SingleFlight
pub mod Tail
pub mod ContractDetect
