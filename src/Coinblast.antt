-- ===== src/Coinblast.antt =====
-- crates/coinblast.
pub mod Handlers
pub mod Orphan
pub mod Worker
