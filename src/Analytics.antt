-- ===== src/Analytics.antt =====
-- crates/analytics: the rows that go to ClickHouse. The row and the push of the sync code stand in
-- Sync.World.
pub mod Flusher
