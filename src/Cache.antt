-- ===== src/Cache.antt =====
-- crates/cache, and the read-through helper of crates/api/src/cached.rs.
pub mod Breaker
pub mod Client
