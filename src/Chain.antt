-- ===== src/Chain.antt =====
-- The chain client's own logic: which errors are transient, and the retry loop
-- (crates/chain/src/error.rs, crates/chain/src/retry.rs), and the REST client (crates/chain/src/rest.rs).
pub mod Error
pub mod Retry
pub mod Rest
