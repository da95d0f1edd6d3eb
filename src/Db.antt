-- ===== src/Db.antt =====
-- crates/db: the tables, the statements that write them, and the pool that runs them.
pub mod Table
pub mod Extended
pub mod Schema
pub mod Chain
pub mod Meta
pub mod Addresses
pub mod Coinblast
pub mod Session
pub mod Runs
pub mod Integrity
pub mod Growth
