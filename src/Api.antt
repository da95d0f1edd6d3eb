-- ===== src/Api.antt =====
-- crates/api: the listings.
pub mod Listing
pub mod Error
pub mod Auth
pub mod Serialise
pub mod Blocks
pub mod Etherscan
pub mod Served
