-- ===== src/Vault2/Tree.antt =====
-- native/vault2/src/tree.rs: copying folders into and out of a vault, and comparing them.
pub mod Reader
pub mod Copying
pub mod Copied
pub mod Compared
pub mod Exported
pub mod Trip
pub mod Sources
pub mod Walking
pub mod Verifying
pub mod Leaving
pub mod Tally
pub mod Counted
pub mod Cancelled
pub mod Ordered
pub mod Imported
mod Examples
