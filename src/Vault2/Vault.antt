-- ===== src/Vault2/Vault.antt =====
-- native/vault2/src/vault.rs: one child for each part of it.
pub mod Paths
pub mod Maps
pub mod Disk
pub mod Folders
pub mod Reading
pub mod Lookup
pub mod Changes
pub mod Creating
pub mod Removing
pub mod Walk
pub mod Agreement
pub mod Ivs
pub mod Found
pub mod Parents
pub mod Laws
pub mod Named
pub mod Added
pub mod Grown
pub mod Exact
pub mod Kept
pub mod Written
pub mod Prepared
pub mod Created
pub mod Refused
pub mod New
mod Toy
mod Runs
mod Proved
mod Stored
pub mod Entered
pub mod Renaming
pub mod Opening
mod Examples
