-- ===== src/Drive/Drives.antt =====
-- native/drive/src/drives/windows.rs: the table of mounted vaults, and what follows for the vaults
-- that are open and the drives that the app is told of.
pub mod Mounts
pub mod Mounting
pub mod Waits
pub mod Unmounting
pub mod Views
pub mod Changed
pub mod Answers
pub mod Counted
pub mod Counts
pub mod Held
pub mod Exclusive
mod Examples
