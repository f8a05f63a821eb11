-- ===== src/Shell.antt =====
-- native/shell: what the Explorer plug-in shows for a path.
pub mod State
pub mod Cache
pub mod Owner
pub mod Inside
pub mod Entries
pub mod Quote
pub mod Fresh
pub mod Shown
mod Examples
pub mod Menu
pub mod Badge
