-- ===== src/Drive/Handler.antt =====
-- native/drive/src/drives/handler.rs: serving a vault to Windows.
pub mod Status
pub mod Files
pub mod Served
pub mod InUse
pub mod Create
pub mod Attributes
pub mod Shown
pub mod Volume
pub mod Named
pub mod Top
mod Runs
mod Examples
