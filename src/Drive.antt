-- ===== src/Drive.antt =====
-- native/drive: the helper that mounts vaults for the app.
pub mod Protocol
pub mod Header
pub mod Keys
pub mod Letters
pub mod Drives
pub mod Jobs
pub mod Flags
pub mod Cancelling
pub mod Stopping
pub mod Helper
pub mod Early
pub mod Handler
mod Examples
