-- ===== src/Vault2/Names.antt =====
-- native/vault2/src/names.rs: encrypted file and folder names.
pub mod Defs
pub mod Utf8
pub mod Trip
pub mod Entry
mod Base64
pub mod Toy
mod Examples
