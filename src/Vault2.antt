-- ===== src/Vault2.antt =====
-- The vault format, native/vault2/src: one child for each part of it.
pub mod Error
pub mod Crypto
pub mod Keys
pub mod Content
pub mod Names
pub mod Platform
pub mod Vault
pub mod Tree
