-- ===== src/Vault2/Content.antt =====
-- native/vault2/src/content.rs: encrypted file contents.
pub mod Disk
pub mod Codec
pub mod File
pub mod Lengths
pub mod Blocks
pub mod Holds
pub mod Header
pub mod Grow
pub mod Rewritten
pub mod Grown
pub mod Cut
pub mod Resize
pub mod Loop
pub mod Write
pub mod WrittenBlocks
pub mod Written
pub mod Chunks
pub mod Read
pub mod Joined
pub mod Refused
pub mod Opening
pub mod Tests
pub mod Sample
mod Examples
