-- ===== src/Vault2/Crypto.antt =====
-- The crates that the vault's code calls and that are not part of the repository. `Defs` has them
-- as a parameter with its laws, `Toy` a cipher that meets the laws.
mod Defs
pub mod Toy
pub use Defs.*
