-- ===== src/Vault2/Keys.antt =====
-- native/vault2/src/keys.rs: the keys of an open vault. HKDF-SHA256 comes from a library: the
-- parameter takes the salt, the key, the purpose and the length.
use desktop_folder_locker.Common.{ℕ}
use desktop_folder_locker.Common.Text.{codes}
use desktop_folder_locker.Vault2.Crypto.{Bytes}

abbrev pub key_len : ℕ
key_len = 32

pub record VaultKeys : Type 0 where
  pub content : Bytes
  pub names : Bytes
  pub name_iv : Bytes
  pub check : Bytes

-- `VaultKeys::derive`
unfoldable pub derive : (Bytes → Bytes → Bytes → ℕ → Bytes) → Bytes → Bytes → VaultKeys
derive expand data_key vault_id = record {
  content = expand vault_id data_key (codes "folder-locker/v2/content") key_len;
  names = expand vault_id data_key (codes "folder-locker/v2/names") key_len;
  name_iv = expand vault_id data_key (codes "folder-locker/v2/name-iv") key_len;
  check = expand vault_id data_key (codes "folder-locker/v2/key-check") key_len;
}
