-- ===== src/Vault2/Vault/Laws.antt =====
-- What vault.rs relies on of names.rs, for the keys of a vault.
use desktop_folder_locker.Common.{◌≡◌, true, false, []}
use desktop_folder_locker.Common.Text.{Text}
use desktop_folder_locker.Vault2.Error.{ok}
use desktop_folder_locker.Vault2.Names.Defs.{is_utf8, is_internal_entry, is_long_entry, starts_with}
use desktop_folder_locker.Vault2.Vault.Folders.{NameCalls, temp_prefix}
use desktop_folder_locker.Vault2.Vault.Walk.{IsName}

pub record NamesAreLawful (calls : NameCalls) : Type 0 where
  pub decrypts :
      (iv name encoded : Text)
      → IsName name
      → calls.encrypt_name iv name ≡ ok encoded
      → calls.decrypt_name iv encoded ≡ ok name
  -- A stored name is no bookkeeping file and no temporary item.
  pub plain :
      (iv name encoded : Text)
      → calls.encrypt_name iv name ≡ ok encoded
      → is_internal_entry (calls.entry_name encoded) ≡ false
  pub lasting :
      (iv name encoded : Text)
      → calls.encrypt_name iv name ≡ ok encoded
      → starts_with temp_prefix (calls.entry_name encoded) ≡ false
  pub short :
      (iv name encoded : Text)
      → calls.encrypt_name iv name ≡ ok encoded
      → is_long_entry (calls.entry_name encoded) ≡ false
      → calls.entry_name encoded ≡ encoded
  pub utf8 :
      (iv name encoded : Text)
      → IsName name
      → calls.encrypt_name iv name ≡ ok encoded
      → is_utf8 [] encoded ≡ true
  -- No two encrypted names have the same digest.
  pub apart :
      (iv name encoded name' encoded' : Text)
      → IsName name
      → IsName name'
      → calls.encrypt_name iv name ≡ ok encoded
      → calls.encrypt_name iv name' ≡ ok encoded'
      → calls.entry_name encoded ≡ calls.entry_name encoded'
      → encoded ≡ encoded'
