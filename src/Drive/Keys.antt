-- ===== src/Drive/Keys.antt =====
-- `VaultHeader::keys` of native/drive/src/header.rs: the data key of a request. Base64 comes from
-- a library and is a parameter, like the key derivation's HKDF.
use desktop_folder_locker.Common.{
  ℕ, Option, some, none, [], ◌∷◌, Bool, ◌&&◌, ◌||◌, ◌==◌, leb, if◌then◌else◌, length,
}
use desktop_folder_locker.Common.Text.{Text, is_empty}
use desktop_folder_locker.Vault2.Crypto.{Bytes}
use desktop_folder_locker.Vault2.Keys.{VaultKeys, key_len, derive}
use desktop_folder_locker.Drive.Protocol.{Reply, done, failure}
use desktop_folder_locker.Drive.Header.{VaultHeader}

-- `char::is_whitespace`
abbrev pub is_whitespace : ℕ → Bool
is_whitespace c =
    c == 32
    || leb 9 c && leb c 13
    || c == 133
    || c == 160
    || c == 5760
    || leb 8192 c && leb c 8202
    || c == 8232
    || c == 8233
    || c == 8239
    || c == 8287
    || c == 12288

-- `str::trim`
unfoldable pub trim_end : Text → Text
trim_end [] = []
trim_end (c ∷ t) =
    let rest = trim_end t in if is_whitespace c && is_empty rest then [] else c ∷ rest

unfoldable pub trim : Text → Text
trim [] = []
trim (c ∷ t) = let rest = trim t in if is_whitespace c then rest else trim_end (c ∷ t)

-- The answer for what the text decodes to.
unfoldable pub derive_decoded :
    (Bytes → Bytes → Bytes → ℕ → Bytes) → VaultHeader → Option Bytes → Reply VaultKeys
derive_decoded expand header none = failure "badRequest" "The key is not valid base64"
derive_decoded expand header (some data_key) =
    if length data_key == key_len
    then done (derive expand data_key header.vault_id)
    else failure "badRequest" "The key must be 32 bytes"

-- `VaultHeader::keys`
unfoldable pub keys :
    (Bytes → Bytes → Bytes → ℕ → Bytes)
    → (Text → Option Bytes)
    → VaultHeader
    → Text
    → Reply VaultKeys
keys expand decode header key = derive_decoded expand header (decode (trim key))
