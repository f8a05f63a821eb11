-- ===== src/Vault2/Names/Defs.antt =====
-- The functions of names.rs. A name is its bytes in UTF-8; `fold` alone works on characters. The
-- cipher is that of file contents, whose stored form is the ciphertext and then the tag. Keyed
-- hashes (BLAKE2b) and base64 come from libraries and are parameters.
use desktop_folder_locker.Common.{
  ℕ, ◌+◌, ◌-◌, ◌*◌, ◌/◌, ◌≡◌, Option, some, none, List, [], ◌∷◌, ◌++◌, Bool, true, false, not, ◌&&◌,
  ◌||◌, ◌==◌, leb, eq_bytes, if◌then◌else◌, length, take, drop,
}
use desktop_folder_locker.Common.Text.{Text, codes, any, ends_with}
use desktop_folder_locker.Vault2.Error.{Result, ok, err, Error, corrupt}
use desktop_folder_locker.Vault2.Crypto.{Bytes, Crypto}

-- The library functions: `Blake2bMac<U24>` with a key, `Blake2b<U20>`, and base64 with the
-- alphabet that is safe in URLs, without padding.
pub record Hashes : Type 0 where
  pub mac : Bytes → Bytes → Bytes
  pub digest : Bytes → Bytes
  pub encode : Bytes → Text
  pub decode : Text → Option Bytes

pub record HashesAreLawful (h : Hashes) : Type 0 where
  pub length-mac : (key text : Bytes) → length (h.mac key text) ≡ 24
  pub length-digest : (text : Bytes) → length (h.digest text) ≡ 20
  pub decode-encode : (raw : Bytes) → h.decode (h.encode raw) ≡ some raw
  -- Four characters for three bytes, and as many as are needed for the last one or two.
  pub length-encode : (raw : Bytes) → length (h.encode raw) ≡ (4 * length raw + 2) / 3
  pub plain : (raw : Bytes) → any (λ c. c == b'.') (h.encode raw) ≡ false

-- `VaultKeys`: the keys that names use.
pub record Keys : Type 0 where
  pub names : Bytes
  pub name_iv : Bytes

abbrev pub dir_iv_file : Text
dir_iv_file = codes "dir.iv"

abbrev pub max_encoded_len : ℕ
max_encoded_len = 175

abbrev pub sidecar_suffix : Text
sidecar_suffix = codes ".name"

abbrev pub key_check_file : Text
key_check_file = codes "key.check"

abbrev pub siv_len : ℕ
siv_len = 24

abbrev pub tag_len : ℕ
tag_len = 16

abbrev pub long_entry_len : ℕ
long_entry_len = 28

unfoldable pub check_name : Bytes → Result (Unit {0})
check_name name =
    if eq_bytes name []
      || (eq_bytes name (codes ".")
          || (eq_bytes name (codes "..") || any (λ c. c == b'\\' || (c == b'/' || c == 0)) name))
    then err Error.invalid_name
    else ok tt

-- The ranges of the bytes that follow a first byte in UTF-8.
abbrev pub utf8_tail : ℕ → Option (List (ℕ × ℕ))
utf8_tail b =
    if leb b 127
    then some []
    else if leb 194 b && leb b 223
    then some ((128, 191) ∷ [])
    else if b == 224
    then some ((160, 191) ∷ (128, 191) ∷ [])
    else if b == 237
    then some ((128, 159) ∷ (128, 191) ∷ [])
    else if leb 225 b && leb b 239
    then some ((128, 191) ∷ (128, 191) ∷ [])
    else if b == 240
    then some ((144, 191) ∷ (128, 191) ∷ (128, 191) ∷ [])
    else if leb 241 b && leb b 243
    then some ((128, 191) ∷ (128, 191) ∷ (128, 191) ∷ [])
    else if b == 244
    then some ((128, 143) ∷ (128, 191) ∷ (128, 191) ∷ [])
    else none

-- Whether `String::from_utf8` accepts the bytes, of which the first must be in the given ranges.
unfoldable pub is_utf8 : List (ℕ × ℕ) → Bytes → Bool
is_utf8 [] [] = true
is_utf8 (range ∷ ranges) [] = false
is_utf8 ((low, high) ∷ ranges) (b ∷ bytes) = (leb low b && leb b high) && is_utf8 ranges bytes
is_utf8 [] (b ∷ bytes) = elim (utf8_tail b) [ none ↦ false | some ranges ↦ is_utf8 ranges bytes ]

-- The uppercase of a character, if it is a single one, or else the character.
abbrev pub upper_of : List ℕ → ℕ → ℕ
upper_of [] c = c
upper_of (u ∷ []) c = u
upper_of (u ∷ v ∷ rest) c = c

unfoldable pub fold : (ℕ → List ℕ) → Text → Text
fold to_uppercase [] = []
fold to_uppercase (c ∷ name) = upper_of (to_uppercase c) c ∷ fold to_uppercase name

abbrev pub starts_with : ℕ → Text → Bool
starts_with c [] = false
starts_with c (d ∷ t) = d == c

unfoldable pub is_long_entry : Text → Bool
is_long_entry entry = length entry == long_entry_len && starts_with b'L' entry

unfoldable pub sidecar_name : Text → Text
sidecar_name entry = entry ++ sidecar_suffix

unfoldable pub is_internal_entry : Text → Bool
is_internal_entry entry =
    eq_bytes entry dir_iv_file || (eq_bytes entry key_check_file || ends_with sidecar_suffix entry)

module _ (c : Crypto) (h : Hashes) where
  unfoldable pub synthetic_iv : Keys → Bytes → Bytes → Bytes
  synthetic_iv keys dir_iv name = h.mac keys.name_iv (dir_iv ++ name)

  unfoldable pub encrypt_name : Keys → Bytes → Bytes → Result Text
  encrypt_name keys dir_iv name = elim (check_name name) [
    | err e ↦ err e
    | ok _ ↦
        let siv = synthetic_iv keys dir_iv name in
        elim (c.encrypt keys.names siv dir_iv name) [
          | none ↦ err (corrupt "could not encrypt a name")
          | some (body, tag) ↦ ok (h.encode (siv ++ (body ++ tag)))
        ]
  ]

  -- `cipher.decrypt` of a ciphertext with its tag.
  unfoldable pub decrypt_sealed : Bytes → Bytes → Bytes → Bytes → Option Bytes
  decrypt_sealed key nonce aad sealed =
      let body_len = length sealed - tag_len in
      c.decrypt key nonce aad (take body_len sealed) (drop body_len sealed)

  unfoldable pub decrypt_name : Keys → Bytes → Text → Result Bytes
  decrypt_name keys dir_iv encoded = elim (h.decode encoded) [
    | none ↦ err (corrupt "invalid stored name")
    | some raw ↦
        let siv = take siv_len raw in
        if leb (length raw) (siv_len + tag_len)
        then err (corrupt "stored name is too short")
        else elim (decrypt_sealed keys.names siv dir_iv (drop siv_len raw)) [
          | none ↦ err (corrupt "a name was changed or moved")
          | some plain ↦
              if not (eq_bytes (synthetic_iv keys dir_iv plain) siv)
              then err (corrupt "a name was changed")
              else if is_utf8 [] plain
              then ok plain
              else err (corrupt "invalid name")
        ]
  ]

  unfoldable pub entry_name : Text → Text
  entry_name encoded =
      if leb (length encoded) max_encoded_len then encoded else b'L' ∷ h.encode (h.digest encoded)
