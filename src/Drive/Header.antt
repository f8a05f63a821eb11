-- ===== src/Drive/Header.antt =====
-- native/drive/src/header.rs: the first 64 bytes of `vault.flk`.
use desktop_folder_locker.Common.{
  ℕ, ◌-◌, ◌%◌, ◌^◌, ◌<◌, ◌≡◌, ◌↔◌, refl, sym, ap, ◌∙◌, ◌∷◌, ◌++◌, Bool, not, ◌||◌, ◌==◌, ==_iff,
  eq_bytes, if◌then◌else◌, length, take, drop, get_or, get_or-drop, arith, to_le_bytes,
  from_le_bytes, from_le_bytes-to_le_bytes, take-append_left, drop-append_left,
}
use desktop_folder_locker.Common.Text.{codes}
use desktop_folder_locker.Vault2.Crypto.{Bytes}
use desktop_folder_locker.Drive.Protocol.{Reply, done, failure}

abbrev pub magic : Bytes
magic = codes "FLKVAULT"

abbrev pub format_version : ℕ
format_version = 2

abbrev pub header_size : ℕ
header_size = 4096

abbrev pub cipher_xchacha20_poly1305 : ℕ
cipher_xchacha20_poly1305 = 1

pub record VaultHeader : Type 0 where
  pub vault_id : Bytes
  pub block_size : ℕ

abbrev pub field : Bytes → ℕ → ℕ → Bytes
field prefix first last = take (last - first) (drop first prefix)

-- `flags & FLAG_DRIVE == 0`, where the flag is the lowest bit.
abbrev pub is_no_drive : ℕ → Bool
is_no_drive flags = flags % 2 == 0

-- `VaultHeader::parse`
unfoldable pub parse : Bytes → Reply VaultHeader
parse prefix =
    if not (eq_bytes (take 8 prefix) magic)
    then failure "notAVault" "This is not a Cloak vault"
    else let version = from_le_bytes (field prefix 8 10) in
      let flags = from_le_bytes (field prefix 10 12) in
      let size = from_le_bytes (field prefix 12 16) in
      if not (version == format_version) || (is_no_drive flags || not (size == header_size))
      then failure "unsupportedVersion"
          "This is not a drive vault, or a newer version of Cloak made it"
      else if not (get_or prefix 36 0 == cipher_xchacha20_poly1305)
      then failure "unsupportedVersion" "Unsupported vault settings"
      else done (record {
        vault_id = field prefix 16 32;
        block_size = from_le_bytes (field prefix 32 36);
      })

-- The layout that the app writes: magic, format version, flags, header size, vault id, block size
-- and cipher, and what follows them.
abbrev pub layout : ℕ → ℕ → ℕ → Bytes → ℕ → ℕ → Bytes → Bytes
layout version flags size vault_id block_size cipher rest =
    magic
    ++ (to_le_bytes 2 version
        ++ (to_le_bytes 2 flags
            ++ (to_le_bytes 4 size ++ (vault_id ++ (to_le_bytes 4 block_size ++ cipher ∷ rest)))))

-- The answer for the fields of a vault's header.
answer : ℕ → ℕ → ℕ → Bytes → ℕ → ℕ → Reply VaultHeader
answer version flags size vault_id block_size cipher =
    if not (version == format_version) || (is_no_drive flags || not (size == header_size))
    then failure "unsupportedVersion"
        "This is not a drive vault, or a newer version of Cloak made it"
    else if not (cipher == cipher_xchacha20_poly1305)
    then failure "unsupportedVersion" "Unsupported vault settings"
    else done (record { vault_id = vault_id; block_size = block_size })

parse_run :
    (prefix : Bytes)
    → take 8 prefix ≡ magic
    → parse prefix
      ≡ answer
          (from_le_bytes (field prefix 8 10))
          (from_le_bytes (field prefix 10 12))
          (from_le_bytes (field prefix 12 16))
          (field prefix 16 32)
          (from_le_bytes (field prefix 32 36))
          (get_or prefix 36 0)
unfolding parse answer
parse_run prefix e = rw (parse, e) refl

answer_done :
    (version flags size : ℕ) (vault_id : Bytes) (block_size cipher : ℕ)
    → (answer version flags size vault_id block_size cipher
        ≡ done (record { vault_id = vault_id; block_size = block_size }))
      ↔ ((version ≡ format_version)
          × (flags % 2 ≡ 1)
          × (size ≡ header_size)
          × (cipher ≡ cipher_xchacha20_poly1305))
unfolding answer
answer_done version flags size vault_id block_size cipher = (
  λ e. ground (
    arith,
    ==_iff version format_version,
    ==_iff (flags % 2) 0,
    ==_iff size header_size,
    ==_iff cipher cipher_xchacha20_poly1305,
  ),
  λ (e1, e2, e3, e4). rw (answer, e1, e2, e3, e4) refl,
)

answer_congr :
    {v v' f f' s s' b b' c c' : ℕ} {i i' : Bytes}
    → v ≡ v'
    → f ≡ f'
    → s ≡ s'
    → i ≡ i'
    → b ≡ b'
    → c ≡ c'
    → answer v f s i b c ≡ answer v' f' s' i' b' c'
answer_congr e1 e2 e3 e4 e5 e6 = cc (e1, e2, e3, e4, e5, e6)

parse_fields :
    (version flags size : ℕ) (vault_id : Bytes) (block_size cipher : ℕ) (rest : Bytes)
    → version < 2 ^ 16
    → flags < 2 ^ 16
    → size < 2 ^ 32
    → length vault_id ≡ 16
    → block_size < 2 ^ 32
    → parse (layout version flags size vault_id block_size cipher rest)
      ≡ answer version flags size vault_id block_size cipher
unfolding to_le_bytes
parse_fields version flags size vault_id block_size cipher rest s1 s2 s3 l s4 =
    let prefix = layout version flags size vault_id block_size cipher rest in
    let after = to_le_bytes 4 block_size ++ cipher ∷ rest in
    let id_is : take 16 (vault_id ++ after) ≡ vault_id =
      ap (λ n. take n (vault_id ++ after)) (sym l) ∙ take-append_left vault_id after in
    let after_is : drop 16 (vault_id ++ after) ≡ after =
      ap (λ n. drop n (vault_id ++ after)) (sym l) ∙ drop-append_left vault_id after in
    let size_is : from_le_bytes (take 4 (drop 16 (vault_id ++ after))) ≡ block_size =
      ap (λ t. from_le_bytes (take 4 t)) after_is ∙ from_le_bytes-to_le_bytes 4 block_size s4 in
    let cipher_is : get_or (vault_id ++ after) 20 0 ≡ cipher =
      sym (get_or-drop 16 (vault_id ++ after) 4 0) ∙ ap (λ t. get_or t 4 0) after_is in
    parse_run prefix refl
    ∙ answer_congr (from_le_bytes-to_le_bytes 2 version s1) (from_le_bytes-to_le_bytes 2 flags s2)
        (from_le_bytes-to_le_bytes 4 size s3) id_is size_is cipher_is

-- The header of a vault is accepted exactly if it has this version, the flag of a drive, this
-- header size and this cipher; then its vault id and block size are read from it.
pub parse-layout :
    (version flags size : ℕ) (vault_id : Bytes) (block_size cipher : ℕ) (rest : Bytes)
    → version < 2 ^ 16
    → flags < 2 ^ 16
    → size < 2 ^ 32
    → length vault_id ≡ 16
    → block_size < 2 ^ 32
    → (parse (layout version flags size vault_id block_size cipher rest)
        ≡ done (record { vault_id = vault_id; block_size = block_size }))
      ↔ ((version ≡ format_version)
          × (flags % 2 ≡ 1)
          × (size ≡ header_size)
          × (cipher ≡ cipher_xchacha20_poly1305))
parse-layout version flags size vault_id block_size cipher rest s1 s2 s3 l s4 =
    rw (parse_fields version flags size vault_id block_size cipher rest s1 s2 s3 l s4)
      (answer_done version flags size vault_id block_size cipher)
