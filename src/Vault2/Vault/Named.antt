-- ===== src/Vault2/Vault/Named.antt =====
-- The functions of names.rs with the keys of a vault, as vault.rs calls them, and that they do what
-- vault.rs relies on.
use desktop_folder_locker.Common.{
  ◌⊎◌, drop, suc, Option, ◌+◌, ◌*◌, ◌/◌, ◌<◌, ◌≡◌, refl, sym, ap, ◌∙◌, some, none, inl, inr, [],
  ◌∷◌, ◌++◌, true, false, leb, length, length-append, arith,
}
use desktop_folder_locker.Common.Text.{Text}
use desktop_folder_locker.Vault2.Content.Lengths.{le_or_lt}
use desktop_folder_locker.Vault2.Error.{Result, ok, err, corrupt}
use desktop_folder_locker.Vault2.Crypto.{Bytes, Crypto, IsLawful}
use desktop_folder_locker.Vault2.Names.Defs.{
  Hashes, HashesAreLawful, Keys, check_name, is_utf8, synthetic_iv, encrypt_name, decrypt_name,
  entry_name, max_encoded_len, starts_with, is_long_entry,
}
use desktop_folder_locker.Vault2.Names.Utf8.{
  has_no_byte, has_no_ascii, any-append, ascii-utf8, utf8-bytes,
}
use desktop_folder_locker.Vault2.Names.Trip.{
  decrypt_name-encrypt_name, name_pos, length-synthetic_iv,
}
use desktop_folder_locker.Vault2.Names.Entry.{
  has_dot, is_internal_entry-has_dot, entry_name-kind, entry_name_short, entry_name_long,
}
use desktop_folder_locker.Vault2.Vault.Folders.{NameCalls, temp_prefix}
use desktop_folder_locker.Vault2.Vault.Walk.{IsName}
use desktop_folder_locker.Vault2.Vault.Laws.{NamesAreLawful}

-- What the libraries give for bytes: bytes, and ASCII from base64.
pub record GivesBytes (c : Crypto) (h : Hashes) : Type 0 where
  pub mac : (key text : Bytes) → has_no_byte (h.mac key text) ≡ false
  pub sealed :
      (key nonce aad plain body tag : Bytes)
      → c.encrypt key nonce aad plain ≡ some (body, tag)
      → has_no_byte plain ≡ false
      → (has_no_byte body ≡ false) × (has_no_byte tag ≡ false)
  pub ascii : (raw : Bytes) → has_no_byte raw ≡ false → has_no_ascii (h.encode raw) ≡ false

-- No two stored names of a folder have the same digest, as nobody can find two that have.
abbrev pub DigestsDiffer : Crypto → Hashes → Keys → Type 0
DigestsDiffer c h keys =
    (iv name encoded name' encoded' : Text)
    → IsName name
    → IsName name'
    → encrypt_name c h keys iv name ≡ ok encoded
    → encrypt_name c h keys iv name' ≡ ok encoded'
    → h.digest encoded ≡ h.digest encoded'
    → encoded ≡ encoded'

unfoldable pub names : Crypto → Hashes → Keys → (Text → Text) → NameCalls
names c h keys fold = record {
  encrypt_name = encrypt_name c h keys;
  decrypt_name = decrypt_name c h keys;
  entry_name = entry_name c h;
  fold = fold;
}

starts-has_dot : (t : Text) → has_dot t ≡ false → starts_with temp_prefix t ≡ false
starts-has_dot [] h = refl
starts-has_dot (c ∷ t) h = ground arith

-- A stored name is the encoding of more than 40 numbers, which are bytes if the name is UTF-8.
module _ (c : Crypto) (h : Hashes) (L : IsLawful c) (H : HashesAreLawful h) (B : GivesBytes c h)
    (keys : Keys) where
  abbrev Encoded : Text → Text → Type 0
  Encoded name encoded =
      (raw : Bytes) × (encoded ≡ h.encode raw)
      × (40 < length raw)
      × (check_name name ≡ ok tt)
      × (IsName name → has_no_byte raw ≡ false)

  mac_bytes : (iv name : Text) → has_no_byte (synthetic_iv c h keys iv name) ≡ false
  unfolding synthetic_iv
  mac_bytes iv name = B.mac keys.name_iv (iv ++ name)

  checked :
      (iv name encoded : Text) (r : Result (Unit {0}))
      → check_name name ≡ r
      → encrypt_name c h keys iv name ≡ ok encoded
      → check_name name ≡ ok tt
  unfolding encrypt_name
  checked iv name encoded (err e) is encrypted =
      let fails : encrypt_name c h keys iv name ≡ err e = rw (encrypt_name, is) refl in
      absurd (cc (encrypted, fails))
  checked iv name encoded (ok u) is encrypted = is

  sealed_as :
      (iv name encoded : Text) (o : Option (Bytes × Bytes))
      → check_name name ≡ ok tt
      → c.encrypt keys.names (synthetic_iv c h keys iv name) iv name ≡ o
      → encrypt_name c h keys iv name ≡ ok encoded
      → Encoded name encoded
  unfolding encrypt_name
  sealed_as iv name encoded none valid is encrypted =
      let fails : encrypt_name c h keys iv name ≡ err (corrupt "could not encrypt a name") =
        rw (encrypt_name, valid, is) refl in
      absurd (cc (encrypted, fails))
  sealed_as iv name encoded (some (body, tag)) valid is encrypted =
      let siv = synthetic_iv c h keys iv name in
      let stored : encrypt_name c h keys iv name ≡ ok (h.encode (siv ++ (body ++ tag))) =
        rw (encrypt_name, valid, is) refl in
      (
        siv ++ (body ++ tag),
        (let same : encoded ≡ h.encode (siv ++ (body ++ tag)) = cc (encrypted, stored) in same),
        omega (
          arith,
          length-append siv (body ++ tag),
          length-append body tag,
          length-synthetic_iv c h L H keys iv name,
          L.length_body keys.names siv iv name body tag is,
          L.length_tag keys.names siv iv name body tag is,
          name_pos c h L H name valid,
        ),
        valid,
        λ is_name.
            let (b, t) =
              B.sealed keys.names siv iv name body tag is (utf8-bytes [] name refl is_name.0) in
            any-append (leb 256) siv (body ++ tag) (mac_bytes iv name)
              (any-append (leb 256) body tag b t),
      )

  encrypt_name-Encoded :
      (iv name encoded : Text) → encrypt_name c h keys iv name ≡ ok encoded → Encoded name encoded
  encrypt_name-Encoded iv name encoded encrypted =
      sealed_as iv name encoded _ (checked iv name encoded _ refl encrypted) refl encrypted

  -- A stored name has no dot, and neither has its entry.
  entry-has_dot :
      (raw : Bytes) (encoded : Text)
      → encoded ≡ h.encode raw
      → has_dot (entry_name c h encoded) ≡ false
  entry-has_dot raw encoded e = elim (le_or_lt (length encoded) max_encoded_len) [
    | inl short ↦ ap has_dot (entry_name_short c h H encoded short ∙ e) ∙ H.plain raw
    | inr long ↦
        ap has_dot (entry_name_long c h H encoded long)
        ∙ (let r : has_dot (b'L' ∷ h.encode (h.digest encoded)) ≡ false = H.plain _ in r)
  ]

  -- An entry of a stored name that is short has another length than one of a long one.
  length-encoded :
      (raw : Bytes) (encoded : Text)
      → encoded ≡ h.encode raw
      → 40 < length raw
      → 28 < length encoded
  length-encoded raw encoded e long =
      let l = ap length e ∙ H.length-encode raw in omega (arith, l, long)

  length-entry_long : (encoded : Text) → length (b'L' ∷ h.encode (h.digest encoded)) ≡ 28
  length-entry_long encoded =
      ap suc
        (H.length-encode (h.digest encoded) ∙ ap (λ n. (4 * n + 2) / 3) (H.length-digest encoded))

  same_digest :
      (s t : Text)
      → b'L' ∷ h.encode (h.digest s) ≡ b'L' ∷ h.encode (h.digest t)
      → h.digest s ≡ h.digest t
  same_digest s t e =
      let q : h.encode (h.digest s) ≡ h.encode (h.digest t) = ap (drop 1) e in
      let d : some (h.digest s) ≡ some (h.digest t) =
        sym (H.decode-encode (h.digest s)) ∙ ap h.decode q ∙ H.decode-encode (h.digest t) in
      cc d

  -- Entries are the same for stored names that are, or that have the same digest.
  entry_name-same :
      (s t : Text)
      → 28 < length s
      → 28 < length t
      → entry_name c h s ≡ entry_name c h t
      → (s ≡ t) ⊎ (h.digest s ≡ h.digest t)
  entry_name-same s t ls lt e = elim (le_or_lt (length s) max_encoded_len) [
    | inl short ↦
        let here = entry_name_short c h H s short in
        elim (le_or_lt (length t) max_encoded_len) [
          | inl short' ↦ inl (sym here ∙ e ∙ entry_name_short c h H t short')
          | inr long' ↦
              let q = sym here ∙ e ∙ entry_name_long c h H t long' in
              absurd (omega (arith, ap length q, length-entry_long t))
        ]
    | inr long ↦
        let here = entry_name_long c h H s long in
        elim (le_or_lt (length t) max_encoded_len) [
          | inl short' ↦
              let q = sym (entry_name_short c h H t short') ∙ sym e ∙ here in
              absurd (omega (arith, ap length q, length-entry_long s))
          | inr long' ↦ inr (same_digest s t (sym here ∙ e ∙ entry_name_long c h H t long'))
        ]
  ]

  short_entry :
      (raw : Bytes) (encoded : Text)
      → encoded ≡ h.encode raw
      → 40 < length raw
      → is_long_entry (entry_name c h encoded) ≡ false
      → entry_name c h encoded ≡ encoded
  short_entry raw encoded e long not_long = elim (le_or_lt (length encoded) max_encoded_len) [
    | inl short ↦ entry_name_short c h H encoded short
    | inr lt ↦
        let (_, kind, _) = entry_name-kind c h H raw long in
        let is_long : is_long_entry (entry_name c h encoded) ≡ true =
          ap (λ x. is_long_entry (entry_name c h x)) e ∙ kind.1 (omega (arith, ap length e, lt)) in
        absurd (cc (not_long, is_long))
  ]

  -- The functions of names.rs with any keys meet what the theorems on the vault ask of them, if the
  -- libraries give bytes for bytes and ASCII for base64 of bytes, and no two names of a folder are
  -- stored under the same digest.
  pub names-NamesAreLawful :
      (fold : Text → Text) → DigestsDiffer c h keys → NamesAreLawful (names c h keys fold)
  unfolding names
  names-NamesAreLawful fold differ = record {
    decrypts = λ iv name encoded is_name encrypted.
        let (_, _, _, valid, _) = encrypt_name-Encoded iv name encoded encrypted in
        let (encoded', encrypted', back) =
          decrypt_name-encrypt_name c h L H keys iv name valid is_name.0 is_name.1 in
        let same : encoded' ≡ encoded = cc (encrypted, encrypted') in
        ap (decrypt_name c h keys iv) (sym same) ∙ back;
    plain = λ iv name encoded encrypted.
        let (raw, e, _, _, _) = encrypt_name-Encoded iv name encoded encrypted in
        is_internal_entry-has_dot (entry_name c h encoded) (entry-has_dot raw encoded e);
    lasting = λ iv name encoded encrypted.
        let (raw, e, _, _, _) = encrypt_name-Encoded iv name encoded encrypted in
        starts-has_dot (entry_name c h encoded) (entry-has_dot raw encoded e);
    short = λ iv name encoded encrypted not_long.
        let (raw, e, long, _, _) = encrypt_name-Encoded iv name encoded encrypted in
        short_entry raw encoded e long not_long;
    utf8 = λ iv name encoded is_name encrypted.
        let (raw, e, _, _, bytes) = encrypt_name-Encoded iv name encoded encrypted in
        ap (is_utf8 []) e ∙ ascii-utf8 (h.encode raw) (B.ascii raw (bytes is_name));
    apart = λ iv name encoded name' encoded' is_name is_name' encrypted encrypted' same.
        let (raw, e, long, _, _) = encrypt_name-Encoded iv name encoded encrypted in
        let (raw', e', long', _, _) = encrypt_name-Encoded iv name' encoded' encrypted' in
        elim (entry_name-same encoded encoded' (length-encoded raw encoded e long)
          (length-encoded raw' encoded' e' long') same) [
            | inl q ↦ q
            | inr digest ↦
                differ iv name encoded name' encoded' is_name is_name' encrypted encrypted' digest
          ];
  }
