-- ===== src/Vault2/Names/Trip.antt =====
-- Encrypting a name and decrypting it.
use desktop_folder_locker.Common.{
  ◌+◌, ◌-◌, ◌<◌, ◌^◌, ◌≡◌, refl, sym, ap, ◌∙◌, some, [], ◌∷◌, ◌++◌, true, eq_bytes, eq_bytes_refl,
  eq_of_eq_bytes, length, take, drop, length-append, take-append_left, drop-append_left, arith,
  Option-cases, inl, inr,
}
use desktop_folder_locker.Common.Text.{Text}
use desktop_folder_locker.Vault2.Error.{ok}
use desktop_folder_locker.Vault2.Crypto.{Bytes, Crypto, IsLawful}
use desktop_folder_locker.Vault2.Names.Defs.{
  Hashes, HashesAreLawful, Keys, check_name, is_utf8, synthetic_iv, encrypt_name, decrypt_sealed,
  decrypt_name, siv_len, tag_len,
}

module _ (c : Crypto) (h : Hashes) (L : IsLawful c) (H : HashesAreLawful h) where
  pub encrypt_name-eq_ok :
      (keys : Keys) (dir_iv name : Bytes)
      → check_name name ≡ ok tt
      → length name < 2 ^ 38
      → let siv = synthetic_iv c h keys dir_iv name in
        (body : Bytes) × (tag : Bytes) × (c.encrypt keys.names siv dir_iv name ≡ some (body, tag))
        × (encrypt_name c h keys dir_iv name ≡ ok (h.encode (siv ++ (body ++ tag))))
  unfolding encrypt_name
  encrypt_name-eq_ok keys dir_iv name valid small =
      let siv = synthetic_iv c h keys dir_iv name in
      let (body, tag, e) = L.encrypts keys.names siv dir_iv name small in
      (body, tag, e, rw (encrypt_name, valid, e) refl)

  pub name_pos : (name : Bytes) → check_name name ≡ ok tt → 0 < length name
  unfolding check_name
  name_pos [] valid = absurd (ground arith)
  name_pos (b ∷ name) valid = omega arith

  pub length-synthetic_iv :
      (keys : Keys) (dir_iv name : Bytes) → length (synthetic_iv c h keys dir_iv name) ≡ siv_len
  unfolding synthetic_iv
  length-synthetic_iv keys dir_iv name = H.length-mac keys.name_iv (dir_iv ++ name)

  decrypt_sealed-append :
      (key nonce aad name body tag : Bytes)
      → c.encrypt key nonce aad name ≡ some (body, tag)
      → decrypt_sealed c h key nonce aad (body ++ tag) ≡ some name
  unfolding decrypt_sealed
  decrypt_sealed-append key nonce aad name body tag e =
      let l : length (body ++ tag) - tag_len ≡ length body =
        omega (arith, length-append body tag, L.length_tag key nonce aad name body tag e) in
      ap (λ n. c.decrypt key nonce aad (take n (body ++ tag)) (drop n (body ++ tag))) l
      ∙ ap (λ b. c.decrypt key nonce aad b (drop (length body) (body ++ tag)))
          (take-append_left body tag)
      ∙ ap (c.decrypt key nonce aad body) (drop-append_left body tag)
      ∙ L.decrypt-encrypt key nonce aad name body tag e

  decrypt_name_run :
      (keys : Keys) (dir_iv : Bytes) (encoded : Text) (raw plain : Bytes)
      → h.decode encoded ≡ some raw
      → siv_len + tag_len < length raw
      → decrypt_sealed c h keys.names (take siv_len raw) dir_iv (drop siv_len raw) ≡ some plain
      → synthetic_iv c h keys dir_iv plain ≡ take siv_len raw
      → is_utf8 [] plain ≡ true
      → decrypt_name c h keys dir_iv encoded ≡ ok plain
  unfolding decrypt_name
  decrypt_name_run keys dir_iv encoded raw plain e1 long e2 e3 valid =
      let same : eq_bytes (synthetic_iv c h keys dir_iv plain) (take siv_len raw) ≡ true =
        rw e3 (eq_bytes_refl (take siv_len raw)) in
      ground arith

  -- A name that is valid for one path component is stored under a name that decrypts to it, in
  -- the folder that it was encrypted for.
  pub decrypt_name-encrypt_name :
      (keys : Keys) (dir_iv name : Bytes)
      → check_name name ≡ ok tt
      → is_utf8 [] name ≡ true
      → length name < 2 ^ 38
      → (encoded : Text) × (encrypt_name c h keys dir_iv name ≡ ok encoded)
        × (decrypt_name c h keys dir_iv encoded ≡ ok name)
  decrypt_name-encrypt_name keys dir_iv name valid utf8 small =
      let siv = synthetic_iv c h keys dir_iv name in
      let (body, tag, e, stored) = encrypt_name-eq_ok keys dir_iv name valid small in
      let l : length siv ≡ siv_len = length-synthetic_iv keys dir_iv name in
      let front : take siv_len (siv ++ (body ++ tag)) ≡ siv =
        ap (λ n. take n (siv ++ (body ++ tag))) (sym l) ∙ take-append_left siv (body ++ tag) in
      let back : drop siv_len (siv ++ (body ++ tag)) ≡ body ++ tag =
        ap (λ n. drop n (siv ++ (body ++ tag))) (sym l) ∙ drop-append_left siv (body ++ tag) in
      (
        h.encode (siv ++ (body ++ tag)),
        stored,
        decrypt_name_run keys dir_iv _ (siv ++ (body ++ tag)) name
            (H.decode-encode (siv ++ (body ++ tag)))
            (omega (
              arith,
              length-append siv (body ++ tag),
              length-append body tag,
              H.length-mac keys.name_iv (dir_iv ++ name),
              L.length_body keys.names siv dir_iv name body tag e,
              L.length_tag keys.names siv dir_iv name body tag e,
              name_pos name valid,
            ))
            (ap
                (λ nonce.
                  decrypt_sealed c h keys.names nonce dir_iv (drop siv_len (siv ++ (body ++ tag))))
                front
              ∙ ap (decrypt_sealed c h keys.names siv dir_iv) back
              ∙ decrypt_sealed-append keys.names siv dir_iv name body tag e)
            (sym front) utf8,
      )

  -- A stored name that decrypts is the encoding of the nonce that its plain name derives in that
  -- folder, a ciphertext and a tag, and the plain name is UTF-8.
  pub decrypt_name-eq_ok :
      (keys : Keys) (dir_iv : Bytes) (encoded : Text) (name : Bytes)
      → decrypt_name c h keys dir_iv encoded ≡ ok name
      → (raw : Bytes) × (h.decode encoded ≡ some raw)
        × (take siv_len raw ≡ synthetic_iv c h keys dir_iv name)
        × (decrypt_sealed c h keys.names (take siv_len raw) dir_iv (drop siv_len raw) ≡ some name)
        × (is_utf8 [] name ≡ true)
  unfolding decrypt_name
  decrypt_name-eq_ok keys dir_iv encoded name e = elim (Option-cases (h.decode encoded)) [
    | inl d ↦ absurd (ground arith)
    | inr (raw, d) ↦
        elim (Option-cases
          (decrypt_sealed c h keys.names (take siv_len raw) dir_iv (drop siv_len raw))) [
            | inl s ↦ absurd (ground arith)
            | inr (plain, s) ↦
                let (same, utf8, name_is) : (eq_bytes (synthetic_iv c h keys dir_iv plain)
                        (take siv_len raw)
                      ≡ true)
                    × (is_utf8 [] plain ≡ true)
                    × (plain ≡ name) =
                  ground arith in
                let iv : synthetic_iv c h keys dir_iv plain ≡ take siv_len raw =
                  eq_of_eq_bytes _ (take siv_len raw) same in
                (
                  raw,
                  d,
                  sym iv ∙ ap (synthetic_iv c h keys dir_iv) name_is,
                  s ∙ ap some name_is,
                  ap (is_utf8 []) (sym name_is) ∙ utf8,
                )
          ]
  ]
