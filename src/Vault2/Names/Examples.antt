-- ===== src/Vault2/Names/Examples.antt =====
-- The theorems on names at a short one, over a toy cipher and toy hashes.
use desktop_folder_locker.Common.{
  ℕ, ◌<◌, ◌≡◌, ◌↔◌, refl, [], ◌∷◌, length, arith, true, false, List, if◌then◌else◌, leb, ◌&&◌, ◌-◌,
  get_or, ap,
}
use desktop_folder_locker.Common.Text.{Text, codes}
use desktop_folder_locker.Vault2.Error.{ok}
use desktop_folder_locker.Vault2.Crypto.{Bytes}
use desktop_folder_locker.Vault2.Crypto.Toy.{toy, toy-IsLawful}
use desktop_folder_locker.Vault2.Names.Toy.{hashes, hashes-HashesAreLawful}
use desktop_folder_locker.Vault2.Names.Defs.{
  Keys, check_name, is_utf8, encrypt_name, decrypt_name, entry_name, is_long_entry,
  is_internal_entry, sidecar_name, max_encoded_len,
}
use desktop_folder_locker.Vault2.Names.Trip.{decrypt_name-encrypt_name}
use desktop_folder_locker.Vault2.Names.Entry.{entry_name-kind}

abbrev keys : Keys
keys = record { names = 3 ∷ 1 ∷ []; name_iv = 4 ∷ 1 ∷ [] }

abbrev dir_iv : Bytes
dir_iv = 5 ∷ 9 ∷ 2 ∷ []

abbrev name : Bytes
name = codes "Taxes 2024.pdf"

name_checked : check_name name ≡ ok tt
unfolding check_name
name_checked = refl

name_utf8 : is_utf8 [] name ≡ true
unfolding is_utf8
name_utf8 = refl

-- Two bytes, three and four; then a surrogate, which UTF-8 has not.
others_utf8 :
    (is_utf8 [] (195 ∷ 169 ∷ 226 ∷ 130 ∷ 172 ∷ 240 ∷ 159 ∷ 152 ∷ 128 ∷ []) ≡ true)
    × (is_utf8 [] (237 ∷ 160 ∷ 128 ∷ []) ≡ false)
unfolding is_utf8
others_utf8 = (refl, refl)

trip :
    (encoded : Text) × (encrypt_name toy hashes keys dir_iv name ≡ ok encoded)
    × (decrypt_name toy hashes keys dir_iv encoded ≡ ok name)
trip =
    decrypt_name-encrypt_name toy hashes toy-IsLawful hashes-HashesAreLawful keys dir_iv name
      name_checked name_utf8 (omega arith)

decrypt_name-encrypt_name_example :
    (encoded : Text) × (encrypt_name toy hashes keys dir_iv name ≡ ok encoded)
    × (decrypt_name toy hashes keys dir_iv encoded ≡ ok name)
decrypt_name-encrypt_name_example =
    decrypt_name-encrypt_name toy hashes toy-IsLawful hashes-HashesAreLawful keys dir_iv name
      name_checked name_utf8 (omega arith)

abbrev encoded : Text
encoded = trip.0

abbrev raw : Bytes
raw =
    1 ∷ 2 ∷ 3 ∷ 4 ∷ 5 ∷ 6 ∷ 7 ∷ 8 ∷ 9 ∷ 10 ∷ 1 ∷ 2 ∷ 3 ∷ 4 ∷ 5 ∷ 6 ∷ 7 ∷ 8 ∷ 9 ∷ 10 ∷ 1 ∷ 2 ∷ 3 ∷ 4
    ∷ 5 ∷ 6 ∷ 7 ∷ 8 ∷ 9 ∷ 10 ∷ 1 ∷ 2 ∷ 3 ∷ 4 ∷ 5 ∷ 6 ∷ 7 ∷ 8 ∷ 9 ∷ 10 ∷ 11 ∷ []

entry_name-kind_example :
    let entry = entry_name toy hashes (hashes.encode raw) in
    (is_internal_entry entry ≡ false)
    × ((is_long_entry entry ≡ true) ↔ (max_encoded_len < length (hashes.encode raw)))
    × (is_internal_entry (sidecar_name entry) ≡ true)
entry_name-kind_example = entry_name-kind toy hashes hashes-HashesAreLawful raw (omega arith)

abbrev to_uppercase : ℕ → List ℕ
to_uppercase c = (if leb b'a' c && leb c b'z' then c - 32 else c) ∷ []

upper_upper : (c u : ℕ) → to_uppercase c ≡ u ∷ [] → to_uppercase u ≡ u ∷ []
upper_upper c u e =
    let same : (if leb b'a' c && leb c b'z' then c - 32 else c) ≡ u = ap (λ t. get_or t 0 0) e in
    ground arith
