-- ===== src/Vault2/Crypto/Defs.antt =====
-- The AEAD cipher XChaCha20-Poly1305 (chacha20poly1305) and the system's random numbers
-- (rand_core) as a parameter, with what their documentation promises as laws.
use desktop_folder_locker.Common.{
  ℕ, ◌≡◌, ◌<◌, ◌^◌, Option, some, List, length, Bool, false, true, ◌==◌, ◌&&◌,
}

abbrev pub Bytes : Type 0
Bytes = List ℕ

pub record Crypto : Type 0 where
  -- key, nonce, associated data, plaintext; the ciphertext and its tag
  pub encrypt : Bytes → Bytes → Bytes → Bytes → Option (Bytes × Bytes)
  -- key, nonce, associated data, ciphertext, tag
  pub decrypt : Bytes → Bytes → Bytes → Bytes → Bytes → Option Bytes
  -- The random numbers in the order in which they are drawn: draw and length.
  pub fill_bytes : ℕ → ℕ → Bytes

-- `bytes.iter().all(|&b| b == 0)`
abbrev pub is_zero : Bytes → Bool
is_zero List.[] = true
is_zero (List.◌∷◌ b bytes) = b == 0 && is_zero bytes

pub record IsLawful (c : Crypto) : Type 0 where
  -- Plaintexts of less than 2 ^ 38 bytes can be encrypted.
  pub encrypts :
      (key nonce aad plain : Bytes)
      → length plain < 2 ^ 38
      → (body : Bytes) × (tag : Bytes) × (c.encrypt key nonce aad plain ≡ some (body, tag))
  -- What was encrypted is decrypted with the same key, nonce and associated data.
  pub decrypt-encrypt :
      (key nonce aad plain body tag : Bytes)
      → c.encrypt key nonce aad plain ≡ some (body, tag)
      → c.decrypt key nonce aad body tag ≡ some plain
  pub length_body :
      (key nonce aad plain body tag : Bytes)
      → c.encrypt key nonce aad plain ≡ some (body, tag)
      → length body ≡ length plain
  pub length_tag :
      (key nonce aad plain body tag : Bytes)
      → c.encrypt key nonce aad plain ≡ some (body, tag)
      → length tag ≡ 16
  pub length-fill_bytes : (draw n : ℕ) → length (c.fill_bytes draw n) ≡ n
  -- 24 random bytes are not all zero: it happens once in 2 ^ 192 draws.
  pub nonzero : (draw : ℕ) → is_zero (c.fill_bytes draw 24) ≡ false
