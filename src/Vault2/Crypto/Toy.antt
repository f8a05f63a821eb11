-- ===== src/Vault2/Crypto/Toy.antt =====
-- A cipher that meets the laws, for tests: the ciphertext is the plaintext, and the tag is made of
-- the key, the nonce, the associated data and the ciphertext.
use desktop_folder_locker.Common.{
  ℕ, zero, suc, ◌+◌, ◌*◌, ◌%◌, ◌<◌, ◌≡◌, refl, ap, ◌∙◌, some, none, [], ◌∷◌, length, eq_bytes,
  eq_bytes_refl, arith, if◌then◌else◌, false,
}
use desktop_folder_locker.Common.Text.{repeat}
use desktop_folder_locker.Vault2.Crypto.Defs.{Crypto, IsLawful, Bytes, is_zero}

sum : Bytes → ℕ
sum [] = 0
sum (b ∷ bytes) = b + sum bytes

tag_of : Bytes → Bytes → Bytes → Bytes → Bytes
unfolding sum repeat
tag_of key nonce aad body = repeat 16 ((sum key + 3 * sum nonce + 5 * sum aad + 7 * sum body) % 256)

length-repeat : (n b : ℕ) → length (repeat n b) ≡ n
unfolding repeat
length-repeat zero b = refl
length-repeat (suc n) b = ap suc (length-repeat n b)

unfoldable pub toy : Crypto
unfolding tag_of repeat
toy = record {
  encrypt = λ key nonce aad plain. some (plain, tag_of key nonce aad plain);
  decrypt = λ key nonce aad body tag.
      if eq_bytes tag (tag_of key nonce aad body) then some body else none;
  fill_bytes = λ draw n. repeat n (suc draw);
}

is_zero-repeat : (n b : ℕ) → is_zero (repeat (suc n) (suc b)) ≡ false
unfolding repeat
is_zero-repeat n b = ground arith

toy-decrypt :
    (key nonce aad plain body tag : Bytes)
    → toy.encrypt key nonce aad plain ≡ some (body, tag)
    → toy.decrypt key nonce aad body tag ≡ some plain
unfolding toy
toy-decrypt key nonce aad plain body tag e =
    let same_body : plain ≡ body = cc in
    let same_tag : tag_of key nonce aad plain ≡ tag = cc in
    rw (← same_body, ← same_tag, eq_bytes_refl)

toy_body :
    (key nonce aad plain body tag : Bytes)
    → toy.encrypt key nonce aad plain ≡ some (body, tag)
    → (body ≡ plain) × (tag ≡ tag_of key nonce aad plain)
unfolding toy
toy_body key nonce aad plain body tag e = (cc, cc)

length-tag_of : (key nonce aad body : Bytes) → length (tag_of key nonce aad body) ≡ 16
unfolding tag_of
length-tag_of key nonce aad body = refl

pub toy-IsLawful : IsLawful toy
unfolding toy
toy-IsLawful = record {
  encrypts = λ key nonce aad plain h. (plain, tag_of key nonce aad plain, refl);
  decrypt-encrypt = toy-decrypt;
  length_body =
      λ key nonce aad plain body tag e. ap length (toy_body key nonce aad plain body tag e).0;
  length_tag = λ key nonce aad plain body tag e.
      ap length (toy_body key nonce aad plain body tag e).1 ∙ length-tag_of key nonce aad plain;
  length-fill_bytes = λ draw n. length-repeat n (suc draw);
  nonzero = λ draw. is_zero-repeat 23 draw;
}

-- The tag is made of bytes.
pub toy-sealed :
    (key nonce aad plain body tag : Bytes)
    → toy.encrypt key nonce aad plain ≡ some (body, tag)
    → (body ≡ plain) × (n : ℕ) × (n < 256) × (tag ≡ repeat 16 n)
unfolding tag_of
toy-sealed key nonce aad plain body tag e =
    let (same, same_tag) = toy_body key nonce aad plain body tag e in
    (same, (sum key + 3 * sum nonce + 5 * sum aad + 7 * sum plain) % 256, omega arith, same_tag)
