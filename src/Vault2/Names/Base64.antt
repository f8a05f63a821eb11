-- ===== src/Vault2/Names/Base64.antt =====
-- Base64 with the characters from 0 to o, without padding, for tests.
use desktop_folder_locker.Common.{
  ℕ, ◌+◌, ◌-◌, ◌*◌, ◌/◌, ◌%◌, ◌<◌, ◌≡◌, refl, ap, [], ◌∷◌, Bool, length, arith, false, ◌==◌, leb,
  ◌||◌, ==_iff,
}
use desktop_folder_locker.Common.Text.{Text, any}
use desktop_folder_locker.Vault2.Crypto.{Bytes}
use desktop_folder_locker.Vault2.Names.Utf8.{has_no_byte}

-- Four characters for three bytes.
unfoldable pub base64 : Bytes → Text
base64 [] = []
base64 (a ∷ []) = (48 + a / 4) ∷ (48 + a % 4 * 16) ∷ []
base64 (a ∷ b ∷ []) = (48 + a / 4) ∷ (48 + (a % 4 * 16 + b / 16)) ∷ (48 + b % 16 * 4) ∷ []
base64 (a ∷ b ∷ c ∷ raw) =
    (48 + a / 4)
    ∷ (48 + (a % 4 * 16 + b / 16))
    ∷ (48 + (b % 16 * 4 + c / 64))
    ∷ (48 + c % 64)
    ∷ base64 raw

unfoldable pub unbase64 : Text → Bytes
unbase64 [] = []
unbase64 (w ∷ []) = []
unbase64 (w ∷ x ∷ []) = ((w - 48) * 4 + (x - 48) / 16) ∷ []
unbase64 (w ∷ x ∷ y ∷ []) =
    ((w - 48) * 4 + (x - 48) / 16) ∷ ((x - 48) % 16 * 16 + (y - 48) / 4) ∷ []
unbase64 (w ∷ x ∷ y ∷ z ∷ t) =
    ((w - 48) * 4 + (x - 48) / 16)
    ∷ ((x - 48) % 16 * 16 + (y - 48) / 4)
    ∷ ((y - 48) % 4 * 64 + (z - 48))
    ∷ unbase64 t

first_back :
    (a b : ℕ) → b < 256 → (48 + a / 4 - 48) * 4 + (48 + (a % 4 * 16 + b / 16) - 48) / 16 ≡ a
first_back a b h = omega arith

second_back :
    (a b c : ℕ)
    → b < 256
    → c < 256
    → (48 + (a % 4 * 16 + b / 16) - 48) % 16 * 16 + (48 + (b % 16 * 4 + c / 64) - 48) / 4 ≡ b
second_back a b c h h' = omega arith

third_back :
    (b c : ℕ) → c < 256 → (48 + (b % 16 * 4 + c / 64) - 48) % 4 * 64 + (48 + c % 64 - 48) ≡ c
third_back b c h = omega arith

pub unbase64-base64 : (raw : Bytes) → has_no_byte raw ≡ false → unbase64 (base64 raw) ≡ raw
unfolding base64 unbase64
unbase64-base64 [] h = refl
unbase64-base64 (a ∷ []) h =
    ap (λ x. x ∷ [])
      (let e : (48 + a / 4 - 48) * 4 + (48 + a % 4 * 16 - 48) / 16 ≡ a = omega arith in e)
unbase64-base64 (a ∷ b ∷ []) h =
    let small : b < 256 = ground arith in
    let e : (48 + (a % 4 * 16 + b / 16) - 48) % 16 * 16 + (48 + b % 16 * 4 - 48) / 4 ≡ b =
      omega arith in
    cc (first_back a b small, e)
unbase64-base64 (a ∷ b ∷ c ∷ raw) h =
    let small : b < 256 = ground arith in
    let small' : c < 256 = ground arith in
    cc (
      first_back a b small,
      second_back a b c small small',
      third_back b c small',
      unbase64-base64 raw (ground arith),
    )

pub length-base64 : (raw : Bytes) → length (base64 raw) ≡ (4 * length raw + 2) / 3
unfolding base64
length-base64 [] = refl
length-base64 (a ∷ []) = refl
length-base64 (a ∷ b ∷ []) = refl
length-base64 (a ∷ b ∷ c ∷ raw) = omega (arith, length-base64 raw)

-- The characters stand between 48 and 111, but for the first of other numbers.
abbrev pub is_other : ℕ → Bool
is_other c = c == b'.' || leb 128 c

in_range : (n : ℕ) → n < 64 → is_other (48 + n) ≡ false
in_range n h = ground (arith, ==_iff (48 + n) 46)

neither : (p q : Bool) → p ≡ false → q ≡ false → (p || q) ≡ false
neither p q hp hq = ground arith

pub is_other-base64 : (raw : Bytes) → has_no_byte raw ≡ false → any is_other (base64 raw) ≡ false
unfolding base64
is_other-base64 [] h = refl
is_other-base64 (a ∷ []) h =
    let small : a < 256 = ground arith in
    neither _ _ (in_range (a / 4) (omega arith))
      (neither _ _ (in_range (a % 4 * 16) (omega arith)) refl)
is_other-base64 (a ∷ b ∷ []) h =
    let small : a < 256 = ground arith in
    let small' : b < 256 = ground arith in
    neither _ _ (in_range (a / 4) (omega arith)) (
      neither _ _ (in_range (a % 4 * 16 + b / 16) (omega arith))
        (neither _ _ (in_range (b % 16 * 4) (omega arith)) refl))
is_other-base64 (a ∷ b ∷ c ∷ raw) h =
    let small : a < 256 = ground arith in
    let small' : b < 256 = ground arith in
    let least : c < 256 = ground arith in
    neither _ _ (in_range (a / 4) (omega arith)) (
      neither _ _ (in_range (a % 4 * 16 + b / 16) (omega arith)) (
        neither _ _ (in_range (b % 16 * 4 + c / 64) (omega arith))
          (neither _ _ (in_range (c % 64) (omega arith)) (is_other-base64 raw (ground arith)))))
