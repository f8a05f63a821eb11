-- ===== src/Vault2/Names/Toy.antt =====
-- Hashes and an encoding that meet the laws, for tests: sums and a numbering of texts for hashes,
-- base64 with the characters from 0 to o for bytes, and larger characters for other numbers.
use desktop_folder_locker.Common.{
  ℕ, zero, suc, ◌+◌, ◌-◌, ◌*◌, ◌/◌, ◌%◌, ◌<◌, ◌≡◌, refl, ap, ◌∙◌, some, [], ◌∷◌, ◌++◌, Bool, length,
  length-append, take, take-append_left, arith, true, false, ◌==◌, ==_iff, leb, get_or,
  if◌then◌else◌, Bool-cases, inl, inr,
}
use desktop_folder_locker.Common.Text.{Text, any, repeat}
use desktop_folder_locker.Vault2.Crypto.{Bytes}
use desktop_folder_locker.Vault2.Names.Defs.{Hashes, HashesAreLawful}
use desktop_folder_locker.Vault2.Names.Base64.{
  base64, unbase64, unbase64-base64, length-base64, is_other, is_other-base64,
}
use desktop_folder_locker.Vault2.Names.Utf8.{has_no_byte, has_no_ascii}

sum : Bytes → ℕ
sum [] = 0
sum (b ∷ bytes) = b + 3 * sum bytes

length-repeat : (n b : ℕ) → length (repeat n b) ≡ n
unfolding repeat
length-repeat zero b = refl
length-repeat (suc n) b = ap suc (length-repeat n b)

-- Numbers that are not all bytes.
above : Bytes → Text
above [] = []
above (b ∷ bytes) = (b + 200) ∷ above bytes

below : Text → Bytes
below [] = []
below (c ∷ t) = (c - 200) ∷ below t

below-above : (bytes : Bytes) → below (above bytes) ≡ bytes
unfolding below above
below-above [] = refl
below-above (b ∷ bytes) = cc (let z : b + 200 - 200 ≡ b = omega arith in z, below-above bytes)

length-above : (bytes : Bytes) → length (above bytes) ≡ length bytes
unfolding above
length-above [] = refl
length-above (b ∷ bytes) = ap suc (length-above bytes)

padding : Bytes → ℕ
padding raw = (4 * length raw + 2) / 3 - length raw

padded : Bytes → Text
padded raw = above raw ++ repeat (padding raw) 200

length-padded : (raw : Bytes) → length (padded raw) ≡ (4 * length raw + 2) / 3
unfolding padded padding
length-padded raw = omega (
  arith,
  length-append (above raw) (repeat (padding raw) 200),
  length-above raw,
  length-repeat (padding raw) 200,
)

no_dots : (raw : Bytes) (n : ℕ) → any (λ c. c == b'.') (above raw ++ repeat n 200) ≡ false
unfolding above repeat
no_dots [] zero = refl
no_dots [] (suc n) = no_dots [] n
no_dots (b ∷ raw) n = ground (arith, no_dots raw n, ==_iff (b + 200) 46)

-- The texts are numbered.
pair : ℕ → ℕ → ℕ
pair zero n = 2 * n + 1
pair (suc b) n = 2 * pair b n

number : Text → ℕ
unfolding pair
number [] = 0
number (c ∷ t) = pair c (number t)

pair-inj : (b n b' n' : ℕ) → pair b n ≡ pair b' n' → (b ≡ b') × (n ≡ n')
unfolding pair
pair-inj zero n zero n' e = (refl, omega arith)
pair-inj zero n (suc b') n' e = absurd (omega arith)
pair-inj (suc b) n zero n' e = absurd (omega arith)
pair-inj (suc b) n (suc b') n' e = let (p, q) = pair-inj b n b' n' (omega arith) in (ap suc p, q)

pair_pos : (b n : ℕ) → 0 < pair b n
unfolding pair
pair_pos zero n = omega arith
pair_pos (suc b) n = omega (arith, pair_pos b n)

number-inj : (s t : Text) → number s ≡ number t → s ≡ t
unfolding number
number-inj [] [] e = refl
number-inj [] (c ∷ t) e = absurd (omega (arith, pair_pos c (number t)))
number-inj (c ∷ s) [] e = absurd (omega (arith, pair_pos c (number s)))
number-inj (c ∷ s) (d ∷ t) e =
    let (p, q) = pair-inj c (number s) d (number t) e in cc (p, number-inj s t q)

encode : Bytes → Text
encode raw = if has_no_byte raw then padded raw else base64 raw

abbrev decode : Text → Bytes
decode t = if leb 200 (get_or t 0 0) then below (take (length t * 3 / 4) t) else unbase64 t

unfoldable pub hashes : Hashes
unfolding sum repeat above below padding padded encode pair number base64 unbase64
hashes = record {
  mac = λ key text. repeat 24 ((sum key + 5 * sum text) % 256);
  digest = λ text. number text ∷ repeat 19 0;
  encode = encode;
  decode = λ t. some (decode t);
}

first-padded : (raw : Bytes) → has_no_byte raw ≡ true → leb 200 (get_or (padded raw) 0 0) ≡ true
unfolding padded above
first-padded [] h = absurd (cc h)
first-padded (b ∷ raw) h = ground arith

first_low : (t : Text) → any is_other t ≡ false → leb 200 (get_or t 0 0) ≡ false
first_low [] h = refl
first_low (c ∷ t) h = ground arith

below-padded : (raw : Bytes) → below (take (length (padded raw) * 3 / 4) (padded raw)) ≡ raw
unfolding padded
below-padded raw =
    let l : length (padded raw) * 3 / 4 ≡ length (above raw) =
      omega (arith, length-padded raw, length-above raw) in
    ap (λ n. below (take n (padded raw))) l
    ∙ ap below (take-append_left (above raw) (repeat (padding raw) 200))
    ∙ below-above raw

encode-eq :
    (raw : Bytes) (no_byte : Bool)
    → has_no_byte raw ≡ no_byte
    → encode raw ≡ (if no_byte then padded raw else base64 raw)
unfolding encode
encode-eq raw no_byte e = ap (λ b. if b then padded raw else base64 raw) e

decode-encode : (raw : Bytes) → decode (encode raw) ≡ raw
decode-encode raw = elim (Bool-cases (has_no_byte raw)) [
  | inl other ↦
      ap decode (encode-eq raw true other) ∙ rw (first-padded raw other) (below-padded raw)
  | inr bytes ↦
      ap decode (encode-eq raw false bytes)
      ∙ rw (first_low (base64 raw) (is_other-base64 raw bytes)) (unbase64-base64 raw bytes)
]

length-encode : (raw : Bytes) → length (encode raw) ≡ (4 * length raw + 2) / 3
length-encode raw = elim (Bool-cases (has_no_byte raw)) [
  | inl other ↦ ap length (encode-eq raw true other) ∙ length-padded raw
  | inr bytes ↦ ap length (encode-eq raw false bytes) ∙ length-base64 raw
]

plain-any : (t : Text) → any is_other t ≡ false → any (λ c. c == b'.') t ≡ false
plain-any [] h = refl
plain-any (c ∷ t) h = ground (arith, plain-any t (ground arith))

ascii-any : (t : Text) → any is_other t ≡ false → has_no_ascii t ≡ false
ascii-any [] h = refl
ascii-any (c ∷ t) h = ground (arith, ascii-any t (ground arith))

plain-encode : (raw : Bytes) → any (λ c. c == b'.') (encode raw) ≡ false
unfolding padded
plain-encode raw = elim (Bool-cases (has_no_byte raw)) [
  | inl other ↦ ap (any (λ c. c == b'.')) (encode-eq raw true other) ∙ no_dots raw (padding raw)
  | inr bytes ↦
      ap (any (λ c. c == b'.')) (encode-eq raw false bytes)
      ∙ plain-any (base64 raw) (is_other-base64 raw bytes)
]

pub hashes-HashesAreLawful : HashesAreLawful hashes
unfolding hashes
hashes-HashesAreLawful = record {
  length-mac = λ key text. length-repeat 24 ((sum key + 5 * sum text) % 256);
  length-digest = λ text. ap suc (length-repeat 19 0);
  decode-encode = λ raw. ap some (decode-encode raw);
  length-encode = length-encode;
  plain = plain-encode;
}

pub has_no_byte-repeat : (n b : ℕ) → b < 256 → has_no_byte (repeat n b) ≡ false
unfolding repeat
has_no_byte-repeat zero b h = refl
has_no_byte-repeat (suc n) b h = ground (arith, has_no_byte-repeat n b h)

pub hashes-mac_bytes : (key text : Bytes) → has_no_byte (hashes.mac key text) ≡ false
unfolding hashes
hashes-mac_bytes key text = has_no_byte-repeat 24 ((sum key + 5 * sum text) % 256) (omega arith)

pub hashes-ascii :
    (raw : Bytes) → has_no_byte raw ≡ false → has_no_ascii (hashes.encode raw) ≡ false
unfolding hashes
hashes-ascii raw bytes =
    ap has_no_ascii (encode-eq raw false bytes) ∙ ascii-any (base64 raw) (is_other-base64 raw bytes)

pub hashes-digest : (s t : Text) → hashes.digest s ≡ hashes.digest t → s ≡ t
unfolding hashes
hashes-digest s t e = number-inj s t (ap (λ l. get_or l 0 0) e)
