-- ===== src/Vault2/Content/Lengths.antt =====
-- `Codec::plain_len` and `Codec::stored_len`: the two lengths of a file.
use native.Mathlib.Nat.{
  div-eq_of_lt-le, mod-eq-sub-div-mul, div-add-mod', mod-lt, mod-le, mul-le-mul_left,
  mul-le-mul_right,
}
use desktop_folder_locker.Common.{
  ℕ, zero, suc, ◌+◌, ◌-◌, ◌*◌, ◌/◌, ◌%◌, ◌^◌, ◌≤◌, ◌<◌, ◌≡◌, ◌↔◌, ◌⊎◌, inl, inr, refl, ap, arith,
  ltb, if◌then◌else◌,
}
use desktop_folder_locker.Vault2.Content.Codec.{
  Codec, header_len, block_overhead, min_block_size, stored_block, block_offset, plain_len,
  stored_len,
}
use desktop_folder_locker.Vault2.Content.File.{i64_max}

-- Division with a known quotient and rest.
pub div_split : (b q r : ℕ) → r < b → (q * b + r) / b ≡ q
div_split b q r h = div-eq_of_lt-le b (omega arith) (omega arith)

pub mod_split : (b q r : ℕ) → r < b → (q * b + r) % b ≡ r
mod_split b q r h = rw (mod-eq-sub-div-mul, div_split b q r h) (omega arith)

lt_trichotomy : (a b : ℕ) → (a < b) ⊎ ((a ≡ b) ⊎ (b < a))
lt_trichotomy a b = grind arith

pub le_or_lt : (a b : ℕ) → (a ≤ b) ⊎ (b < a)
le_or_lt a b = grind arith

pub zero_or_pos : (n : ℕ) → (n ≡ 0) ⊎ (0 < n)
zero_or_pos zero = inl refl
zero_or_pos (suc n) = inr (omega arith)

pub next_block : (b : ℕ) {q k : ℕ} → q < k → q * b + b ≤ k * b
next_block b {q} {k} h = omega (arith, mul-le-mul_right b h)

-- Two blocks are in order, or the same.
pub compare_blocks :
    (b q k : ℕ)
    → ((q < k) × (q * b + b ≤ k * b))
      ⊎ (((q ≡ k) × (q * b ≡ k * b)) ⊎ ((k < q) × (k * b + b ≤ q * b)))
compare_blocks b q k = elim (lt_trichotomy q k) [
  | inl h ↦ inl (h, next_block b h)
  | inr (inl e) ↦ inr (inl (e, ap (λ t. t * b) e))
  | inr (inr h) ↦ inr (inr (h, next_block b h))
]

module _ (c : Codec) where
  pub plain_len_split :
      (q r : ℕ)
      → r < stored_block c
      → plain_len c (block_offset c q + r) ≡ q * c.block_size + (r - block_overhead)
  unfolding plain_len
  plain_len_split q r h =
      let body : block_offset c q + r - header_len ≡ q * stored_block c + r = omega arith in
      rw body (ground (arith, div_split (stored_block c) q r h, mod_split (stored_block c) q r h))

  pub stored_len_split :
      (q r : ℕ)
      → r < c.block_size
      → 0 < q * c.block_size + r
      → stored_len c (q * c.block_size + r)
        ≡ block_offset c q + (if ltb 0 r then r + block_overhead else 0)
  unfolding stored_len
  stored_len_split q r h p =
      rw (div_split c.block_size q r h, mod_split c.block_size q r h) (ground arith)

  pub plain_len_small : (m : ℕ) → m ≤ header_len → plain_len c m ≡ 0
  unfolding plain_len
  plain_len_small m h = ground arith

  pub stored_len_zero : stored_len c 0 ≡ 0
  unfolding stored_len
  stored_len_zero = refl

  round_trip_split :
      (q r : ℕ)
      → r < c.block_size
      → plain_len c (stored_len c (q * c.block_size + r)) ≡ q * c.block_size + r
  round_trip_split q r h = elim (zero_or_pos (q * c.block_size + r)) [
    | inl e ↦ rw (e, stored_len_zero) (plain_len_small 0 (omega arith))
    | inr p ↦ rw (stored_len_split q r h p) (elim (zero_or_pos r) [
      | inl z ↦ ground (arith, plain_len_split q 0)
      | inr s ↦ ground (arith, plain_len_split q (r + block_overhead))
    ])
  ]

  galois_split :
      (q r k s : ℕ)
      → r < c.block_size
      → s < stored_block c
      → 0 < q * c.block_size + r
      → (stored_len c (q * c.block_size + r) ≤ block_offset c k + s)
        ↔ (q * c.block_size + r ≤ plain_len c (block_offset c k + s))
  galois_split q r k s hr hs p =
      rw (stored_len_split q r hr p, plain_len_split k s hs)
        (elim (compare_blocks c.block_size q k) [
          | inl below ↦ ground arith
          | inr (inl same) ↦ ground arith
          | inr (inr above) ↦ ground arith
        ])

  module _ (pos : 0 < c.block_size) where
    -- The plaintext length of a file that stores `n` bytes is `n`.
    pub plain_len-stored_len : (n : ℕ) → plain_len c (stored_len c n) ≡ n
    plain_len-stored_len n =
        rw (div-add-mod' n c.block_size) at
          (round_trip_split (n / c.block_size) (n % c.block_size) (mod-lt n pos))

    galois_pos :
        (n k s : ℕ)
        → 0 < n
        → s < stored_block c
        → (stored_len c n ≤ block_offset c k + s) ↔ (n ≤ plain_len c (block_offset c k + s))
    galois_pos n k s p h =
        let e : n / c.block_size * c.block_size + n % c.block_size ≡ n =
          div-add-mod' n c.block_size in
        rw e at (
          galois_split (n / c.block_size) (n % c.block_size) k s (mod-lt n pos) h
            (omega (arith, e)))

    pub stored_len_pos : (n : ℕ) → 0 < n → header_len < stored_len c n
    stored_len_pos n p =
        let (small, _) = galois_pos n 0 0 p (omega arith) in
        elim (le_or_lt (stored_len c n) header_len) [
          | inl h ↦ absurd (
              omega
                (arith, small (omega arith), plain_len_small (block_offset c 0 + 0) (omega arith)))
          | inr h ↦ h
        ]

    -- A file holds `n` bytes of plaintext exactly when its stored length is that of `n` or more:
    -- `stored_len` is the least length, and stray bytes that hold no byte do not count.
    pub stored_len-le_iff : (n m : ℕ) → (stored_len c n ≤ m) ↔ (n ≤ plain_len c m)
    stored_len-le_iff n m = elim (zero_or_pos n) [
      | inl e ↦ rw (e, stored_len_zero) (λ _. omega arith, λ _. omega arith)
      | inr p ↦ elim (le_or_lt m header_len) [
        | inl small ↦ (
          λ h. absurd (omega (arith, stored_len_pos n p)),
          λ h. absurd (omega (arith, plain_len_small m small)),
        )
        | inr large ↦
            let k = (m - header_len) / stored_block c in
            let s = (m - header_len) % stored_block c in
            let e : m ≡ block_offset c k + s =
              omega (arith, div-add-mod' (m - header_len) (stored_block c)) in
            rw e (galois_pos n k s p (mod-lt (m - header_len) (omega arith)))
      ]
    ]

    -- More stored bytes never hold less.
    pub plain_len_mono : (m k : ℕ) → m ≤ k → plain_len c m ≤ plain_len c k
    plain_len_mono m k h =
        (stored_len-le_iff (plain_len c m) k).0
          (omega (arith, (stored_len-le_iff (plain_len c m) m).1 (omega arith)))

  -- No length overflows: a file of up to 2 ^ 63 - 1 bytes of plaintext, in blocks of at least the
  -- smallest size, is stored in less than 2 ^ 64 bytes.
  pub stored_len-lt :
      (n : ℕ) → min_block_size ≤ c.block_size → n ≤ i64_max → stored_len c n < 2 ^ 64
  unfolding stored_len
  stored_len-lt n big h = ground (
    arith,
    div-add-mod' n c.block_size,
    mul-le-mul_left (n / c.block_size) big,
    mod-le n c.block_size,
  )
