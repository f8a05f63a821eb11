-- ===== src/Vault2/Content/Blocks.antt =====
-- `Codec::seal` and `Codec::open`: one encrypted block.
use desktop_folder_locker.Common.{
  ℕ, zero, suc, ◌+◌, ◌-◌, ◌^◌, ◌<◌, ◌≡◌, inl, inr, refl, sym, ap, ◌∙◌, false, true, Option, none,
  some, [], ◌∷◌, ◌++◌, length, take, drop, length-append, take-append_left, drop-append_left, arith,
  Option-cases,
}
use desktop_folder_locker.Vault2.Error.{Result, ok, err, corrupt}
use desktop_folder_locker.Vault2.Crypto.{IsLawful, Bytes, is_zero}
use desktop_folder_locker.Vault2.Content.Codec.{
  Codec, nonce_len, tag_len, block_overhead, aad, repeat, seal, open_block,
}

take_of_length : (n : ℕ) (xs ys : Bytes) → length xs ≡ n → take n (xs ++ ys) ≡ xs
take_of_length n xs ys e = ap (λ k. take k (xs ++ ys)) (sym e) ∙ take-append_left xs ys

drop_of_length : (n : ℕ) (xs ys : Bytes) → length xs ≡ n → drop n (xs ++ ys) ≡ ys
drop_of_length n xs ys e = ap (λ k. drop k (xs ++ ys)) (sym e) ∙ drop-append_left xs ys

pub length-repeat : (n b : ℕ) → length (repeat n b) ≡ n
unfolding repeat
length-repeat zero b = refl
length-repeat (suc n) b = ap suc (length-repeat n b)

is_zero-take : (n : ℕ) (xs : Bytes) → is_zero xs ≡ true → is_zero (take n xs) ≡ true
is_zero-take zero xs h = refl
is_zero-take (suc n) [] h = refl
is_zero-take (suc n) (x ∷ xs) h = ground (arith, is_zero-take n xs)

module _ (c : Codec) (id : Bytes) (index : ℕ) where
  abbrev decrypted : Option Bytes → Result Bytes
  decrypted none = err (corrupt "a file was changed or damaged")
  decrypted (some plain) = ok plain

  -- A block with these parts is decrypted, unless it is a hole.
  open_parts :
      (nonce body tag : Bytes)
      → length nonce ≡ nonce_len
      → length tag ≡ tag_len
      → 0 < length body
      → is_zero nonce ≡ false
      → open_block c id index (nonce ++ (body ++ tag)) (length body)
        ≡ decrypted (c.crypto.decrypt c.content nonce (aad id index) body tag)
  unfolding open_block
  open_parts nonce body tag hn ht p z =
      let e1 : take nonce_len (nonce ++ (body ++ tag)) ≡ nonce =
        take_of_length 24 nonce (body ++ tag) hn in
      let e2 : drop nonce_len (nonce ++ (body ++ tag)) ≡ body ++ tag =
        drop_of_length 24 nonce (body ++ tag) hn in
      let l : length (nonce ++ (body ++ tag)) ≡ length body + 40 =
        omega (arith, length-append nonce (body ++ tag), length-append body tag) in
      let k : length (body ++ tag) - tag_len ≡ length body =
        omega (arith, length-append body tag) in
      rw (e1, e2)
        (rw k
          (rw (take-append_left body tag, drop-append_left body tag) (rw z (ground (arith, l)))))

  -- A stored block that is all zero is a hole, and reads as zeros.
  pub open_hole :
      (n : ℕ) (stored : Bytes)
      → 0 < n
      → length stored ≡ n + block_overhead
      → is_zero stored ≡ true
      → open_block c id index stored n ≡ ok (repeat n 0)
  unfolding open_block
  open_hole n stored p l z = ground (arith, is_zero-take nonce_len stored z)

  -- What a sealed block is made of.
  pub seal-eq_ok :
      (draw : ℕ) (plain sealed : Bytes)
      → seal c draw id index plain ≡ ok sealed
      → (body : Bytes) × (tag : Bytes) × (c.crypto.encrypt c.content
            (c.crypto.fill_bytes draw nonce_len)
            (aad id index)
            plain
          ≡ some (body, tag))
        × (sealed ≡ c.crypto.fill_bytes draw nonce_len ++ (body ++ tag))
  unfolding seal
  seal-eq_ok draw plain sealed h =
      elim (Option-cases
        (c.crypto.encrypt c.content (c.crypto.fill_bytes draw nonce_len) (aad id index) plain)) [
          | inl e ↦ ground arith
          | inr ((body, tag), e) ↦ (body, tag, e, ground arith)
        ]

  module _ (L : IsLawful c.crypto) where
    -- Encryption of a block does not fail.
    pub seal_total :
        (draw : ℕ) (plain : Bytes)
        → length plain < 2 ^ 38
        → (sealed : Bytes) × (seal c draw id index plain ≡ ok sealed)
    unfolding seal
    seal_total draw plain small =
        let nonce = c.crypto.fill_bytes draw nonce_len in
        let (body, tag, e) = L.encrypts c.content nonce (aad id index) plain small in
        (nonce ++ (body ++ tag), rw (e, seal))

    -- A sealed block is 40 bytes longer than its plaintext.
    pub length-seal :
        (draw : ℕ) (plain sealed : Bytes)
        → seal c draw id index plain ≡ ok sealed
        → length sealed ≡ length plain + block_overhead
    length-seal draw plain sealed h =
        let nonce = c.crypto.fill_bytes draw nonce_len in
        let (body, tag, e, parts) = seal-eq_ok draw plain sealed h in
        rw parts (
          omega (
            arith,
            length-append nonce (body ++ tag),
            length-append body tag,
            L.length-fill_bytes draw nonce_len,
            L.length_body c.content nonce (aad id index) plain body tag e,
            L.length_tag c.content nonce (aad id index) plain body tag e,
          ))

    -- A sealed block opens to its plaintext, under the same file id and index.
    pub open-seal :
        (draw : ℕ) (plain sealed : Bytes)
        → 0 < length plain
        → seal c draw id index plain ≡ ok sealed
        → open_block c id index sealed (length plain) ≡ ok plain
    open-seal draw plain sealed p h =
        let nonce = c.crypto.fill_bytes draw nonce_len in
        let (body, tag, e, parts) = seal-eq_ok draw plain sealed h in
        let same : length body ≡ length plain =
          L.length_body c.content nonce (aad id index) plain body tag e in
        rw (parts, ← same)
          (open_parts nonce body tag (L.length-fill_bytes draw nonce_len)
              (L.length_tag c.content nonce (aad id index) plain body tag e) (omega arith)
              (L.nonzero draw)
            ∙ rw (L.decrypt-encrypt c.content nonce (aad id index) plain body tag e))
