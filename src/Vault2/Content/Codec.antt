-- ===== src/Vault2/Content/Codec.antt =====
-- `Codec`: the layout of a stored file, and the encryption of one block.
use desktop_folder_locker.Common.{
  ℕ, zero, suc, ◌+◌, ◌-◌, ◌*◌, ◌/◌, ◌%◌, ◌&&◌, ◌||◌, not, none, some, [], ◌∷◌, ◌++◌, length, take,
  drop, leb, ltb, ◌==◌, if◌then◌else◌, to_le_bytes,
}
use desktop_folder_locker.Vault2.Error.{Result, ok, err, corrupt}
use desktop_folder_locker.Vault2.Crypto.{Crypto, Bytes, is_zero}

abbrev pub header_len : ℕ
header_len = 32

abbrev pub nonce_len : ℕ
nonce_len = 24

abbrev pub tag_len : ℕ
tag_len = 16

abbrev pub block_overhead : ℕ
block_overhead = nonce_len + tag_len

abbrev pub min_block_size : ℕ
min_block_size = 4096

abbrev pub max_block_size : ℕ
max_block_size = 1048576

pub record Codec : Type 0 where
  pub crypto : Crypto
  -- The key of the cipher.
  pub content : Bytes
  pub block_size : ℕ

-- `Codec::new`
unfoldable pub new : Crypto → Bytes → ℕ → Result Codec
new crypto content block_size =
    if not (leb min_block_size block_size && leb block_size max_block_size)
    then err (corrupt "unsupported block size")
    else ok (record { crypto = crypto; content = content; block_size = block_size })

unfoldable pub repeat : ℕ → ℕ → Bytes
repeat zero b = []
repeat (suc n) b = b ∷ repeat n b

abbrev pub aad : Bytes → ℕ → Bytes
aad id index = id ++ to_le_bytes 8 index

module _ (c : Codec) where
  abbrev pub stored_block : ℕ
  stored_block = c.block_size + block_overhead

  abbrev pub block_offset : ℕ → ℕ
  block_offset index = header_len + index * stored_block

  -- Stray bytes after the last block, too few to hold one, are ignored.
  unfoldable pub plain_len : ℕ → ℕ
  plain_len stored =
      if leb stored header_len
      then 0
      else let body = stored - header_len in
        let full = body / stored_block in
        let rest = body % stored_block in full * c.block_size + (rest - block_overhead)

  unfoldable pub stored_len : ℕ → ℕ
  stored_len plain =
      if plain == 0
      then 0
      else let block = c.block_size in
        let rest = plain % block in
        header_len
        + (plain / block) * stored_block
        + (if ltb 0 rest then rest + block_overhead else 0)

  -- The block's bytes, with the nonce that the given draw of the random numbers is.
  unfoldable pub seal : ℕ → Bytes → ℕ → Bytes → Result Bytes
  seal draw id index plain =
      let nonce = c.crypto.fill_bytes draw nonce_len in
      elim (c.crypto.encrypt c.content nonce (aad id index) plain) [
        | none ↦ err (corrupt "could not encrypt a block")
        | some (body, tag) ↦ ok (nonce ++ (body ++ tag))
      ]

  -- The plaintext of a stored block, for a buffer of `len` bytes.
  unfoldable pub open_block : Bytes → ℕ → Bytes → ℕ → Result Bytes
  unfolding repeat
  open_block id index stored len =
      if leb (length stored) block_overhead || not (len == length stored - block_overhead)
      then err (corrupt "a file has a damaged block")
      else let nonce = take nonce_len stored in
        let rest = drop nonce_len stored in
        let body = take (length rest - tag_len) rest in
        let tag = drop (length rest - tag_len) rest in
        if is_zero nonce && is_zero stored
        then ok (repeat len 0)
        else elim (c.crypto.decrypt c.content nonce (aad id index) body tag) [
          | none ↦ err (corrupt "a file was changed or damaged")
          | some plain ↦ ok plain
        ]
