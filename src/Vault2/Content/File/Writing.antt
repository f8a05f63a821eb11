-- ===== src/Vault2/Content/File/Writing.antt =====
-- `write_at`, `append` and `write_within`, with the loop of `write_locked`.
use desktop_folder_locker.Common.{
  ℕ, zero, suc, ◌+◌, ◌-◌, ◌*◌, ◌/◌, ◌||◌, min, max, Bool, true, false, [], ◌∷◌, ◌++◌, length, take,
  drop, leb, ltb, if◌then◌else◌,
}
use desktop_folder_locker.Vault2.Error.{Action, pure, raise, lift, gets, modify, ◌>>=◌, ◌>>◌}
use desktop_folder_locker.Vault2.Crypto.{Bytes}
use desktop_folder_locker.Vault2.Content.Disk.{slice, patch}
use desktop_folder_locker.Vault2.Content.Codec.{Codec, block_overhead, block_offset, open_block}
use desktop_folder_locker.Vault2.Content.File.Opening.{State, i64_max, too_large, make_writable}
use desktop_folder_locker.Vault2.Content.File.Growing.{
  len, seal_next, ensure_header, read_stored, write_stored, grow,
}

module _ (c : Codec) where
  -- One step of the loop of `write_locked`: the plaintext buffer, which keeps what the step before
  -- left in it, is loaded with the old block unless all of that is overwritten.
  unfoldable pub load_block : Bytes → ℕ → ℕ → Bool → (ℕ → ℕ) → Action State (ℕ → ℕ)
  load_block id index old_len false plain = pure plain
  load_block id index old_len true plain = do
    old ← read_stored c (block_offset c index) (old_len + block_overhead)
    bytes ← lift (open_block c id index old old_len)
    pure (patch plain 0 bytes)

  module _ (id : Bytes) (offset finish size : ℕ) (bytes : Bytes) where
    abbrev pub old_len_at : ℕ → ℕ
    old_len_at index = min (size - index * c.block_size) c.block_size

    abbrev pub from_at : ℕ → ℕ
    from_at index = max offset (index * c.block_size) - index * c.block_size

    abbrev pub to_at : ℕ → ℕ
    to_at index = min finish (index * c.block_size + c.block_size) - index * c.block_size

    -- `data[source..source + to - from]`
    abbrev pub piece_at : ℕ → Bytes
    piece_at index =
        take (to_at index - from_at index)
          (drop (index * c.block_size + from_at index - offset) bytes)

    -- `index` and the `n - 1` blocks after it: the loop of `write_locked`.
    unfoldable pub seal_blocks : ℕ → ℕ → (ℕ → ℕ) → Action State Bytes
    seal_blocks zero index plain = pure []
    seal_blocks (suc n) index plain = do
      let partly = ltb 0 (from_at index) || ltb (to_at index) (old_len_at index)
      loaded ← load_block id index (old_len_at index) partly plain
      let patched = patch loaded (from_at index) (piece_at index)
      sealed ← seal_next c id index (slice patched 0 (max (old_len_at index) (to_at index)))
      rest ← seal_blocks n (suc index) patched
      pure (sealed ++ rest)

  unfoldable pub write_locked : ℕ → Bytes → Action State ℕ
  write_locked offset [] = pure 0
  write_locked offset (b ∷ bytes) =
      let finish = offset + length (b ∷ bytes) in
      if ltb i64_max finish then raise too_large else do
        make_writable
        size ← gets (len c)
        if ltb size offset then grow c offset else pure tt
        id ← ensure_header c
        size ← gets (len c)
        let first = offset / c.block_size
        let last = (finish - 1) / c.block_size
        out ← seal_blocks id offset finish size (b ∷ bytes) (suc last - first) first (λ _. 0)
        write_stored c (block_offset c first) out
        modify
            (λ st. record st { stored_len = max st.stored_len (block_offset c first + length out) })
        pure (length (b ∷ bytes))

  unfoldable pub write_at : ℕ → Bytes → Action State ℕ
  write_at offset bytes = write_locked offset bytes

  unfoldable pub append : Bytes → Action State ℕ
  append bytes = do write_locked (← gets (len c)) bytes

  -- Paging I/O never grows a file.
  unfoldable pub write_within : ℕ → Bytes → Action State ℕ
  write_within offset bytes = do
    size ← gets (len c)
    if leb size offset
        then pure 0
        else write_locked offset (take (min (length bytes) (size - offset)) bytes)
