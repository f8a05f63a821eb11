-- ===== src/Vault2/Content/File/Resizing.antt =====
-- `set_len`.
use desktop_folder_locker.Common.{
  ℕ, ◌+◌, ◌-◌, ◌*◌, ◌/◌, ◌%◌, min, none, some, take, ltb, ◌==◌, if◌then◌else◌,
}
use desktop_folder_locker.Vault2.Error.{
  ok, err, corrupt, Action, pure, raise, lift, gets, modify, ◌>>=◌, ◌>>◌,
}
use desktop_folder_locker.Vault2.Crypto.{Bytes}
use desktop_folder_locker.Vault2.Content.Codec.{
  Codec, block_overhead, block_offset, stored_len as stored_len_of, open_block,
}
use desktop_folder_locker.Vault2.Content.File.Opening.{State, i64_max, too_large, make_writable}
use desktop_folder_locker.Vault2.Content.File.Growing.{
  len, seal_next, read_stored, write_stored, truncate_stored, grow,
}

module _ (c : Codec) where
  -- The new last block gets shorter, so it is encrypted again.
  unfoldable pub cut_last : Bytes → ℕ → ℕ → Action State (Unit {0})
  cut_last id size new_len = do
    let index = new_len / c.block_size
    let keep = new_len % c.block_size
    let old_len = min (size - index * c.block_size) c.block_size
    old ← read_stored c (block_offset c index) (old_len + block_overhead)
    plain ← lift (open_block c id index old old_len)
    sealed ← seal_next c id index (take keep plain)
    write_stored c (block_offset c index) sealed

  unfoldable pub clear : Action State (Unit {0})
  clear = do truncate_stored c 0; modify (λ st. record st { stored_len = 0; id = none })

  unfoldable pub header_id : Action State Bytes
  header_id st = elim st.id [
    | none ↦ (err (corrupt "a file has no header"), st)
    | some id ↦ (ok id, st)
  ]

  unfoldable pub shrink : ℕ → ℕ → Action State (Unit {0})
  shrink size new_len = do
    id ← header_id
    if ltb 0 (new_len % c.block_size) then cut_last id size new_len else pure tt
    truncate_stored c (stored_len_of c new_len)
    modify (λ st. record st { stored_len = stored_len_of c new_len })

  unfoldable pub resize : ℕ → ℕ → Action State (Unit {0})
  resize size new_len =
      if ltb size new_len
      then grow c new_len
      else if new_len == 0
      then clear
      else shrink size new_len

  unfoldable pub set_len : ℕ → Action State (Unit {0})
  set_len new_len = if ltb i64_max new_len then raise too_large else do
    size ← gets (len c)
    if new_len == size then pure tt else (make_writable >> resize size new_len)
