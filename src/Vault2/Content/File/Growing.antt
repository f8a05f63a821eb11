-- ===== src/Vault2/Content/File/Growing.antt =====
-- `len`, `ensure_header` and `grow`, and what they do to the stored file.
use desktop_folder_locker.Common.{
  ℕ, suc, ◌+◌, ◌-◌, ◌*◌, ◌/◌, ◌%◌, min, max, none, some, ◌++◌, ltb, ◌==◌, if◌then◌else◌,
}
use desktop_folder_locker.Vault2.Error.{ok, Action, lift, gets, modify, ◌>>=◌, ◌>>◌}
use desktop_folder_locker.Vault2.Crypto.{Bytes}
use desktop_folder_locker.Vault2.Content.Disk.{read_exact_at, write_all_at, set_len as truncate}
use desktop_folder_locker.Vault2.Content.Codec.{
  Codec, header_len, block_overhead, block_offset, plain_len, stored_len as stored_len_of, repeat,
  seal, open_block,
}
use desktop_folder_locker.Vault2.Content.File.Opening.{State, file_id_len, header_of}

module _ (c : Codec) where
  -- `len`
  unfoldable pub len : State → ℕ
  len st = plain_len c st.stored_len

  unfoldable pub seal_next : Bytes → ℕ → Bytes → Action State Bytes
  seal_next id index plain st = (seal c st.draws id index plain, record st { draws = suc st.draws })

  unfoldable pub ensure_header : Action State Bytes
  ensure_header st = elim st.id [
    | some id ↦ (ok id, st)
    | none ↦
        let id = c.crypto.fill_bytes st.draws file_id_len in
        (
          ok id,
          record st {
            disk = write_all_at st.disk 0 (header_of id);
            id = some id;
            stored_len = max st.stored_len header_len;
            draws = suc st.draws;
          },
        )
  ]

  unfoldable pub read_stored : ℕ → ℕ → Action State Bytes
  read_stored pos n st = (read_exact_at st.disk pos n, st)

  unfoldable pub write_stored : ℕ → Bytes → Action State (Unit {0})
  write_stored pos bytes st = (ok tt, record st { disk = write_all_at st.disk pos bytes })

  unfoldable pub truncate_stored : ℕ → Action State (Unit {0})
  truncate_stored n st = (ok tt, record st { disk = truncate st.disk n })

  -- The last block, with zeros up to its new end.
  unfoldable pub pad_last : Bytes → ℕ → ℕ → Action State (Unit {0})
  pad_last id size len = do
    let index = size / c.block_size
    let partial = size % c.block_size
    let grown = min (len - index * c.block_size) c.block_size
    old ← read_stored (block_offset c index) (partial + block_overhead)
    plain ← lift (open_block c id index old partial)
    sealed ← seal_next id index (plain ++ repeat (grown - partial) 0)
    write_stored (block_offset c index) sealed

  -- Stray bytes after the last block are dropped, so that the new holes are all zeros.
  unfoldable pub drop_strays : ℕ → Action State (Unit {0})
  drop_strays size st =
      let exact = max header_len (stored_len_of c size) in
      if st.stored_len == exact then (ok tt, st) else truncate_stored exact st

  unfoldable pub grow : ℕ → Action State (Unit {0})
  grow new_len = do
    id ← ensure_header
    size ← gets len
    if ltb 0 (size % c.block_size) then pad_last id size new_len else drop_strays size
    truncate_stored (stored_len_of c new_len)
    modify (λ st. record st { stored_len = stored_len_of c new_len })
