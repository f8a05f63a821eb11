-- ===== src/Vault2/Content/File/Reading.antt =====
-- `read_at` with its loop.
use desktop_folder_locker.Common.{
  ℕ, zero, suc, ◌+◌, ◌-◌, ◌*◌, ◌/◌, ◌&&◌, ◌||◌, min, max, none, some, [], ◌∷◌, ◌++◌, length, take,
  drop, leb, ◌==◌, if◌then◌else◌,
}
use desktop_folder_locker.Vault2.Error.{Result, ok, err, corrupt, Action}
use desktop_folder_locker.Vault2.Crypto.{Bytes}
use desktop_folder_locker.Vault2.Content.Disk.{read_exact_at}
use desktop_folder_locker.Vault2.Content.Codec.{
  Codec, block_overhead, stored_block, block_offset, open_block,
}
use desktop_folder_locker.Vault2.Content.File.Opening.{State}
use desktop_folder_locker.Vault2.Content.File.Growing.{len}

module _ (c : Codec) where
  -- The stored blocks of a read: `stored.chunks(stored_block)`.
  module _ (id : Bytes) (offset finish : ℕ) where
    unfoldable pub read_chunk : ℕ → Bytes → Result Bytes
    read_chunk index chunk =
        let start = index * c.block_size in
        let n = length chunk - block_overhead in
        let from = max offset start - start in
        let to = min finish (start + n) - start in
        elim (open_block c id index chunk n) [
          | err e ↦ err e
          | ok plain ↦
              ok (if from == 0 && to == n then plain else take (to - from) (drop from plain))
        ]

    unfoldable pub read_chunks : ℕ → ℕ → Bytes → Result Bytes
    read_chunks zero index stored = ok []
    read_chunks (suc fuel) index [] = ok []
    read_chunks (suc fuel) index (b ∷ stored) =
        elim (read_chunk index (take (stored_block c) (b ∷ stored))) [
          | err e ↦ err e
          | ok piece ↦ elim (read_chunks fuel (suc index) (drop (stored_block c) (b ∷ stored))) [
            | err e ↦ err e
            | ok rest ↦ ok (piece ++ rest)
          ]
        ]

  -- At most `n` bytes from `offset` on: what the buffer holds, up to the number returned.
  unfoldable pub read_at : ℕ → ℕ → Action State Bytes
  read_at offset n st =
      let size = len c st in
      if n == 0 || leb size offset then (ok [], st) else elim st.id [
        | none ↦ (err (corrupt "a file has no header"), st)
        | some id ↦
            let finish = min size (offset + n) in
            let first = offset / c.block_size in
            let last = (finish - 1) / c.block_size in
            let start = block_offset c first in
            let stop = min st.stored_len (block_offset c (suc last)) in
            elim (read_exact_at st.disk start (stop - start)) [
              | err e ↦ (err e, st)
              | ok stored ↦ (read_chunks id offset finish (length stored) first stored, st)
            ]
      ]
