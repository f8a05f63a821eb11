-- ===== src/Vault2/Content/Read.antt =====
-- `read_at`: what is read from an encrypted file is what the plain file holds.
use native.Mathlib.Nat.{div-add-mod', mod-lt, add-mul, le-div_iff_mul-le}
use desktop_folder_locker.Common.{
  ℕ, suc, ◌+◌, ◌-◌, ◌*◌, ◌/◌, ◌≤◌, ◌<◌, ◌≡◌, ◌⊎◌, inl, inr, ap, ◌∙◌, min, max, length, arith, some,
  [], ◌∷◌,
}
use desktop_folder_locker.Vault2.Error.{ok}
use desktop_folder_locker.Vault2.Crypto.{Bytes}
use desktop_folder_locker.Vault2.Content.Disk.{
  Disk, slice, slice-eq, patch, patch_inside, padded, write_all_at, length-slice, read_exact_at,
  read_exact_at-eq_ok,
}
use desktop_folder_locker.Vault2.Content.Codec.{
  Codec, block_overhead, stored_block, block_offset, plain_len,
}
use desktop_folder_locker.Vault2.Content.Lengths.{le_or_lt, zero_or_pos}
use desktop_folder_locker.Vault2.Content.Holds.{Holds, IsUsable, block_len}
use desktop_folder_locker.Vault2.Content.Grow.{block_stored, partial_stored_len}
use desktop_folder_locker.Vault2.Content.Resize.{CanWrite}
use desktop_folder_locker.Vault2.Content.Cut.{id_of_pos}
use desktop_folder_locker.Vault2.Content.Written.{write_at-Holds}
use desktop_folder_locker.Vault2.Content.Chunks.{read_chunks-eq}
use desktop_folder_locker.Vault2.Content.File.{State, i64_max, write_at, len, read_chunks, read_at}

pub written_back :
    (d : Disk) (offset : ℕ) (bytes : Bytes)
    → slice
        (write_all_at d offset bytes).byte
        offset
        (min (length bytes) ((write_all_at d offset bytes).len - offset))
      ≡ bytes
unfolding write_all_at slice
written_back d offset [] =
    ap (slice d.byte offset) (let z : min 0 (d.len - offset) ≡ 0 = omega arith in z)
written_back d offset (b ∷ bytes) =
    ap (slice (patch (padded d) offset (b ∷ bytes)) offset) (
      let z : min (suc (length bytes)) (max d.len (offset + suc (length bytes)) - offset)
          ≡ suc (length bytes) =
        omega arith in
      z)
    ∙ slice-eq (patch (padded d) offset (b ∷ bytes)) offset (b ∷ bytes)
        (λ k l. patch_inside (padded d) offset (b ∷ bytes) k l)

module _ (c : Codec) where
  read_at_nothing :
      (st : State) (size offset n : ℕ)
      → plain_len c st.stored_len ≡ size
      → (n ≡ 0) ⊎ (size ≤ offset)
      → read_at c offset n st ≡ (ok [], st)
  unfolding read_at len
  read_at_nothing st size offset n e h = ground arith

  read_at_run :
      (st : State) (size offset n : ℕ) (id stored out : Bytes)
      → plain_len c st.stored_len ≡ size
      → 0 < n
      → offset < size
      → st.id ≡ some id
      → let finish = min size (offset + n) in
        let first = offset / c.block_size in
        let last = (finish - 1) / c.block_size in
        let start = block_offset c first in
        let stop = min st.stored_len (block_offset c (suc last)) in
        read_exact_at st.disk start (stop - start) ≡ ok stored
        → read_chunks c id offset finish (length stored) first stored ≡ ok out
        → read_at c offset n st ≡ (ok out, st)
  unfolding read_at len
  read_at_run st size offset n id stored out e p less i h1 h2 = ground arith

  -- The stored bytes from a block on to the end of the block `last`.
  stop_of :
      0 < c.block_size
      → (m last size : ℕ) → plain_len c m ≡ size
      → last * c.block_size < size
      → min m (block_offset c (suc last))
        ≡ block_offset c last + (block_len c size last + block_overhead)
  stop_of pos m last size e h = elim (le_or_lt (last * c.block_size + c.block_size) size) [
    | inl full ↦ omega (arith, block_stored c pos m last (omega arith))
    | inr part ↦ omega (
      arith,
      partial_stored_len c pos last (size - last * c.block_size) m (omega arith) (omega arith)
          (omega arith),
    )
  ]

  blocks_apart :
      (first count last : ℕ)
      → first + count ≡ last
      → count * stored_block c + block_offset c first ≡ block_offset c last
  blocks_apart first count last e = rw (← e) (omega (arith, add-mul first count (stored_block c)))

  read_some :
      IsUsable c
      → (st : State) (plain : Disk) (offset n : ℕ) → Holds c st plain
      → 0 < n
      → offset < plain.len
      → read_at c offset n st
        ≡ (ok (slice plain.byte offset (min plain.len (offset + n) - offset)), st)
  read_some U st plain offset n h p less =
      let (id, i) = id_of_pos c U st plain h (omega arith) in
      let finish = min plain.len (offset + n) in
      let first = offset / c.block_size in
      let last = (finish - 1) / c.block_size in
      let d1 = div-add-mod' offset c.block_size in
      let m1 = mod-lt offset U.pos in
      let d2 = div-add-mod' (finish - 1) c.block_size in
      let m2 = mod-lt (finish - 1) U.pos in
      let inside : last * c.block_size < finish = omega arith in
      let order : first ≤ last =
        (le-div_iff_mul-le {k = c.block_size} {x = first} {y = finish - 1} U.pos).1 (omega arith) in
      let count = last - first in
      let n_stored = count * stored_block c + (block_len c plain.len last + block_overhead) in
      let apart : count * stored_block c + block_offset c first ≡ block_offset c last =
        blocks_apart first count last (omega arith) in
      let stop = stop_of U.pos st.stored_len last plain.len h.size (omega arith) in
      let fits = block_stored c U.pos st.stored_len last (omega (arith, h.size)) in
      let e1 : read_exact_at st.disk (block_offset c first)
            (min st.stored_len (block_offset c (suc last)) - block_offset c first)
          ≡ ok (slice st.disk.byte (block_offset c first) n_stored) =
        ap (read_exact_at st.disk (block_offset c first)) (
          let z : min st.stored_len (block_offset c (suc last)) - block_offset c first ≡ n_stored =
            omega arith in
          z)
        ∙ read_exact_at-eq_ok st.disk (block_offset c first) n_stored
            (omega (arith, h.stored, h.size)) in
      let start_at : max offset (first * c.block_size) ≡ offset = omega arith in
      read_at_run st plain.len offset n id _ (slice plain.byte offset (finish - offset)) h.size p
        less i e1
        (read_chunks-eq c st plain id offset finish U.pos h i (omega arith) (omega arith) last
            inside (omega arith) count _ first
            (omega (arith, length-slice st.disk.byte (block_offset c first) n_stored)) (omega arith)
            (omega arith)
          ∙ ap (λ q. ok (slice plain.byte q (finish - q))) start_at)

  -- `read_at` succeeds, changes nothing, and returns what a read of the plain file returns: the
  -- bytes from `offset` on, as many as asked for or as there are up to the end of the file.
  pub read_at-Holds :
      IsUsable c
      → (st : State) (plain : Disk) (offset n : ℕ) → Holds c st plain
      → read_at c offset n st ≡ (ok (slice plain.byte offset (min n (plain.len - offset))), st)
  unfolding slice
  read_at-Holds U st plain offset n h = elim (le_or_lt plain.len offset) [
    | inl past ↦
        read_at_nothing st plain.len offset n h.size (inr past)
        ∙ ap (λ k. (ok (slice plain.byte offset k), st))
            (let z : 0 ≡ min n (plain.len - offset) = omega arith in z)
    | inr less ↦ elim (zero_or_pos n) [
      | inl none_asked ↦
          read_at_nothing st plain.len offset n h.size (inl none_asked)
          ∙ ap (λ k. (ok (slice plain.byte offset k), st))
              (let z : 0 ≡ min n (plain.len - offset) = omega arith in z)
      | inr p ↦
          read_some U st plain offset n h p less
          ∙ ap (λ k. (ok (slice plain.byte offset k), st))
              (let z : min plain.len (offset + n) - offset ≡ min n (plain.len - offset) =
                  omega arith in
                z)
    ]
  ]

  -- What `write_at` wrote, `read_at` reads back.
  pub read_at-write_at :
      IsUsable c
      → (st : State) (plain : Disk) (offset : ℕ) (bytes : Bytes) → Holds c st plain
      → CanWrite st
      → offset + length bytes ≤ i64_max
      → (st' : State) × (write_at c offset bytes st ≡ (ok (length bytes), st'))
        × (read_at c offset (length bytes) st' ≡ (ok bytes, st'))
  read_at-write_at U st plain offset bytes h can small =
      let (st', e, h') = write_at-Holds c U st plain offset bytes h can small in
      (
        st',
        e,
        read_at-Holds U st' _ offset (length bytes) h'
            ∙ ap (λ bytes. (ok bytes, st')) (written_back plain offset bytes),
      )
