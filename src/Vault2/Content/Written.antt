-- ===== src/Vault2/Content/Written.antt =====
-- `write_at`, `append` and `write_within`: writing to an encrypted file writes to the plain file
-- that it holds.
use native.Mathlib.Nat.{div-add-mod', mod-lt, le-div_iff_mul-le}
use desktop_folder_locker.Common.{
  ℕ, suc, ◌+◌, ◌-◌, ◌*◌, ◌/◌, ◌≤◌, ◌<◌, ◌≡◌, inl, inr, refl, sym, ap, ◌∙◌, max, length, true, arith,
  some, ltb, [], ◌∷◌, le→ltb, lt→ltb, if◌then◌else◌,
}
use desktop_folder_locker.Vault2.Error.{ok, pure}
use desktop_folder_locker.Vault2.Crypto.{Bytes}
use desktop_folder_locker.Vault2.Content.Disk.{
  Disk, padded, write_all_at, write_all_at-eq, set_len as truncate, len-set_len, padded-set_len,
  patch_congr,
}
use desktop_folder_locker.Vault2.Content.Codec.{Codec, header_len, plain_len}
use desktop_folder_locker.Vault2.Content.Lengths.{le_or_lt}
use desktop_folder_locker.Vault2.Content.Holds.{Holds, Holds-congr, Holds-draws, IsUsable}
use desktop_folder_locker.Vault2.Content.Header.{ensure_header-Holds}
use desktop_folder_locker.Vault2.Content.Grown.{grow-Holds}
use desktop_folder_locker.Vault2.Content.Resize.{CanWrite, make_writable-Holds}
use desktop_folder_locker.Vault2.Content.Write.{seal_blocks-Sealing}
use desktop_folder_locker.Vault2.Content.WrittenBlocks.{written-Holds, written}
use desktop_folder_locker.Vault2.Content.File.{
  State, i64_max, len, make_writable, ensure_header, grow, seal_blocks, write_stored, write_locked,
  write_at,
}

module _ (c : Codec) (U : IsUsable c) where
  write_locked_run :
      (st s1 s2 s3 : State) (id : Bytes) (offset size size' draws b : ℕ) (bytes out : Bytes)
      → offset + length (b ∷ bytes) ≤ i64_max
      → make_writable st ≡ (ok tt, s1)
      → plain_len c s1.stored_len ≡ size
      → (if ltb size offset then grow c offset else pure tt) s1 ≡ (ok tt, s2)
      → ensure_header c s2 ≡ (ok id, s3)
      → plain_len c s3.stored_len ≡ size'
      → let first = offset / c.block_size in
        let last = (offset + length (b ∷ bytes) - 1) / c.block_size in
        seal_blocks c id offset
            (offset + length (b ∷ bytes))
            size'
            (b ∷ bytes)
            (suc last - first)
            first
            (λ _. 0)
            s3
          ≡ (ok out, record s3 { draws = draws })
        → write_locked c offset (b ∷ bytes) st
          ≡ (ok (length (b ∷ bytes)), record (written c U s3 first out) { draws = draws })
  unfolding write_locked write_stored len
  write_locked_run st s1 s2 s3 id offset size size' draws b bytes out small e1 e2 e3 e4 e5 e6 =
      ground arith

  -- The gap before the write is filled first.
  fill_gap :
      (st : State) (plain : Disk) (offset : ℕ)
      → Holds c st plain
      → (st' : State) × (plain' : Disk) × ((if ltb plain.len offset then grow c offset else pure tt)
            st
          ≡ (ok tt, st'))
        × Holds c st' plain'
        × (plain'.len ≡ max plain.len offset)
        × ((q : ℕ) → padded plain' q ≡ padded plain q)
        × (st'.writable ≡ st.writable)
  fill_gap st plain offset h = elim (le_or_lt offset plain.len) [
    | inl there ↦ (st, plain, rw (le→ltb plain.len offset there), h, omega arith, λ _. refl, refl)
    | inr gap ↦
        let (st', e, h', kept) = grow-Holds c U st plain offset h (omega arith) (omega arith) in
        (
          st',
          truncate plain offset,
          rw (lt→ltb plain.len offset gap) e,
          h',
          len-set_len plain offset ∙ omega arith,
          λ q. padded-set_len plain offset q (omega arith),
          kept,
        )
  ]

  same_view :
      (plain plain' : Disk) (offset : ℕ) (bytes : Bytes)
      → 0 < length bytes
      → plain'.len ≡ max plain.len offset
      → ((q : ℕ) → padded plain' q ≡ padded plain q)
      → (st : State) → Holds c st (write_all_at plain' offset bytes)
      → Holds c st (write_all_at plain offset bytes)
  same_view plain plain' offset bytes p longer same st h =
      rw (write_all_at-eq plain offset bytes p) (
        Holds-congr c st _ _ (omega (arith, longer))
          (λ q _. sym (patch_congr (padded plain') (padded plain) offset bytes q (same q)))
          (rw (write_all_at-eq plain' offset bytes p) at h))

  -- Sealing and writing the blocks that the write touches.
  write_blocks :
      (st : State) (id : Bytes) (plain : Disk) (offset : ℕ) (bytes : Bytes) (first m : ℕ)
      → Holds c st plain
      → st.id ≡ some id
      → header_len ≤ st.stored_len
      → offset ≤ plain.len
      → 0 < length bytes
      → first * c.block_size ≤ offset
      → offset < first * c.block_size + c.block_size
      → (first + m) * c.block_size < offset + length bytes
      → offset + length bytes ≤ (first + m) * c.block_size + c.block_size
      → (out : Bytes) × (draws : ℕ) × (seal_blocks c id offset
            (offset + length bytes)
            plain.len
            bytes
            (suc m)
            first
            (λ _. 0)
            st
          ≡ (ok out, record st { draws = draws }))
        × Holds c
            (record (written c U st first out) { draws = draws })
            (write_all_at plain offset bytes)
  write_blocks st id plain offset bytes first m h e long le some_bytes b1 b2 e1 e2 =
      let (out, draws, run, l, sealed) =
        seal_blocks-Sealing c U id plain offset bytes m first (λ _. 0) st h e le b2 e1 in
      (
        out,
        draws,
        run,
        Holds-draws c (written c U st first out) (write_all_at plain offset bytes) draws (
            written-Holds c U st id plain offset bytes out first m h e long le some_bytes b1 b2 e1
              e2 l sealed),
      )

  write_touched :
      (st : State) (id : Bytes) (plain : Disk) (offset : ℕ) (bytes : Bytes)
      → Holds c st plain
      → st.id ≡ some id
      → header_len ≤ st.stored_len
      → offset ≤ plain.len
      → 0 < length bytes
      → let first = offset / c.block_size in
        let last = (offset + length bytes - 1) / c.block_size in
        (out : Bytes) × (draws : ℕ) × (seal_blocks c id offset
            (offset + length bytes)
            plain.len
            bytes
            (suc last - first)
            first
            (λ _. 0)
            st
          ≡ (ok out, record st { draws = draws }))
        × Holds c
            (record (written c U st first out) { draws = draws })
            (write_all_at plain offset bytes)
  write_touched st id plain offset bytes h e long le some_bytes =
      let first = offset / c.block_size in
      let last = (offset + length bytes - 1) / c.block_size in
      let d1 = div-add-mod' offset c.block_size in
      let m1 = mod-lt offset U.pos in
      let d2 = div-add-mod' (offset + length bytes - 1) c.block_size in
      let m2 = mod-lt (offset + length bytes - 1) U.pos in
      let order : first ≤ last =
        (le-div_iff_mul-le {k = c.block_size} {x = first} {y = offset + length bytes - 1} U.pos).1
          (omega arith) in
      let count : suc last - first ≡ suc (last - first) = omega arith in
      let until : (first + (last - first)) * c.block_size ≡ last * c.block_size =
        ap (λ k. k * c.block_size) (let z : first + (last - first) ≡ last = omega arith in z) in
      rw count (
        write_blocks st id plain offset bytes first (last - first) h e long le some_bytes
          (omega arith) (omega arith) (omega arith) (omega arith))

  write_some :
      (st : State) (plain : Disk) (offset b : ℕ) (bytes : Bytes)
      → Holds c st plain
      → CanWrite st
      → offset + length (b ∷ bytes) ≤ i64_max
      → (st' : State) × (write_locked c offset (b ∷ bytes) st ≡ (ok (length (b ∷ bytes)), st'))
        × Holds c st' (write_all_at plain offset (b ∷ bytes))
        × (st'.writable ≡ true)
  write_some st plain offset b bytes h can small =
      let (s1, e1, h1, is_open, _) = make_writable-Holds c U st plain can h in
      let (s2, plain', e2, h2, longer, same, kept) = fill_gap s1 plain offset h1 in
      let (id, s3, e3, h3, i3, long, kept') = ensure_header-Holds c U.law s2 plain' h2 in
      let (out, draws, e4, h4) =
        write_touched s3 id plain' offset (b ∷ bytes) h3 i3 long (omega (arith, longer))
          (omega arith) in
      (
        record (written c U s3 (offset / c.block_size) out) { draws = draws },
        write_locked_run st s1 s2 s3 id offset plain.len plain'.len draws b bytes out small e1
            h1.size e2 e3 h3.size e4,
        same_view plain plain' offset (b ∷ bytes) (omega arith) longer same _ h4,
        kept' ∙ kept ∙ is_open,
      )

  -- `write_at` that ends before 2 ^ 63 succeeds on a file that can be changed, reports all bytes
  -- as written, and does to the plain file what a write does to a file: the bytes stand at
  -- `offset`, a gap after the old end reads as zeros, and nothing else changes.
  pub write_at-Holds :
      (st : State) (plain : Disk) (offset : ℕ) (bytes : Bytes)
      → Holds c st plain
      → CanWrite st
      → offset + length bytes ≤ i64_max
      → (st' : State) × (write_at c offset bytes st ≡ (ok (length bytes), st'))
        × Holds c st' (write_all_at plain offset bytes)
  unfolding write_at write_locked write_all_at
  write_at-Holds st plain offset [] h can small = (st, refl, h)
  write_at-Holds st plain offset (b ∷ bytes) h can small =
      let (st', e, h', _) = write_some st plain offset b bytes h can small in (st', e, h')

  -- After a write the file can be changed.
  pub write_at-CanWrite :
      (st : State) (plain : Disk) (offset : ℕ) (bytes : Bytes)
      → Holds c st plain
      → CanWrite st
      → offset + length bytes ≤ i64_max
      → (st' : State) × (write_at c offset bytes st ≡ (ok (length bytes), st'))
        × Holds c st' (write_all_at plain offset bytes)
        × CanWrite st'
  unfolding write_at write_locked write_all_at
  write_at-CanWrite st plain offset [] h can small = (st, refl, h, can)
  write_at-CanWrite st plain offset (b ∷ bytes) h can small =
      let (st', e, h', is_open) = write_some st plain offset b bytes h can small in
      (st', e, h', inl is_open)
