-- ===== src/Vault2/Content/Write.antt =====
-- `write_at`: writing to an encrypted file writes to the plain file that it holds.
use native.Mathlib.Nat.{mul-le-mul_right}
use desktop_folder_locker.Common.{
  ℕ, zero, suc, ◌+◌, ◌*◌, ◌≤◌, ◌<◌, ◌≡◌, ◌||◌, inl, inr, refl, sym, ap, ◌∙◌, max, length, get_or,
  arith, some, Bool, ltb, ◌++◌, [], length-append, get_or-append_left, get_or-append_right,
}
use desktop_folder_locker.Vault2.Error.{ok}
use desktop_folder_locker.Vault2.Crypto.{Bytes}
use desktop_folder_locker.Vault2.Content.Disk.{Disk, slice, patch, padded}
use desktop_folder_locker.Vault2.Content.Codec.{
  Codec, block_overhead, stored_block, block_offset, seal,
}
use desktop_folder_locker.Vault2.Content.Lengths.{le_or_lt}
use desktop_folder_locker.Vault2.Content.Holds.{Holds, IsUsable, BlockAt, block_len}
use desktop_folder_locker.Vault2.Content.Loop
use desktop_folder_locker.Vault2.Content.File.{
  State, load_block, seal_next, seal_blocks, old_len_at, from_at, to_at, piece_at,
}

module _ (c : Codec) (id : Bytes) (offset finish size : ℕ) (bytes : Bytes) where
  abbrev partly_at : ℕ → Bool
  partly_at index =
      ltb 0 (from_at c id offset finish size bytes index)
      || ltb (to_at c id offset finish size bytes index)
          (old_len_at c id offset finish size bytes index)

  abbrev patched_at : ℕ → (ℕ → ℕ) → ℕ → ℕ
  patched_at index loaded =
      patch loaded (from_at c id offset finish size bytes index)
        (piece_at c id offset finish size bytes index)

  abbrev new_len_at : ℕ → ℕ
  new_len_at index =
      max (old_len_at c id offset finish size bytes index)
        (to_at c id offset finish size bytes index)

  seal_blocks-suc :
      (n index draws : ℕ) (st : State) (buffer loaded : ℕ → ℕ) (sealed rest : Bytes)
      → load_block c id index
          (old_len_at c id offset finish size bytes index)
          (partly_at index)
          buffer
          st
        ≡ (ok loaded, st)
      → seal c st.draws id index (slice (patched_at index loaded) 0 (new_len_at index)) ≡ ok sealed
      → seal_blocks c id offset finish size bytes n
          (suc index)
          (patched_at index loaded)
          (record st { draws = suc st.draws })
        ≡ (ok rest, record st { draws = draws })
      → seal_blocks c id offset finish size bytes (suc n) index buffer st
        ≡ (ok (sealed ++ rest), record st { draws = draws })
  unfolding seal_blocks seal_next
  seal_blocks-suc n index draws st buffer loaded sealed rest e1 e2 e3 = ground arith

  seal_blocks-zero :
      (index : ℕ) (st : State) (buffer : ℕ → ℕ)
      → seal_blocks c id offset finish size bytes zero index buffer st ≡ (ok [], st)
  unfolding seal_blocks
  seal_blocks-zero index st buffer = refl

module _ (c : Codec) (U : IsUsable c) (id : Bytes) (plain : Disk) (offset : ℕ) (bytes : Bytes) where
  abbrev pub finish : ℕ
  finish = offset + length bytes

  abbrev pub after : ℕ → ℕ
  after = patch (padded plain) offset bytes

  abbrev pub new_len : ℕ
  new_len = max plain.len finish

  -- `out` holds the `n` blocks from `index` on, as they are after the write.
  abbrev pub Sealed : Bytes → ℕ → ℕ → Type 0
  Sealed out index n =
      (f : ℕ → ℕ)
      → ((k : ℕ) → k < length out → f (block_offset c index + k) ≡ get_or out k 0)
      → (i : ℕ) → index ≤ i
      → i < index + n
      → BlockAt c id f after i (block_len c new_len i)

  -- What the loop returns for the `suc n` blocks from `index` on.
  abbrev pub Sealing : ℕ → ℕ → (ℕ → ℕ) → State → Type 0
  Sealing n index buffer st =
      (out : Bytes) × (draws : ℕ) × (seal_blocks c id offset finish plain.len bytes (suc n) index
          buffer st
        ≡ (ok out, record st { draws = draws }))
      × (length out ≡ n * stored_block c + (block_len c new_len (index + n) + block_overhead))
      × Sealed out index (suc n)

  pub seal_blocks-Sealing :
      (n index : ℕ) (buffer : ℕ → ℕ) (st : State)
      → Holds c st plain
      → st.id ≡ some id
      → offset ≤ plain.len
      → offset < index * c.block_size + c.block_size
      → (index + n) * c.block_size < finish
      → Sealing n index buffer st
  seal_blocks-Sealing zero index buffer st h e le first last =
      let (loaded, sealed, e1, e2, l, block) =
        Loop.step c U id plain offset bytes index st buffer h e (omega arith) in
      let same : new_len_at c id offset finish plain.len bytes index ≡ block_len c new_len index =
        omega arith in
      (
        sealed ++ [],
        suc st.draws,
        seal_blocks-suc c id offset finish plain.len bytes zero index (suc st.draws) st buffer
            loaded sealed [] e1 e2
            (seal_blocks-zero c id offset finish plain.len bytes (suc index) _ _),
        omega (arith, length-append sealed [], l, same),
        λ f agrees i lo hi.
            let here : i ≡ index = omega arith in
            rw here (
              rw (← same) (
                block f λ k below.
                  agrees k (omega (arith, length-append sealed []))
                  ∙ get_or-append_left sealed [] k 0 below)),
      )
  seal_blocks-Sealing (suc n) index buffer st h e le first last =
      let more : suc index * c.block_size ≤ (index + suc n) * c.block_size =
        mul-le-mul_right c.block_size (omega arith) in
      let (loaded, sealed, e1, e2, l, block) =
        Loop.step c U id plain offset bytes index st buffer h e (omega arith) in
      let same : new_len_at c id offset finish plain.len bytes index ≡ block_len c new_len index =
        omega arith in
      let full : block_len c new_len index ≡ c.block_size = omega arith in
      let (rest, draws, e3, lr, blocks) =
        seal_blocks-Sealing n (suc index)
          (patched_at c id offset finish plain.len bytes index loaded)
          (record st { draws = suc st.draws })
          (record { stored = h.stored; size = h.size; header = h.header; blocks = h.blocks }) e le
          (omega arith) (omega arith) in
      let longer : length (sealed ++ rest)
          ≡ suc n * stored_block c + (block_len c new_len (suc index + n) + block_overhead) =
        omega (arith, length-append sealed rest, l, same, full, lr) in
      let place : index + suc n ≡ suc index + n = omega arith in
      (
        sealed ++ rest,
        draws,
        seal_blocks-suc c id offset finish plain.len bytes (suc n) index draws st buffer loaded
            sealed rest e1 e2 e3,
        longer
            ∙ ap (λ i. suc n * stored_block c + (block_len c new_len i + block_overhead))
                (sym place),
        λ f agrees i lo hi. elim (le_or_lt i index) [
          | inl same_block ↦
              let here : i ≡ index = omega arith in
              rw here (
                rw (← same) (
                  block f λ k below.
                    agrees k (omega (arith, length-append sealed rest))
                    ∙ get_or-append_left sealed rest k 0 below))
          | inr later ↦
              blocks f
                (λ k below.
                  ap f (
                    let z : block_offset c (suc index) + k
                        ≡ block_offset c index + (length sealed + k) =
                      omega (arith, l, same, full) in
                    z)
                  ∙ agrees (length sealed + k) (omega (arith, length-append sealed rest))
                  ∙ get_or-append_right sealed rest k 0)
                i later (omega arith)
        ],
      )
