-- ===== src/Vault2/Content/Loop.antt =====
-- The loop of `write_locked`: every block that the write touches is sealed with the bytes that the
-- plain file has there after the write.
use desktop_folder_locker.Common.{
  ℕ, ◌+◌, ◌-◌, ◌*◌, ◌≤◌, ◌<◌, ◌≡◌, ◌⊎◌, ◌||◌, inl, inr, sym, ap, ◌∙◌, min, max, length, drop,
  get_or, arith, some, Bool-cases, true, ltb, length-take, length-drop, get_or-take, get_or-drop,
}
use desktop_folder_locker.Vault2.Error.{ok}
use desktop_folder_locker.Vault2.Crypto.{Bytes}
use desktop_folder_locker.Vault2.Content.Disk.{
  Disk, slice, slice_ext, length-slice, get_or-slice, patch, patch_inside, patch_below, patch_above,
  padded, padded_inside, read_exact_at, read_exact_at-eq_ok,
}
use desktop_folder_locker.Vault2.Content.Codec.{
  Codec, block_overhead, block_offset, seal, open_block,
}
use desktop_folder_locker.Vault2.Content.Lengths.{le_or_lt}
use desktop_folder_locker.Vault2.Content.Blocks.{seal_total, length-seal}
use desktop_folder_locker.Vault2.Content.Holds.{Holds, IsUsable, BlockAt, block_sealed}
use desktop_folder_locker.Vault2.Content.Grow.{block_stored}
use desktop_folder_locker.Vault2.Content.File.{State, load_block, read_stored, piece_at}

load_block_run :
    (c : Codec) (id : Bytes) (index n : ℕ) (buffer : ℕ → ℕ) (st : State) (old bytes : Bytes)
    → read_exact_at st.disk (block_offset c index) (n + block_overhead) ≡ ok old
    → open_block c id index old n ≡ ok bytes
    → load_block c id index n true buffer st ≡ (ok (patch buffer 0 bytes), st)
unfolding load_block read_stored
load_block_run c id index n buffer st old bytes e1 e2 = ground arith

module _ (c : Codec) (U : IsUsable c) (id : Bytes) (plain : Disk) (offset : ℕ) (bytes : Bytes)
    (index : ℕ) where
  abbrev finish : ℕ
  finish = offset + length bytes

  -- The bytes of the plain file after the write.
  abbrev pub after : ℕ → ℕ
  after = patch (padded plain) offset bytes

  abbrev start : ℕ
  start = index * c.block_size

  -- The write touches block `index`, and begins before the end of the file or there.
  abbrev pub Touches : Type 0
  Touches =
      (offset < index * c.block_size + c.block_size)
      × (index * c.block_size < offset + length bytes)
      × (offset ≤ plain.len)

  abbrev old_len : ℕ
  old_len = min (plain.len - start) c.block_size

  abbrev from : ℕ
  from = max offset start - start

  abbrev to : ℕ
  to = min finish (start + c.block_size) - start

  -- The buffer holds the old block, where the step reads that.
  abbrev pub Loaded : (ℕ → ℕ) → Type 0
  Loaded buffer =
      (0 < from) ⊎ (to < old_len) → (q : ℕ) → q < old_len → buffer q ≡ plain.byte (start + q)

  length-piece : Touches → length (piece_at c id offset finish plain.len bytes index) ≡ to - from
  length-piece t =
      let l = length-take (to - from) (drop (start + from - offset) bytes) in
      let m = length-drop (start + from - offset) bytes in omega (arith, l, m)

  patched_within :
      (buffer : ℕ → ℕ)
      → Touches
      → (q : ℕ) → from ≤ q
      → q < to
      → patch buffer from (piece_at c id offset finish plain.len bytes index) q ≡ after (start + q)
  patched_within buffer t q past within =
      let piece = piece_at c id offset finish plain.len bytes index in
      let l : length piece ≡ to - from = length-piece t in
      let here : q ≡ from + (q - from) = omega arith in
      let there : start + q ≡ offset + (start + q - offset) = omega arith in
      let place : start + from - offset + (q - from) ≡ start + q - offset = omega arith in
      ap (patch buffer from piece) here
      ∙ patch_inside buffer from piece (q - from) (omega arith)
      ∙ get_or-take (to - from) (drop (start + from - offset) bytes) (q - from) 0 (omega arith)
      ∙ get_or-drop (start + from - offset) bytes (q - from) 0
      ∙ ap (λ j. get_or bytes j 0) place
      ∙ sym (
          ap after there
          ∙ patch_inside (padded plain) offset bytes (start + q - offset) (omega arith))

  -- The patched buffer is the new block, whatever the buffer held beyond the old one.
  pub patched-eq :
      (buffer : ℕ → ℕ)
      → Touches
      → Loaded buffer
      → (q : ℕ) → q < max old_len to
      → patch buffer from (piece_at c id offset finish plain.len bytes index) q ≡ after (start + q)
  patched-eq buffer t loaded q below =
      let piece = piece_at c id offset finish plain.len bytes index in
      let l : length piece ≡ to - from = length-piece t in
      let kept : start + q < plain.len
          → after (start + q) ≡ padded plain (start + q)
          → after (start + q) ≡ plain.byte (start + q) =
        λ inside e. e ∙ padded_inside plain (start + q) inside in
      elim (le_or_lt from q) [
        | inr before ↦
            patch_below buffer from piece q before
            ∙ loaded (inl (omega arith)) q (omega arith)
            ∙ sym (
                kept (omega arith)
                  (patch_below (padded plain) offset bytes (start + q) (omega arith)))
        | inl past ↦ elim (le_or_lt to q) [
          | inl behind ↦
              patch_above buffer from piece q (omega arith)
              ∙ loaded (inr (omega arith)) q (omega arith)
              ∙ sym (
                  kept (omega arith)
                    (patch_above (padded plain) offset bytes (start + q) (omega arith)))
          | inr within ↦ patched_within buffer t q past within
        ]
      ]

  -- The loading of the old block.
  pub load_block-Loaded :
      (st : State) (buffer : ℕ → ℕ)
      → Holds c st plain
      → st.id ≡ some id
      → Touches
      → (loaded : ℕ → ℕ) × (load_block c id index old_len (ltb 0 from || ltb to old_len) buffer st
          ≡ (ok loaded, st))
        × Loaded loaded
  unfolding load_block read_stored
  load_block-Loaded st buffer h e t = elim (Bool-cases (ltb 0 from || ltb to old_len)) [
    | inl partly ↦
        let some_old : 0 < old_len = ground arith in
        let there : block_offset c index + (old_len + block_overhead) ≤ st.disk.len =
          rw h.stored at
            (rw h.size at (block_stored c U.pos st.stored_len index (omega (arith, h.size)))) in
        let read =
          read_exact_at-eq_ok st.disk (block_offset c index) (old_len + block_overhead) there in
        let opened = h.blocks id e index (omega arith) in
        (
          patch buffer 0 (slice plain.byte start old_len),
          rw partly (load_block_run c id index old_len buffer st _ _ read opened),
          λ _ q below.
              ap (patch buffer 0 (slice plain.byte start old_len))
                (let z : q ≡ 0 + q = omega arith in z)
              ∙ patch_inside buffer 0 (slice plain.byte start old_len) q
                  (omega (arith, length-slice plain.byte start old_len))
              ∙ get_or-slice plain.byte start old_len q below,
        )
    | inr whole ↦ (buffer, rw whole, λ some_old q below. absurd (ground arith))
  ]

  -- Block `index` is sealed again.
  pub step :
      (st : State) (buffer : ℕ → ℕ)
      → Holds c st plain
      → st.id ≡ some id
      → Touches
      → (loaded : ℕ → ℕ) × (sealed : Bytes) × (load_block c id index old_len
            (ltb 0 from || ltb to old_len)
            buffer
            st
          ≡ (ok loaded, st))
        × (seal c st.draws id index (
              slice
                (patch loaded from (piece_at c id offset finish plain.len bytes index))
                0
                (max old_len to))
            ≡ ok sealed)
        × (length sealed ≡ max old_len to + block_overhead)
        × ((f : ℕ → ℕ)
            → ((k : ℕ) → k < length sealed → f (block_offset c index + k) ≡ get_or sealed k 0)
            → BlockAt c id f after index (max old_len to))
  step st buffer h e t =
      let (loaded, run, holds) = load_block-Loaded st buffer h e t in
      let n = max old_len to in
      let patched = patch loaded from (piece_at c id offset finish plain.len bytes index) in
      let block = slice patched 0 n in
      let l : length block ≡ n = length-slice patched 0 n in
      let shown : slice after start n ≡ block = sym (
        slice_ext patched after 0 start n λ q below.
          ap patched (let z : 0 + q ≡ q = omega arith in z) ∙ patched-eq loaded t holds q below) in
      let (sealed, es) = seal_total c id index U.law st.draws block (omega (arith, U.small)) in
      let ls : length sealed ≡ n + block_overhead =
        length-seal c id index U.law st.draws block sealed es ∙ ap (λ k. k + block_overhead) l in
      (
        loaded,
        sealed,
        run,
        es,
        ls,
        λ f agrees.
            block_sealed c id index n U.law f after st.draws block sealed (omega arith) l es
              (λ k below. agrees k (omega arith)) shown,
      )
