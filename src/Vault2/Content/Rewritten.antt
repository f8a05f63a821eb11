-- ===== src/Vault2/Content/Rewritten.antt =====
-- A file in which one block is rewritten.
use desktop_folder_locker.Common.{
  ℕ, suc, ◌+◌, ◌-◌, ◌*◌, ◌/◌, ◌%◌, ◌≤◌, ◌<◌, ◌≡◌, refl, ◌∙◌, min, max, length, get_or, arith, ◌++◌,
  le→ltb, lt→ltb,
}
use desktop_folder_locker.Vault2.Error.{ok}
use desktop_folder_locker.Vault2.Crypto.{Bytes}
use desktop_folder_locker.Vault2.Content.Disk.{
  Disk, slice, slice_ext, slice-add, patch_inside, patch_below, padded, padded_inside,
  padded_outside, write_all_at, write_all_at-eq, read_exact_at,
}
use desktop_folder_locker.Vault2.Content.Codec.{
  Codec, block_overhead, block_offset, repeat, seal, open_block,
}
use desktop_folder_locker.Vault2.Content.Holds.{slice-eq_repeat}
use desktop_folder_locker.Vault2.Content.File.{
  State, seal_next, read_stored, write_stored, pad_last,
}

module _ (c : Codec) where
  -- The state after block `index` was sealed again and written.
  abbrev pub rewritten : State → ℕ → Bytes → State
  rewritten st index sealed = record st {
    disk = write_all_at st.disk (block_offset c index) sealed;
    draws = suc st.draws;
  }

  pub pad_last_run :
      (st : State) (id : Bytes) (size n : ℕ) (old plain sealed : Bytes)
      → let k = size / c.block_size in
        let r = size % c.block_size in
        read_exact_at st.disk (block_offset c k) (r + block_overhead) ≡ ok old
        → open_block c id k old r ≡ ok plain
        → seal c st.draws id k (plain ++ repeat (min (n - k * c.block_size) c.block_size - r) 0)
          ≡ ok sealed
        → pad_last c id size n st ≡ (ok tt, rewritten st k sealed)
  unfolding pad_last read_stored seal_next write_stored
  pad_last_run st id size n old plain sealed e1 e2 e3 = ground arith

  -- The stored bytes after a block was sealed again: before it, in it and after it.
  pub rewritten_below :
      (d : Disk) (pos q : ℕ) (bytes : Bytes)
      → 0 < length bytes
      → q < pos
      → q < d.len
      → padded (write_all_at d pos bytes) q ≡ d.byte q
  rewritten_below d pos q bytes p h l = rw (write_all_at-eq d pos bytes p) (
      rw (lt→ltb q (max d.len (pos + length bytes)) (omega arith))
        (patch_below (padded d) pos bytes q h ∙ padded_inside d q l))

  pub rewritten_inside :
      (d : Disk) (pos k : ℕ) (bytes : Bytes)
      → k < length bytes
      → padded (write_all_at d pos bytes) (pos + k) ≡ get_or bytes k 0
  rewritten_inside d pos k bytes h = rw (write_all_at-eq d pos bytes (omega arith)) (
      rw (lt→ltb (pos + k) (max d.len (pos + length bytes)) (omega arith))
        (patch_inside (padded d) pos bytes k h))

  pub rewritten_above :
      (d : Disk) (pos q : ℕ) (bytes : Bytes)
      → 0 < length bytes
      → pos + length bytes ≤ q
      → d.len ≤ q
      → padded (write_all_at d pos bytes) q ≡ 0
  rewritten_above d pos q bytes p h l =
      rw (write_all_at-eq d pos bytes p)
        (rw (le→ltb q (max d.len (pos + length bytes)) (omega arith)) refl)

pub slice-padded :
    (d : Disk) (pos r m : ℕ)
    → pos + r ≡ d.len
    → slice (padded d) pos (r + m) ≡ slice d.byte pos r ++ repeat m 0
slice-padded d pos r m e =
    let kept : slice (padded d) pos r ≡ slice d.byte pos r =
      slice_ext (padded d) d.byte pos pos r (λ k l. padded_inside d (pos + k) (omega arith)) in
    let zeros : slice (padded d) (pos + r) m ≡ repeat m 0 =
      slice-eq_repeat (padded d) (pos + r) m (λ k l. padded_outside d _ (omega arith)) in
    slice-add (padded d) pos r m ∙ cc (kept, zeros)
