-- ===== src/Vault2/Content/WrittenBlocks.antt =====
-- The blocks of a file after `write_locked` has written some of them.
use desktop_folder_locker.Common.{
  ℕ, suc, ◌+◌, ◌*◌, ◌≤◌, ◌<◌, ◌≡◌, inl, inr, sym, ap, ◌∙◌, max, length, arith, some,
}
use desktop_folder_locker.Vault2.Crypto.{Bytes}
use desktop_folder_locker.Vault2.Content.Disk.{
  Disk, patch, patch_inside, patch_below, patch_above, padded, padded_inside, write_all_at,
  write_all_at-eq,
}
use desktop_folder_locker.Vault2.Content.Codec.{
  Codec, header_len, block_overhead, stored_block, block_offset, plain_len,
}
use desktop_folder_locker.Vault2.Content.Lengths.{
  le_or_lt, next_block, plain_len_mono, plain_len-stored_len,
}
use desktop_folder_locker.Vault2.Content.Holds.{
  Holds, HeaderMatches, IsUsable, BlockAt, block_len, block_same,
}
use desktop_folder_locker.Vault2.Content.Grow.{stored_len_within, block_stored, header_same}
use desktop_folder_locker.Vault2.Content.Write.{Sealed}
use desktop_folder_locker.Vault2.Content.File.{State}

module _ (c : Codec) (U : IsUsable c) where
  -- The state after the blocks `out` were written from block `first` on.
  abbrev pub written : State → ℕ → Bytes → State
  written st first out = record st {
    disk = write_all_at st.disk (block_offset c first) out;
    stored_len = max st.stored_len (block_offset c first + length out);
  }

  module _ (st : State) (id : Bytes) (plain : Disk) (offset : ℕ) (bytes out : Bytes) (first m : ℕ)
      (h : Holds c st plain) (e : st.id ≡ some id) (long : header_len ≤ st.stored_len)
      (le : offset ≤ plain.len) (some_bytes : 0 < length bytes)
      (begins : first * c.block_size ≤ offset)
      (begins' : offset < first * c.block_size + c.block_size)
      (ends : (first + m) * c.block_size < offset + length bytes)
      (ends' : offset + length bytes ≤ (first + m) * c.block_size + c.block_size)
      (l : length out
        ≡ m * stored_block c
          + (block_len c (max plain.len (offset + length bytes)) (first + m) + block_overhead))
      (sealed : Sealed c U id plain offset bytes out first (suc m)) where
    abbrev total : ℕ
    total = max plain.len (offset + length bytes)

    out_end :
        block_offset c first + length out
        ≡ block_offset c (first + m) + (block_len c total (first + m) + block_overhead)
    out_end = omega (arith, l)

    written_size : plain_len c (max st.stored_len (block_offset c first + length out)) ≡ total
    written_size =
        let last = first + m in
        let n = block_len c total last in
        let end : plain_len c (block_offset c last + (n + block_overhead))
            ≡ last * c.block_size + n =
          ap (plain_len c)
            (sym (stored_len_within c U.pos last n (omega (arith, U.pos)) (omega arith)))
          ∙ plain_len-stored_len c U.pos (last * c.block_size + n) in
        elim (le_or_lt st.stored_len (block_offset c last + (n + block_overhead))) [
          | inl grows ↦
              let all : max st.stored_len (block_offset c first + length out)
                  ≡ block_offset c last + (n + block_overhead) =
                omega (arith, out_end) in
              ap (plain_len c) all
              ∙ end
              ∙ omega (arith, end, h.size, plain_len_mono c U.pos st.stored_len _ grows)
          | inr stays ↦
              let all : max st.stored_len (block_offset c first + length out) ≡ st.stored_len =
                omega (arith, out_end) in
              ap (plain_len c) all
              ∙ h.size
              ∙ omega (
                arith,
                end,
                h.size,
                plain_len_mono c U.pos (block_offset c last + (n + block_overhead)) st.stored_len
                    (omega arith),
              )
        ]

    -- A block that the write does not touch.
    kept_block :
        (index : ℕ)
        → index * c.block_size < plain.len
        → block_len c total index ≡ block_len c plain.len index
        → ((k : ℕ)
            → k < block_len c plain.len index + block_overhead
            → patch (padded st.disk) (block_offset c first) out (block_offset c index + k)
              ≡ padded st.disk (block_offset c index + k))
        → ((k : ℕ)
            → k < block_len c plain.len index
            → patch (padded plain) offset bytes (index * c.block_size + k)
              ≡ padded plain (index * c.block_size + k))
        → BlockAt c id
            (patch (padded st.disk) (block_offset c first) out)
            (patch (padded plain) offset bytes)
            index
            (block_len c total index)
    kept_block index inside same stored shown =
        let there : block_offset c index + (block_len c plain.len index + block_overhead)
            ≤ st.disk.len =
          rw h.stored at
            (rw h.size at (block_stored c U.pos st.stored_len index (omega (arith, h.size)))) in
        rw same (
          block_same c id index (block_len c plain.len index) st.disk.byte _ plain.byte _
            (λ k below. stored k below ∙ padded_inside st.disk _ (omega arith))
            (λ k below. shown k below ∙ padded_inside plain _ (omega arith))
            (h.blocks id e index inside))

    written_block :
        (index : ℕ)
        → index * c.block_size < total
        → BlockAt c id
            (patch (padded st.disk) (block_offset c first) out)
            (patch (padded plain) offset bytes)
            index
            (block_len c total index)
    written_block index inside = elim (le_or_lt first index) [
      | inr before ↦
          let step : index * c.block_size + c.block_size ≤ first * c.block_size =
            next_block c.block_size before in
          kept_block index (omega (arith, U.pos)) (omega arith)
            (λ k below. patch_below _ _ out _ (omega arith))
            (λ k below. patch_below _ _ bytes _ (omega arith))
      | inl from ↦ elim (le_or_lt index (first + m)) [
        | inl within ↦
            sealed (patch (padded st.disk) (block_offset c first) out)
              (λ k below. patch_inside (padded st.disk) (block_offset c first) out k below) index
              from (omega arith)
        | inr behind ↦
            let step : (first + m) * c.block_size + c.block_size ≤ index * c.block_size =
              next_block c.block_size behind in
            kept_block index (omega arith) (omega arith)
              (λ k below. patch_above _ _ out _ (omega (arith, out_end)))
              (λ k below. patch_above _ _ bytes _ (omega arith))
      ]
    ]

    pub written-Holds : Holds c (written st first out) (write_all_at plain offset bytes)
    written-Holds =
        let old : HeaderMatches c st (some id) = rw e at h.header in
        let disk = write_all_at-eq st.disk (block_offset c first) out (omega (arith, l)) in
        let view = write_all_at-eq plain offset bytes some_bytes in
        rw view (record {
          stored = rw disk (omega (arith, h.stored));
          size = written_size;
          header = rw e (
            omega arith,
            old.1,
            rw disk (
                header_same c U st (patch (padded st.disk) (block_offset c first) out) id old
                  (λ q l.
                    patch_below _ _ out q (omega arith)
                    ∙ padded_inside st.disk q (omega (arith, h.stored)))),
          );
          blocks = λ id' e' index inside.
              let same : id ≡ id' = cc in rw (← same) (rw disk (written_block index inside));
        })
