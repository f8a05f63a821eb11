-- ===== src/Vault2/Content/Cut.antt =====
-- Cutting an encrypted file: `shrink` and `clear`, the parts of `set_len` that make it shorter.
use native.Mathlib.Nat.{div-add-mod', mod-lt}
use desktop_folder_locker.Common.{
  ℕ, ◌+◌, ◌-◌, ◌*◌, ◌/◌, ◌%◌, ◌≤◌, ◌<◌, ◌≡◌, inl, inr, refl, sym, ap, ◌∙◌, min, length, take, arith,
  some, none, Option-cases, ltb, if◌then◌else◌, le→ltb, lt→ltb,
}
use desktop_folder_locker.Vault2.Error.{ok, pure}
use desktop_folder_locker.Vault2.Crypto.{Bytes}
use desktop_folder_locker.Vault2.Content.Disk.{
  Disk, slice, take-slice, length-slice, padded, padded_inside, read_exact_at, read_exact_at-eq_ok,
  set_len as truncate,
}
use desktop_folder_locker.Vault2.Content.Codec.{
  Codec, header_len, block_overhead, block_offset, seal, open_block,
}
use desktop_folder_locker.Vault2.Content.Lengths.{
  zero_or_pos, compare_blocks, plain_len-stored_len, stored_len_pos, plain_len_small,
}
use desktop_folder_locker.Vault2.Content.Blocks.{seal_total, length-seal}
use desktop_folder_locker.Vault2.Content.Holds.{
  Holds, HeaderMatches, IsUsable, BlockAt, block_len, block_same, block_sealed,
}
use desktop_folder_locker.Vault2.Content.Grow.{block_stored, resized, header_same}
use desktop_folder_locker.Vault2.Content.Rewritten.{rewritten, rewritten_below, rewritten_inside}
use desktop_folder_locker.Vault2.Content.File.{
  State, seal_next, read_stored, write_stored, truncate_stored, cut_last, clear, header_id, shrink,
}

module _ (c : Codec) (U : IsUsable c) where
  -- A stored file `mid` that differs from the old one only from block `k` on, which is the new
  -- last block, holds the shorter plain file once it is cut to its new length.
  cut-Holds :
      (st mid : State) (id : Bytes) (plain : Disk) (k n : ℕ)
      → Holds c st plain
      → st.id ≡ some id
      → mid.id ≡ some id
      → k * c.block_size ≤ n
      → n < k * c.block_size + c.block_size
      → n ≤ plain.len
      → 0 < n
      → ((q : ℕ) → q < block_offset c k → padded mid.disk q ≡ st.disk.byte q)
      → (k * c.block_size < n → BlockAt c id (padded mid.disk) plain.byte k (block_len c n k))
      → Holds c (resized c mid n) (truncate plain n)
  unfolding truncate
  cut-Holds st mid id plain k n h e e' full last le p below at =
      let old : HeaderMatches c st (some id) = rw e at h.header in
      let new : HeaderMatches c (resized c mid n) (some id) = (
        omega (arith, stored_len_pos c U.pos n p),
        old.1,
        header_same c U st (padded mid.disk) id old (λ q l. below q (omega arith)),
      ) in
      let block : (index : ℕ)
          → index * c.block_size < n
          → BlockAt c id (padded mid.disk) plain.byte index (block_len c n index) =
        λ index inside. elim (compare_blocks c.block_size index k) [
          | inl (lt, step) ↦
              let same : block_len c n index ≡ block_len c plain.len index = omega arith in
              rw same (
                block_same c id index (block_len c plain.len index) st.disk.byte (padded mid.disk)
                  plain.byte plain.byte (λ j l. below _ (omega arith)) (λ _ _. refl)
                  (h.blocks id e index (omega arith)))
          | inr (inl (same, same_start)) ↦ rw same (at (omega arith))
          | inr (inr (gt, step)) ↦ absurd (omega arith)
        ] in
      record {
        stored = refl;
        size = plain_len-stored_len c U.pos n;
        header = rw e' new;
        blocks = λ id' e'' index inside.
            let same : id ≡ id' = cc in
            rw (← same) (
              block_same c id index (block_len c n index) (padded mid.disk) (padded mid.disk)
                plain.byte (padded plain) (λ _ _. refl) (λ j l. padded_inside plain _ (omega arith))
                (block index inside));
      }

  cut_last_run :
      (st : State) (id : Bytes) (size n : ℕ) (old plain sealed : Bytes)
      → let k = n / c.block_size in
        let r = min (size - k * c.block_size) c.block_size in
        read_exact_at st.disk (block_offset c k) (r + block_overhead) ≡ ok old
        → open_block c id k old r ≡ ok plain
        → seal c st.draws id k (take (n % c.block_size) plain) ≡ ok sealed
        → cut_last c id size n st ≡ (ok tt, rewritten c st k sealed)
  unfolding cut_last read_stored seal_next write_stored
  cut_last_run st id size n old plain sealed e1 e2 e3 = ground arith

  cut_last-Holds :
      (st : State) (id : Bytes) (plain : Disk) (n : ℕ)
      → Holds c st plain
      → st.id ≡ some id
      → 0 < n % c.block_size
      → n < plain.len
      → (mid : State) × (cut_last c id plain.len n st ≡ (ok tt, mid))
        × Holds c (resized c mid n) (truncate plain n)
  cut_last-Holds st id plain n h e p less =
      let k = n / c.block_size in
      let r = n % c.block_size in
      let o = block_len c plain.len k in
      let split : k * c.block_size + r ≡ n = div-add-mod' n c.block_size in
      let rest : r < c.block_size = mod-lt n U.pos in
      let there : block_offset c k + (o + block_overhead) ≤ st.disk.len =
        rw h.stored at
          (rw h.size at (block_stored c U.pos st.stored_len k (omega (arith, h.size)))) in
      let bytes = take r (slice plain.byte (k * c.block_size) o) in
      let cut : bytes ≡ slice plain.byte (k * c.block_size) r =
        take-slice plain.byte (k * c.block_size) r o (omega arith) in
      let l : length bytes ≡ r = ap length cut ∙ length-slice plain.byte (k * c.block_size) r in
      let (sealed, es) = seal_total c id k U.law st.draws bytes (omega (arith, U.small)) in
      let ls : length sealed ≡ length bytes + block_overhead =
        length-seal c id k U.law st.draws bytes sealed es in
      let n_k : block_len c n k ≡ r = omega arith in
      (
        rewritten c st k sealed,
        cut_last_run st id plain.len n _ _ sealed
            (read_exact_at-eq_ok st.disk (block_offset c k) (o + block_overhead) there)
            (h.blocks id e k (omega arith)) es,
        cut-Holds st (rewritten c st k sealed) id plain k n h e e (omega arith) (omega arith)
            (omega arith) (omega arith)
            (λ q below.
              rewritten_below c st.disk (block_offset c k) q sealed (omega arith) below
                (omega arith))
            (λ inside. rw n_k (
              block_sealed c id k r U.law _ plain.byte st.draws bytes sealed p l es
                (λ j below. rewritten_inside c st.disk (block_offset c k) j sealed (omega arith))
                (sym cut))),
      )

  shrink_run :
      (st mid : State) (id : Bytes) (size n : ℕ)
      → st.id ≡ some id
      → (if ltb 0 (n % c.block_size) then cut_last c id size n else pure tt) st ≡ (ok tt, mid)
      → shrink c size n st ≡ (ok tt, resized c mid n)
  unfolding shrink header_id truncate_stored
  shrink_run st mid id size n e1 e2 = ground arith

  -- A whole number of blocks is left: the stored file is only cut.
  cut_whole-Holds :
      (st : State) (id : Bytes) (plain : Disk) (n : ℕ)
      → Holds c st plain
      → st.id ≡ some id
      → n % c.block_size ≡ 0
      → n < plain.len
      → 0 < n
      → Holds c (resized c st n) (truncate plain n)
  cut_whole-Holds st id plain n h e whole less p =
      let k = n / c.block_size in
      let split : k * c.block_size ≡ n = omega (arith, div-add-mod' n c.block_size) in
      let enough : block_offset c k ≤ st.disk.len =
        omega (arith, h.stored, block_stored c U.pos st.stored_len k (omega (arith, h.size))) in
      cut-Holds st st id plain k n h e e (omega arith) (omega (arith, U.pos)) (omega arith) p
        (λ q l. padded_inside st.disk q (omega arith)) (λ inside. absurd (omega arith))

  -- A plain file that is not empty has a header in front of it.
  pub id_of_pos :
      (st : State) (plain : Disk)
      → Holds c st plain
      → 0 < plain.len
      → (id : Bytes) × (st.id ≡ some id)
  id_of_pos st plain h p = elim (Option-cases st.id) [
    | inl e ↦
        let short : st.stored_len < header_len = rw e at h.header in
        absurd (omega (arith, h.size, plain_len_small c st.stored_len))
    | inr found ↦ found
  ]

  pub shrink-Holds :
      (st : State) (plain : Disk) (n : ℕ)
      → Holds c st plain
      → n < plain.len
      → 0 < n
      → (st' : State) × (shrink c plain.len n st ≡ (ok tt, st')) × Holds c st' (truncate plain n)
  shrink-Holds st plain n h less p =
      let (id, e) = id_of_pos st plain h (omega arith) in
      elim (zero_or_pos (n % c.block_size)) [
        | inl whole ↦ (
          resized c st n,
          shrink_run st st id plain.len n e (rw (le→ltb 0 (n % c.block_size) (omega arith))),
          cut_whole-Holds st id plain n h e whole less p,
        )
        | inr part ↦
            let (mid, e2, h2) = cut_last-Holds st id plain n h e part less in
            (
              resized c mid n,
              shrink_run st mid id plain.len n e (rw (lt→ltb 0 (n % c.block_size) part) e2),
              h2,
            )
      ]

  pub clear-Holds :
      (st : State) (plain : Disk)
      → (st' : State) × (clear c st ≡ (ok tt, st')) × Holds c st' (truncate plain 0)
  unfolding clear truncate_stored truncate
  clear-Holds st plain = (
    record st { disk = truncate st.disk 0; stored_len = 0; id = none },
    refl,
    record {
      stored = refl;
      size = plain_len_small c 0 (omega arith);
      header = omega arith;
      blocks = λ _ _ _ inside. elim inside [ ];
    },
  )
