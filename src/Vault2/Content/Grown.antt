-- ===== src/Vault2/Content/Grown.antt =====
-- `grow`, from its two branches: the last block is padded with zeros, or stray bytes are dropped.
use native.Mathlib.Nat.{div-add-mod', mod-lt}
use desktop_folder_locker.Common.{
  ℕ, ◌+◌, ◌-◌, ◌*◌, ◌/◌, ◌%◌, ◌≤◌, ◌<◌, ◌≡◌, inl, inr, refl, sym, ap, ap, ◌∙◌, min, max, length,
  arith, some, Bool-cases, ltb, ◌==◌, ==_iff, if◌then◌else◌, ◌++◌, length-append, le→ltb, lt→ltb,
}
use desktop_folder_locker.Vault2.Error.{ok}
use desktop_folder_locker.Vault2.Crypto.{Bytes}
use desktop_folder_locker.Vault2.Content.Disk.{
  Disk, slice, length-slice, padded, padded_inside, padded_outside, read_exact_at,
  read_exact_at-eq_ok, set_len as truncate, set_len_below, set_len_above,
}
use desktop_folder_locker.Vault2.Content.Codec.{
  Codec, header_len, block_overhead, block_offset, plain_len, stored_len as stored_len_of, repeat,
  open_block,
}
use desktop_folder_locker.Vault2.Content.Lengths.{
  zero_or_pos, stored_len_split, stored_len-le_iff, stored_len_zero,
}
use desktop_folder_locker.Vault2.Content.Blocks.{seal_total, length-repeat, length-seal}
use desktop_folder_locker.Vault2.Content.Holds.{
  Holds, IsUsable, block_len, block_hole, block_sealed,
}
use desktop_folder_locker.Vault2.Content.Header.{ensure_header-Holds}
use desktop_folder_locker.Vault2.Content.Grow.{partial_stored_len, resized, resized-Holds}
use desktop_folder_locker.Vault2.Content.Rewritten.{
  rewritten, pad_last_run, rewritten_below, rewritten_inside, rewritten_above, slice-padded,
}
use desktop_folder_locker.Vault2.Content.File.{
  State, len, truncate_stored, ensure_header, grow, pad_last, drop_strays,
}

module _ (c : Codec) (U : IsUsable c) where
  pad_last-Holds :
      (st : State) (id : Bytes) (plain : Disk) (n : ℕ)
      → Holds c st plain
      → st.id ≡ some id
      → 0 < plain.len % c.block_size
      → plain.len ≤ n
      → (mid : State) × (pad_last c id plain.len n st ≡ (ok tt, mid))
        × Holds c (resized c mid n) (truncate plain n)
        × (mid.writable ≡ st.writable)
  pad_last-Holds st id plain n h e p le =
      let k = plain.len / c.block_size in
      let r = plain.len % c.block_size in
      let g = min (n - k * c.block_size) c.block_size in
      let split : k * c.block_size + r ≡ plain.len = div-add-mod' plain.len c.block_size in
      let rest : r < c.block_size = mod-lt plain.len U.pos in
      let end : st.stored_len ≡ block_offset c k + (r + block_overhead) =
        partial_stored_len c U.pos k r st.stored_len p rest (h.size ∙ sym split) in
      let bl : block_len c plain.len k ≡ r = omega arith in
      let opened : open_block c id k (slice st.disk.byte (block_offset c k) (r + block_overhead)) r
          ≡ ok (slice plain.byte (k * c.block_size) r) =
        rw bl at (h.blocks id e k (omega arith)) in
      let read : read_exact_at st.disk (block_offset c k) (r + block_overhead)
          ≡ ok (slice st.disk.byte (block_offset c k) (r + block_overhead)) =
        read_exact_at-eq_ok st.disk (block_offset c k) (r + block_overhead)
          (omega (arith, h.stored)) in
      let bytes = slice plain.byte (k * c.block_size) r ++ repeat (g - r) 0 in
      let l : length bytes ≡ g = omega (
        arith,
        length-append (slice plain.byte (k * c.block_size) r) (repeat (g - r) 0),
        length-slice plain.byte (k * c.block_size) r,
        length-repeat (g - r) 0,
      ) in
      let (sealed, es) = seal_total c id k U.law st.draws bytes (omega (arith, U.small)) in
      let ls : length sealed ≡ length bytes + block_overhead =
        length-seal c id k U.law st.draws bytes sealed es in
      let shown : slice (padded plain) (k * c.block_size) g ≡ bytes =
        ap (slice (padded plain) (k * c.block_size)) (let q : g ≡ r + (g - r) = omega arith in q)
        ∙ slice-padded plain (k * c.block_size) r (g - r) split in
      (
        rewritten c st k sealed,
        pad_last_run c st id plain.len n _ _ sealed read opened es,
        resized-Holds c U st (rewritten c st k sealed) id plain k n h e e (omega arith)
            (omega arith) le (omega arith)
            (λ q below.
              rewritten_below c st.disk (block_offset c k) q sealed (omega arith) below
                (omega (arith, h.stored)))
            (λ q above.
              rewritten_above c st.disk (block_offset c k) q sealed (omega arith) (omega arith)
                (omega (arith, h.stored)))
            (λ inside.
              block_sealed c id k g U.law _ (padded plain) st.draws bytes sealed (omega arith) l es
                (λ j below. rewritten_inside c st.disk (block_offset c k) j sealed (omega arith))
                shown),
        refl,
      )

  -- The last block is full: the stored length of the blocks alone.
  pub exact-eq : (k : ℕ) → max header_len (stored_len_of c (k * c.block_size)) ≡ block_offset c k
  exact-eq k = elim (zero_or_pos (k * c.block_size)) [
    | inl z ↦ let none_there : k ≡ 0 = grind (arith, U.pos) in rw (z, stored_len_zero) (omega arith)
    | inr p ↦
        let plus : k * c.block_size ≡ k * c.block_size + 0 = omega arith in
        rw plus (omega (arith, stored_len_split c k 0 U.pos (omega arith)))
  ]

  drop_strays-Holds :
      (st : State) (id : Bytes) (plain : Disk) (n : ℕ)
      → Holds c st plain
      → st.id ≡ some id
      → header_len ≤ st.stored_len
      → plain.len % c.block_size ≡ 0
      → plain.len ≤ n
      → 0 < n
      → (mid : State) × (drop_strays c plain.len st ≡ (ok tt, mid))
        × Holds c (resized c mid n) (truncate plain n)
        × (mid.writable ≡ st.writable)
  unfolding drop_strays truncate_stored
  drop_strays-Holds st id plain n h e long whole le p =
      let k = plain.len / c.block_size in
      let split : k * c.block_size ≡ plain.len =
        omega (arith, div-add-mod' plain.len c.block_size) in
      let exact : max header_len (stored_len_of c plain.len) ≡ block_offset c k =
        rw split at (exact-eq k) in
      let enough : block_offset c k ≤ st.disk.len = omega (
        arith,
        exact,
        h.stored,
        (stored_len-le_iff c U.pos plain.len st.stored_len).1 (omega (arith, h.size)),
      ) in
      let holds : (mid : State)
          → mid.id ≡ some id
          → ((q : ℕ) → q < block_offset c k → padded mid.disk q ≡ st.disk.byte q)
          → ((q : ℕ) → block_offset c k ≤ q → padded mid.disk q ≡ 0)
          → Holds c (resized c mid n) (truncate plain n) =
        λ mid e' below above.
          resized-Holds c U st mid id plain k n h e e' (omega arith) (omega arith) le p below
            (λ q out. above q (omega arith))
            (λ inside.
              block_hole c id k (block_len c n k) (padded mid.disk) (padded plain)
                (omega (arith, U.pos)) (λ j l. above _ (omega arith))
                (λ j l. padded_outside plain _ (omega arith))) in
      elim (Bool-cases (st.stored_len == max header_len (stored_len_of c plain.len))) [
        | inl same ↦ (
          st,
          ground arith,
          holds st e (λ q l. padded_inside st.disk q (omega arith))
              (λ q l.
                padded_outside st.disk q
                  (omega (arith, h.stored, exact, (==_iff st.stored_len _).0 same))),
          refl,
        )
        | inr longer ↦
            let mid : State = record st {
              disk = truncate st.disk (max header_len (stored_len_of c plain.len));
            } in
            (
              mid,
              ground arith,
              holds mid e (λ q l. set_len_below st.disk _ q (omega (arith, exact)) (omega arith))
                  (λ q l. set_len_above st.disk _ q (omega (arith, exact))),
              refl,
            )
      ]

  grow_run :
      (st first mid : State) (id : Bytes) (size n : ℕ)
      → ensure_header c st ≡ (ok id, first)
      → plain_len c first.stored_len ≡ size
      → (if ltb 0 (size % c.block_size) then pad_last c id size n else drop_strays c size) first
        ≡ (ok tt, mid)
      → grow c n st ≡ (ok tt, resized c mid n)
  unfolding grow truncate_stored len
  grow_run st first mid id size n e1 e2 e3 = ground arith

  -- Growing an encrypted file grows the plain file that it holds, and the new bytes are zeros.
  pub grow-Holds :
      (st : State) (plain : Disk) (n : ℕ)
      → Holds c st plain
      → plain.len ≤ n
      → 0 < n
      → (st' : State) × (grow c n st ≡ (ok tt, st'))
        × Holds c st' (truncate plain n)
        × (st'.writable ≡ st.writable)
  grow-Holds st plain n h le p =
      let (id, first, e1, h1, i1, long, w1) = ensure_header-Holds c U.law st plain h in
      elim (zero_or_pos (plain.len % c.block_size)) [
        | inl whole ↦
            let (mid, e2, h2, w2) = drop_strays-Holds first id plain n h1 i1 long whole le p in
            (
              resized c mid n,
              grow_run st first mid id plain.len n e1 h1.size
                  (rw (le→ltb 0 (plain.len % c.block_size) (omega arith)) e2),
              h2,
              w2 ∙ w1,
            )
        | inr part ↦
            let (mid, e2, h2, w2) = pad_last-Holds first id plain n h1 i1 part le in
            (
              resized c mid n,
              grow_run st first mid id plain.len n e1 h1.size
                  (rw (lt→ltb 0 (plain.len % c.block_size) part) e2),
              h2,
              w2 ∙ w1,
            )
      ]
