-- ===== src/Vault2/Content/Grow.antt =====
-- `grow`: the plain file gets longer, and its new bytes are zeros.
use desktop_folder_locker.Common.{ℕ, suc, ◌+◌, ◌*◌, ◌≤◌, ◌<◌, ◌≡◌, inl, inr, refl, ◌∙◌, arith, some}
use desktop_folder_locker.Vault2.Crypto.{Bytes}
use desktop_folder_locker.Vault2.Content.Disk.{
  Disk, slice, slice_ext, padded, padded_inside, padded_outside, set_len as truncate,
}
use desktop_folder_locker.Vault2.Content.Codec.{
  Codec, header_len, block_overhead, stored_block, block_offset, plain_len,
  stored_len as stored_len_of,
}
use desktop_folder_locker.Vault2.Content.Lengths.{
  stored_len_split, stored_len-le_iff, plain_len-stored_len, compare_blocks, le_or_lt,
  stored_len_pos,
}
use desktop_folder_locker.Vault2.Content.Holds.{
  Holds, IsUsable, HeaderMatches, BlockAt, block_len, block_same, block_hole,
}
use desktop_folder_locker.Vault2.Content.File.{State, header_of}

module _ (c : Codec) where
  -- The blocks of a file that grew: those below block `k` are as they were, those above it are
  -- holes, and block `k` is given.
  pub grow_blocks :
      (id : Bytes) (f f' : ℕ → ℕ) (plain : Disk) (k n : ℕ)
      → 0 < c.block_size
      → k * c.block_size ≤ plain.len
      → plain.len ≤ k * c.block_size + c.block_size
      → ((index : ℕ)
          → index * c.block_size < plain.len
          → BlockAt c id f plain.byte index (block_len c plain.len index))
      → ((q : ℕ) → q < block_offset c k → f' q ≡ f q)
      → ((q : ℕ) → block_offset c k + stored_block c ≤ q → f' q ≡ 0)
      → (k * c.block_size < n → BlockAt c id f' (padded plain) k (block_len c n k))
      → plain.len ≤ n
      → (index : ℕ) → index * c.block_size < n
      → BlockAt c id f' (padded plain) index (block_len c n index)
  grow_blocks id f f' plain k n pos full last old below above at h index inside =
      elim (compare_blocks c.block_size index k) [
        | inl (lt, step) ↦
            let e : block_len c n index ≡ block_len c plain.len index = omega arith in
            rw e (
              block_same c id index (block_len c plain.len index) f f' plain.byte (padded plain)
                (λ j l. below _ (omega arith)) (λ j l. padded_inside plain _ (omega arith))
                (old index (omega arith)))
        | inr (inl (same, same_start)) ↦ rw same (at (omega arith))
        | inr (inr (gt, step)) ↦
            block_hole c id index (block_len c n index) f' (padded plain) (omega arith)
              (λ j l. above _ (omega arith)) (λ j l. padded_outside plain _ (omega arith))
      ]

  -- The stored length of a file that ends within block `k`, or where that block ends.
  pub stored_len_within :
      0 < c.block_size
      → (k r : ℕ) → 0 < r
      → r ≤ c.block_size
      → stored_len_of c (k * c.block_size + r) ≡ block_offset c k + (r + block_overhead)
  stored_len_within pos k r p h = elim (le_or_lt c.block_size r) [
    | inl full ↦
        let e : k * c.block_size + r ≡ suc k * c.block_size + 0 = omega arith in
        rw e (stored_len_split c (suc k) 0 pos (omega arith) ∙ omega arith)
    | inr part ↦ stored_len_split c k r part (omega arith) ∙ ground arith
  ]

  -- The stored length of a file whose last block holds some bytes, but is not full.
  pub partial_stored_len :
      0 < c.block_size
      → (k r m : ℕ) → 0 < r
      → r < c.block_size
      → plain_len c m ≡ k * c.block_size + r
      → m ≡ block_offset c k + (r + block_overhead)
  partial_stored_len pos k r m p h e =
      let least : stored_len_of c (k * c.block_size + r) ≤ m =
        (stored_len-le_iff c pos (k * c.block_size + r) m).1 (omega arith) in
      let next = (stored_len-le_iff c pos (k * c.block_size + (r + 1)) m).0 in
      ground (arith, stored_len_within pos k r, stored_len_within pos k (r + 1), next)

  -- A stored file is long enough for each of its blocks.
  pub block_stored :
      0 < c.block_size
      → (m index : ℕ) → index * c.block_size < plain_len c m
      → block_offset c index + (block_len c (plain_len c m) index + block_overhead) ≤ m
  block_stored pos m index h =
      let n = block_len c (plain_len c m) index in
      let least : stored_len_of c (index * c.block_size + n) ≤ m =
        (stored_len-le_iff c pos (index * c.block_size + n) m).1 (omega arith) in
      omega (arith, stored_len_within pos index n (omega arith) (omega arith))

module _ (c : Codec) where
  -- The state after the stored file was cut or grown for `n` bytes of plaintext.
  abbrev pub resized : State → ℕ → State
  resized st n = record st {
    disk = truncate st.disk (stored_len_of c n);
    stored_len = stored_len_of c n;
  }

module _ (c : Codec) (U : IsUsable c) where
  -- The header stays when the bytes before the first block do.
  pub header_same :
      (st : State) (f : ℕ → ℕ) (id : Bytes)
      → HeaderMatches c st (some id)
      → ((q : ℕ) → q < header_len → f q ≡ st.disk.byte q)
      → slice f 0 header_len ≡ header_of id
  header_same st f id h same =
      slice_ext f st.disk.byte 0 0 header_len (λ k l. same (0 + k) (omega arith)) ∙ h.2

  -- A stored file `mid` that differs from the old one only from block `k` on holds the longer
  -- plain file, once it is cut to its new length.
  pub resized-Holds :
      (st mid : State) (id : Bytes) (plain : Disk) (k n : ℕ)
      → Holds c st plain
      → st.id ≡ some id
      → mid.id ≡ some id
      → k * c.block_size ≤ plain.len
      → plain.len ≤ k * c.block_size + c.block_size
      → plain.len ≤ n
      → 0 < n
      → ((q : ℕ) → q < block_offset c k → padded mid.disk q ≡ st.disk.byte q)
      → ((q : ℕ) → block_offset c k + stored_block c ≤ q → padded mid.disk q ≡ 0)
      → (k * c.block_size < n → BlockAt c id (padded mid.disk) (padded plain) k (block_len c n k))
      → Holds c (resized c mid n) (truncate plain n)
  unfolding truncate
  resized-Holds st mid id plain k n h e e' full last le p below above at =
      let old : HeaderMatches c st (some id) = rw e at h.header in
      let new : HeaderMatches c (resized c mid n) (some id) = (
        omega (arith, stored_len_pos c U.pos n p),
        old.1,
        header_same st (padded mid.disk) id old (λ q l. below q (omega arith)),
      ) in
      record {
        stored = refl;
        size = plain_len-stored_len c U.pos n;
        header = rw e' new;
        blocks = λ id' e'' index inside.
            let same : id ≡ id' = cc in
            rw (← same) (
              grow_blocks c id st.disk.byte (padded mid.disk) plain k n U.pos full last
                (h.blocks id e) below above at le index inside);
      }
