-- ===== src/Vault2/Content/Chunks.antt =====
-- The loop of `read_at` over the stored blocks: it collects the wanted part of the plain file.
use desktop_folder_locker.Common.{
  ℕ, zero, suc, ◌+◌, ◌-◌, ◌*◌, ◌≤◌, ◌<◌, ◌≡◌, ◌⊎◌, ◌&&◌, inl, inr, refl, sym, ap, ◌∙◌, min, max,
  length, take, drop, arith, some, Bool, true, false, ◌==◌, ◌++◌, [], ◌∷◌, if◌then◌else◌,
}
use desktop_folder_locker.Vault2.Error.{ok}
use desktop_folder_locker.Vault2.Crypto.{Bytes}
use desktop_folder_locker.Vault2.Content.Disk.{
  Disk, slice, length-slice, slice-add, take-slice, take-slice-min, drop-slice,
}
use desktop_folder_locker.Vault2.Content.Codec.{
  Codec, block_overhead, stored_block, block_offset, open_block,
}
use desktop_folder_locker.Vault2.Content.Lengths.{next_block}
use desktop_folder_locker.Vault2.Content.Holds.{Holds, BlockAt, block_len}
use desktop_folder_locker.Vault2.Content.File.{State, read_chunk, read_chunks}

whole_of : (from to n : ℕ) → (from == 0 && to == n) ≡ true → (from ≡ 0) × (to ≡ n)
whole_of from to n e = ground arith

-- The wanted part of a block, which is the block itself when all of it is wanted.
slice_part :
    (f : ℕ → ℕ) (start n from to : ℕ) (whole : Bool)
    → to ≤ n
    → (whole ≡ true → (from ≡ 0) × (to ≡ n))
    → (if whole then slice f start n else take (to - from) (drop from (slice f start n)))
      ≡ slice f (start + from) (to - from)
slice_part f start n from to true h e =
    let (e1, e2) = e refl in
    ap (λ q. slice f q n) (let z : start ≡ start + from = omega arith in z)
    ∙ ap (slice f (start + from)) (let z : n ≡ to - from = omega arith in z)
slice_part f start n from to false h e =
    ap (take (to - from)) (drop-slice f start from n)
    ∙ take-slice f (start + from) (to - from) (n - from) (omega arith)

slice_nil : (f : ℕ → ℕ) (p q : ℕ) → slice f p 0 ≡ slice f q 0
unfolding slice
slice_nil f p q = refl

slice_join :
    (f : ℕ → ℕ) (p n q m total : ℕ)
    → (m ≡ 0) ⊎ (p + n ≡ q)
    → n + m ≡ total
    → slice f p n ++ slice f q m ≡ slice f p total
slice_join f p n q m total (inl e) t =
    ap (λ m. slice f p n ++ slice f q m) e
    ∙ ap (λ r. slice f p n ++ r) (slice_nil f q (p + n))
    ∙ sym (slice-add f p n 0)
    ∙ ap (slice f p) (let z : n + 0 ≡ total = omega arith in z)
slice_join f p n q m total (inr e) t =
    ap (λ q. slice f p n ++ slice f q m) (sym e) ∙ sym (slice-add f p n m) ∙ ap (slice f p) t

module _ (c : Codec) (id : Bytes) (offset finish : ℕ) where
  abbrev wanted : ℕ → ℕ → Bytes → Bytes
  wanted index n plain =
      let start = index * c.block_size in
      let from = max offset start - start in
      let to = min finish (start + n) - start in
      if from == 0 && to == n then plain else take (to - from) (drop from plain)

  read_chunk_opened :
      (index : ℕ) (chunk plain : Bytes)
      → open_block c id index chunk (length chunk - block_overhead) ≡ ok plain
      → read_chunk c id offset finish index chunk
        ≡ ok (wanted index (length chunk - block_overhead) plain)
  unfolding read_chunk
  read_chunk_opened index chunk plain e = rw (read_chunk, e) refl

  read_chunk_run :
      (index n : ℕ) (chunk plain : Bytes)
      → length chunk - block_overhead ≡ n
      → open_block c id index chunk n ≡ ok plain
      → read_chunk c id offset finish index chunk ≡ ok (wanted index n plain)
  read_chunk_run index n chunk plain l e =
      read_chunk_opened index chunk plain (ap (open_block c id index chunk) l ∙ e)
      ∙ ap (λ n. ok (wanted index n plain)) l

  read_chunks_step :
      (fuel index : ℕ) (stored piece rest : Bytes)
      → 0 < length stored
      → read_chunk c id offset finish index (take (stored_block c) stored) ≡ ok piece
      → read_chunks c id offset finish fuel (suc index) (drop (stored_block c) stored) ≡ ok rest
      → read_chunks c id offset finish (suc fuel) index stored ≡ ok (piece ++ rest)
  unfolding read_chunks
  read_chunks_step fuel index [] piece rest p e1 e2 = elim p [ ]
  read_chunks_step fuel index (b ∷ stored) piece rest p e1 e2 = ground arith

  read_chunks_nil : (fuel index : ℕ) → read_chunks c id offset finish fuel index [] ≡ ok []
  unfolding read_chunks
  read_chunks_nil zero index = refl
  read_chunks_nil (suc fuel) index = refl

  -- The part of one block that is wanted.
  read_chunk-eq :
      (stored plain : ℕ → ℕ) (index n : ℕ)
      → index * c.block_size < finish
      → offset < index * c.block_size + n
      → offset < finish
      → BlockAt c id stored plain index n
      → let start = max offset (index * c.block_size) in
        read_chunk c id offset finish index
          (slice stored (block_offset c index) (n + block_overhead))
        ≡ ok (slice plain start (min finish (index * c.block_size + n) - start))
  read_chunk-eq stored plain index n inside begins some_bytes h =
      let start = index * c.block_size in
      let from = max offset start - start in
      let to = min finish (start + n) - start in
      let l : length (slice stored (block_offset c index) (n + block_overhead)) - block_overhead
          ≡ n =
        omega (arith, length-slice stored (block_offset c index) (n + block_overhead)) in
      read_chunk_run index n _ (slice plain start n) l h
      ∙ ap ok (
          slice_part plain start n from to (from == 0 && to == n) (omega arith)
            (λ e. whole_of from to n e)
          ∙ ap (λ q. slice plain q (to - from))
              (let z : start + from ≡ max offset start = omega arith in z)
          ∙ ap (slice plain (max offset start))
              (let z : to - from ≡ min finish (start + n) - max offset start = omega arith in z))

module _ (c : Codec) (st : State) (plain : Disk) (id : Bytes) (offset finish : ℕ) where
  abbrev pub from_block : ℕ → ℕ
  from_block index = max offset (index * c.block_size)

  -- The first of the stored bytes is a block; what the loop makes of the rest is known.
  one_chunk :
      0 < c.block_size
      → Holds c st plain
      → st.id ≡ some id
      → finish ≤ plain.len
      → offset < finish
      → (fuel index rest total : ℕ) → index * c.block_size < finish
      → offset < index * c.block_size + c.block_size
      → ((rest ≡ 0) × (finish ≤ index * c.block_size + c.block_size))
        ⊎ (index * c.block_size + c.block_size < finish)
      → total ≡ block_len c plain.len index + block_overhead + rest
      → read_chunks c id offset finish fuel
          (suc index)
          (slice st.disk.byte (block_offset c (suc index)) rest)
        ≡ ok (slice plain.byte (from_block (suc index)) (finish - from_block (suc index)))
      → read_chunks c id offset finish
          (suc fuel)
          index
          (slice st.disk.byte (block_offset c index) total)
        ≡ ok (slice plain.byte (from_block index) (finish - from_block index))
  one_chunk pos H e within some_bytes fuel index rest total inside begins how t h =
      let n = block_len c plain.len index in
      let stored = slice st.disk.byte (block_offset c index) total in
      let e1 : take (stored_block c) stored
          ≡ slice st.disk.byte (block_offset c index) (n + block_overhead) =
        take-slice-min st.disk.byte (block_offset c index) (stored_block c) total
        ∙ ap (slice st.disk.byte (block_offset c index))
            (let z : min (stored_block c) total ≡ n + block_overhead = grind arith in z) in
      let e2 : drop (stored_block c) stored ≡ slice st.disk.byte (block_offset c (suc index)) rest =
        drop-slice st.disk.byte (block_offset c index) (stored_block c) total
        ∙ ap (λ q. slice st.disk.byte q (total - stored_block c))
            (let z : block_offset c index + stored_block c ≡ block_offset c (suc index) =
                omega arith in
              z)
        ∙ ap (slice st.disk.byte (block_offset c (suc index)))
            (let z : total - stored_block c ≡ rest = grind arith in z) in
      let begins_in : offset < index * c.block_size + n = grind arith in
      let piece =
        ap (read_chunk c id offset finish index) e1
        ∙ read_chunk-eq c id offset finish st.disk.byte plain.byte index n inside begins_in
            some_bytes (H.blocks id e index (omega arith)) in
      read_chunks_step c id offset finish fuel index stored _ _
        (omega (arith, length-slice st.disk.byte (block_offset c index) total)) piece
        (ap (read_chunks c id offset finish fuel (suc index)) e2 ∙ h)
      ∙ ap ok (
          slice_join plain.byte (from_block index)
            (min finish (index * c.block_size + n) - from_block index) (from_block (suc index))
            (finish - from_block (suc index)) (finish - from_block index) (grind arith)
            (grind arith))

  nil_chunk :
      (fuel index q p m : ℕ)
      → m ≡ 0
      → read_chunks c id offset finish fuel index (slice st.disk.byte q 0)
        ≡ ok (slice plain.byte p m)
  unfolding slice
  nil_chunk fuel index q p m e =
      read_chunks_nil c id offset finish fuel index
      ∙ ap ok (slice_nil plain.byte q p ∙ ap (slice plain.byte p) (sym e))

  -- `m` whole blocks, then the last one: what the loop of `read_at` collects.
  pub read_chunks-eq :
      0 < c.block_size
      → Holds c st plain
      → st.id ≡ some id
      → finish ≤ plain.len
      → offset < finish
      → (last : ℕ) → last * c.block_size < finish
      → finish ≤ last * c.block_size + c.block_size
      → (m fuel index : ℕ) → m < fuel
      → index + m ≡ last
      → offset < index * c.block_size + c.block_size
      → read_chunks c id offset finish fuel index (
          slice st.disk.byte
            (block_offset c index)
            (m * stored_block c + (block_len c plain.len last + block_overhead)))
        ≡ ok (slice plain.byte (from_block index) (finish - from_block index))
  read_chunks-eq pos H e within some_bytes last inside ends m zero index enough at_last begins =
      elim enough [ ]
  read_chunks-eq pos H e within some_bytes last inside ends zero (suc fuel) index enough at_last
        begins =
      let same : index ≡ last = omega arith in
      let same_start : index * c.block_size ≡ last * c.block_size =
        ap (λ q. q * c.block_size) same in
      one_chunk pos H e within some_bytes fuel index 0 _ (omega arith) begins
        (inl (refl, omega arith)) (omega arith)
        (nil_chunk fuel (suc index) (block_offset c (suc index)) (from_block (suc index))
          (finish - from_block (suc index)) (omega arith))
  read_chunks-eq pos H e within some_bytes last inside ends (suc m) (suc fuel) index enough at_last
        begins =
      let more : index * c.block_size + c.block_size ≤ last * c.block_size =
        next_block c.block_size (omega arith) in
      one_chunk pos H e within some_bytes fuel index
        (m * stored_block c + (block_len c plain.len last + block_overhead)) _ (omega arith) begins
        (inr (omega arith)) (omega arith)
        (read_chunks-eq pos H e within some_bytes last inside ends m fuel (suc index) (omega arith)
          (omega arith) (omega arith))
