-- ===== src/Vault2/Content/Holds.antt =====
-- The abstract view of an encrypted file: the plain file that it holds. The theorems on the
-- methods of `ContentFile` say that each does to this plain file what the operating system does
-- to a file that is not encrypted.
use desktop_folder_locker.Common.{
  ℕ, zero, suc, ◌+◌, ◌-◌, ◌*◌, ◌≤◌, ◌<◌, ◌≡◌, refl, sym, ap, ◌∙◌, min, length, get_or, arith,
  Option, some, none, true, ◌∷◌,
}
use desktop_folder_locker.Vault2.Error.{ok}
use desktop_folder_locker.Vault2.Crypto.{IsLawful, Bytes, is_zero}
use desktop_folder_locker.Vault2.Content.Disk.{Disk, slice, length-slice, slice_ext, slice-eq}
use desktop_folder_locker.Vault2.Content.Codec.{
  Codec, header_len, block_overhead, max_block_size, block_offset, plain_len, repeat, seal,
  open_block,
}
use desktop_folder_locker.Vault2.Content.Blocks.{open_hole, open-seal, length-seal}
use desktop_folder_locker.Vault2.Content.File.{State, header_of}

slice-zeros : (n pos : ℕ) → slice (λ _. 0) pos n ≡ repeat n 0
unfolding slice repeat
slice-zeros zero pos = refl
slice-zeros (suc n) pos = ap (λ xs. 0 ∷ xs) (slice-zeros n (suc pos))

is_zero-repeat : (n : ℕ) → is_zero (repeat n 0) ≡ true
unfolding repeat
is_zero-repeat zero = refl
is_zero-repeat (suc n) = is_zero-repeat n

pub slice-eq_repeat :
    (f : ℕ → ℕ) (pos n : ℕ) → ((k : ℕ) → k < n → f (pos + k) ≡ 0) → slice f pos n ≡ repeat n 0
slice-eq_repeat f pos n h = slice_ext f (λ _. 0) pos 0 n h ∙ slice-zeros n 0

is_zero-slice :
    (f : ℕ → ℕ) (pos n : ℕ) → ((k : ℕ) → k < n → f (pos + k) ≡ 0) → is_zero (slice f pos n) ≡ true
is_zero-slice f pos n h = ap is_zero (slice-eq_repeat f pos n h) ∙ is_zero-repeat n

-- A codec that `Codec::new` may have made, over a cipher that keeps its laws. The theorems need no
-- lower bound on the block size but that it is not 0.
pub record IsUsable (c : Codec) : Type 0 where
  pub law : IsLawful c.crypto
  pub pos : 0 < c.block_size
  pub small : c.block_size ≤ max_block_size

module _ (c : Codec) where
  -- Block `index` of the bytes `stored` opens to the `n` bytes that stand there in `plain`.
  abbrev pub BlockAt : Bytes → (ℕ → ℕ) → (ℕ → ℕ) → ℕ → ℕ → Type 0
  BlockAt id stored plain index n =
      open_block c id index (slice stored (block_offset c index) (n + block_overhead)) n
      ≡ ok (slice plain (index * c.block_size) n)

  -- The bytes of block `index` of a file of `size` bytes.
  abbrev pub block_len : ℕ → ℕ → ℕ
  block_len size index = min (size - index * c.block_size) c.block_size

  abbrev pub HeaderMatches : State → Option Bytes → Type 0
  HeaderMatches st none = st.stored_len < header_len
  HeaderMatches st (some id) =
      (header_len ≤ st.stored_len)
      × (length id ≡ 24)
      × (slice st.disk.byte 0 header_len ≡ header_of id)

  -- `st` is a file that holds the plain file `plain`.
  pub record Holds (st : State) (plain : Disk) : Type 0 where
    pub stored : st.stored_len ≡ st.disk.len
    pub size : plain_len c st.stored_len ≡ plain.len
    pub header : HeaderMatches st st.id
    pub blocks :
        (id : Bytes)
        → st.id ≡ some id
        → (index : ℕ) → index * c.block_size < plain.len
        → BlockAt id st.disk.byte plain.byte index (block_len plain.len index)

  module _ (id : Bytes) (index n : ℕ) where
    pub block_same :
        (f f' g g' : ℕ → ℕ)
        → ((k : ℕ)
            → k < n + block_overhead
            → f' (block_offset c index + k) ≡ f (block_offset c index + k))
        → ((k : ℕ) → k < n → g' (index * c.block_size + k) ≡ g (index * c.block_size + k))
        → BlockAt id f g index n
        → BlockAt id f' g' index n
    block_same f f' g g' hf hg h =
        rw
          (
            slice_ext f' f (block_offset c index) (block_offset c index) (n + block_overhead) hf,
            slice_ext g' g (index * c.block_size) (index * c.block_size) n hg,
          )
          h

    pub block_hole :
        (f g : ℕ → ℕ)
        → 0 < n
        → ((k : ℕ) → k < n + block_overhead → f (block_offset c index + k) ≡ 0)
        → ((k : ℕ) → k < n → g (index * c.block_size + k) ≡ 0)
        → BlockAt id f g index n
    block_hole f g p hf hg =
        open_hole c id index n _ p (length-slice f _ _) (is_zero-slice f _ _ hf)
        ∙ ap ok (sym (slice-eq_repeat g _ n hg))

    pub block_sealed :
        IsLawful c.crypto
        → (f g : ℕ → ℕ) (draw : ℕ) (plain sealed : Bytes) → 0 < n
        → length plain ≡ n
        → seal c draw id index plain ≡ ok sealed
        → ((k : ℕ) → k < n + block_overhead → f (block_offset c index + k) ≡ get_or sealed k 0)
        → slice g (index * c.block_size) n ≡ plain
        → BlockAt id f g index n
    block_sealed L f g draw plain sealed p l h hf hg =
        let longer : length sealed ≡ length plain + block_overhead =
          length-seal c id index L draw plain sealed h in
        let e1 : slice f (block_offset c index) (length plain + block_overhead) ≡ sealed =
          ap (slice f (block_offset c index)) (sym longer)
          ∙ slice-eq f (block_offset c index) sealed (λ k below. hf k (omega arith)) in
        let e2 : slice g (index * c.block_size) (length plain) ≡ plain =
          ap (slice g (index * c.block_size)) l ∙ hg in
        rw (← l) (rw (e1, e2) (open-seal c id index L draw plain sealed (omega arith) h))

  -- Only the length of the plain file and its bytes up to there count.
  pub Holds-congr :
      (st : State) (plain other : Disk)
      → other.len ≡ plain.len
      → ((q : ℕ) → q < plain.len → other.byte q ≡ plain.byte q)
      → Holds st plain
      → Holds st other
  Holds-congr st plain other e same h = record {
    stored = h.stored;
    size = h.size ∙ sym e;
    header = h.header;
    blocks = λ id e' index inside. rw e (
        block_same id index (block_len plain.len index) st.disk.byte st.disk.byte plain.byte
          other.byte (λ _ _. refl) (λ k l. same _ (omega arith))
          (h.blocks id e' index (omega arith)));
  }

  -- The number of the next draw does not count.
  pub Holds-draws :
      (st : State) (plain : Disk) (draws : ℕ)
      → Holds st plain
      → Holds (record st { draws = draws }) plain
  Holds-draws st plain draws h = record {
    stored = h.stored;
    size = h.size;
    header = h.header;
    blocks = h.blocks;
  }
