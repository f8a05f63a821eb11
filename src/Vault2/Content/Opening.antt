-- ===== src/Vault2/Content/Opening.antt =====
-- `Codec::new`, `from_file`, `open` and `create`: what an encrypted file holds when it is opened.
use desktop_folder_locker.Common.{
  ℕ, ◌≤◌, ◌<◌, ◌≡◌, ◌↔◌, inl, inr, refl, sym, ap, ◌∙◌, take, drop, get_or, arith, Option, some,
  none, Bool, true, lt→ltb, eq_of_eq_bytes, Option-cases, ==_iff,
}
use desktop_folder_locker.Vault2.Error.{ok, IoError}
use desktop_folder_locker.Vault2.Crypto.{Bytes, Crypto, IsLawful}
use desktop_folder_locker.Vault2.Content.Disk.{Disk, read_exact_at, read_exact_at-eq_ok}
use desktop_folder_locker.Vault2.Content.Codec.{
  Codec, new, header_len, min_block_size, max_block_size, plain_len,
}
use desktop_folder_locker.Vault2.Content.Lengths.{plain_len_small}
use desktop_folder_locker.Vault2.Content.Holds.{Holds, IsUsable, HeaderMatches}
use desktop_folder_locker.Vault2.Content.File.{
  State, opened, magic, version, header_of, parse_header, from_file, create,
}

new_within :
    (crypto : Crypto) (content : Bytes) (size : ℕ) (c : Codec)
    → new crypto content size ≡ ok c
    → (min_block_size ≤ size) × (size ≤ max_block_size)
unfolding new
new_within crypto content size c e = ground arith

-- `Codec::new` makes a codec of exactly the block sizes from 4096 to 1048576, with that size, and
-- over a lawful cipher the codec is one that the theorems apply to.
pub new-IsUsable :
    (crypto : Crypto) (content : Bytes) (size : ℕ)
    → IsLawful crypto
    → ((min_block_size ≤ size) × (size ≤ max_block_size))
      ↔ ((c : Codec) × (new crypto content size ≡ ok c) × IsUsable c × (c.block_size ≡ size))
unfolding new
new-IsUsable crypto content size L = (
  λ (low, high). (
    record { crypto = crypto; content = content; block_size = size },
    ground arith,
    record { law = L; pos = omega arith; small = high },
    refl,
  ),
  λ (c, e, U, same). new_within crypto content size c e,
)

-- A header that `from_file` accepts has the magic bytes and the version, and the file id after
-- its first eight bytes.
pub parse_header-eq_ok :
    (header id : Bytes)
    → parse_header header ≡ ok id
    → (take 4 header ≡ magic) × (get_or header 4 0 ≡ version) × (drop 8 header ≡ id)
unfolding parse_header
parse_header-eq_ok header id h =
    ground (arith, ==_iff (get_or header 4 0) version, eq_of_eq_bytes (take 4 header) magic)

parse_header-header_of : (id : Bytes) → parse_header (header_of id) ≡ ok id
unfolding parse_header
parse_header-header_of id = refl

from_file_short :
    (d : Disk) (writable : Bool) (reopen : Option IoError) (draws : ℕ)
    → d.len < header_len
    → from_file d writable reopen draws
      ≡ ok (record {
        disk = d;
        writable = writable;
        id = none;
        stored_len = d.len;
        reopen = reopen;
        draws = draws;
      })
unfolding from_file
from_file_short d writable reopen draws h = rw (lt→ltb d.len header_len h) refl

from_file_run :
    (d : Disk) (writable : Bool) (reopen : Option IoError) (draws : ℕ) (header id : Bytes)
    → header_len ≤ d.len
    → read_exact_at d 0 header_len ≡ ok header
    → parse_header header ≡ ok id
    → from_file d writable reopen draws
      ≡ ok (record {
        disk = d;
        writable = writable;
        id = some id;
        stored_len = d.len;
        reopen = reopen;
        draws = draws;
      })
unfolding from_file
from_file_run d writable reopen draws header id h e1 e2 = ground arith

module _ (c : Codec) where
  held_header :
      (st : State) (id : Option Bytes) (writable : Bool) (reopen : Option IoError) (draws : ℕ)
      → st.stored_len ≡ st.disk.len
      → HeaderMatches c st id
      → HeaderMatches c
          (record {
            disk = st.disk;
            writable = writable;
            id = id;
            stored_len = st.disk.len;
            reopen = reopen;
            draws = draws;
          })
          id
  held_header st none writable reopen draws e h = omega (arith, h)
  held_header st (some id) writable reopen draws e h = (omega (arith, h.0), h.1, h.2)

  -- A file that is opened again holds the plain file that it held when it was closed.
  pub from_file-Holds :
      (st : State) (plain : Disk) (writable : Bool) (reopen : Option IoError) (draws : ℕ)
      → Holds c st plain
      → (st' : State) × (from_file st.disk writable reopen draws ≡ ok st') × Holds c st' plain
  from_file-Holds st plain writable reopen draws h =
      let with_id : Option Bytes → State = λ id. record {
        disk = st.disk;
        writable = writable;
        id = id;
        stored_len = st.disk.len;
        reopen = reopen;
        draws = draws;
      } in
      let held : (id : Option Bytes) → st.id ≡ id → Holds c (with_id id) plain = λ id e. record {
        stored = refl;
        size = ap (plain_len c) (sym h.stored) ∙ h.size;
        header = held_header st id writable reopen draws h.stored (rw e at h.header);
        blocks = λ id' e' index inside. h.blocks id' (e ∙ e') index inside;
      } in
      elim (Option-cases st.id) [
        | inl e ↦
            let short : HeaderMatches c st none = rw e at h.header in
            (
              with_id none,
              from_file_short st.disk writable reopen draws (omega (arith, h.stored)),
              held none e,
            )
        | inr (id, e) ↦
            let full : HeaderMatches c st (some id) = rw e at h.header in
            (
              with_id (some id),
              from_file_run st.disk writable reopen draws (header_of id) id
                  (omega (arith, h.stored, full.0))
                  (read_exact_at-eq_ok st.disk 0 header_len (omega (arith, h.stored, full.0))
                    ∙ ap ok full.2)
                  (parse_header-header_of id),
              held (some id) e,
            )
      ]

  -- A file that was just created is empty.
  pub create-Holds :
      (byte : ℕ → ℕ) (reopen : Option IoError) (draws : ℕ)
      → (st : State) × (create (opened (record { len = 0; byte = byte })) reopen draws ≡ ok st)
        × Holds c st (record { len = 0; byte = byte })
  unfolding create
  create-Holds byte reopen draws = (
    record {
      disk = record { len = 0; byte = byte };
      writable = true;
      id = none;
      stored_len = 0;
      reopen = reopen;
      draws = draws;
    },
    from_file_short (record { len = 0; byte = byte }) true reopen draws (omega arith),
    record {
      stored = refl;
      size = plain_len_small c 0 (omega arith);
      header = omega arith;
      blocks = λ id e index h. elim h [ ];
    },
  )
