-- ===== src/Vault2/Content/Tests.antt =====
-- Runs of content.rs over the toy cipher with blocks of four bytes.
use desktop_folder_locker.Common.{ℕ, ◌≡◌, refl, true, none, [], ◌∷◌, to_le_bytes}
use desktop_folder_locker.Vault2.Error.{ok, Action, ◌>>=◌, ◌>>◌}
use desktop_folder_locker.Vault2.Crypto.{Bytes}
use desktop_folder_locker.Vault2.Crypto.Toy.{toy}
use desktop_folder_locker.Vault2.Content.Disk.{
  slice, patch, read_exact_at, write_all_at, set_len as truncate,
}
use desktop_folder_locker.Vault2.Content.Codec.{
  Codec, plain_len, stored_len, repeat, seal, open_block,
}
use desktop_folder_locker.Vault2.Content.File

abbrev pub codec : Codec
codec = record { crypto = toy; content = 7 ∷ 9 ∷ []; block_size = 4 }

abbrev pub empty : File.State
empty = record {
  disk = record { len = 0; byte = λ _. 0 };
  writable = true;
  id = none;
  stored_len = 0;
  reopen = none;
  draws = 0;
}

unfoldable pub write : ℕ → Bytes → Action File.State ℕ
unfolding toy to_le_bytes slice patch read_exact_at write_all_at truncate plain_len stored_len
    repeat seal open_block File.make_writable File.len File.seal_next File.ensure_header
    File.read_stored File.write_stored File.truncate_stored File.pad_last File.drop_strays File.grow
    File.load_block File.seal_blocks File.write_locked File.write_at
write = File.write_at codec

resize : ℕ → Action File.State (Unit {0})
unfolding write File.cut_last File.clear File.header_id File.shrink File.resize File.set_len
resize = File.set_len codec

read : ℕ → ℕ → Action File.State Bytes
unfolding write File.read_chunk File.read_chunks File.read_at
read = File.read_at codec

-- Two overlapping writes with a gap before the second, a cut and a growth, read back.
changes :
    ((write 1 (1 ∷ 2 ∷ 3 ∷ 4 ∷ 5 ∷ []) >>= λ _. write 9 (6 ∷ 7 ∷ []) >>= λ _.
    write 4 (8 ∷ 9 ∷ 10 ∷ []) >>= λ _. resize 6 >> (resize 13 >> read 0 20))
      empty).0
    ≡ ok (0 ∷ 1 ∷ 2 ∷ 3 ∷ 8 ∷ 9 ∷ 0 ∷ 0 ∷ 0 ∷ 0 ∷ 0 ∷ 0 ∷ 0 ∷ [])
unfolding read resize
changes = refl
