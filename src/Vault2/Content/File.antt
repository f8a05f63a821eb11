-- ===== src/Vault2/Content/File.antt =====
-- `ContentFile`: an open encrypted file, and every method that reads or changes it. `State` is
-- what the lock guards: the stored file, whether its handle may write, the file id and the stored
-- length. Beside it stand what the method asks of its surroundings: what opening the file for
-- writing would answer now, and the number of the next draw of the random numbers.
mod Opening
mod Growing
mod Writing
mod Resizing
mod Reading
pub use Opening.{State, Opened, opened, failed, magic, version, file_id_len, i64_max, header_of}
unfoldable pub use Opening.{too_large, parse_header, from_file, open_file, create, make_writable}
unfoldable pub use Growing.{
  len, seal_next, ensure_header, read_stored, write_stored, truncate_stored, pad_last, drop_strays,
  grow,
}
pub use Writing.{old_len_at, from_at, to_at, piece_at}
unfoldable pub use Writing.{load_block, seal_blocks, write_locked, write_at, append, write_within}
unfoldable pub use Resizing.{cut_last, clear, header_id, shrink, resize, set_len}
unfoldable pub use Reading.{read_chunk, read_chunks, read_at}
