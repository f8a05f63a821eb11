-- ===== src/Vault2/Content/Examples.antt =====
-- The theorems on content.rs at concrete files, over the toy cipher with blocks of four bytes.
use desktop_folder_locker.Common.{◌≡◌, ◌<◌, ◌-◌, ◌^◌, inl, false, none, some, [], ◌∷◌, min, arith}
use desktop_folder_locker.Vault2.Error.{ok, IoError, ErrorKind}
use desktop_folder_locker.Vault2.Crypto.{Bytes}
use desktop_folder_locker.Vault2.Crypto.Toy.{toy, toy-IsLawful}
use desktop_folder_locker.Vault2.Content.Disk.{slice, write_all_at, set_len as truncate}
use desktop_folder_locker.Vault2.Content.Codec.{stored_len}
use desktop_folder_locker.Vault2.Content.Lengths.{stored_len-lt}
use desktop_folder_locker.Vault2.Content.Blocks.{seal_total}
use desktop_folder_locker.Vault2.Content.Holds.{Holds}
use desktop_folder_locker.Vault2.Content.Resize.{set_len-Holds}
use desktop_folder_locker.Vault2.Content.Written.{write_at-Holds}
use desktop_folder_locker.Vault2.Content.Read.{read_at-Holds}
use desktop_folder_locker.Vault2.Content.Opening.{from_file-Holds}
use desktop_folder_locker.Vault2.Content.File.{State, from_file, set_len, write_at, read_at}
use desktop_folder_locker.Vault2.Content.Sample.{
  codec-IsUsable, bytes, nine, nine_plain, nine-Holds, nine_writable,
}
use desktop_folder_locker.Vault2.Content.Tests.{codec}

abbrev denied : IoError
denied = record { kind = ErrorKind.permission_denied; raw_os_error = some 5 }

abbrev read_only : State
read_only = record nine { writable = false; reopen = some denied }

write_at-Holds_example :
    (st' : State) × (write_at codec 6 bytes nine ≡ (ok 7, st'))
    × Holds codec st' (write_all_at nine_plain 6 bytes)
write_at-Holds_example =
    write_at-Holds codec codec-IsUsable nine nine_plain 6 bytes nine-Holds (inl nine_writable)
      (omega arith)

read_at-Holds_example :
    read_at codec 3 4 nine ≡ (ok (slice nine_plain.byte 3 (min 4 (nine_plain.len - 3))), nine)
read_at-Holds_example = read_at-Holds codec codec-IsUsable nine nine_plain 3 4 nine-Holds

set_len-Holds_example :
    (st' : State) × (set_len codec 6 nine ≡ (ok tt, st')) × Holds codec st' (truncate nine_plain 6)
set_len-Holds_example =
    set_len-Holds codec codec-IsUsable nine nine_plain 6 nine-Holds (inl nine_writable)
      (omega arith)

from_file-Holds_example :
    (st' : State) × (from_file nine.disk false none 8 ≡ ok st') × Holds codec st' nine_plain
from_file-Holds_example = from_file-Holds codec nine nine_plain false none 8 nine-Holds

stored_len-lt_example :
    stored_len (record { crypto = toy; content = []; block_size = 4096 }) 123456789 < 2 ^ 64
stored_len-lt_example =
    stored_len-lt (record { crypto = toy; content = []; block_size = 4096 }) 123456789 (omega arith)
      (omega arith)

abbrev sealed_block : Bytes
sealed_block = (seal_total codec (4 ∷ []) 2 toy-IsLawful 5 bytes (omega arith)).0
