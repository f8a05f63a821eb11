-- ===== src/Drive/Handler/Examples.antt =====
-- The theorems on open files at a file of nine bytes, and a run of opening and closing.
use desktop_folder_locker.Common.{
  ℕ, ◌-◌, ◌≡◌, ◌⊎◌, some, refl, inl, min, true, false, List, [], ◌∷◌, ltb, if◌then◌else◌, arith,
}
use desktop_folder_locker.Vault2.Crypto.{Bytes}
use desktop_folder_locker.Vault2.Content.Disk.{slice, set_len as truncate}
use desktop_folder_locker.Vault2.Content.Holds.{Holds}
use desktop_folder_locker.Vault2.Content.File.{State}
use desktop_folder_locker.Vault2.Content.Tests.{codec}
use desktop_folder_locker.Vault2.Content.Sample.{
  codec-IsUsable, nine, nine_plain, len-nine_plain, nine-Holds, nine_writable,
}
use desktop_folder_locker.Drive.Handler.Status.{NtStatus, success, failed}
use desktop_folder_locker.Common.Text.{codes}
use desktop_folder_locker.Vault2.Error.{ok, err, Error}
use desktop_folder_locker.Drive.Handler.Create.{
  Calls, Item, Opened, Request, create_file, open_existing, use_file, replace, has_more,
  file_open-create_file,
}
use desktop_folder_locker.Drive.Handler.Files.{
  pos, negsuc, Handle, OperationInfo, read_file, write_file, set_end_of_file, set_allocation_size,
}
use desktop_folder_locker.Drive.Handler.Served.{expected, write_file-Holds, other_calls-Holds}
use desktop_folder_locker.Drive.Handler.InUse.{
  Event, no_files, run, release, open_new, has_any, is_in_use, clear_flag, count_in_use,
  run-count_in_use,
}

abbrev from_win32 : ℕ → NtStatus
from_win32 code = NtStatus.win32 code

abbrev paging : OperationInfo
paging = record { write_to_eof = false; paging_io = true }

abbrev buffer : Bytes
buffer = 1 ∷ 2 ∷ 3 ∷ []

abbrev to_end : OperationInfo
to_end = record { write_to_eof = true; paging_io = false }

-- Windows passes -1 for a write to the end.
write_file-Holds_example :
    (st' : State) × (write_file from_win32 codec to_end Handle.file (negsuc 0) buffer nine
      ≡ (success (expected to_end (negsuc 0) buffer nine_plain).0, st'))
    × Holds codec st' (expected to_end (negsuc 0) buffer nine_plain).1
write_file-Holds_example =
    write_file-Holds from_win32 codec codec-IsUsable to_end nine nine_plain (negsuc 0) buffer
      nine-Holds (inl nine_writable) (refl, omega (arith, len-nine_plain)) (omega arith)

paging_write :
    (st' : State) × (write_file from_win32 codec paging Handle.file (pos 8) buffer nine
      ≡ (success (expected paging (pos 8) buffer nine_plain).0, st'))
    × Holds codec st' (expected paging (pos 8) buffer nine_plain).1
paging_write =
    write_file-Holds from_win32 codec codec-IsUsable paging nine nine_plain (pos 8) buffer
      nine-Holds (inl nine_writable) (omega (arith, len-nine_plain), omega arith) (omega arith)

other_calls-Holds_example :
    (read_file from_win32 codec Handle.file (pos 2) 5 nine
      ≡ (success (slice nine_plain.byte 2 (min 5 (nine_plain.len - 2))), nine))
    × ((st' : State) × (set_end_of_file from_win32 codec Handle.file (pos 5) nine
          ≡ (success tt, st'))
        × Holds codec st' (truncate nine_plain 5))
    × ((st' : State) × (set_allocation_size from_win32 codec Handle.file (pos 5) nine
          ≡ (success tt, st'))
        × Holds codec st' (if ltb 5 nine_plain.len then truncate nine_plain 5 else nine_plain))
other_calls-Holds_example =
    other_calls-Holds from_win32 codec codec-IsUsable nine nine_plain 2 5 nine-Holds
      (inl nine_writable) (omega arith)

-- A handle to read, one that only looks at attributes, and one to write.
abbrev events : List Event
events =
    Event.opens 1
    ∷ Event.opens 128
    ∷ Event.opens 1073741824
    ∷ Event.cleans_up 0
    ∷ Event.closes 1
    ∷ Event.closes 0
    ∷ []

run-events : run events no_files ≡ record { open_files = 1; in_use = false ∷ false ∷ true ∷ [] }
unfolding run open_new release has_any is_in_use clear_flag
run-events = refl

run-count_in_use_example :
    let files = run events no_files in
    (files.open_files ≡ count_in_use files.in_use) × (release 2 (release 2 files) ≡ release 2 files)
run-count_in_use_example = run-count_in_use events 2 (omega arith)

-- A vault with one file, which is its state: its length, and its attributes.
abbrev calls : Calls (ℕ × ℕ) ℕ
calls = record {
  lookup = λ path st. ok (some (record { name = path; is_dir = false }));
  open_file = λ it st. (ok 0, st);
  attributes_of = λ f st. success st.1;
  truncate = λ f st. (ok tt, (0, st.1));
  set_file_attributes = λ f attributes st. (success tt, (st.0, attributes));
  create_dir = λ path st. (err Error.already_exists, st);
  set_dir_attributes = λ it attributes st. st;
  create_file = λ path st. (err Error.already_exists, st);
}

-- Opening for writing, and replacing, of which a read-only file allows neither.
abbrev request : ℕ → Request
request disposition = record {
  desired_access = 2;
  file_attributes = 32;
  create_disposition = disposition;
  create_options = 64;
}

create-one :
    (create_file calls from_win32 (some (codes "\\a")) (request 5) (9, 32)
      ≡ (success (Opened.file 0 true false), (0, 32)))
    × (create_file calls from_win32 (some (codes "\\a")) (request 1) (9, 33)
        ≡ (failed NtStatus.access_denied, (9, 33)))
    × (create_file calls from_win32 (some (codes "\\a")) (request 2) (9, 32)
        ≡ (failed NtStatus.object_name_collision, (9, 32)))
unfolding create_file open_existing use_file replace has_any has_more
create-one = (refl, refl, refl)

file_open-create_file_example :
    ((create_file calls from_win32 (some (codes "\\a")) (request 1) (9, 32)).1 ≡ (9, 32))
    ⊎ ((it : Item) × (calls.lookup (codes "\\a") (9, 32) ≡ ok (some it))
        × (it.is_dir ≡ false)
        × ((create_file calls from_win32 (some (codes "\\a")) (request 1) (9, 32)).1
            ≡ (calls.open_file it (9, 32)).1))
file_open-create_file_example =
    file_open-create_file calls from_win32 (codes "\\a") (request 1) (9, 32) refl
