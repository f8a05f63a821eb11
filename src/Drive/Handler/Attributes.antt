-- ===== src/Drive/Handler/Attributes.antt =====
-- The times and attributes of what the drive of handler.rs serves. They stand on the stored items,
-- which Windows opens and changes: `S` is their state.
use desktop_folder_locker.Common.{
  ℕ, ◌+◌, ◌-◌, ltb, ◌^◌, Option, none, some, List, [], ◌∷◌, Bool, true, false, ◌==◌, if◌then◌else◌,
}
use desktop_folder_locker.Common.Text.{is_empty}
use desktop_folder_locker.Vault2.Error.{IoError}
use desktop_folder_locker.Vault2.Platform.{SystemTime, file_time, system_time}
use desktop_folder_locker.Vault2.Vault.Maps.{StoredPath}
use desktop_folder_locker.Vault2.Vault.Folders.{Item}
use desktop_folder_locker.Drive.Handler.Status.{NtStatus, Outcome, success, failed, io_status}
use desktop_folder_locker.Drive.Handler.Files.{ℤ, pos, negsuc}
use desktop_folder_locker.Drive.Handler.InUse.{has_any}
use desktop_folder_locker.Drive.Handler.Create.{kept_attributes}

-- `stored & mask`, for a mask of these bits.
unfoldable pub masked : ℕ → List ℕ → ℕ
masked stored [] = 0
masked stored (bit ∷ mask) = (if has_any stored (bit ∷ []) then 2 ^ bit else 0) + masked stored mask

abbrev pub attribute_directory : ℕ
attribute_directory = 16

abbrev pub attribute_normal : ℕ
attribute_normal = 128

-- No attribute that is kept is that of a folder, so that it is added.
unfoldable pub visible_attributes : ℕ → Bool → ℕ
visible_attributes stored is_dir =
    let kept = masked stored kept_attributes in
    if is_dir then kept + attribute_directory else if kept == 0 then attribute_normal else kept

unfoldable pub stored_attributes : ℕ → ℕ
stored_attributes attributes =
    let kept = masked attributes kept_attributes in if kept == 0 then attribute_normal else kept

-- The parts of `BY_HANDLE_FILE_INFORMATION` that are read; a number in two parts is whole here.
pub record HandleInfo : Type 0 where
  pub attributes : ℕ
  pub creation_time : ℕ
  pub last_access_time : ℕ
  pub last_write_time : ℕ
  pub index : ℕ

pub record FileInfo : Type 0 where
  pub attributes : ℕ
  pub creation_time : SystemTime
  pub last_access_time : SystemTime
  pub last_write_time : SystemTime
  pub file_size : ℕ
  pub number_of_links : ℕ
  pub file_index : ℕ

unfoldable pub file_info : HandleInfo → ℕ → Bool → FileInfo
file_info info size is_dir = record {
  attributes = visible_attributes info.attributes is_dir;
  creation_time = system_time info.creation_time;
  last_access_time = system_time info.last_access_time;
  last_write_time = system_time info.last_write_time;
  file_size = size;
  number_of_links = 1;
  file_index = info.index;
}

pub data FileTimeOperation : Type 0 where
  set_time : SystemTime → FileTimeOperation
  dont_change disable_update resume_update : FileTimeOperation

-- `as i64`
abbrev pub as_i64 : ℕ → ℤ
as_i64 n = if ltb n (2 ^ 63) then pos n else negsuc (2 ^ 64 - 1 - n)

unfoldable pub time_value : FileTimeOperation → ℤ
time_value (FileTimeOperation.set_time time) = as_i64 (file_time time)
time_value FileTimeOperation.dont_change = pos 0
time_value FileTimeOperation.disable_update = negsuc 0
time_value FileTimeOperation.resume_update = negsuc 1

-- `max(0)`
abbrev pub or_zero : ℤ → ℤ
or_zero (pos n) = pos n
or_zero (negsuc n) = pos 0

-- What `set_basic_info` is called with; 0 leaves a time or the attributes as they are.
pub record BasicInfo : Type 0 where
  pub created : ℤ
  pub accessed : ℤ
  pub written : ℤ
  pub attributes : ℕ

abbrev pub only_attributes : ℕ → BasicInfo
only_attributes value = record {
  created = pos 0;
  accessed = pos 0;
  written = pos 0;
  attributes = value;
}

unfoldable pub times : FileTimeOperation → FileTimeOperation → FileTimeOperation → BasicInfo
times created accessed written = record {
  created = time_value created;
  accessed = time_value accessed;
  written = time_value written;
  attributes = 0;
}

-- Through a handle of our own, "stop and resume updating" is left out.
unfoldable pub own_times : BasicInfo → BasicInfo
own_times info = record {
  created = or_zero info.created;
  accessed = or_zero info.accessed;
  written = or_zero info.written;
  attributes = 0;
}

-- What Windows does with stored items: `set_basic_info` through the handle of an open file, the
-- path of an open file, and opening a path only for its attributes to set them, or failing to.
pub record AttributeCalls (S F : Type 0) : Type 0 where
  pub with_writable_file : F → BasicInfo → S → Bool × S
  pub path : F → S → StoredPath
  pub set_through : StoredPath → Bool → BasicInfo → S → Option IoError × S

module _ {S F : Type 0} (calls : AttributeCalls S F) (from_win32 : ℕ → NtStatus) where
  abbrev pub set_own : Option IoError × S → Outcome (Unit {0}) × S
  set_own (none, st) = (success tt, st)
  set_own (some e, st) = (failed (io_status from_win32 e), st)

  -- A read-only file is changed through a handle that may only change attributes.
  abbrev pub or_through : F → BasicInfo → Bool × S → Outcome (Unit {0}) × S
  or_through f own (true, st) = (success tt, st)
  or_through f own (false, st) = set_own (calls.set_through (calls.path f st) false own st)

  -- `set_file_attributes` and `set_dir_attributes`, the functions
  unfoldable pub set_open_attributes : F → ℕ → S → Outcome (Unit {0}) × S
  set_open_attributes f attributes st =
      let info = only_attributes (stored_attributes attributes) in
      or_through f info (calls.with_writable_file f info st)

  unfoldable pub set_dir_attributes : StoredPath → ℕ → S → Outcome (Unit {0}) × S
  set_dir_attributes path attributes st =
      set_own (calls.set_through path true (only_attributes (stored_attributes attributes)) st)

  -- With what `existing` found for a handle of a folder; the top folder stays as it is.
  abbrev pub unless_top :
      (Item → S → Outcome (Unit {0}) × S) → Outcome Item → S → Outcome (Unit {0}) × S
  unless_top set (failed s) st = (failed s, st)
  unless_top set (success it) st = if is_empty it.name then (success tt, st) else set it st

  -- The calls of Windows, for an open file or what was found of a folder; 0 is no change.
  unfoldable pub set_file_attributes : Option F → Outcome Item → ℕ → S → Outcome (Unit {0}) × S
  set_file_attributes none found attributes st =
      if attributes == 0
      then (success tt, st)
      else unless_top (λ it. set_dir_attributes it.stored_path attributes) found st
  set_file_attributes (some f) found attributes st =
      if attributes == 0 then (success tt, st) else set_open_attributes f attributes st

  unfoldable pub set_file_time :
      Option F
      → Outcome Item
      → FileTimeOperation
      → FileTimeOperation
      → FileTimeOperation
      → S
      → Outcome (Unit {0}) × S
  set_file_time (some f) found created accessed written st =
      let info = times created accessed written in
      or_through f (own_times info) (calls.with_writable_file f info st)
  set_file_time none found created accessed written st =
      unless_top
        (λ it s.
          set_own
            (calls.set_through it.stored_path true (own_times (times created accessed written)) s))
        found st
