-- ===== src/Drive/Handler/Volume.antt =====
-- What handler.rs tells Windows of the drive as a whole, and flushing an open file.
use desktop_folder_locker.Common.{ℕ, ◌+◌, [], ◌∷◌, ◌==◌, if◌then◌else◌, take}
use desktop_folder_locker.Common.Text.{Text, codes}
use desktop_folder_locker.Vault2.Error.{Result}
use desktop_folder_locker.Drive.Handler.Status.{NtStatus, Outcome, success, map_err}
use desktop_folder_locker.Drive.Handler.Files.{Handle}

abbrev pub max_label : ℕ
max_label = 32

unfoldable pub without_nul : Text → Text
without_nul [] = []
without_nul (c ∷ text) = let rest = without_nul text in if c == 0 then rest else c ∷ rest

-- The label that `Handler::new` keeps.
unfoldable pub label_of : Text → Text
label_of label = take max_label (without_nul label)

pub record VolumeInfo : Type 0 where
  pub name : Text
  pub serial_number : ℕ
  pub max_component_length : ℕ
  pub fs_flags : ℕ
  pub fs_name : Text

-- `FILE_CASE_PRESERVED_NAMES | FILE_UNICODE_ON_DISK`
abbrev pub fs_flags : ℕ
fs_flags = 2 + 4

unfoldable pub get_volume_information : Text → ℕ → VolumeInfo
get_volume_information label serial = record {
  name = label_of label;
  serial_number = serial;
  max_component_length = 255;
  fs_flags = fs_flags;
  fs_name = codes "NTFS";
}

-- With what `sync` of the file returns.
unfoldable pub flush_file_buffers : (ℕ → NtStatus) → Handle → Result (Unit {0}) → Outcome (Unit {0})
flush_file_buffers from_win32 Handle.file synced = map_err from_win32 synced
flush_file_buffers from_win32 Handle.dir synced = success tt
