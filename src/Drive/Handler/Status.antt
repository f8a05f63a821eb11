-- ===== src/Drive/Handler/Status.antt =====
-- The status codes of Windows that handler.rs answers with. `from_win32` is Dokany's
-- `map_win32_error_to_ntstatus`, a parameter.
use desktop_folder_locker.Common.{ℕ, none, some}
use desktop_folder_locker.Vault2.Error.{Result, ok, err, Error, ErrorKind, IoError, io, corrupt}

pub data NtStatus : Type 0 where
  access_denied directory_not_empty file_corrupt_error file_is_a_directory : NtStatus
  cannot_delete invalid_device_request invalid_parameter not_a_directory object_name_collision :
      NtStatus
  object_name_invalid object_name_not_found object_path_not_found unsuccessful : NtStatus
  not_supported buffer_overflow : NtStatus
  win32 : ℕ → NtStatus

-- `OperationResult`
pub data Outcome {ℓ} (A : Type ℓ) : Type ℓ where
  success : A → Outcome A
  failed : NtStatus → Outcome A

module _ (from_win32 : ℕ → NtStatus) where
  unfoldable pub io_status : IoError → NtStatus
  io_status e = elim e.raw_os_error [
    | some code ↦ from_win32 code
    | none ↦ elim e.kind [
      | ErrorKind.invalid_input ↦ NtStatus.invalid_parameter
      | _ ↦ NtStatus.unsuccessful
    ]
  ]

  unfoldable pub status : Error → NtStatus
  status Error.not_found = NtStatus.object_name_not_found
  status Error.already_exists = NtStatus.object_name_collision
  status Error.not_a_directory = NtStatus.not_a_directory
  status Error.is_a_directory = NtStatus.file_is_a_directory
  status Error.directory_not_empty = NtStatus.directory_not_empty
  status Error.invalid_name = NtStatus.object_name_invalid
  status Error.not_allowed = NtStatus.access_denied
  status (corrupt what) = NtStatus.file_corrupt_error
  status (io e) = io_status e
  status _ = NtStatus.unsuccessful

  unfoldable pub lookup_status : Error → NtStatus
  lookup_status Error.not_found = NtStatus.object_path_not_found
  lookup_status Error.not_a_directory = NtStatus.object_path_not_found
  lookup_status e = status e

  -- `map_err(status)`
  abbrev pub map_err : {A : Type 0} → Result A → Outcome A
  map_err (ok a) = success a
  map_err (err e) = failed (status e)
