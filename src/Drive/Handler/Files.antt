-- ===== src/Drive/Handler/Files.antt =====
-- Reading and changing an open file. A handle is a folder's, or that of a file, whose state is
-- passed along; the calls of the file are those of content.rs.
use desktop_folder_locker.Common.{ℕ, ◌%◌, ◌^◌, Bool, ltb, if◌then◌else◌}
use desktop_folder_locker.Vault2.Error.{Result}
use desktop_folder_locker.Vault2.Crypto.{Bytes}
use desktop_folder_locker.Vault2.Content.Codec.{Codec}
use desktop_folder_locker.Vault2.Content.File.{
  State, len, read_at, write_at, write_within, append, set_len,
}
use desktop_folder_locker.Drive.Handler.Status.{NtStatus, Outcome, success, failed, map_err}

pub data ℤ : Type 0 where
  pos : ℕ → ℤ
  -- `negsuc n` is -1 - n.
  negsuc : ℕ → ℤ

pub data Handle : Type 0 where
  file dir : Handle

-- What Dokany says of a write.
pub record OperationInfo : Type 0 where
  pub write_to_eof : Bool
  pub paging_io : Bool

module _ (from_win32 : ℕ → NtStatus) (c : Codec) where
  abbrev pub lift : {A : Type 0} → Result A × State → Outcome A × State
  lift (r, st) = (map_err from_win32 r, st)

  -- `written as u32`
  abbrev pub as_u32 : Outcome ℕ × State → Outcome ℕ × State
  as_u32 (success n, st) = (success (n % 2 ^ 32), st)
  as_u32 (failed s, st) = (failed s, st)

  -- `read_file`: what the buffer of `n` bytes holds then, up to the number returned.
  unfoldable pub read_file : Handle → ℤ → ℕ → State → Outcome Bytes × State
  read_file Handle.dir offset n st = (failed NtStatus.invalid_device_request, st)
  read_file Handle.file (negsuc _) n st = (failed NtStatus.invalid_parameter, st)
  read_file Handle.file (pos offset) n st = lift (read_at c offset n st)

  abbrev pub written : OperationInfo → ℤ → Bytes → State → Outcome ℕ × State
  written info (negsuc _) buffer st =
      if info.write_to_eof
      then lift (append c buffer st)
      else (failed NtStatus.invalid_parameter, st)
  written info (pos offset) buffer st =
      if info.write_to_eof
      then lift (append c buffer st)
      else if info.paging_io
      then lift (write_within c offset buffer st)
      else lift (write_at c offset buffer st)

  unfoldable pub write_file : OperationInfo → Handle → ℤ → Bytes → State → Outcome ℕ × State
  write_file info Handle.dir offset buffer st = (failed NtStatus.access_denied, st)
  write_file info Handle.file offset buffer st = as_u32 (written info offset buffer st)

  unfoldable pub set_end_of_file : Handle → ℤ → State → Outcome (Unit {0}) × State
  set_end_of_file Handle.dir offset st = (failed NtStatus.invalid_device_request, st)
  set_end_of_file Handle.file (negsuc _) st = (failed NtStatus.invalid_parameter, st)
  set_end_of_file Handle.file (pos n) st = lift (set_len c n st)

  -- Space is never reserved ahead; a smaller size cuts the file.
  unfoldable pub set_allocation_size : Handle → ℤ → State → Outcome (Unit {0}) × State
  set_allocation_size Handle.dir size st = (failed NtStatus.invalid_device_request, st)
  set_allocation_size Handle.file (negsuc _) st = (failed NtStatus.invalid_parameter, st)
  set_allocation_size Handle.file (pos size) st =
      if ltb size (len c st) then lift (set_len c size st) else (success tt, st)
