-- ===== src/Drive/Handler/Named.antt =====
-- What the drive of handler.rs does by name, over the vault of vault.rs: information, listing,
-- deleting and moving. A path is what `path_of` read, if it could. What Windows tells of stored
-- items is an argument.
use desktop_folder_locker.Common.{
  ℕ, Option, none, some, List, [], ◌∷◌, Bool, true, false, ◌==◌, if◌then◌else◌,
}
use desktop_folder_locker.Common.Text.{Text, is_empty}
use desktop_folder_locker.Vault2.Error.{Result, ok, err, Error}
use desktop_folder_locker.Vault2.Platform.{SystemTime, system_time}
use desktop_folder_locker.Vault2.Vault.Maps.{StoredPath}
use desktop_folder_locker.Vault2.Vault.Disk.{Node}
use desktop_folder_locker.Vault2.Vault.Folders.{NameCalls, Item, Vault}
use desktop_folder_locker.Vault2.Vault.Lookup.{lookup}
use desktop_folder_locker.Vault2.Vault.Opening.{ContentCalls, Listing, file_len, list, is_empty_dir}
use desktop_folder_locker.Vault2.Vault.Removing.{remove_item}
use desktop_folder_locker.Vault2.Vault.Renaming.{rename}
use desktop_folder_locker.Drive.Handler.Status.{
  NtStatus, Outcome, success, failed, status, lookup_status,
}
use desktop_folder_locker.Drive.Handler.Files.{Handle}
use desktop_folder_locker.Drive.Handler.InUse.{has_any}
use desktop_folder_locker.Drive.Handler.Create.{read_only}
use desktop_folder_locker.Drive.Handler.Attributes.{
  visible_attributes, HandleInfo, FileInfo, file_info,
}

pub record FindData : Type 0 where
  pub attributes : ℕ
  pub creation_time : SystemTime
  pub last_access_time : SystemTime
  pub last_write_time : SystemTime
  pub file_size : ℕ
  pub file_name : Text

-- What Windows says to an entry.
pub data Filled : Type 0 where
  taken name_too_long buffer_full : Filled

-- The name of a stream.
abbrev pub starts_with_colon : Text → Bool
starts_with_colon [] = false
starts_with_colon (c ∷ path) = c == b':'

module _ (calls : NameCalls) (content : ContentCalls) (from_win32 : ℕ → NtStatus) where
  abbrev pub found : Result (Option Item) × Vault → Outcome Item × Vault
  found (err e, v) = (failed (lookup_status from_win32 e), v)
  found (ok none, v) = (failed NtStatus.object_name_not_found, v)
  found (ok (some it), v) = (success it, v)

  unfoldable pub existing : Option Text → Vault → Outcome Item × Vault
  existing none v = (failed NtStatus.object_name_invalid, v)
  existing (some path) v = found (lookup calls path v)

  -- `?`
  abbrev pub and_found :
      {A : Type 0} → Outcome Item × Vault → (Item → Vault → Outcome A × Vault) → Outcome A × Vault
  and_found (failed s, v) f = (failed s, v)
  and_found (success it, v) f = f it v

  abbrev pub informed : ℕ → Bool → Result HandleInfo → Outcome FileInfo
  informed size is_dir (err e) = failed (status from_win32 e)
  informed size is_dir (ok info) = success (file_info info size is_dir)

  abbrev pub sized : (StoredPath → Result HandleInfo) → Item → Result ℕ → Outcome FileInfo
  sized stored_info it (err e) = failed (status from_win32 e)
  sized stored_info it (ok size) = informed size it.is_dir (stored_info it.stored_path)

  -- Of an open file, with what its handle tells; of a folder by its name.
  unfoldable pub get_file_information :
      Option ℕ
      → Option Text
      → (ℕ → Result HandleInfo)
      → (StoredPath → Result HandleInfo)
      → Vault
      → Outcome FileInfo × Vault
  get_file_information (some f) path handle_info stored_info v =
      (informed (content.len f) false (handle_info f), v)
  get_file_information none path handle_info stored_info v =
      and_found (existing path v) λ it w. (sized stored_info it (file_len content it w), w)

  -- `find_files` hands over each item, with a state of Windows, until its buffer is full. A name
  -- with a NUL in it is left out, and one that is too long for Windows is skipped.
  module _ {B : Type 0} (metadata : Node → HandleInfo) (is_u16 : Text → Bool)
      (fill : FindData → B → Filled × B) where
    abbrev pub find_data : Listing → FindData
    find_data entry =
        let info = metadata entry.metadata in
        record {
          attributes = visible_attributes info.attributes entry.is_dir;
          creation_time = system_time info.creation_time;
          last_access_time = system_time info.last_access_time;
          last_write_time = system_time info.last_write_time;
          file_size = entry.len;
          file_name = entry.name;
        }

    abbrev pub go_on : (B → Outcome (Unit {0}) × B) → Filled × B → Outcome (Unit {0}) × B
    go_on rest (Filled.buffer_full, b) = (failed NtStatus.buffer_overflow, b)
    go_on rest (Filled.taken, b) = rest b
    go_on rest (Filled.name_too_long, b) = rest b

    unfoldable pub fill_all : List Listing → B → Outcome (Unit {0}) × B
    fill_all [] b = (success tt, b)
    fill_all (entry ∷ entries) b = elim (is_u16 entry.name) [
      | false ↦ fill_all entries b
      | true ↦ go_on (fill_all entries) (fill (find_data entry) b)
    ]

    abbrev pub listed : B → Result (List Listing) × Vault → Outcome (Unit {0}) × (B × Vault)
    listed b (err e, v) = (failed (status from_win32 e), (b, v))
    listed b (ok entries, v) = let (outcome, b') = fill_all entries b in (outcome, (b', v))

    unfoldable pub find_files : Option Text → B → Vault → Outcome (Unit {0}) × (B × Vault)
    find_files path b v = elim (existing path v).0 [
      | failed s ↦ (failed s, (b, (existing path v).1))
      | success it ↦ listed b (list calls content it (existing path v).1)
    ]

  -- The file is removed in `cleanup`.
  unfoldable pub delete_file : Handle → Bool → Result ℕ → Outcome (Unit {0})
  delete_file Handle.dir on_close attributes = failed NtStatus.access_denied
  delete_file Handle.file false attributes = success tt
  delete_file Handle.file true (err e) = failed (status from_win32 e)
  delete_file Handle.file true (ok attributes) =
      if has_any attributes (read_only ∷ []) then failed NtStatus.cannot_delete else success tt

  abbrev pub if_empty : Result Bool × Vault → Outcome (Unit {0}) × Vault
  if_empty (err e, v) = (failed (status from_win32 e), v)
  if_empty (ok true, v) = (success tt, v)
  if_empty (ok false, v) = (failed NtStatus.directory_not_empty, v)

  unfoldable pub delete_directory : Handle → Bool → Option Text → Vault → Outcome (Unit {0}) × Vault
  delete_directory Handle.file on_close path v = (failed NtStatus.invalid_device_request, v)
  delete_directory Handle.dir false path v = (success tt, v)
  delete_directory Handle.dir true path v = and_found (existing path v) λ it w.
      if is_empty it.name
      then (failed NtStatus.access_denied, w)
      else if_empty (is_empty_dir calls it w)

  -- What `cleanup` does to the vault, with the name of a temporary folder; errors are dropped.
  unfoldable pub cleanup : Text → Bool → Option Text → Vault → Vault
  cleanup temp false path v = v
  cleanup temp true none v = v
  cleanup temp true (some path) v = (remove_item calls temp path v).1

  abbrev pub move_status : Error → NtStatus
  move_status Error.not_a_directory = NtStatus.object_path_not_found
  move_status e = status from_win32 e

  abbrev pub moved : Result Item × Vault → Outcome (Unit {0}) × Vault
  moved (err e, v) = (failed (move_status e), v)
  moved (ok it, v) = (success tt, v)

  unfoldable pub move_file : Option Text → Option Text → Bool → Vault → Outcome (Unit {0}) × Vault
  move_file none to replace v = (failed NtStatus.object_name_invalid, v)
  move_file (some from) none replace v = (failed NtStatus.object_name_invalid, v)
  move_file (some from) (some to) replace v =
      if starts_with_colon to
      then (failed NtStatus.not_supported, v)
      else moved (rename calls from to replace v)
