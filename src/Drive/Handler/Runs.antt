-- ===== src/Drive/Handler/Runs.antt =====
-- Runs of the calls by name on a small vault whose names are stored as they are, and the theorems
-- on them at small inputs.
use desktop_folder_locker.Common.{
  ℕ, not, ◌||◌, ◌<◌, ◌^◌, ◌≡◌, ◌≢◌, refl, none, some, List, [], ◌∷◌, true, false, if◌then◌else◌,
}
use desktop_folder_locker.Common.Text.{Text, codes, repeat}
use desktop_folder_locker.Vault2.Error.{ok}
use desktop_folder_locker.Vault2.Names.Defs.{
  check_name, is_utf8, is_internal_entry, is_long_entry, sidecar_name, dir_iv_file,
}
use desktop_folder_locker.Vault2.Vault.Paths.{components, parts_of, check_all}
use desktop_folder_locker.Vault2.Vault.Maps.{eq_path, get, insert, remove, retain}
use desktop_folder_locker.Vault2.Vault.Disk.{
  Disk, Node, file, folder, node, node_in, read, read_node, read_dir, put, remove_file, without,
  remove_dir_all, move_folders, take_out, fill_in, fs_rename, is_within, rebase,
}
use desktop_folder_locker.Vault2.Vault.Folders.{
  NameCalls, Item, Vault, root, iv_result, read_iv, dir, index_at, set_index,
}
use desktop_folder_locker.Vault2.Vault.Reading.{
  encoded_of, entry_of, entries_of, read_entries, collect, find,
}
use desktop_folder_locker.Vault2.Vault.Lookup.{
  exact_path, lookup_exact, search_parts, lookup_parts, lookup, parent,
}
use desktop_folder_locker.Vault2.Vault.Changes.{
  split_last, forget, forget_file, remove_sidecar, change_index, index_remove,
}
use desktop_folder_locker.Vault2.Vault.Removing.{
  is_empty_dir_at, remove_stored, remove_named, remove_item,
}
use desktop_folder_locker.Vault2.Vault.Opening.{
  ContentCalls, open_file_at, listings, keep_index, list, is_empty_dir,
}
use desktop_folder_locker.Drive.Handler.Status.{NtStatus, Outcome, success, failed}
use desktop_folder_locker.Drive.Handler.Files.{Handle}
use desktop_folder_locker.Drive.Handler.InUse.{has_any}
use desktop_folder_locker.Drive.Handler.Attributes.{
  HandleInfo, masked, visible_attributes, stored_attributes,
}
use desktop_folder_locker.Drive.Handler.Shown.{visible-stored}
use desktop_folder_locker.Drive.Handler.Named.{
  FindData, Filled, existing, fill_all, find_files, delete_directory, cleanup, move_file,
}
use desktop_folder_locker.Drive.Handler.Top.{IsRefused, top_stays}

abbrev from_win32 : ℕ → NtStatus
from_win32 code = NtStatus.win32 code

abbrev calls : NameCalls
calls = record {
  encrypt_name = λ iv name. ok name;
  decrypt_name = λ iv stored. ok stored;
  entry_name = λ encoded. encoded;
  fold = λ name. name;
}

abbrev content : ContentCalls
content = record { new = λ n. ok tt; from_file = λ bytes. ok tt; plain_len = λ n. n; len = λ f. 0 }

-- A folder and a file of three bytes.
abbrev disk : Disk
disk path =
    if eq_path path []
    then some (
        (dir_iv_file, file (repeat 16 1))
        ∷ (codes "d", folder)
        ∷ (codes "f", file (repeat 3 7))
        ∷ [])
    else if eq_path path (codes "d" ∷ [])
    then some ((dir_iv_file, file (repeat 16 2)) ∷ [])
    else none

abbrev vault : Vault
vault = record {
  disk = disk;
  dirs = [];
  files = [];
  path_of = λ f. [];
  is_open = λ f. false;
  next = 0;
}

-- Windows tells of compressed items, in a buffer for two entries.
abbrev metadata : Node → HandleInfo
metadata n = record {
  attributes = 2048;
  creation_time = 0;
  last_access_time = 0;
  last_write_time = 0;
  index = 0;
}

abbrev kept : FindData → List (Text × ℕ × ℕ) → Filled × List (Text × ℕ × ℕ)
kept entry (a ∷ b ∷ rest) = (Filled.buffer_full, a ∷ b ∷ rest)
kept entry other = (Filled.taken, (entry.file_name, entry.attributes, entry.file_size) ∷ other)

-- What is listed, whether the folder may be deleted, and what is found of it after the cleanup.
script : (Outcome (Unit {0}) × List (Text × ℕ × ℕ)) × Outcome (Unit {0}) × Outcome Item
unfolding check_name is_utf8 is_internal_entry is_long_entry sidecar_name components parts_of
    check_all get insert remove retain node node_in read read_node read_dir put remove_file without
    remove_dir_all move_folders take_out fill_in fs_rename is_within rebase iv_result read_iv dir
    index_at set_index encoded_of entry_of entries_of read_entries collect find exact_path
    lookup_exact search_parts lookup_parts lookup parent split_last forget forget_file
    remove_sidecar change_index index_remove is_empty_dir_at remove_stored remove_named remove_item
    open_file_at listings keep_index list is_empty_dir has_any masked visible_attributes existing
    fill_all find_files delete_directory cleanup repeat
script =
    let listed =
      find_files calls content from_win32 metadata (λ name. true) kept (some (codes "\\")) []
        vault in
    let deleted =
      delete_directory calls content from_win32 Handle.dir true (some (codes "\\d")) listed.1.1 in
    let cleaned =
      cleanup calls content from_win32 (codes ".old-0") true (some (codes "\\d")) deleted.1 in
    (
      (listed.0, listed.1.0),
      deleted.0,
      (existing calls content from_win32 (some (codes "\\d")) cleaned).0,
    )

script_results : script ≡ (
  (success tt, (codes "f", 128, 3) ∷ (codes "d", 16, 0) ∷ []),
  success tt,
  failed NtStatus.object_name_not_found,
)
unfolding script
script_results = refl

slashes : components (codes "\\/") ≡ ok []
unfolding components parts_of check_all
slashes = refl

top_stays_example :
    (existing calls content from_win32 (some (codes "\\/")) vault ≡ (success root, vault))
    × (delete_directory calls content from_win32 Handle.dir true (some (codes "\\/")) vault
        ≡ (failed NtStatus.access_denied, vault))
    × (cleanup calls content from_win32 (codes ".old-0") true (some (codes "\\/")) vault ≡ vault)
    × IsRefused
        (move_file calls content from_win32 (some (codes "\\/")) (some (codes "\\e")) true vault)
        vault
    × IsRefused
        (move_file calls content from_win32 (some (codes "\\e")) (some (codes "\\/")) true vault)
        vault
top_stays_example =
    top_stays calls content from_win32 (codes ".old-0") (codes "\\/") (codes "\\e") true vault
      slashes

-- Hidden and compressed, of which the drive keeps the first.
run-attributes : visible_attributes (stored_attributes 2050) false ≡ 2
unfolding visible_attributes stored_attributes masked has_any
run-attributes = refl

visible-stored_example :
    let shown = visible_attributes (stored_attributes 2050) false in
    let given = λ (i : ℕ). has_any 2050 (i ∷ []) in
    let bit = λ (i : ℕ). has_any shown (i ∷ []) in
    (bit 0 ≡ given 0)
    × (bit 1 ≡ given 1)
    × (bit 2 ≡ given 2)
    × (bit 5 ≡ given 5)
    × (bit 13 ≡ given 13)
    × (bit 4 ≡ false)
    × (bit 7 ≡ not (given 0 || (given 1 || (given 2 || (given 5 || given 13)))))
    × (shown < 2 ^ 14)
    × (stored_attributes 2050 ≢ 0)
visible-stored_example = visible-stored 2050 false
