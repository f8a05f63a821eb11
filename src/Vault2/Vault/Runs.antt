-- ===== src/Vault2/Vault/Runs.antt =====
-- Runs of the vault on a small disk.
use desktop_folder_locker.Common.{Option, none, some, [], ◌≡◌, refl, true, false}
use desktop_folder_locker.Common.Text.{Text, codes, repeat}
use desktop_folder_locker.Vault2.Crypto.{Bytes}
use desktop_folder_locker.Vault2.Error.{Result, ok, err, Error, Action, pure, ◌>>=◌}
use desktop_folder_locker.Vault2.Names.Defs.{
  check_name, is_utf8, is_internal_entry, is_long_entry, sidecar_name,
}
use desktop_folder_locker.Vault2.Vault.Paths.{components, parts_of, check_all}
use desktop_folder_locker.Vault2.Vault.Maps.{get, insert, remove, retain, keys_with}
use desktop_folder_locker.Vault2.Vault.Disk.{
  Disk, node, node_in, read, read_node, read_dir, put, write, create_new, fs_create_dir,
  remove_file, without, remove_dir_all, move_folders, take_out, fill_in, fs_rename, is_within,
  rebase,
}
use desktop_folder_locker.Vault2.Vault.Folders.{
  Item, Vault, iv_result, read_iv, dir, index_at, set_index,
}
use desktop_folder_locker.Vault2.Vault.Reading.{
  encoded_of, entry_of, entries_of, read_entries, collect, find,
}
use desktop_folder_locker.Vault2.Vault.Lookup.{
  exact_path, lookup_exact, search_parts, lookup_parts, lookup, parent,
}
use desktop_folder_locker.Vault2.Vault.Changes.{
  split_last, remember, new_file, forget, forget_file, write_sidecar, remove_sidecar, change_index,
  index_insert, index_remove, prepare_name,
}
use desktop_folder_locker.Vault2.Vault.Creating.{
  prepare, create_prepared, create_at, create_file, build_dir, create_dir_prepared, create_dir_at,
  create_dir,
}
use desktop_folder_locker.Vault2.Vault.Removing.{
  is_empty_dir_at, remove_stored, remove_named, remove_item,
}
use desktop_folder_locker.Vault2.Vault.Renaming.{
  move_dirs, move_file, move_files, moved, replace_target, forget_target, rename_to, rename_source,
  rename_parts, rename,
}
use desktop_folder_locker.Vault2.Vault.Opening.{
  ContentCalls, open_disk, constant_time_eq, check_keys, open_vault, create_vault,
}
use desktop_folder_locker.Vault2.Vault.Toy.{calls}

abbrev content : ContentCalls
content = record { new = λ n. ok tt; from_file = λ bytes. ok tt; plain_len = λ n. n; len = λ f. 7 }

abbrev iv : Bytes
iv = repeat 16 1

abbrev no_disk : Disk
no_disk path = none

abbrev fresh : Result Vault × Disk → Vault
fresh (ok v, disk) = v
fresh (err e, disk) = open_disk disk

abbrev name_of : Option Item → Text
name_of none = []
name_of (some item) = item.name

abbrev error_of : {A : Type 0} → Result A → Option Error
error_of (ok a) = none
error_of (err e) = some e

abbrev refused : {A : Type 0} → Action Vault A → Action Vault (Option Error)
refused m v = let (r, v') = m v in (ok (error_of r), v')

abbrev called : Text → Action Vault Text
called path = do found ← lookup calls path; pure (name_of found)

-- Folders and a file are made and moved, and found again in another case.
abbrev steps : Action Vault (Text × Text × Option Error × Option Error × Option Error)
steps = do
  a ← create_dir calls (repeat 16 2) (codes ".new-0") (codes "a")
  b ← create_dir calls (repeat 16 3) (codes ".new-1") (codes "\\a\\in")
  f ← create_file calls (codes "a/in/f")
  d ← create_dir calls (repeat 16 4) (codes ".new-2") (codes "b")
  m ← rename calls (codes "a") (codes "b/A2") false
  e1 ← refused (remove_item calls (codes ".old-0") (codes "B"))
  e2 ← refused (create_file calls (codes "B"))
  e3 ← refused (rename calls (codes "b") (codes "b/a2/b") false)
  n1 ← called (codes "B/a2/IN/F")
  n2 ← called (codes "a")
  pure (n1, n2, e1, e2, e3)

abbrev removals : Action Vault (Text × Text)
removals = do
  f ← create_file calls (codes "x")
  g ← create_file calls (codes "y")
  m ← rename calls (codes "x") (codes "Y") true
  n1 ← called (codes "y")
  r ← remove_item calls [] (codes "Y")
  n2 ← called (codes "y")
  pure (n1, n2)

script : Result (Text × Text × Option Error × Option Error × Option Error) × Result (Text × Text)
unfolding create_vault check_keys constant_time_eq open_vault open_disk calls repeat check_name
    is_utf8 is_internal_entry is_long_entry sidecar_name components parts_of check_all get insert
    remove retain keys_with node node_in read read_node read_dir put write create_new fs_create_dir
    remove_file without remove_dir_all move_folders take_out fill_in fs_rename is_within rebase
    iv_result read_iv dir index_at set_index encoded_of entry_of entries_of read_entries collect
    find exact_path lookup_exact search_parts lookup_parts lookup parent split_last remember
    new_file forget forget_file write_sidecar remove_sidecar change_index index_insert index_remove
    prepare_name prepare create_prepared create_at create_file build_dir create_dir_prepared
    create_dir_at create_dir is_empty_dir_at remove_stored remove_named remove_item move_dirs
    move_file move_files moved replace_target forget_target rename_to rename_source rename_parts
    rename
script = let v = fresh (create_vault content iv [] 4096 no_disk) in ((steps v).0, (removals v).0)

script_results : script ≡ (
  ok (
    codes "f",
    [],
    some Error.directory_not_empty,
    some Error.already_exists,
    some Error.not_allowed,
  ),
  ok (codes "Y", []),
)
unfolding script
script_results = refl
