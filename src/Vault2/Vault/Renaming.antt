-- ===== src/Vault2/Vault/Renaming.antt =====
-- `rename` of vault.rs, and how the tables follow the item that moved.
use desktop_folder_locker.Common.{
  ℕ, Option, none, some, List, [], ◌∷◌, Bool, not, ◌&&◌, ◌||◌, ◌==◌, if◌then◌else◌,
}
use desktop_folder_locker.Common.Text.{Text}
use desktop_folder_locker.Vault2.Crypto.{Bytes}
use desktop_folder_locker.Vault2.Error.{
  Error, Action, pure, raise, lift, modify, unless, ◌>>=◌, ◌>>◌,
}
use desktop_folder_locker.Vault2.Vault.Maps.{
  StoredPath, eq_path, path_eq, get, insert, remove, keys_with,
}
use desktop_folder_locker.Vault2.Vault.Disk.{fs_rename, remove_file, is_within, rebase}
use desktop_folder_locker.Vault2.Vault.Folders.{NameCalls, Entry, DirState, Item, Vault}
use desktop_folder_locker.Vault2.Vault.Reading.{find}
use desktop_folder_locker.Vault2.Vault.Lookup.{parent}
use desktop_folder_locker.Vault2.Vault.Changes.{
  try_mapped, split_last, forget_file, index_insert, index_remove, write_sidecar, remove_sidecar,
}
use desktop_folder_locker.Vault2.Vault.Paths.{components}

-- The loop of `moved` over the folders at or below the old path.
unfoldable pub move_dirs :
    StoredPath
    → StoredPath
    → List StoredPath
    → List (StoredPath × DirState)
    → List (StoredPath × DirState)
move_dirs old new [] dirs = dirs
move_dirs old new (path ∷ paths) dirs = elim (get path dirs) [
  | none ↦ move_dirs old new paths dirs
  | some state ↦ move_dirs old new paths (insert (rebase old new path) state (remove path dirs))
]

-- `set_path`
abbrev pub set_path : ℕ → StoredPath → Vault → Vault
set_path f path v = record v { path_of = λ g. if g == f then path else v.path_of g }

-- One round of the loop of `moved` over the files.
unfoldable pub move_file : StoredPath → StoredPath → StoredPath → Vault → Vault
move_file old new path v = elim (get path v.files) [
  | none ↦ v
  | some f ↦
      let files = remove path v.files in
      if v.is_open f
      then set_path f (rebase old new path)
          (record v { files = insert (rebase old new path) f files })
      else record v { files = files }
]

unfoldable pub move_files : StoredPath → StoredPath → List StoredPath → Vault → Vault
move_files old new [] v = v
move_files old new (path ∷ paths) v = move_files old new paths (move_file old new path v)

unfoldable pub moved : StoredPath → StoredPath → Vault → Vault
moved old new v =
    move_files old new (keys_with (is_within old) v.files)
      (record v { dirs = move_dirs old new (keys_with (is_within old) v.dirs) v.dirs })

-- What happens to an item that stands at the new name already.
unfoldable pub replace_target :
    Entry → StoredPath → StoredPath → StoredPath → Option Entry → Bool → Action Vault (Unit {0})
replace_target source source_path target_path to_parent none replace = pure tt
replace_target source source_path target_path to_parent (some target) replace =
    let existing = target.stored ∷ to_parent in
    if eq_path existing source_path
    then pure tt
    else if not replace
    then raise Error.already_exists
    else if target.is_dir || source.is_dir
    then raise Error.not_allowed
    else do
      unless (eq_path existing target_path)
          (try_mapped (remove_file existing) >> remove_sidecar to_parent target.stored)
      modify (forget_file existing)

module _ (calls : NameCalls) where
  unfoldable pub forget_target : StoredPath → Option Entry → Vault → Vault
  forget_target to_parent none v = v
  forget_target to_parent (some target) v = index_remove calls to_parent target.name v

  -- `rename` once both folders, the item and its new stored name are known.
  unfoldable pub rename_to :
      StoredPath → Text → Entry → StoredPath → Bytes → Text → Text → Bool → Action Vault Item
  rename_to from_parent from_name source to_parent to_iv to_name encoded replace =
      let stored = calls.entry_name encoded in
      let source_path : StoredPath = source.stored ∷ from_parent in
      let target_path : StoredPath = stored ∷ to_parent in
      let item : Item = record {
        stored_path = target_path;
        name = to_name;
        is_dir = source.is_dir;
      } in
      if eq_path target_path source_path then pure item else do
        target ← find calls to_parent to_iv to_name
        replace_target source source_path target_path to_parent target replace
        write_sidecar to_parent stored encoded
        try_mapped (fs_rename source_path target_path)
        remove_sidecar from_parent source.stored
        modify (index_remove calls from_parent from_name)
        modify (forget_target to_parent target)
        modify (index_insert calls to_parent to_name stored source.is_dir)
        modify (moved source_path target_path)
        pure item

  unfoldable pub rename_source :
      StoredPath → Text → Entry → Text → List Text → Bool → Action Vault Item
  rename_source from_parent from_name source to_name to_parents replace = do
    to ← parent calls to_parents
    if source.is_dir && is_within (source.stored ∷ from_parent) to.0
        then raise Error.not_allowed
        else do
          encoded ← lift (calls.encrypt_name to.1 to_name)
          rename_to from_parent from_name source to.0 to.1 to_name encoded replace

  unfoldable pub rename_parts : Text → List Text → Text → List Text → Bool → Action Vault Item
  rename_parts from_name from_parents to_name to_parents replace = do
    from ← parent calls from_parents
    found ← find calls from.0 from.1 from_name
    elim found [
      | none ↦ raise Error.not_found
      | some source ↦ rename_source from.0 from_name source to_name to_parents replace
    ]

  unfoldable pub rename : Text → Text → Bool → Action Vault Item
  rename from to replace = do
    from_parts ← lift (components from)
    to_parts ← lift (components to)
    elim (split_last from_parts) [
      | none ↦ raise Error.not_allowed
      | some (from_name, from_parents) ↦ elim (split_last to_parts) [
        | none ↦ raise Error.not_allowed
        | some (to_name, to_parents) ↦
            rename_parts from_name from_parents to_name to_parents replace
      ]
    ]
