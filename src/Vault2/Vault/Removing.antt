-- ===== src/Vault2/Vault/Removing.antt =====
-- How vault.rs removes items. The name of a temporary folder is an argument.
use desktop_folder_locker.Common.{none, some, List, [], ◌∷◌, Bool, true, false}
use desktop_folder_locker.Common.Text.{Text}
use desktop_folder_locker.Vault2.Error.{Error, Action, pure, raise, lift, modify, ◌>>=◌, ◌>>◌}
use desktop_folder_locker.Vault2.Vault.Maps.{StoredPath, text_eq, path_eq}
use desktop_folder_locker.Vault2.Vault.Disk.{fs_rename, remove_file, remove_dir_all}
use desktop_folder_locker.Vault2.Vault.Folders.{NameCalls, Entry, Vault, dir}
use desktop_folder_locker.Vault2.Vault.Reading.{read_entries, find}
use desktop_folder_locker.Vault2.Vault.Lookup.{parent}
use desktop_folder_locker.Vault2.Vault.Paths.{components}
use desktop_folder_locker.Vault2.Vault.Changes.{
  try_mapped, ignoring, split_last, at_last, forget, forget_file, index_remove, remove_sidecar,
}

module _ (calls : NameCalls) where
  abbrev pub is_nil {ℓ} : {A : Type ℓ} → List A → Bool
  is_nil [] = true
  is_nil (x ∷ xs) = false

  unfoldable pub is_empty_dir_at : StoredPath → Action Vault Bool
  is_empty_dir_at path = do
    iv ← dir path
    entries ← λ v. (read_entries calls path iv v.disk, v)
    pure (is_nil entries)

  -- `remove` of what was found in the folder.
  unfoldable pub remove_stored : Text → StoredPath → Entry → Action Vault (Unit {0})
  remove_stored temp path entry = elim entry.is_dir [
    | true ↦ do
      empty ← is_empty_dir_at (entry.stored ∷ path)
      elim empty [
        | false ↦ raise Error.directory_not_empty
        | true ↦ do
          try_mapped (fs_rename (entry.stored ∷ path) (temp ∷ path))
          ignoring (remove_dir_all (temp ∷ path))
          modify (forget (entry.stored ∷ path))
      ]
    | false ↦ do
      try_mapped (remove_file (entry.stored ∷ path))
      modify (forget_file (entry.stored ∷ path))
  ]

  unfoldable pub remove_named : Text → Text → List Text → Action Vault (Unit {0})
  remove_named temp name parents = do
    at ← parent calls parents
    found ← find calls at.0 at.1 name
    elim found [
      | none ↦ raise Error.not_found
      | some entry ↦ do
        remove_stored temp at.0 entry
        remove_sidecar at.0 entry.stored
        modify (index_remove calls at.0 name)
    ]

  unfoldable pub remove_item : Text → Text → Action Vault (Unit {0})
  remove_item temp path = do
    parts ← lift (components path)
    at_last Error.not_allowed (remove_named temp) (split_last parts)
