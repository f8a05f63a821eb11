-- ===== src/Vault2/Vault/Creating.antt =====
-- How vault.rs creates files and folders. A random IV and the name of a temporary folder, which
-- the system's random numbers give, are arguments.
use desktop_folder_locker.Common.{Option, ℕ, none, some, List, [], ◌∷◌, true, false}
use desktop_folder_locker.Common.Text.{Text}
use desktop_folder_locker.Vault2.Crypto.{Bytes}
use desktop_folder_locker.Vault2.Error.{
  ok, Error, Action, pure, raise, lift, gets, modify, ◌>>=◌, ◌>>◌,
}
use desktop_folder_locker.Vault2.Names.Defs.{dir_iv_file}
use desktop_folder_locker.Vault2.Vault.Maps.{StoredPath, text_eq, path_eq, insert}
use desktop_folder_locker.Vault2.Vault.Disk.{
  Disk, node, done, failed, mapped, write, create_new, fs_create_dir, fs_rename, remove_dir_all,
}
use desktop_folder_locker.Vault2.Vault.Folders.{Entry, NameCalls, Item, Vault}
use desktop_folder_locker.Vault2.Vault.Reading.{find}
use desktop_folder_locker.Vault2.Vault.Lookup.{parent}
use desktop_folder_locker.Vault2.Vault.Paths.{components}
use desktop_folder_locker.Vault2.Vault.Changes.{
  try_mapped, try_converted, split_last, at_last, remember, new_file, index_insert, prepare_name,
}

module _ (calls : NameCalls) where
  -- A name that the folder has no item of.
  abbrev pub prepare_new :
      StoredPath → Bytes → Text → Option Entry → Action Vault (StoredPath × Text)
  prepare_new path iv name (some _) = raise Error.already_exists
  prepare_new path iv name none = do stored ← prepare_name calls path iv name; pure (path, stored)

  -- The part of both kinds of creation up to the stored name: the folder and that name.
  unfoldable pub prepare : Text → List Text → Action Vault (StoredPath × Text)
  prepare name parents = do
    at ← parent calls parents
    found ← find calls at.0 at.1 name
    prepare_new at.0 at.1 name found

  -- `create_file` once the name is prepared.
  unfoldable pub create_prepared : Text → StoredPath → Text → Action Vault (Item × ℕ)
  create_prepared name path stored = do
    try_mapped (create_new (stored ∷ path))
    f ← new_file (stored ∷ path)
    modify (remember (stored ∷ path) f)
    modify (index_insert calls path name stored false)
    pure (record { stored_path = stored ∷ path; name = name; is_dir = false }, f)

  unfoldable pub create_at : Text → List Text → Action Vault (Item × ℕ)
  create_at name parents = do at ← prepare name parents; create_prepared name at.0 at.1

  unfoldable pub create_file : Text → Action Vault (Item × ℕ)
  create_file path = do
    parts ← lift (components path)
    at_last Error.already_exists create_at (split_last parts)

  -- Removes the temporary folder if it could not be finished.
  unfoldable pub build_dir : StoredPath → StoredPath → Bytes → Action Vault (Unit {0})
  build_dir temp path iv v =
      let (written, disk) = write (dir_iv_file ∷ temp) iv v.disk in
      let (renamed, disk1) = fs_rename temp path disk in
      let clean = λ (disk' : Disk). record v { disk = (remove_dir_all temp disk').1 } in
      elim written [
        | failed kind ↦ (mapped (failed kind), clean disk)
        | done _ ↦ elim renamed [
          | failed kind ↦ (mapped (failed kind), clean disk1)
          | done _ ↦ (ok tt, record v { disk = disk1 })
        ]
      ]

  abbrev pub add_dir : StoredPath → Bytes → Vault → Vault
  add_dir path iv v = record v { dirs = insert path (record { iv = iv; index = some [] }) v.dirs }

  -- `create_dir` once the name is prepared.
  unfoldable pub create_dir_prepared : Bytes → Text → Text → StoredPath → Text → Action Vault Item
  create_dir_prepared iv temp name path stored = do
    exists ← gets (λ v. node v.disk (stored ∷ path))
    elim exists [
      | some _ ↦ raise Error.already_exists
      | none ↦ do
        try_converted (fs_create_dir (temp ∷ path))
        build_dir (temp ∷ path) (stored ∷ path) iv
        modify (add_dir (stored ∷ path) iv)
        modify (index_insert calls path name stored true)
        pure (record { stored_path = stored ∷ path; name = name; is_dir = true })
    ]

  unfoldable pub create_dir_at : Bytes → Text → Text → List Text → Action Vault Item
  create_dir_at iv temp name parents = do
    at ← prepare name parents
    create_dir_prepared iv temp name at.0 at.1

  unfoldable pub create_dir : Bytes → Text → Text → Action Vault Item
  create_dir iv temp path = do
    parts ← lift (components path)
    at_last Error.already_exists (create_dir_at iv temp) (split_last parts)
