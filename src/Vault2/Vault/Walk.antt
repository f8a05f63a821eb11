-- ===== src/Vault2/Vault/Walk.antt =====
-- What a lookup promises, said of the stored folders alone: each folder is a map from folded names
-- to entries, and a path is followed through these maps. No table and no index is used.
use desktop_folder_locker.Common.{
  Bool, Option, none, some, List, [], ◌∷◌, true, false, ◌≡◌, ◌≢◌, ◌<◌, ◌^◌, length,
}
use desktop_folder_locker.Common.Text.{Text}
use desktop_folder_locker.Vault2.Crypto.{Bytes}
use desktop_folder_locker.Vault2.Error.{Result, ok, err, Error, and_then}
use desktop_folder_locker.Vault2.Names.Defs.{is_utf8, is_internal_entry}
use desktop_folder_locker.Vault2.Vault.Maps.{StoredPath, text_eq, path_eq, get}
use desktop_folder_locker.Vault2.Vault.Disk.{Directory, Node, folder, Disk, node}
use desktop_folder_locker.Vault2.Vault.Folders.{
  NameCalls, Entry, Index, DirState, Item, Vault, root, read_iv, is_dir_node,
}
use desktop_folder_locker.Vault2.Vault.Reading.{read_entries, index_of}
use desktop_folder_locker.Vault2.Vault.Lookup.{item_at}

-- The names that the laws of names.rs are about.
abbrev pub IsName : Text → Type 0
IsName name = (is_utf8 [] name ≡ true) × (length name < 2 ^ 38)

abbrev pub AreNames : List Text → Type 0
AreNames [] = Unit
AreNames (name ∷ names) = IsName name × AreNames names

abbrev pub found_last : StoredPath → Option Entry → Result (Option Item)
found_last path none = ok none
found_last path (some entry) = ok (some (item_at path entry))

abbrev pub enter_found :
    (StoredPath → Result (Option Item)) → StoredPath → Bool → Result (Option Item)
enter_found inside path false = err Error.not_a_directory
enter_found inside path true = inside path

abbrev pub follow :
    (StoredPath → Result (Option Item)) → StoredPath → Option Entry → Result (Option Item)
follow inside path none = err Error.not_found
follow inside path (some entry) = enter_found inside (entry.stored ∷ path) entry.is_dir

abbrev pub dir_at : Disk → StoredPath → Bool → Result (StoredPath × Bytes)
dir_at disk path false = err Error.not_a_directory
dir_at disk path true = and_then (read_iv path disk) λ iv. ok (path, iv)

abbrev pub dir_of : Disk → Option Item → Result (StoredPath × Bytes)
dir_of disk none = err Error.not_found
dir_of disk (some item) = dir_at disk item.stored_path item.is_dir

module _ (calls : NameCalls) where
  -- What the stored folder has under a name, in any case.
  unfoldable pub find_in : Disk → StoredPath → Bytes → Text → Result (Option Entry)
  find_in disk path iv name =
      and_then (read_entries calls path iv disk)
        λ entries. ok (get (calls.fold name) (index_of calls entries))

  unfoldable pub walk : Disk → StoredPath → Text → List Text → Result (Option Item)
  walk disk path part [] =
      and_then (read_iv path disk) λ iv. and_then (find_in disk path iv part) (found_last path)
  walk disk path part (next ∷ rest) =
      and_then (read_iv path disk) λ iv.
        and_then (find_in disk path iv part) (follow (λ inner. walk disk inner next rest) path)

  unfoldable pub walk_parts : Disk → List Text → Result (Option Item)
  walk_parts disk [] = ok (some root)
  walk_parts disk (part ∷ rest) = walk disk [] part rest

  -- What stands where a name is stored is found under that name, with the name's own case; a
  -- folder has its entry in the folder above, and no bookkeeping file is a folder.
  pub record IsTidy (disk : Disk) : Type 0 where
    pub tree :
        (name : Text) (path : StoredPath) (items : Directory)
        → disk (name ∷ path) ≡ some items
        → node disk (name ∷ path) ≡ some folder
    pub books :
        (name : Text) (path : StoredPath)
        → is_internal_entry name ≡ true
        → node disk (name ∷ path) ≢ some folder
    pub exact :
        (path : StoredPath) (iv name encoded : Text) (n : Node)
        → IsName name
        → read_iv path disk ≡ ok iv
        → calls.encrypt_name iv name ≡ ok encoded
        → node disk (calls.entry_name encoded ∷ path) ≡ some n
        → find_in disk path iv name
          ≡ ok (
              some
                (record { name = name; stored = calls.entry_name encoded; is_dir = is_dir_node n }))

  -- The folder at some names, with its IV.
  unfoldable pub parent_in : Disk → List Text → Result (StoredPath × Bytes)
  parent_in disk parts = and_then (walk_parts disk parts) (dir_of disk)

  -- A folder of the table has the IV that is stored, and its index, if it was built, gives for each
  -- name what the stored folder has.
  pub record IsCurrent (disk : Disk) (path : StoredPath) (state : DirState) : Type 0 where
    pub iv : read_iv path disk ≡ ok state.iv
    pub index :
        (index : Index)
        → state.index ≡ some index
        → (entries : List (Entry × Node)) × (read_entries calls path state.iv disk ≡ ok entries)
          × ((key : Text) → get key index ≡ get key (index_of calls entries))

  abbrev pub IsCoherent : Vault → Type 0
  IsCoherent v =
      (path : StoredPath) (state : DirState)
      → get path v.dirs ≡ some state
      → IsCurrent v.disk path state
