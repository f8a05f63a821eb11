-- ===== src/Vault2/Vault/Lookup.antt =====
-- How vault.rs finds an item: by its exact names, or else through the indexes.
use desktop_folder_locker.Common.{Bool, Option, none, some, List, [], ◌∷◌, true, false}
use desktop_folder_locker.Common.Text.{Text}
use desktop_folder_locker.Vault2.Crypto.{Bytes}
use desktop_folder_locker.Vault2.Error.{Result, ok, err, Error, Action, pure, raise, lift, ◌>>=◌}
use desktop_folder_locker.Vault2.Vault.Maps.{StoredPath, text_eq, path_eq}
use desktop_folder_locker.Vault2.Vault.Disk.{Node, node}
use desktop_folder_locker.Vault2.Vault.Paths.{components}
use desktop_folder_locker.Vault2.Vault.Folders.{
  NameCalls, Entry, Item, Vault, is_dir_node, root, dir,
}
use desktop_folder_locker.Vault2.Vault.Reading.{find}

abbrev pub item_at : StoredPath → Entry → Item
item_at parent entry = record {
  stored_path = entry.stored ∷ parent;
  name = entry.name;
  is_dir = entry.is_dir;
}

abbrev pub last : Text → List Text → Text
last name [] = name
last name (next ∷ rest) = last next rest

-- At the last name of a path.
abbrev pub stop_at : StoredPath → Option Entry → Action Vault (Option Item)
stop_at path none = pure none
stop_at path (some entry) = pure (some (item_at path entry))

abbrev pub enter :
    (StoredPath → Action Vault (Option Item)) → StoredPath → Bool → Action Vault (Option Item)
enter inside path false = raise Error.not_a_directory
enter inside path true = inside path

-- At a name before the last one.
abbrev pub go_on :
    (StoredPath → Action Vault (Option Item))
    → StoredPath
    → Option Entry
    → Action Vault (Option Item)
go_on inside path none = raise Error.not_found
go_on inside path (some entry) = enter inside (entry.stored ∷ path) entry.is_dir

-- `.ok()?`
abbrev pub or_none :
    {A B : Type 0} → Result A × Vault → (A → Vault → Option B × Vault) → Option B × Vault
or_none (ok a, v) f = f a v
or_none (err e, v) f = (none, v)

abbrev pub item_of : Text → StoredPath → Option Node → Option Item
item_of name path none = none
item_of name path (some n) =
    some (record { stored_path = path; name = name; is_dir = is_dir_node n })

-- `symlink_metadata` of the path that was computed, if it was.
abbrev pub with_metadata : Text → Option StoredPath × Vault → Option Item × Vault
with_metadata name (none, v) = (none, v)
with_metadata name (some path, v) = (item_of name path (node v.disk path), v)

abbrev pub dir_if : StoredPath → Bool → Action Vault (StoredPath × Bytes)
dir_if path false = raise Error.not_a_directory
dir_if path true = do iv ← dir path; pure (path, iv)

abbrev pub as_dir : Option Item → Action Vault (StoredPath × Bytes)
as_dir none = raise Error.not_found
as_dir (some item) = dir_if item.stored_path item.is_dir

module _ (calls : NameCalls) where
  -- The stored path of names in the case that they were created with.
  unfoldable pub exact_path : StoredPath → List Text → Vault → Option StoredPath × Vault
  exact_path path [] v = (some path, v)
  exact_path path (part ∷ parts) v = or_none (dir path v) λ iv v1.
      or_none (calls.encrypt_name iv part, v1)
        λ encoded. exact_path (calls.entry_name encoded ∷ path) parts

  unfoldable pub lookup_exact : Text → List Text → Vault → Option Item × Vault
  lookup_exact part rest v = with_metadata (last part rest) (exact_path [] (part ∷ rest) v)

  -- The loop of `lookup_parts` through the indexes.
  unfoldable pub search_parts : StoredPath → Text → List Text → Action Vault (Option Item)
  search_parts path part [] = do iv ← dir path; found ← find calls path iv part; stop_at path found
  search_parts path part (next ∷ rest) = do
    iv ← dir path
    found ← find calls path iv part
    go_on (λ inner. search_parts inner next rest) path found

  -- Another case, or not there: the indexes are gone through.
  abbrev pub or_search : Text → List Text → Option Item × Vault → Result (Option Item) × Vault
  or_search part rest (some item, v) = (ok (some item), v)
  or_search part rest (none, v) = search_parts [] part rest v

  unfoldable pub lookup_parts : List Text → Action Vault (Option Item)
  lookup_parts [] v = (ok (some root), v)
  lookup_parts (part ∷ rest) v = or_search part rest (lookup_exact part rest v)

  unfoldable pub lookup : Text → Action Vault (Option Item)
  lookup path = do parts ← lift (components path); lookup_parts parts

  -- The stored path of a folder, and its IV.
  unfoldable pub parent : List Text → Action Vault (StoredPath × Bytes)
  parent parts = do found ← lookup_parts parts; as_dir found
