-- ===== src/Vault2/Vault/Reading.antt =====
-- How vault.rs reads a folder: `read_entries`, the index of its names, and `find`.
use desktop_folder_locker.Common.{
  Option, none, some, List, [], ◌∷◌, ◌&&◌, ◌||◌, eq_bytes, if◌then◌else◌,
}
use desktop_folder_locker.Common.Text.{Text}
use desktop_folder_locker.Vault2.Crypto.{Bytes}
use desktop_folder_locker.Vault2.Error.{and_then, Result, ok, err, Action}
use desktop_folder_locker.Vault2.Names.Defs.{
  starts_with, is_long_entry, sidecar_name, is_internal_entry, is_utf8,
}
use desktop_folder_locker.Vault2.Vault.Maps.{StoredPath, text_eq, path_eq, get, insert}
use desktop_folder_locker.Vault2.Vault.Disk.{folder, Node, file, Directory, Disk, read_dir, mapped}
use desktop_folder_locker.Vault2.Vault.Folders.{
  NameCalls, Entry, Index, Vault, temp_prefix, is_dir_node, index_at, set_index,
}

-- `continue` for what is no item of the vault.
abbrev pub keep : Option Entry → Node → List (Entry × Node) → List (Entry × Node)
keep none n entries = entries
keep (some entry) n entries = (entry, n) ∷ entries

module _ (calls : NameCalls) where
  -- The text in the file next to a long name, if it is the one that belongs there.
  abbrev pub read_sidecar : Text → Option Node → Option Text
  read_sidecar stored (some (file encoded)) =
      if is_utf8 [] encoded && eq_bytes (calls.entry_name encoded) stored
      then some encoded
      else none
  read_sidecar stored (some folder) = none
  read_sidecar stored none = none

  -- The text that an entry's name is encrypted to.
  unfoldable pub encoded_of : Directory → Text → Option Text
  encoded_of items stored =
      if is_long_entry stored
      then read_sidecar stored (get (sidecar_name stored) items)
      else some stored

  -- What `read_entries` makes of one entry of a folder.
  unfoldable pub entry_of : Bytes → Directory → Text → Node → Option Entry
  entry_of iv items stored n =
      if is_internal_entry stored || starts_with temp_prefix stored
      then none
      else elim (encoded_of items stored) [
        | none ↦ none
        | some encoded ↦ elim (calls.decrypt_name iv encoded) [
          | err _ ↦ none
          | ok name ↦ some (record { name = name; stored = stored; is_dir = is_dir_node n })
        ]
      ]

  unfoldable pub entries_of : Bytes → Directory → Directory → List (Entry × Node)
  entries_of iv items [] = []
  entries_of iv items ((stored, n) ∷ rest) =
      keep (entry_of iv items stored n) n (entries_of iv items rest)

  unfoldable pub read_entries : StoredPath → Bytes → Disk → Result (List (Entry × Node))
  read_entries path iv disk =
      and_then (mapped (read_dir path disk)) λ items. ok (entries_of iv items items)

  unfoldable pub collect : List (Entry × Node) → Index → Index
  collect [] index = index
  collect ((entry, n) ∷ rest) index = collect rest (insert (calls.fold entry.name) entry index)

  abbrev pub index_of : List (Entry × Node) → Index
  index_of entries = collect entries []

  -- `find`, in the folder with the IV.
  unfoldable pub find : StoredPath → Bytes → Text → Action Vault (Option Entry)
  find path iv name v = elim (index_at path v) [
    | some index ↦ (ok (get (calls.fold name) index), v)
    | none ↦ elim (read_entries path iv v.disk) [
      | err e ↦ (err e, v)
      | ok entries ↦
          (ok (get (calls.fold name) (index_of entries)), set_index path (index_of entries) v)
    ]
  ]
