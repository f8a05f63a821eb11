-- ===== src/Vault2/Vault/Changes.antt =====
-- What the changes of vault.rs share: calls of `std::fs`, the tables of folders and of open files,
-- the names of items.
use desktop_folder_locker.Common.{
  ℕ, suc, Option, none, some, List, [], ◌∷◌, Bool, true, not, ◌==◌, leb, if◌then◌else◌, length,
}
use desktop_folder_locker.Common.Text.{Text}
use desktop_folder_locker.Vault2.Crypto.{Bytes}
use desktop_folder_locker.Vault2.Error.{Error, raise, ok, Action, pure, lift, unless, ◌>>=◌, ◌>>◌}
use desktop_folder_locker.Vault2.Names.Defs.{is_long_entry, sidecar_name}
use desktop_folder_locker.Vault2.Vault.Maps.{
  get, StoredPath, text_eq, path_eq, insert, remove, retain,
}
use desktop_folder_locker.Vault2.Vault.Disk.{
  Disk, Io, mapped, converted, write, remove_file, is_within,
}
use desktop_folder_locker.Vault2.Vault.Folders.{DirState, NameCalls, Index, Vault}

-- A call of `std::fs` with `map_err(Error::from_io)?`, with `?`, and one whose error is ignored.
abbrev pub try_mapped : (Disk → Io (Unit {0}) × Disk) → Action Vault (Unit {0})
try_mapped f v = let (r, disk) = f v.disk in (mapped r, record v { disk = disk })

abbrev pub try_converted : (Disk → Io (Unit {0}) × Disk) → Action Vault (Unit {0})
try_converted f v = let (r, disk) = f v.disk in (converted r, record v { disk = disk })

abbrev pub ignoring : (Disk → Io (Unit {0}) × Disk) → Action Vault (Unit {0})
ignoring f v = let (r, disk) = f v.disk in (ok tt, record v { disk = disk })

unfoldable pub split_last : List Text → Option (Text × List Text)
split_last [] = none
split_last (part ∷ rest) = elim (split_last rest) [
  | none ↦ some (part, [])
  | some (name, parents) ↦ some (name, part ∷ parents)
]

-- `split_last().ok_or(e)?`
abbrev pub at_last :
    {A : Type 0}
    → Error
    → (Text → List Text → Action Vault A)
    → Option (Text × List Text)
    → Action Vault A
at_last e f none = raise e
at_last e f (some (name, parents)) = f name parents

unfoldable pub remember : StoredPath → ℕ → Vault → Vault
remember path f v =
    let files = if leb 256 (length v.files) then retain (λ _ h. v.is_open h) v.files else v.files in
    record v { files = insert path f files }

-- The object of a file that was opened or created.
unfoldable pub new_file : StoredPath → Action Vault ℕ
new_file path v = (
  ok v.next,
  record v {
    path_of = λ f. if f == v.next then path else v.path_of f;
    is_open = λ f. if f == v.next then true else v.is_open f;
    next = suc v.next;
  },
)

-- Forgets the folder at the path and everything inside it.
unfoldable pub forget : StoredPath → Vault → Vault
forget path v = record v { dirs = retain (λ p _. not (is_within path p)) v.dirs }

unfoldable pub forget_file : StoredPath → Vault → Vault
forget_file path v = record v { files = remove path v.files }

-- Writes the file that holds a long name.
unfoldable pub write_sidecar : StoredPath → Text → Text → Action Vault (Unit {0})
write_sidecar path stored encoded =
    unless (not (is_long_entry stored)) (try_converted (write (sidecar_name stored ∷ path) encoded))

unfoldable pub remove_sidecar : StoredPath → Text → Action Vault (Unit {0})
remove_sidecar path stored =
    unless (not (is_long_entry stored)) (ignoring (remove_file (sidecar_name stored ∷ path)))

-- A change of the index of a folder, if it was built; all who have the folder share its state.
abbrev pub changed : (Index → Index) → Option Index → Option Index
changed f none = none
changed f (some index) = some (f index)

abbrev pub updated : (Index → Index) → DirState → DirState
updated f state = record { iv = state.iv; index = changed f state.index }

unfoldable pub change_index : StoredPath → (Index → Index) → Vault → Vault
change_index path f v = elim (get path v.dirs) [
  | none ↦ v
  | some state ↦ record v { dirs = insert path (updated f state) v.dirs }
]

module _ (calls : NameCalls) where
  unfoldable pub index_insert : StoredPath → Text → Text → Bool → Vault → Vault
  index_insert path name stored is_dir =
      change_index path
        (insert (calls.fold name) (record { name = name; stored = stored; is_dir = is_dir }))

  unfoldable pub index_remove : StoredPath → Text → Vault → Vault
  index_remove path name = change_index path (remove (calls.fold name))

  -- The stored name; its path is that name in the folder.
  unfoldable pub prepare_name : StoredPath → Bytes → Text → Action Vault Text
  prepare_name path iv name = do
    encoded ← lift (calls.encrypt_name iv name)
    write_sidecar path (calls.entry_name encoded) encoded
    pure (calls.entry_name encoded)
