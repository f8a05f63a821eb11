-- ===== src/Vault2/Vault/Folders.antt =====
-- The folders of an open vault: their IVs and the indexes of their names, how a folder is read,
-- and how an item is found. The functions of names.rs are taken with the keys of the vault.
use desktop_folder_locker.Common.{
  ℕ, Option, none, some, List, [], ◌∷◌, Bool, true, false, ◌==◌, if◌then◌else◌, length,
}
use desktop_folder_locker.Common.Text.{Text}
use desktop_folder_locker.Vault2.Crypto.{Bytes}
use desktop_folder_locker.Vault2.Error.{Result, ok, err, corrupt, from_io, Action}
use desktop_folder_locker.Vault2.Names.Defs.{dir_iv_file}
use desktop_folder_locker.Vault2.Vault.Maps.{StoredPath, text_eq, path_eq, get, insert}
use desktop_folder_locker.Vault2.Vault.Disk.{
  Node, file, folder, Disk, node, Io, done, failed, io_error, read,
}

-- What vault.rs calls of names.rs.
pub record NameCalls : Type 0 where
  pub encrypt_name : Bytes → Text → Result Text
  pub decrypt_name : Bytes → Text → Result Text
  pub entry_name : Text → Text
  pub fold : Text → Text

pub record Entry : Type 0 where
  pub name : Text
  pub stored : Text
  pub is_dir : Bool

abbrev pub Index : Type 0
Index = List (Text × Entry)

pub record DirState : Type 0 where
  pub iv : Bytes
  pub index : Option Index

pub record Item : Type 0 where
  pub stored_path : StoredPath
  pub name : Text
  pub is_dir : Bool

-- An open vault over its disk. A `ContentFile` is a number here, with the path that it keeps;
-- `is_open` says whether someone holds it, so that a weak reference can be upgraded.
pub record Vault : Type 0 where
  pub disk : Disk
  pub dirs : List (StoredPath × DirState)
  pub files : List (StoredPath × ℕ)
  pub path_of : ℕ → StoredPath
  pub is_open : ℕ → Bool
  pub next : ℕ

abbrev pub dir_iv_len : ℕ
dir_iv_len = 16

abbrev pub temp_prefix : ℕ
temp_prefix = b'.'

abbrev pub is_dir_node : Node → Bool
is_dir_node (file bytes) = false
is_dir_node folder = true

abbrev pub is_dir_at : Option Node → Bool
is_dir_at none = false
is_dir_at (some n) = is_dir_node n

abbrev pub root : Item
root = record { stored_path = []; name = []; is_dir = true }

-- What `dir` makes of the IV that it reads, or fails to read.
unfoldable pub iv_result : Option Node → Io Bytes → Result Bytes
iv_result here (failed kind) =
    if is_dir_at here
    then err (corrupt "a folder has lost its IV")
    else err (from_io (io_error kind))
iv_result here (done iv) =
    if length iv == dir_iv_len then ok iv else err (corrupt "a folder has a damaged IV")

unfoldable pub read_iv : StoredPath → Disk → Result Bytes
read_iv path disk = iv_result (node disk path) (read (dir_iv_file ∷ path) disk)

-- `dir`, which returns the IV; the index stays in the table, where all share it.
unfoldable pub dir : StoredPath → Action Vault Bytes
dir path v = elim (get path v.dirs) [
  | some state ↦ (ok state.iv, v)
  | none ↦ elim (read_iv path v.disk) [
    | err e ↦ (err e, v)
    | ok iv ↦ (ok iv, record v { dirs = insert path (record { iv = iv; index = none }) v.dirs })
  ]
]

unfoldable pub index_at : StoredPath → Vault → Option Index
index_at path v = elim (get path v.dirs) [ none ↦ none | some state ↦ state.index ]

unfoldable pub set_index : StoredPath → Index → Vault → Vault
set_index path index v = elim (get path v.dirs) [
  | none ↦ v
  | some state ↦ record v {
    dirs = insert path (record { iv = state.iv; index = some index }) v.dirs;
  }
]
