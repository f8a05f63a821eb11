-- ===== src/Vault2/Vault/Disk.antt =====
-- The stored folders as `std::fs` shows them to vault.rs. The order in which a folder is listed
-- is the order of its list.
use desktop_folder_locker.Common.{Option, none, some, List, [], ◌∷◌, Bool, ◌||◌, if◌then◌else◌}
use desktop_folder_locker.Common.Text.{Text}
use desktop_folder_locker.Vault2.Vault.Maps.{StoredPath, eq_path, text_eq, get, insert, remove}
use desktop_folder_locker.Vault2.Crypto.{Bytes}
use desktop_folder_locker.Vault2.Error.{Result, ok, err, IoError, ErrorKind, io, from_io}

-- `Path::starts_with`
unfoldable pub is_within : StoredPath → StoredPath → Bool
is_within top [] = eq_path [] top
is_within top (n ∷ p) = eq_path (n ∷ p) top || is_within top p

-- The path with `new` in place of its start `old`.
unfoldable pub rebase : StoredPath → StoredPath → StoredPath → StoredPath
rebase old new [] = if eq_path [] old then new else []
rebase old new (n ∷ p) =
    let rest = n ∷ rebase old new p in
    if eq_path (n ∷ p) old then new else if is_within old p then rest else n ∷ p

-- An entry of a folder, with its metadata; what is in a folder stands under its own path.
pub data Node : Type 0 where
  file : Bytes → Node
  folder : Node

abbrev pub Directory : Type 0
Directory = List (Text × Node)

abbrev pub Disk : Type 0
Disk = StoredPath → Option Directory

unfoldable pub node_in : Text → Option Directory → Option Node
node_in name none = none
node_in name (some dir) = get name dir

-- `fs::symlink_metadata`, and `fs::metadata`: there are no links in a vault.
unfoldable pub node : Disk → StoredPath → Option Node
node disk [] = elim (disk []) [ none ↦ none | some dir ↦ some folder ]
node disk (name ∷ parent) = node_in name (disk parent)

abbrev pub set_dir : StoredPath → Option Directory → Disk → Disk
set_dir path dir disk p = if eq_path p path then dir else disk p

-- What a call of `std::fs` returns.
pub data Io (A : Type 0) : Type 0 where
  done : A → Io A
  failed : ErrorKind → Io A

abbrev pub io_error : ErrorKind → IoError
io_error kind = record { kind = kind; raw_os_error = none }

-- `map_err(Error::from_io)`, and the conversion by `?`.
abbrev pub mapped : {A : Type 0} → Io A → Result A
mapped (done a) = ok a
mapped (failed kind) = err (from_io (io_error kind))

abbrev pub converted : {A : Type 0} → Io A → Result A
converted (done a) = ok a
converted (failed kind) = err (io (io_error kind))

unfoldable pub read_node : Option Node → Io Bytes
read_node none = failed ErrorKind.not_found
read_node (some folder) = failed ErrorKind.permission_denied
read_node (some (file bytes)) = done bytes

unfoldable pub read : StoredPath → Disk → Io Bytes
read path disk = read_node (node disk path)

abbrev pub listing_of : Option Directory → Io Directory
listing_of none = failed ErrorKind.not_found
listing_of (some dir) = done dir

unfoldable pub read_dir : StoredPath → Disk → Io Directory
read_dir path disk = listing_of (disk path)

-- A changed folder; what is inside its subfolders stays.
unfoldable pub put : Text → Node → StoredPath → Directory → Disk → Disk
put name n parent dir disk = set_dir parent (some (insert name n dir)) disk

unfoldable pub write : StoredPath → Bytes → Disk → Io (Unit {0}) × Disk
write [] bytes disk = (failed ErrorKind.permission_denied, disk)
write (name ∷ parent) bytes disk = elim (disk parent) [
  | none ↦ (failed ErrorKind.not_found, disk)
  | some dir ↦ elim (get name dir) [
    | some folder ↦ (failed ErrorKind.permission_denied, disk)
    | _ ↦ (done tt, put name (file bytes) parent dir disk)
  ]
]

-- `OpenOptions::create_new`
unfoldable pub create_new : StoredPath → Disk → Io (Unit {0}) × Disk
create_new [] disk = (failed ErrorKind.already_exists, disk)
create_new (name ∷ parent) disk = elim (disk parent) [
  | none ↦ (failed ErrorKind.not_found, disk)
  | some dir ↦ elim (get name dir) [
    | some _ ↦ (failed ErrorKind.already_exists, disk)
    | none ↦ (done tt, put name (file []) parent dir disk)
  ]
]

unfoldable pub fs_create_dir : StoredPath → Disk → Io (Unit {0}) × Disk
fs_create_dir [] disk = elim (disk []) [
  | none ↦ (done tt, set_dir [] (some []) disk)
  | some _ ↦ (failed ErrorKind.already_exists, disk)
]
fs_create_dir (name ∷ parent) disk = elim (disk parent) [
  | none ↦ (failed ErrorKind.not_found, disk)
  | some dir ↦ elim (get name dir) [
    | some _ ↦ (failed ErrorKind.already_exists, disk)
    | none ↦ (done tt, set_dir (name ∷ parent) (some []) (put name folder parent dir disk))
  ]
]

unfoldable pub remove_file : StoredPath → Disk → Io (Unit {0}) × Disk
remove_file [] disk = (failed ErrorKind.permission_denied, disk)
remove_file (name ∷ parent) disk = elim (disk parent) [
  | none ↦ (failed ErrorKind.not_found, disk)
  | some dir ↦ elim (get name dir) [
    | none ↦ (failed ErrorKind.not_found, disk)
    | some folder ↦ (failed ErrorKind.permission_denied, disk)
    | some (file _) ↦ (done tt, set_dir parent (some (remove name dir)) disk)
  ]
]

-- What is at the path and inside it is gone.
unfoldable pub without : StoredPath → Disk → Disk
without path disk p = if is_within path p then none else disk p

unfoldable pub remove_dir_all : StoredPath → Disk → Io (Unit {0}) × Disk
remove_dir_all [] disk = (done tt, without [] disk)
remove_dir_all (name ∷ parent) disk = elim (disk parent) [
  | none ↦ (failed ErrorKind.not_found, disk)
  | some dir ↦ elim (get name dir) [
    | some folder ↦
        (done tt, without (name ∷ parent) (set_dir parent (some (remove name dir)) disk))
    | some (file _) ↦ (failed ErrorKind.other, disk)
    | none ↦ (failed ErrorKind.not_found, disk)
  ]
]

-- The folders of a disk on which the one at `old` is at `new`.
unfoldable pub move_folders : StoredPath → StoredPath → Disk → Disk
move_folders old new disk p =
    if is_within new p then disk (rebase new old p) else if is_within old p then none else disk p

-- The entry of `old`, taken out of its folder.
unfoldable pub take_out : StoredPath → Disk → Disk
take_out [] disk = disk
take_out (name ∷ parent) disk = elim (disk parent) [
  | none ↦ disk
  | some dir ↦ set_dir parent (some (remove name dir)) disk
]

-- An entry in a folder.
unfoldable pub fill_in : Text → Node → StoredPath → Disk → Disk
fill_in name n parent disk = elim (disk parent) [
  | none ↦ disk
  | some dir ↦ put name n parent dir disk
]

-- `fs::rename` to another path; only a file replaces an item, and only a file.
unfoldable pub fs_rename : StoredPath → StoredPath → Disk → Io (Unit {0}) × Disk
fs_rename old [] disk = (failed ErrorKind.permission_denied, disk)
fs_rename old (name ∷ parent) disk = elim (node disk old) [
  | none ↦ (failed ErrorKind.not_found, disk)
  | some (file bytes) ↦ elim (disk parent) [
    | none ↦ (failed ErrorKind.not_found, disk)
    | some dir ↦ elim (get name dir) [
      | some folder ↦ (failed ErrorKind.permission_denied, disk)
      | _ ↦ (done tt, fill_in name (file bytes) parent (take_out old disk))
    ]
  ]
  | some folder ↦ elim (disk parent) [
    | none ↦ (failed ErrorKind.not_found, disk)
    | some dir ↦ elim (get name dir) [
      | some _ ↦ (failed ErrorKind.permission_denied, disk)
      | none ↦ (
        done tt,
        move_folders old (name ∷ parent) (fill_in name folder parent (take_out old disk)),
      )
    ]
  ]
]
