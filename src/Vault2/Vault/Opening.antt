-- ===== src/Vault2/Vault/Opening.antt =====
-- How vault.rs creates and opens a vault, opens files and lists folders. What content.rs does with
-- a stored file is taken as its calls.
use desktop_folder_locker.Common.{
  ℕ, Option, none, some, List, [], ◌∷◌, Bool, false, not, ◌&&◌, ◌==◌, eq_bytes, if◌then◌else◌,
  length,
}
use desktop_folder_locker.Common.Text.{Text}
use desktop_folder_locker.Vault2.Crypto.{Bytes}
use desktop_folder_locker.Vault2.Error.{
  and_then, Result, ok, err, Error, ErrorKind, corrupt, io, from_io, Action, pure, raise, modify,
  ◌>>=◌, ◌>>◌,
}
use desktop_folder_locker.Vault2.Names.Defs.{dir_iv_file, key_check_file}
use desktop_folder_locker.Vault2.Vault.Maps.{StoredPath, text_eq, path_eq, get}
use desktop_folder_locker.Vault2.Vault.Disk.{
  Io, Node, file, folder, Disk, node, done, failed, io_error, mapped, converted, read, write,
  fs_create_dir,
}
use desktop_folder_locker.Vault2.Vault.Folders.{
  NameCalls, Entry, Item, Vault, dir, index_at, set_index,
}
use desktop_folder_locker.Vault2.Vault.Reading.{read_entries, index_of}
use desktop_folder_locker.Vault2.Vault.Changes.{remember, new_file}
use desktop_folder_locker.Vault2.Vault.Removing.{is_empty_dir_at}

-- What vault.rs calls of content.rs: the checks of `Codec::new`, those of `from_file` on the stored
-- bytes, the length of the plaintext for a stored length, and that of an open file.
pub record ContentCalls : Type 0 where
  pub new : ℕ → Result (Unit {0})
  pub from_file : Bytes → Result (Unit {0})
  pub plain_len : ℕ → ℕ
  pub len : ℕ → ℕ

unfoldable pub open_disk : Disk → Vault
open_disk disk = record {
  disk = disk;
  dirs = [];
  files = [];
  path_of = λ f. [];
  is_open = λ f. false;
  next = 0;
}

-- `folds` of the comparison: whether no byte differs.
unfoldable pub constant_time_eq : Bytes → Bytes → Bool
constant_time_eq a b = length a == length b && eq_bytes a b

-- The key check of `open`.
unfoldable pub check_keys : Bytes → Disk → Result (Unit {0})
check_keys check disk = elim (read (key_check_file ∷ []) disk) [
  | done stored ↦ if constant_time_eq stored check then ok tt else err Error.wrong_key
  | failed ErrorKind.not_found ↦ err (corrupt "the vault's data folder is incomplete")
  | failed kind ↦ err (io (io_error kind))
]

-- What is returned for the top folder.
abbrev pub opened_top : Result Bytes × Vault → Result Vault
opened_top (ok iv, v) = ok v
opened_top (err Error.not_found, v) = err (corrupt "the vault's data folder is missing")
opened_top (err e, v) = err e

unfoldable pub open_vault : ContentCalls → Bytes → ℕ → Disk → Result Vault
open_vault content check block_size disk =
    and_then (check_keys check disk)
      λ _. and_then (content.new block_size) λ _. opened_top (dir [] (open_disk disk))

abbrev pub open_on : ContentCalls → Bytes → ℕ → Disk → Result Vault × Disk
open_on content check block_size disk = (open_vault content check block_size disk, disk)

abbrev pub then_on :
    {A : Type 0} → Result (Unit {0}) × Disk → (Disk → Result A × Disk) → Result A × Disk
then_on (ok _, disk) f = f disk
then_on (err e, disk) f = (err e, disk)

-- The two files of a new vault, once its folder was made.
abbrev pub fill_vault :
    ContentCalls → Bytes → Bytes → ℕ → Io (Unit {0}) × Disk → Result Vault × Disk
fill_vault content iv check block_size (created, disk1) =
    then_on (mapped created, disk1)
      λ d.
        let (iv_written, disk2) = write (dir_iv_file ∷ []) iv d in
        then_on (converted iv_written, disk2)
          λ e.
            let (check_written, disk3) = write (key_check_file ∷ []) check e in
            then_on (converted check_written, disk3) (open_on content check block_size)

-- `create`, with a random IV.
unfoldable pub create_vault : ContentCalls → Bytes → Bytes → ℕ → Disk → Result Vault × Disk
create_vault content iv check block_size disk =
    fill_vault content iv check block_size (fs_create_dir [] disk)

-- `open_file_at`: the object of a file that is open.
unfoldable pub open_file_at : StoredPath → Vault → Option ℕ
open_file_at path v = elim (get path v.files) [
  | none ↦ none
  | some f ↦ if v.is_open f then some f else none
]

-- One item of a folder listing, with the stored item for its metadata.
pub record Listing : Type 0 where
  pub name : Text
  pub is_dir : Bool
  pub len : ℕ
  pub metadata : Node

-- `Metadata::len` of a file.
abbrev pub stored_len : Node → ℕ
stored_len (file bytes) = length bytes
stored_len folder = 0

module _ (content : ContentCalls) where
  -- `ContentFile::open`: a stored file is readable, and a folder can't be opened.
  unfoldable pub open_content : StoredPath → Action Vault (Unit {0})
  open_content path v = elim (read path v.disk) [
    | failed kind ↦ (err (from_io (io_error kind)), v)
    | done bytes ↦ (content.from_file bytes, v)
  ]

  unfoldable pub open_file : Item → Action Vault ℕ
  open_file item v =
      if item.is_dir
      then (err Error.is_a_directory, v)
      else elim (open_file_at item.stored_path v) [
        | some f ↦ (ok f, v)
        | none ↦
            (do
              open_content item.stored_path
              f ← new_file item.stored_path
              modify (remember item.stored_path f)
              pure f)
              v
      ]

  unfoldable pub file_len : Item → Vault → Result ℕ
  file_len item v = if item.is_dir then ok 0 else elim (open_file_at item.stored_path v) [
    | some f ↦ ok (content.len f)
    | none ↦ elim (node v.disk item.stored_path) [
      | none ↦ err (from_io (io_error ErrorKind.not_found))
      | some n ↦ ok (content.plain_len (stored_len n))
    ]
  ]

  abbrev pub listed_len : StoredPath → Vault → Entry → Node → ℕ
  listed_len path v entry n =
      if entry.is_dir then 0 else elim (open_file_at (entry.stored ∷ path) v) [
        | some f ↦ content.len f
        | none ↦ content.plain_len (stored_len n)
      ]

  unfoldable pub listings : StoredPath → Vault → List (Entry × Node) → List Listing
  listings path v [] = []
  listings path v ((entry, n) ∷ rest) =
      record {
        name = entry.name;
        is_dir = entry.is_dir;
        len = listed_len path v entry n;
        metadata = n;
      }
      ∷ listings path v rest

module _ (calls : NameCalls) where
  -- The index is built from a listing if the folder has none.
  unfoldable pub keep_index : StoredPath → List (Entry × Node) → Vault → Vault
  keep_index path entries v = elim (index_at path v) [
    | some _ ↦ v
    | none ↦ set_index path (index_of calls entries) v
  ]

  unfoldable pub list : ContentCalls → Item → Action Vault (List Listing)
  list content item = if not item.is_dir then raise Error.not_a_directory else do
    iv ← dir item.stored_path
    entries ← λ v. (read_entries calls item.stored_path iv v.disk, v)
    modify (keep_index item.stored_path entries)
    λ v. (ok (listings content item.stored_path v entries), v)

  unfoldable pub is_empty_dir : Item → Action Vault Bool
  is_empty_dir item =
      if not item.is_dir
      then raise Error.not_a_directory
      else is_empty_dir_at calls item.stored_path
