-- ===== src/Vault2/Tree/Verifying.antt =====
-- `verify` of tree.rs.
use desktop_folder_locker.Common.{
  ℕ, suc, Bool, true, false, not, ◌&&◌, ◌==◌, Option, none, some, List, [], ◌∷◌, length, eq_bytes,
  if◌then◌else◌,
}
use desktop_folder_locker.Common.Text.{Text}
use desktop_folder_locker.Vault2.Error.{
  mismatch, Action, pure, raise, lift, gets, unless, ◌>>=◌, ◌>>◌,
}
use desktop_folder_locker.Vault2.Vault.Folders.{Item, root}
use desktop_folder_locker.Vault2.Tree.Reader.{Reader}
use desktop_folder_locker.Vault2.Tree.Copying.{Run, no_stats, on_vault, copy_chunk, compare}
use desktop_folder_locker.Vault2.Tree.Sources.{
  Source, file, folder, link, Sources, end, entry, source_len, check_source, sorted_entries,
}
use desktop_folder_locker.Vault2.Tree.Walking.{TreeCalls, child_of, each, closing, count, rounds}

abbrev pub is_dir_source : Source → Bool
is_dir_source (file stamp source) = false
is_dir_source (folder stamp inside) = true
is_dir_source link = false

-- The number of items of a folder.
abbrev pub items_in : Sources → ℕ
items_in end = 0
items_in (entry name node rest) = suc (items_in rest)

abbrev pub same_bool : Bool → Bool → Bool
same_bool true b = b
same_bool false b = not b

-- The filter of what was looked up: the same spelling, and a folder for a folder.
abbrev pub matching : Text → Source → Option Item → Option Item
matching name node none = none
matching name node (some item) =
    if eq_bytes item.name name && same_bool item.is_dir (is_dir_source node)
    then some item
    else none

module _ {S P : Type 0} (calls : TreeCalls S) (to_str : Text → Option Text)
    (progress : ℕ → P → Bool × P) where
  unfoldable pub verify_file : Reader → Item → Action (Run S P) (Unit {0})
  verify_file source item = do
    f ← on_vault (calls.open_file item)
    closing calls to_str progress f (do
      size ← gets (λ run. calls.len f run.vault)
      unless (size == source_len source) (raise (mismatch "has another size in the vault"))
      compare progress copy_chunk (calls.read_at f) (rounds calls to_str progress source) 0 source)

  -- What is found for an item of the source.
  abbrev pub or_missing :
      (Item → Action (Run S P) (Unit {0})) → Option Item → Action (Run S P) (Unit {0})
  or_missing next none = raise (mismatch "is missing in the vault")
  or_missing next (some item) = next item

  -- A folder whose items are verified by `items`.
  unfoldable pub verify_inside :
      ℕ
      → List (Text × (Text → Action (Run S P) (Unit {0})))
      → Item
      → Text
      → Action (Run S P) (Unit {0})
  verify_inside n items item vault_dir = do
    listed ← on_vault (calls.list item)
    unless (length listed == n) (raise (mismatch "has another number of items in the vault"))
    each calls to_str progress (sorted_entries items) vault_dir

  unfoldable mutual
    pub verify_item : Source → Item → Text → Action (Run S P) (Unit {0})
    verify_item (file stamp source) item child = verify_file source item
    verify_item (folder stamp inside) item child =
        verify_inside (items_in inside) (verify_items inside) item child
    verify_item link item child = pure tt

    pub verify_items : Sources → List (Text × (Text → Action (Run S P) (Unit {0})))
    verify_items end = []
    verify_items (entry name node rest) =
        (
          name,
          λ vault_dir. do
            name ← lift (check_source to_str name node)
            found ← on_vault (calls.lookup (child_of vault_dir name))
            or_missing (λ item. verify_item node item (child_of vault_dir name))
                (matching name node found),
        )
        ∷ verify_items rest

  unfoldable pub verify : Sources → Action (Run S P) (Unit {0})
  verify sources = do
    count calls to_str progress (λ _. no_stats)
    verify_inside (items_in sources) (verify_items sources) root []
