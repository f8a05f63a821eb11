-- ===== src/Vault2/Tree/Leaving.antt =====
-- `vault_stats` and `export` of tree.rs. The depth of the folders that are entered is bounded by
-- an argument; the folders of a vault are no deeper than its paths can be long.
use desktop_folder_locker.Common.{
  ℕ, zero, suc, Bool, true, false, Option, none, some, List, [], ◌∷◌, ◌++◌, if◌then◌else◌,
}
use desktop_folder_locker.Common.Text.{Text}
use desktop_folder_locker.Vault2.Crypto.{Bytes}
use desktop_folder_locker.Vault2.Error.{Error, Action, pure, raise, gets, ◌>>=◌, ◌>>◌}
use desktop_folder_locker.Vault2.Vault.Folders.{Item, root}
use desktop_folder_locker.Vault2.Tree.Copying.{
  Run, TreeStats, no_stats, on_vault, copy_chunk, copy_out,
}
use desktop_folder_locker.Vault2.Tree.Sources.{
  Stamp, count_dir, count_file, count_one, sorted_entries,
}
use desktop_folder_locker.Vault2.Tree.Walking.{TreeCalls, Listed, child_of, closing, count}

-- The folder that is exported to; a path is the names from it on.
pub record TargetCalls (S : Type 0) : Type 0 where
  pub make_dir : List Text → Action S (Unit {0})
  pub create_new : List Text → Action S (Unit {0})
  pub write_all : List Text → Bytes → Action S (Unit {0})
  pub apply : Stamp → List Text → Bool → Action S (Unit {0})

abbrev pub by_name : List Listed → List (Text × Listed)
by_name [] = []
by_name (listed ∷ rest) = (listed.name, listed) ∷ by_name rest

module _ {S P : Type 0} (calls : TreeCalls S) (target : TargetCalls S) (to_str : Text → Option Text)
    (progress : ℕ → P → Bool × P) where
  -- `ok_or(Error::NotFound)`
  abbrev pub or_not_found : Option Item → Action (Run S P) Item
  or_not_found none = raise Error.not_found
  or_not_found (some item) = pure item

  -- The loop over a listing.
  abbrev pub for_each :
      (Listed → Action (Run S P) (Unit {0})) → List (Text × Listed) → Action (Run S P) (Unit {0})
  for_each doing [] = pure tt
  for_each doing ((name, listed) ∷ rest) = doing listed >> for_each doing rest

  abbrev pub count_listed :
      (Item → Text → Action (Run S P) (Unit {0})) → Text → Listed → Action (Run S P) (Unit {0})
  count_listed inside path listed =
      if listed.is_dir
      then (do
        count calls to_str progress count_dir
        found ← on_vault (calls.lookup (child_of path listed.name))
        item ← or_not_found found
        inside item (child_of path listed.name))
      else count calls to_str progress (count_file listed.len)

  unfoldable pub vault_stats_dir : ℕ → Item → Text → Action (Run S P) (Unit {0})
  vault_stats_dir zero item path = pure tt
  vault_stats_dir (suc depth) item path = do
    listing ← on_vault (calls.list item)
    for_each (count_listed (vault_stats_dir depth) path) (by_name listing)

  unfoldable pub vault_stats : ℕ → Action (Run S P) TreeStats
  vault_stats depth = do
    count calls to_str progress (λ _. no_stats)
    vault_stats_dir depth root []
    gets (λ run. run.stats)

  unfoldable pub export_file : Listed → Item → List Text → Action (Run S P) (Unit {0})
  export_file listed item path = do
    f ← on_vault (calls.open_file item)
    closing calls to_str progress f (do
      on_vault (target.create_new path)
      size ← gets (λ run. calls.len f run.vault)
      _ ← copy_out progress copy_chunk (calls.read_at f) (target.write_all path) (suc size) 0 []
      on_vault (target.apply listed.stamp path false)
      count calls to_str progress count_one)

  abbrev pub export_listed :
      (Item → Text → List Text → Action (Run S P) (Unit {0}))
      → Text
      → List Text
      → Listed
      → Action (Run S P) (Unit {0})
  export_listed inside vault_dir path listed = do
    found ← on_vault (calls.lookup (child_of vault_dir listed.name))
    item ← or_not_found found
    if listed.is_dir
        then (do
          on_vault (target.make_dir (path ++ listed.name ∷ []))
          inside item (child_of vault_dir listed.name) (path ++ listed.name ∷ [])
          on_vault (target.apply listed.stamp (path ++ listed.name ∷ []) true)
          count calls to_str progress count_dir)
        else export_file listed item (path ++ listed.name ∷ [])

  unfoldable pub export_dir : ℕ → Item → Text → List Text → Action (Run S P) (Unit {0})
  export_dir zero item vault_dir path = pure tt
  export_dir (suc depth) item vault_dir path = do
    listing ← on_vault (calls.list item)
    for_each (export_listed (export_dir depth) vault_dir path) (sorted_entries (by_name listing))

  unfoldable pub export : ℕ → Action (Run S P) TreeStats
  export depth = do
    on_vault (target.make_dir [])
    count calls to_str progress (λ _. no_stats)
    export_dir depth root [] []
    gets (λ run. run.stats)
