-- ===== src/Vault2/Tree/Walking.antt =====
-- `import`, `verify`, `vault_stats` and `export` of tree.rs, over the calls that they make on a
-- vault, on its open files and on the folder that is exported to. A folder is walked by what its
-- items do, put in order.
use desktop_folder_locker.Common.{ℕ, suc, Bool, true, false, Option, List, [], ◌∷◌, ◌++◌}
use desktop_folder_locker.Common.Text.{Text}
use desktop_folder_locker.Vault2.Crypto.{Bytes}
use desktop_folder_locker.Vault2.Error.{Result, Action, pure, lift, gets, modify, ◌>>=◌, ◌>>◌}
use desktop_folder_locker.Vault2.Vault.Folders.{Item}
use desktop_folder_locker.Vault2.Tree.Reader.{Reader}
use desktop_folder_locker.Vault2.Tree.Copying.{
  Run, TreeStats, no_stats, on_vault, copy_chunk, copy_in,
}
use desktop_folder_locker.Vault2.Tree.Sources.{
  Stamp, Source, file, folder, link, Sources, end, entry, source_len, check_source, count_dir,
  count_one, sorted_entries,
}

-- An item of `Vault::list`, with the stamp of its metadata.
pub record Listed : Type 0 where
  pub name : Text
  pub is_dir : Bool
  pub len : ℕ
  pub stamp : Stamp

-- What tree.rs calls; `S` is the vault with its files and the disk. An open file is a number.
pub record TreeCalls (S : Type 0) : Type 0 where
  pub lookup : Text → Action S (Option Item)
  pub list : Item → Action S (List Listed)
  pub create_dir : Text → Action S Item
  pub create_file : Text → Action S (Item × ℕ)
  pub open_file : Item → Action S ℕ
  pub len : ℕ → S → ℕ
  pub read_at : ℕ → ℕ → ℕ → Action S Bytes
  pub write_at : ℕ → ℕ → Bytes → Action S ℕ
  pub close : ℕ → S → S
  pub apply : Stamp → Item → Bool → Action S (Unit {0})

abbrev pub child_of : Text → Text → Text
child_of vault_dir name = vault_dir ++ b'\\' ∷ name

module _ {S P : Type 0} (calls : TreeCalls S) (to_str : Text → Option Text)
    (progress : ℕ → P → Bool × P) where
  abbrev pub Doing : Type 0
  Doing = Action (Run S P) (Unit {0})

  -- One after the other.
  abbrev pub each : List (Text × (Text → Doing)) → Text → Doing
  each [] vault_dir = pure tt
  each ((name, doing) ∷ rest) vault_dir = doing vault_dir >> each rest vault_dir

  abbrev pub close_after : {A : Type 0} → ℕ → Result A × Run S P → Result A × Run S P
  close_after f (r, run) = (r, record run { vault = calls.close f run.vault })

  -- A file object is dropped however its use ends.
  abbrev pub closing : {A : Type 0} → ℕ → Action (Run S P) A → Action (Run S P) A
  closing f m run = close_after f (m run)

  abbrev pub count : (TreeStats → TreeStats) → Doing
  count f = modify (λ run. record run { stats = f run.stats })

  -- The loop over a file of the source takes a round for each byte at most, and one for the end.
  abbrev pub rounds : Reader → ℕ
  rounds source = suc (source_len source)

  unfoldable pub import_file : Stamp → Reader → Text → Doing
  import_file stamp source child = do
    created ← on_vault (calls.create_file child)
    closing created.1
        (copy_in progress copy_chunk (calls.write_at created.1) (rounds source) 0 source)
    on_vault (calls.apply stamp created.0 false)
    count count_one

  unfoldable mutual
    pub import_item : Source → Text → Doing
    import_item (file stamp source) child = import_file stamp source child
    import_item (folder stamp inside) child = do
      item ← on_vault (calls.create_dir child)
      each (sorted_entries (import_items inside)) child
      on_vault (calls.apply stamp item true)
      count count_dir
    import_item link child = pure tt

    pub import_items : Sources → List (Text × (Text → Doing))
    import_items end = []
    import_items (entry name node rest) =
        (
          name,
          λ vault_dir. do
            name ← lift (check_source to_str name node)
            import_item node (child_of vault_dir name),
        )
        ∷ import_items rest

  abbrev pub import_dir : Sources → Text → Doing
  import_dir sources = each (sorted_entries (import_items sources))

  unfoldable pub import : Sources → Action (Run S P) TreeStats
  import sources = do count (λ _. no_stats); import_dir sources []; gets (λ run. run.stats)
