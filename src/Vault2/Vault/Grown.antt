-- ===== src/Vault2/Vault/Grown.antt =====
-- A disk to which one item was added: what is read of its folders, and why it stays tidy.
use desktop_folder_locker.Common.{
  Option, none, some, [], ◌∷◌, ◌++◌, ◌≡◌, ◌⊎◌, sym, ap, ◌∙◌, true, false, inl, inr, Bool-cases,
  Option-cases, if◌then◌else◌, eq_bytes, eq_bytes_refl,
}
use desktop_folder_locker.Common.Text.{Text}
use desktop_folder_locker.Vault2.Crypto.{Bytes}
use desktop_folder_locker.Vault2.Error.{ok, and_then}
use desktop_folder_locker.Vault2.Names.Defs.{is_internal_entry, dir_iv_file}
use desktop_folder_locker.Vault2.Vault.Maps.{
  StoredPath, eq_path, eq_path_iff, text_eq, get, get-insert,
}
use desktop_folder_locker.Vault2.Vault.Disk.{
  Node, file, folder, Directory, Disk, node, node_in, mapped, listing_of, read_dir,
}
use desktop_folder_locker.Vault2.Vault.Folders.{NameCalls, Entry}
use desktop_folder_locker.Vault2.Vault.Reading.{entries_of, read_entries, index_of}
use desktop_folder_locker.Vault2.Vault.Walk.{find_in, IsTidy}
use desktop_folder_locker.Vault2.Vault.Ivs.{HasIv, node_in-eq_some}
use desktop_folder_locker.Vault2.Vault.Added.{collect-append}

-- The folder holds its IV and nothing else.
abbrev pub IsNew : Option Directory → Type 0
IsNew o = (iv : Bytes) × (o ≡ some ((dir_iv_file, file iv) ∷ []))

module _ (calls : NameCalls) where
  pub record Grown (disk disk' : Disk) (path : StoredPath) (iv : Bytes) (entry : Entry) (n : Node)
      : Type 0 where
    pub items : Directory
    pub items' : Directory
    pub before : disk path ≡ some items
    pub after : disk' path ≡ some items'
    pub has_iv : HasIv items iv
    pub iv_kept : get dir_iv_file items' ≡ get dir_iv_file items
    pub absent : get entry.stored items ≡ none
    -- Other folders are as they were, but for the one that the item is.
    pub elsewhere :
        (p : StoredPath)
        → eq_path path p ≡ false
        → (disk' p ≡ disk p) ⊎ ((p ≡ entry.stored ∷ path) × (n ≡ folder) × IsNew (disk' p))
    pub entries :
        entries_of calls iv items' items' ≡ entries_of calls iv items items ++ (entry, n) ∷ []
    pub found :
        (s : Text)
        → is_internal_entry s ≡ false
        → get s items' ≡ (if eq_bytes entry.stored s then some n else get s items)
    pub books :
        (s : Text)
        → is_internal_entry s ≡ true
        → get s items' ≡ some folder
        → get s items ≡ some folder
    pub folders : (s : Text) → get s items ≡ some folder → get s items' ≡ some folder

  -- What `find_in` gives for a folder that is there.
  pub find_in_same :
      (disk disk' : Disk) (p : StoredPath) (iv : Bytes) (name : Text)
      → disk' p ≡ disk p
      → find_in calls disk' p iv name ≡ find_in calls disk p iv name
  unfolding find_in read_entries read_dir
  find_in_same disk disk' p iv name same =
      ap
        (λ o.
          and_then (and_then (mapped (listing_of o)) λ found. ok (entries_of calls iv found found))
            λ entries. ok (get (calls.fold name) (index_of calls entries)))
        same

  pub find_in-ok :
      (disk : Disk) (p : StoredPath) (items : Directory) (iv : Bytes) (name : Text)
      → disk p ≡ some items
      → find_in calls disk p iv name
        ≡ ok (get (calls.fold name) (index_of calls (entries_of calls iv items items)))
  unfolding find_in read_entries read_dir
  find_in-ok disk p items iv name there =
      ap
        (λ o.
          and_then (and_then (mapped (listing_of o)) λ found. ok (entries_of calls iv found found))
            λ entries. ok (get (calls.fold name) (index_of calls entries)))
        there

  module _ {disk disk' : Disk} {path : StoredPath} {iv : Bytes} {entry : Entry} {n : Node}
      (g : Grown disk disk' path iv entry n) where
    pub find_in_grown :
        (name : Text)
        → find_in calls disk' path iv name
          ≡ ok (
              if eq_bytes (calls.fold entry.name) (calls.fold name)
              then some entry
              else get (calls.fold name) (index_of calls (entries_of calls iv g.items g.items)))
    find_in_grown name =
        find_in-ok disk' path g.items' iv name g.after
        ∙ ap (λ l. ok (get (calls.fold name) (index_of calls l))) g.entries
        ∙ ap (λ i. ok (get (calls.fold name) i))
            (collect-append calls (entries_of calls iv g.items g.items) entry n [])
        ∙ ap ok (
            get-insert (calls.fold entry.name) (calls.fold name) entry
              (index_of calls (entries_of calls iv g.items g.items)))

    module _ (t : IsTidy calls disk) where
      pub not_there : disk (entry.stored ∷ path) ≡ none
      unfolding node node_in
      not_there = elim (Option-cases (disk (entry.stored ∷ path))) [
        | inl e ↦ e
        | inr (its, e) ↦
            let at = t.tree entry.stored path its e in
            let absent : node_in entry.stored (disk path) ≡ none =
              ap (node_in entry.stored) g.before ∙ g.absent in
            absurd (cc (at, absent))
      ]

      -- A folder that was there, but for the one with the item, is as it was.
      pub kept :
          (p : StoredPath) (its : Directory)
          → eq_path path p ≡ false
          → disk p ≡ some its
          → disk' p ≡ disk p
      kept p its other there = elim (g.elsewhere p other) [
        | inl same ↦ same
        | inr (q, _, _) ↦ absurd (cc (ap disk q, there, not_there))
      ]

      node_kept :
          (name : Text) (p : StoredPath)
          → node disk (name ∷ p) ≡ some folder
          → node disk' (name ∷ p) ≡ some folder
      unfolding node node_in
      node_kept name p e = elim (Bool-cases (eq_path path p)) [
        | inl same ↦
            let q = (eq_path_iff path p).0 same in
            let e' : node_in name (disk path) ≡ some folder =
              ap (λ x. node_in name (disk x)) q ∙ e in
            ap (λ x. node_in name (disk' x)) (sym q)
            ∙ ap (node_in name) g.after
            ∙ g.folders name (ap (node_in name) (sym g.before) ∙ e')
        | inr other ↦
            let (its, there, _) = node_in-eq_some name (disk p) e in
            ap (node_in name) (kept p its other there) ∙ e
      ]

      pub item_there :
          is_internal_entry entry.stored ≡ false → node disk' (entry.stored ∷ path) ≡ some n
      unfolding node node_in
      item_there plain =
          ap (node_in entry.stored) g.after
          ∙ g.found entry.stored plain
          ∙ ap (λ b. if b then some n else get entry.stored g.items) (eq_bytes_refl entry.stored)

      pub tree_grown :
          is_internal_entry entry.stored ≡ false
          → (name : Text) (p : StoredPath) (its : Directory) → disk' (name ∷ p) ≡ some its
          → node disk' (name ∷ p) ≡ some folder
      tree_grown plain name p its e = elim (Bool-cases (eq_path path (name ∷ p))) [
        | inl same ↦
            let q = (eq_path_iff path (name ∷ p)).0 same in
            node_kept name p (t.tree name p g.items (ap disk (sym q) ∙ g.before))
        | inr other ↦ elim (g.elsewhere (name ∷ p) other) [
          | inl same ↦ node_kept name p (t.tree name p its (sym same ∙ e))
          | inr (q, is_folder, _) ↦ ap (node disk') q ∙ item_there plain ∙ ap some is_folder
        ]
      ]
