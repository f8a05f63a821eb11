-- ===== src/Vault2/Vault/Kept.antt =====
-- The tables stay current when an item is added to the disk and to the index of its folder.
use desktop_folder_locker.Common.{
  none, some, List, [], ◌≡◌, ◌⊎◌, refl, sym, ap, ◌∙◌, subst, false, inl, inr, Bool-cases,
  Option-cases, if◌then◌else◌, eq_bytes,
}
use desktop_folder_locker.Common.Text.{Text}
use desktop_folder_locker.Vault2.Crypto.{Bytes}
use desktop_folder_locker.Vault2.Error.{ok, and_then}
use desktop_folder_locker.Vault2.Names.Defs.{dir_iv_file}
use desktop_folder_locker.Vault2.Vault.Maps.{
  StoredPath, eq_path, eq_path_iff, path_eq, text_eq, get, insert, get-insert,
}
use desktop_folder_locker.Vault2.Vault.Disk.{
  file, Node, Directory, Disk, mapped, listing_of, read_dir,
}
use desktop_folder_locker.Vault2.Vault.Folders.{NameCalls, Entry, Index, DirState, Vault}
use desktop_folder_locker.Vault2.Vault.Reading.{entries_of, read_entries, index_of}
use desktop_folder_locker.Vault2.Vault.Changes.{changed, updated, change_index}
use desktop_folder_locker.Vault2.Vault.Walk.{IsTidy, IsCurrent, IsCoherent}
use desktop_folder_locker.Vault2.Vault.Ivs.{read_iv_same, read_iv-HasIv, HasIv-read_iv}
use desktop_folder_locker.Vault2.Vault.Added.{collect-append}
use desktop_folder_locker.Vault2.Vault.Grown.{Grown, kept}

change_index-none :
    (w : Vault) (path : StoredPath) (f : Index → Index)
    → get path w.dirs ≡ none
    → change_index path f w ≡ w
unfolding change_index
change_index-none w path f e = rw (e, change_index) refl

change_index-some :
    (w : Vault) (path : StoredPath) (f : Index → Index) (state : DirState)
    → get path w.dirs ≡ some state
    → change_index path f w ≡ record w { dirs = insert path (updated f state) w.dirs }
unfolding change_index
change_index-some w path f state e = rw (e, change_index) refl

-- A change of an index leaves the disk.
pub change_index-disk :
    (w : Vault) (path : StoredPath) (f : Index → Index) → (change_index path f w).disk ≡ w.disk
change_index-disk w path f = elim (Option-cases (get path w.dirs)) [
  | inl e ↦ ap (λ (x : Vault). x.disk) (change_index-none w path f e)
  | inr (state, e) ↦ ap (λ (x : Vault). x.disk) (change_index-some w path f state e)
]

-- What the table holds after a change of one index.
pub change_index-get :
    (w : Vault) (path p : StoredPath) (f : Index → Index) (found : DirState)
    → get p (change_index path f w).dirs ≡ some found
    → ((eq_path path p ≡ false) × (get p w.dirs ≡ some found))
      ⊎ ((path ≡ p)
          × (state : DirState) × (get path w.dirs ≡ some state)
          × (found ≡ updated f state))
change_index-get w path p f found e = elim (Option-cases (get path w.dirs)) [
  | inl absent ↦
      let e' : get p w.dirs ≡ some found =
        ap (λ (x : Vault). get p x.dirs) (sym (change_index-none w path f absent)) ∙ e in
      elim (Bool-cases (eq_path path p)) [
        | inr other ↦ inl (other, e')
        | inl same ↦ absurd (cc (e', absent, (eq_path_iff path p).0 same))
      ]
  | inr (state, there) ↦
      let e' =
        sym (get-insert path p (updated f state) w.dirs)
        ∙ ap (λ (x : Vault). get p x.dirs) (sym (change_index-some w path f state there))
        ∙ e in
      elim (Bool-cases (eq_path path p)) [
        | inr other ↦ inl (other, rw other at e')
        | inl same ↦
            let q : some (updated f state) ≡ some found = rw same at e' in
            inr ((eq_path_iff path p).0 same, state, there, sym (cc q))
      ]
]

module _ (calls : NameCalls) where
  read_entries_same :
      (disk disk' : Disk) (p : StoredPath) (iv : Bytes)
      → disk' p ≡ disk p
      → read_entries calls p iv disk' ≡ read_entries calls p iv disk
  unfolding read_entries read_dir
  read_entries_same disk disk' p iv same =
      ap (λ o. and_then (mapped (listing_of o)) λ found. ok (entries_of calls iv found found)) same

  read_entries-ok :
      (disk : Disk) (p : StoredPath) (items : Directory) (iv : Bytes)
      → disk p ≡ some items
      → read_entries calls p iv disk ≡ ok (entries_of calls iv items items)
  unfolding read_entries read_dir
  read_entries-ok disk p items iv there =
      ap (λ o. and_then (mapped (listing_of o)) λ found. ok (entries_of calls iv found found)) there

  pub IsCurrent-Same :
      (disk disk' : Disk) (p : StoredPath) (state : DirState)
      → disk' p ≡ disk p
      → IsCurrent calls disk p state
      → IsCurrent calls disk' p state
  IsCurrent-Same disk disk' p state same c = record {
    iv = read_iv_same p disk disk' state.iv same c.iv;
    index = λ index e.
        let (entries, read, agree) = c.index index e in
        (entries, read_entries_same disk disk' p state.iv same ∙ read, agree);
  }

  module _ {disk disk' : Disk} {path : StoredPath} {iv : Bytes} {entry : Entry} {n : Node}
      (g : Grown calls disk disk' path iv entry n) (t : IsTidy calls disk) where
    abbrev add_entry : Index → Index
    add_entry = insert (calls.fold entry.name) entry

    index_grown :
        (state : DirState) (index : Index)
        → IsCurrent calls disk path state
        → state.iv ≡ iv
        → (state.index ≡ none) ⊎ ((m : Index) × (state.index ≡ some m))
        → changed add_entry state.index ≡ some index
        → (entries : List (Entry × Node)) × (read_entries calls path state.iv disk' ≡ ok entries)
          × ((key : Text) → get key index ≡ get key (index_of calls entries))
    index_grown state index c same (inl no_index) e =
        absurd (cc (ap (changed add_entry) no_index, e))
    index_grown state index c same (inr (m, built)) e =
        let (entries, read, agree) = c.index m built in
        let is_new : add_entry m ≡ index = cc (ap (changed add_entry) built, e) in
        let old_entries : entries ≡ entries_of calls iv g.items g.items =
          cc (read, read_entries-ok disk path g.items state.iv g.before, same) in
        (
          entries_of calls iv g.items' g.items',
          read_entries-ok disk' path g.items' state.iv g.after
              ∙ ap (λ i. ok (entries_of calls i g.items' g.items')) same,
          λ key.
              ap (get key) (sym is_new)
              ∙ get-insert (calls.fold entry.name) key entry m
              ∙ ap (λ o. if eq_bytes (calls.fold entry.name) key then some entry else o)
                  (agree key ∙ ap (λ l. get key (index_of calls l)) old_entries)
              ∙ sym (
                  get-insert (calls.fold entry.name) key entry
                    (index_of calls (entries_of calls iv g.items g.items)))
              ∙ ap (get key)
                  (sym (collect-append calls (entries_of calls iv g.items g.items) entry n []))
              ∙ ap (λ l. get key (index_of calls l)) (sym g.entries),
        )

    IsCurrent-Grown :
        (state : DirState)
        → IsCurrent calls disk path state
        → IsCurrent calls disk' path (updated add_entry state)
    IsCurrent-Grown state c =
        let (its, there, has) = read_iv-HasIv path disk state.iv c.iv in
        let at : its ≡ g.items = cc (there, g.before) in
        let has' : get dir_iv_file g.items ≡ some (file state.iv) = rw (← at) has.0 in
        let same : state.iv ≡ iv = cc (has', g.has_iv.0) in
        record {
          iv = HasIv-read_iv path disk' g.items' state.iv g.after (g.iv_kept ∙ has', has.1);
          index = λ index e. index_grown state index c same (Option-cases state.index) e;
        }

    -- The tables of a vault of which the disk has the item, once its index has it too.
    pub IsCoherent-Grown :
        (v w : Vault)
        → v.disk ≡ disk
        → IsCoherent calls v
        → w.disk ≡ disk'
        → w.dirs ≡ v.dirs
        → IsCoherent calls (change_index path add_entry w)
    IsCoherent-Grown v w d c d' same p found e =
        let there = change_index-disk w path add_entry ∙ d' in
        elim (change_index-get w path p add_entry found e) [
          | inl (other, f) ↦
              let was =
                subst (λ x. IsCurrent calls x p found) d (c p found (ap (get p) (sym same) ∙ f)) in
              let (its, at, _) = read_iv-HasIv p disk found.iv was.iv in
              subst (λ x. IsCurrent calls x p found) (sym there)
                (IsCurrent-Same disk disk' p found (kept calls g t p its other at) was)
          | inr (q, state, f, is_new) ↦
              let was =
                subst (λ x. IsCurrent calls x path state) d
                  (c path state (ap (get path) (sym same) ∙ f)) in
              let now = IsCurrent-Grown state was in rw (← q) (rw is_new (rw there now))
        ]
