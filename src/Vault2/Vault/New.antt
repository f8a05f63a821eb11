-- ===== src/Vault2/Vault/New.antt =====
-- A new vault is empty, and what the other theorems ask of a vault holds of it.
use desktop_folder_locker.Common.{
  ℕ, none, some, [], ◌∷◌, ◌≡◌, ◌≢◌, refl, sym, ap, ◌∙◌, subst, true, inl, inr, ==_iff, Bool-cases,
  length, eq_bytes, eq_bytes_refl,
}
use desktop_folder_locker.Common.Text.{Text}
use desktop_folder_locker.Vault2.Crypto.{Bytes}
use desktop_folder_locker.Vault2.Error.{and_then, Result, ok}
use desktop_folder_locker.Vault2.Names.Defs.{is_internal_entry, dir_iv_file, key_check_file}
use desktop_folder_locker.Vault2.Vault.Maps.{
  StoredPath, text_eq, path_eq, eq_bytes_iff, get, insert,
}
use desktop_folder_locker.Vault2.Vault.Disk.{
  Node, file, folder, Directory, Disk, node, node_in, put, set_dir, fs_create_dir, write, read,
  read_node, done,
}
use desktop_folder_locker.Vault2.Vault.Folders.{NameCalls, Vault, dir_iv_len, dir}
use desktop_folder_locker.Vault2.Vault.Reading.{entries_of, entry_of, collect}
use desktop_folder_locker.Vault2.Vault.Opening.{
  ContentCalls, open_disk, constant_time_eq, check_keys, open_vault, opened_top, fill_vault,
  create_vault,
}
use desktop_folder_locker.Vault2.Vault.Walk.{find_in, IsTidy, IsCoherent}
use desktop_folder_locker.Vault2.Vault.Ivs.{HasIv-read_iv, node_in-eq_some}
use desktop_folder_locker.Vault2.Vault.Laws.{NamesAreLawful}
use desktop_folder_locker.Vault2.Vault.Agreement.{dir-Agrees}
use desktop_folder_locker.Vault2.Vault.Prepared.{pair_run}
use desktop_folder_locker.Vault2.Vault.Grown.{find_in-ok}

abbrev top_items : Bytes → Bytes → Directory
top_items iv check = (dir_iv_file, file iv) ∷ (key_check_file, file check) ∷ []

-- A disk that holds the two files of a new vault only.
pub record IsNewDisk (disk : Disk) (iv check : Bytes) : Type 0 where
  pub top : disk [] ≡ some (top_items iv check)
  pub below : (name : Text) (path : StoredPath) → disk (name ∷ path) ≡ none

-- Such a folder has files that are bookkeeping only.
get_top :
    (s : Text) (iv check : Bytes) {n : Node}
    → get s (top_items iv check) ≡ some n
    → (is_internal_entry s ≡ true) × (n ≢ folder)
unfolding get is_internal_entry
get_top s iv check {n} e = elim (Bool-cases (eq_bytes dir_iv_file s)) [
  | inl same ↦
      let q : dir_iv_file ≡ s = (eq_bytes_iff dir_iv_file s).0 same in
      let f : file iv ≡ n = cc (rw same at e) in (rw (← q) refl, λ h. absurd (cc (f, h)))
  | inr other ↦
      let e' = rw other at e in
      elim (Bool-cases (eq_bytes key_check_file s)) [
        | inl same ↦
            let q : key_check_file ≡ s = (eq_bytes_iff key_check_file s).0 same in
            let f : file check ≡ n = cc (rw same at e') in (rw (← q) refl, λ h. absurd (cc (f, h)))
        | inr differs ↦ absurd (cc (rw differs at e'))
      ]
]

module _ (calls : NameCalls) (L : NamesAreLawful calls) {disk : Disk} {iv check : Bytes}
    (d : IsNewDisk disk iv check) where
  node_internal :
      (s : Text) (path : StoredPath) (n : Node)
      → node disk (s ∷ path) ≡ some n
      → (is_internal_entry s ≡ true) × (n ≢ folder)
  unfolding node
  node_internal s [] n e =
      let (items, there, has) = node_in-eq_some s (disk []) e in
      let q : items ≡ top_items iv check = cc (there, d.top) in
      get_top s iv check (ap (get s) (sym q) ∙ has)
  node_internal s (name ∷ path) n e =
      let (items, there, has) = node_in-eq_some s (disk (name ∷ path)) e in
      absurd (cc (there, d.below name path))

  pub IsNewDisk-IsTidy : IsTidy calls disk
  IsNewDisk-IsTidy = record {
    tree = λ name path items e. absurd (cc (e, d.below name path));
    books = λ name path book e. (node_internal name path folder e).1 refl;
    exact = λ path i name encoded n is_name known encrypted there.
        let book = (node_internal (calls.entry_name encoded) path n there).0 in
        absurd (cc (book, L.plain i name encoded encrypted));
  }

  -- A new vault has no items.
  pub IsNewDisk-find_in : (name : Text) → find_in calls disk [] iv name ≡ ok none
  unfolding entries_of entry_of is_internal_entry collect get
  IsNewDisk-find_in name = find_in-ok calls disk [] (top_items iv check) iv name d.top

-- The disk that `create` leaves.
abbrev pub made : Bytes → Bytes → Disk → Disk
made iv check disk =
    put key_check_file (file check) [] ((dir_iv_file, file iv) ∷ [])
      (put dir_iv_file (file iv) [] [] (set_dir [] (some []) disk))

pub made-IsNewDisk :
    (iv check : Bytes) (disk : Disk)
    → ((name : Text) (path : StoredPath) → disk (name ∷ path) ≡ none)
    → IsNewDisk (made iv check disk) iv check
unfolding put insert
made-IsNewDisk iv check disk below = record { top = refl; below = below }

-- The tables of a vault that was just opened are empty.
pub empty_table : (calls : NameCalls) (disk : Disk) → IsCoherent calls (open_disk disk)
unfolding open_disk get
empty_table calls disk path state h = absurd (cc h)

module _ (content : ContentCalls) (iv check : Bytes) (block_size : ℕ) (disk : Disk) where
  create_vault_run :
      disk [] ≡ none
      → create_vault content iv check block_size disk
        ≡ (open_vault content check block_size (made iv check disk), made iv check disk)
  unfolding create_vault fs_create_dir write get put insert
  create_vault_run e =
      let made_dir : fs_create_dir [] disk ≡ (done tt, set_dir [] (some []) disk) =
        rw (e, fs_create_dir) refl in
      ap (fill_vault content iv check block_size) made_dir

  check_keys_run :
      (d : Disk) → read (key_check_file ∷ []) d ≡ done check → check_keys check d ≡ ok tt
  unfolding check_keys constant_time_eq
  check_keys_run d e =
      rw (e, check_keys)
        (rw ((==_iff (length check) (length check)).1 refl, eq_bytes_refl check) refl)

  open_vault_run :
      (d : Disk)
      → read (key_check_file ∷ []) d ≡ done check
      → content.new block_size ≡ ok tt
      → open_vault content check block_size d ≡ opened_top (dir [] (open_disk d))
  unfolding open_vault
  open_vault_run d e usable =
      let opened : Result (Unit {0}) → Result Vault =
        λ r. and_then r λ _. opened_top (dir [] (open_disk d)) in
      ap (λ r. and_then r λ _. opened (content.new block_size)) (check_keys_run d e)
      ∙ ap opened usable

  -- With lawful names, as those of names.rs are by `names-NamesAreLawful`: `create` succeeds where
  -- nothing is at the vault's path and its parameters are usable. The vault
  -- that it opens has no items; its tables are current and its disk is tidy.
  pub create_vault-IsTidy :
      (calls : NameCalls) (name : Text)
      → NamesAreLawful calls
      → disk [] ≡ none
      → ((inner : Text) (path : StoredPath) → disk (inner ∷ path) ≡ none)
      → length iv ≡ dir_iv_len
      → content.new block_size ≡ ok tt
      → (v : Vault) × (create_vault content iv check block_size disk ≡ (ok v, v.disk))
        × (find_in calls v.disk [] iv name ≡ ok none)
        × IsCoherent calls v
        × IsTidy calls v.disk
  unfolding read node node_in read_node get put insert open_disk
  create_vault-IsTidy calls name L absent below len usable =
      let there = made iv check disk in
      let d = made-IsNewDisk iv check disk below in
      let known = HasIv-read_iv [] there (top_items iv check) iv d.top (refl, len) in
      let (e, same, c) = dir-Agrees calls (open_disk there) [] (empty_table calls there) in
      let v = (dir [] (open_disk there)).1 in
      let q : v.disk ≡ there = same in
      let ran = pair_run (dir [] (open_disk there)) (e ∙ known) in
      (
        v,
        create_vault_run absent
            ∙ ap (λ r. (r, there)) (open_vault_run there refl usable ∙ ap opened_top ran)
            ∙ ap (λ x. (ok v, x)) (sym q),
        ap (λ x. find_in calls x [] iv name) q ∙ IsNewDisk-find_in calls L d name,
        c,
        subst (IsTidy calls) (sym q) (IsNewDisk-IsTidy calls L d),
      )
