-- ===== src/Vault2/Vault/Exact.antt =====
-- A disk that an item of a new name was added to is tidy.
use desktop_folder_locker.Common.{
  none, some, [], ◌∷◌, ◌≡◌, ◌≢◌, sym, ap, ◌∙◌, true, false, inl, inr, arith, Bool-cases,
  if◌then◌else◌, eq_bytes, eq_bytes_refl,
}
use desktop_folder_locker.Common.Text.{Text}
use desktop_folder_locker.Vault2.Crypto.{Bytes}
use desktop_folder_locker.Vault2.Error.{ok}
use desktop_folder_locker.Vault2.Names.Defs.{is_internal_entry, dir_iv_file}
use desktop_folder_locker.Vault2.Vault.Maps.{
  StoredPath, eq_path, eq_path_iff, text_eq, eq_bytes_iff, get,
}
use desktop_folder_locker.Vault2.Vault.Disk.{Node, file, folder, Disk, node, node_in}
use desktop_folder_locker.Vault2.Vault.Folders.{NameCalls, Entry, read_iv, is_dir_node}
use desktop_folder_locker.Vault2.Vault.Reading.{entries_of, index_of}
use desktop_folder_locker.Vault2.Vault.Walk.{find_in, IsName, IsTidy}
use desktop_folder_locker.Vault2.Vault.Ivs.{read_iv_same, read_iv-HasIv, HasIv-read_iv}
use desktop_folder_locker.Vault2.Vault.Laws.{NamesAreLawful}
use desktop_folder_locker.Vault2.Vault.Grown.{
  find_in_same, IsNew, Grown, find_in-ok, find_in_grown, item_there, tree_grown,
}

node_same :
    (disk disk' : Disk) (p : StoredPath) (s : Text) {n' : Node}
    → disk' p ≡ disk p
    → node disk' (s ∷ p) ≡ some n'
    → node disk (s ∷ p) ≡ some n'
unfolding node
node_same disk disk' p s same there = ap (node_in s) (sym same) ∙ there

-- The item is new under its name, and stored where its name is encrypted to.
module _ (calls : NameCalls) {disk disk' : Disk} {path : StoredPath} {iv : Bytes} {entry : Entry}
    {n : Node} (g : Grown calls disk disk' path iv entry n) (t : IsTidy calls disk)
    (L : NamesAreLawful calls) (encoded : Text) (is_name : IsName entry.name)
    (encrypted : calls.encrypt_name iv entry.name ≡ ok encoded)
    (stored_at : entry.stored ≡ calls.entry_name encoded) (kind : entry.is_dir ≡ is_dir_node n)
    (free : find_in calls disk path iv entry.name ≡ ok none) where
  plain : is_internal_entry entry.stored ≡ false
  plain = ap is_internal_entry stored_at ∙ L.plain iv entry.name encoded encrypted

  same_iv : (i : Bytes) → read_iv path disk' ≡ ok i → i ≡ iv
  same_iv i e =
      let (its, there, has) = read_iv-HasIv path disk' i e in
      let at : its ≡ g.items' = cc (there, g.after) in cc (rw at at has.0, g.iv_kept, g.has_iv.0)

  known_before : read_iv path disk ≡ ok iv
  known_before = HasIv-read_iv path disk g.items iv g.before g.has_iv

  same_item :
      (name encoded' : Text) (n' : Node)
      → IsName name
      → calls.encrypt_name iv name ≡ ok encoded'
      → eq_bytes entry.stored (calls.entry_name encoded') ≡ true
      → node disk' (calls.entry_name encoded' ∷ path) ≡ some n'
      → find_in calls disk' path iv name
        ≡ ok (
            some
              (record { name = name; stored = calls.entry_name encoded'; is_dir = is_dir_node n' }))
  same_item name encoded' n' is_name' encrypted' same there =
      let s = (eq_bytes_iff entry.stored (calls.entry_name encoded')).0 same in
      let code =
        L.apart iv entry.name encoded name encoded' is_name is_name' encrypted encrypted'
          (sym stored_at ∙ s) in
      let name_same : entry.name ≡ name = cc (
        L.decrypts iv entry.name encoded is_name encrypted,
        L.decrypts iv name encoded' is_name' encrypted',
        code,
      ) in
      let n_same : n ≡ n' =
        cc (item_there calls g t plain, ap (λ x. node disk' (x ∷ path)) s, there) in
      let e : entry
          ≡ record { name = name; stored = calls.entry_name encoded'; is_dir = is_dir_node n' } =
        ground (arith, name_same, s, kind, n_same) in
      find_in_grown calls g name
      ∙ ap
          (λ k. ok (
            if eq_bytes k (calls.fold name)
            then some entry
            else get (calls.fold name) (index_of calls (entries_of calls iv g.items g.items))))
          (ap calls.fold name_same)
      ∙ rw (eq_bytes_refl (calls.fold name)) (ap (λ x. ok (some x)) e)

  other_item :
      (name encoded' : Text) (n' : Node)
      → IsName name
      → calls.encrypt_name iv name ≡ ok encoded'
      → eq_bytes entry.stored (calls.entry_name encoded') ≡ false
      → node disk' (calls.entry_name encoded' ∷ path) ≡ some n'
      → find_in calls disk' path iv name
        ≡ ok (
            some
              (record { name = name; stored = calls.entry_name encoded'; is_dir = is_dir_node n' }))
  unfolding node node_in
  other_item name encoded' n' is_name' encrypted' differs there =
      let s = calls.entry_name encoded' in
      let in_after : get s g.items' ≡ some n' = ap (node_in s) (sym g.after) ∙ there in
      let in_before : get s g.items ≡ some n' =
        ap (λ b. if b then some n else get s g.items) (sym differs)
        ∙ sym (g.found s (L.plain iv name encoded' encrypted'))
        ∙ in_after in
      let was =
        t.exact path iv name encoded' n' is_name' known_before encrypted'
          (ap (node_in s) g.before ∙ in_before) in
      let was' = sym (find_in-ok calls disk path g.items iv name g.before) ∙ was in
      let none_was = sym (find_in-ok calls disk path g.items iv entry.name g.before) ∙ free in
      elim (Bool-cases (eq_bytes (calls.fold entry.name) (calls.fold name))) [
        | inl same ↦
            let q = (eq_bytes_iff (calls.fold entry.name) (calls.fold name)).0 same in
            absurd (cc (was', none_was, q))
        | inr other ↦ find_in_grown calls g name ∙ rw other was'
      ]

  exact_here :
      (name encoded' : Text) (n' : Node)
      → IsName name
      → calls.encrypt_name iv name ≡ ok encoded'
      → node disk' (calls.entry_name encoded' ∷ path) ≡ some n'
      → find_in calls disk' path iv name
        ≡ ok (
            some
              (record { name = name; stored = calls.entry_name encoded'; is_dir = is_dir_node n' }))
  exact_here name encoded' n' is_name' encrypted' there =
      elim (Bool-cases (eq_bytes entry.stored (calls.entry_name encoded'))) [
        | inl same ↦ same_item name encoded' n' is_name' encrypted' same there
        | inr differs ↦ other_item name encoded' n' is_name' encrypted' differs there
      ]

  -- A folder that holds its IV only has no item.
  new_is_empty :
      (p : StoredPath) (i name encoded' : Text) (n' : Node)
      → IsNew (disk' p)
      → calls.encrypt_name i name ≡ ok encoded'
      → node disk' (calls.entry_name encoded' ∷ p) ≡ some n'
      → ⊥
  unfolding node node_in get is_internal_entry
  new_is_empty p i name encoded' n' (i', e) encrypted' there =
      let s = calls.entry_name encoded' in
      let has : get s ((dir_iv_file, file i') ∷ []) ≡ some n' = ap (node_in s) (sym e) ∙ there in
      elim (Bool-cases (eq_bytes dir_iv_file s)) [
        | inl same ↦
            let q : dir_iv_file ≡ s = (eq_bytes_iff dir_iv_file s).0 same in
            let bad : true ≡ false = ap is_internal_entry q ∙ L.plain i name encoded' encrypted' in
            absurd (cc bad)
        | inr differs ↦ absurd (cc (rw differs at has))
      ]

  books_grown :
      (s : Text) (p : StoredPath) → is_internal_entry s ≡ true → node disk' (s ∷ p) ≢ some folder
  unfolding node node_in get
  books_grown s p book there = elim (Bool-cases (eq_path path p)) [
    | inl same ↦
        let q = (eq_path_iff path p).0 same in
        let here : get s g.items' ≡ some folder =
          ap (node_in s) (sym g.after) ∙ ap (λ x. node_in s (disk' x)) q ∙ there in
        t.books s path book (ap (node_in s) g.before ∙ g.books s book here)
    | inr other ↦ elim (g.elsewhere p other) [
      | inl as_before ↦ t.books s p book (node_same disk disk' p s as_before there)
      | inr (_, _, (i, e)) ↦
          let has : get s ((dir_iv_file, file i) ∷ []) ≡ some folder =
            ap (node_in s) (sym e) ∙ there in
          elim (Bool-cases (eq_bytes dir_iv_file s)) [
            | inl same ↦ absurd (cc (rw same at has))
            | inr differs ↦ absurd (cc (rw differs at has))
          ]
    ]
  ]

  pub IsTidy-Grown : IsTidy calls disk'
  IsTidy-Grown = record {
    tree = tree_grown calls g t plain;
    books = books_grown;
    exact = λ p i name encoded' n' is_name' known encrypted' there.
        elim (Bool-cases (eq_path path p)) [
          | inl same ↦
              let q = (eq_path_iff path p).0 same in
              let j = same_iv i (ap (λ x. read_iv x disk') q ∙ known) in
              ap (λ x. find_in calls disk' x i name) (sym q)
              ∙ ap (λ x. find_in calls disk' path x name) j
              ∙ exact_here name encoded' n' is_name'
                  (ap (λ x. calls.encrypt_name x name) (sym j) ∙ encrypted')
                  (ap (λ x. node disk' (calls.entry_name encoded' ∷ x)) q ∙ there)
          | inr other ↦ elim (g.elsewhere p other) [
            | inl as_before ↦
                find_in_same calls disk disk' p i name as_before
                ∙ t.exact p i name encoded' n' is_name'
                    (read_iv_same p disk' disk i (sym as_before) known) encrypted'
                    (node_same disk disk' p (calls.entry_name encoded') as_before there)
            | inr (_, _, new) ↦ absurd (new_is_empty p i name encoded' n' new encrypted' there)
          ]
        ];
  }
