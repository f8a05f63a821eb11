-- ===== src/Vault2/Vault/Entered.antt =====
-- A folder in which a new item was entered under its stored name, after the file that a long name
-- needs: what the vault reads there has one item more.
use desktop_folder_locker.Common.{
  none, some, ◌∷◌, ◌++◌, ◌≡◌, ◌≢◌, ◌⊎◌, refl, sym, ap, ◌∙◌, Bool, true, false, inl, inr, arith,
  Bool-cases, if◌then◌else◌, ◌&&◌, length, length-append, drop, drop-append_left, eq_bytes,
  eq_bytes_refl,
}
use desktop_folder_locker.Common.Text.{Text}
use desktop_folder_locker.Vault2.Error.{ok}
use desktop_folder_locker.Vault2.Names.Defs.{
  is_internal_entry, is_long_entry, sidecar_name, sidecar_suffix, dir_iv_file,
}
use desktop_folder_locker.Vault2.Vault.Maps.{
  StoredPath, eq_path, text_eq, eq_bytes_iff, get, insert, get-insert,
}
use desktop_folder_locker.Vault2.Vault.Disk.{Node, file, folder, Directory, Disk}
use desktop_folder_locker.Vault2.Vault.Folders.{NameCalls, Entry, is_dir_node}
use desktop_folder_locker.Vault2.Vault.Reading.{read_sidecar, encoded_of, entry_of}
use desktop_folder_locker.Vault2.Vault.Walk.{IsName}
use desktop_folder_locker.Vault2.Vault.Ivs.{HasIv}
use desktop_folder_locker.Vault2.Vault.Laws.{NamesAreLawful}
use desktop_folder_locker.Vault2.Vault.Added.{beside, differs_of_kind, get_other, entries_of-added}
use desktop_folder_locker.Vault2.Vault.Written.{extra_of}
use desktop_folder_locker.Vault2.Vault.Grown.{IsNew, Grown}

no_truth : false ≡ true → ⊥
no_truth h = absurd (cc h)

-- The file beside a long name is not that of the IV.
sidecar_no_iv : (s : Text) → eq_bytes (sidecar_name s) dir_iv_file ≡ false
unfolding sidecar_name
sidecar_no_iv s = elim (Bool-cases (eq_bytes (sidecar_name s) dir_iv_file)) [
  | inr e ↦ e
  | inl e ↦
      let q : s ++ sidecar_suffix ≡ dir_iv_file =
        (eq_bytes_iff (s ++ sidecar_suffix) dir_iv_file).0 e in
      let l : length s ≡ 1 = omega (arith, ap length q, length-append s sidecar_suffix) in
      let t : sidecar_suffix ≡ drop (length s) dir_iv_file =
        sym (drop-append_left s sidecar_suffix) ∙ ap (drop (length s)) q in
      let u : sidecar_suffix ≡ drop 1 dir_iv_file = t ∙ ap (λ n. drop n dir_iv_file) l in
      let h : false ≡ true = (eq_bytes_iff sidecar_suffix (drop 1 dir_iv_file)).1 u in
      absurd (no_truth h)
]

-- What is bookkeeping, and what is not, differ.
differs :
    (s t : Text) → is_internal_entry s ≡ false → is_internal_entry t ≡ true → eq_bytes s t ≡ false
differs s t plain book = elim (Bool-cases (eq_bytes s t)) [
  | inr e ↦ e
  | inl e ↦ absurd (cc (plain, book, (eq_bytes_iff s t).0 e))
]

iv_internal : is_internal_entry dir_iv_file ≡ true
unfolding is_internal_entry
iv_internal = refl

get-beside_book :
    (stored s encoded : Text) (items : Directory) (long : Bool)
    → let after = beside (if long then some (file encoded) else none) stored items in
      (get s after ≡ get s items)
      ⊎ ((get s after ≡ some (file encoded)) × (sidecar_name stored ≡ s))
get-beside_book stored s encoded items false = inl refl
get-beside_book stored s encoded items true =
    let e = get-insert (sidecar_name stored) s (file encoded) items in
    elim (Bool-cases (eq_bytes (sidecar_name stored) s)) [
      | inr other ↦ inl (e ∙ ap (λ b. if b then some (file encoded) else get s items) other)
      | inl same ↦ inr (
        e ∙ ap (λ b. if b then some (file encoded) else get s items) same,
        (eq_bytes_iff (sidecar_name stored) s).0 same,
      )
    ]

module _ (calls : NameCalls) (L : NamesAreLawful calls) (iv name encoded : Text)
    (is_name : IsName name) (encrypted : calls.encrypt_name iv name ≡ ok encoded)
    (items : Directory)
    (no_folder : get (sidecar_name (calls.entry_name encoded)) items ≢ some folder)
    (absent : get (calls.entry_name encoded) items ≡ none) (n : Node) where
  abbrev stored : Text
  stored = calls.entry_name encoded

  abbrev pub with_item : Directory
  with_item = insert stored n (beside (extra_of stored encoded) stored items)

  abbrev pub new_entry : Entry
  new_entry = record { name = name; stored = stored; is_dir = is_dir_node n }

  plain : is_internal_entry stored ≡ false
  plain = L.plain iv name encoded encrypted

  -- The name is read back from the folder.
  encoded_of_new : encoded_of calls with_item stored ≡ some encoded
  unfolding encoded_of
  encoded_of_new = elim (Bool-cases (is_long_entry stored)) [
    | inr short ↦ rw short (ap some (L.short iv name encoded encrypted short))
    | inl long ↦
        let e : get (sidecar_name stored) with_item ≡ some (file encoded) =
          get-insert stored (sidecar_name stored) n (beside (extra_of stored encoded) stored items)
          ∙ rw (differs_of_kind stored stored plain) (
              rw long (
                get-insert (sidecar_name stored) (sidecar_name stored) (file encoded) items
                ∙ rw (eq_bytes_refl (sidecar_name stored)) refl)) in
        ap
          (λ b.
            if b
            then read_sidecar calls stored (get (sidecar_name stored) with_item)
            else some stored)
          long
        ∙ ap (read_sidecar calls stored) e
        ∙ ap (λ b. if b && eq_bytes stored stored then some encoded else none)
            (L.utf8 iv name encoded is_name encrypted)
        ∙ ap (λ b. if b then some encoded else none) (eq_bytes_refl stored)
  ]

  entry_of_new : entry_of calls iv with_item stored n ≡ some new_entry
  unfolding entry_of
  entry_of_new =
      rw
        (
          plain,
          L.lasting iv name encoded encrypted,
          encoded_of_new,
          L.decrypts iv name encoded is_name encrypted,
        )
        refl

  get-with_item :
      (s : Text)
      → is_internal_entry s ≡ false
      → get s with_item ≡ (if eq_bytes stored s then some n else get s items)
  get-with_item s plain_s =
      get-insert stored s n (beside (extra_of stored encoded) stored items)
      ∙ ap (λ o. if eq_bytes stored s then some n else o)
          (get_other (extra_of stored encoded) stored s items plain_s)

  -- Another bookkeeping file stays as it was.
  get_book :
      (s : Text)
      → is_internal_entry s ≡ true
      → (get s with_item ≡ get s items)
        ⊎ ((get s with_item ≡ some (file encoded)) × (sidecar_name stored ≡ s))
  get_book s book =
      let e : get s with_item ≡ get s (beside (extra_of stored encoded) stored items) =
        get-insert stored s n (beside (extra_of stored encoded) stored items)
        ∙ ap (λ b. if b then some n else get s (beside (extra_of stored encoded) stored items))
            (differs stored s plain book) in
      elim (get-beside_book stored s encoded items (is_long_entry stored)) [
        | inl same ↦ inl (e ∙ same)
        | inr (is_file, q) ↦ inr (e ∙ is_file, q)
      ]

  get_folder : (s : Text) → get s items ≡ some folder → get s with_item ≡ some folder
  get_folder s e = elim (Bool-cases (is_internal_entry s)) [
    | inr plain_s ↦ elim (Bool-cases (eq_bytes stored s)) [
      | inl same ↦ absurd (cc (absent, e, (eq_bytes_iff stored s).0 same))
      | inr other ↦ get-with_item s plain_s ∙ ap (λ b. if b then some n else get s items) other ∙ e
    ]
    | inl book ↦ elim (get_book s book) [
      | inl same ↦ same ∙ e
      | inr (_, q) ↦ absurd (no_folder (ap (λ x. get x items) q ∙ e))
    ]
  ]

  get_iv : get dir_iv_file with_item ≡ get dir_iv_file items
  get_iv = elim (get_book dir_iv_file iv_internal) [
    | inl same ↦ same
    | inr (_, q) ↦
        let h = sym (sidecar_no_iv stored) ∙ (eq_bytes_iff (sidecar_name stored) dir_iv_file).1 q in
        absurd (no_truth h)
  ]

  -- The disk has one item more.
  pub grown :
      {disk disk' : Disk} {path : StoredPath}
      → disk path ≡ some items
      → disk' path ≡ some with_item
      → HasIv items iv
      → ((p : StoredPath)
          → eq_path path p ≡ false
          → (disk' p ≡ disk p) ⊎ ((p ≡ stored ∷ path) × (n ≡ folder) × IsNew (disk' p)))
      → Grown calls disk disk' path iv new_entry n
  grown before after has_iv elsewhere = record {
    items = items;
    items' = with_item;
    before = before;
    after = after;
    has_iv = has_iv;
    iv_kept = get_iv;
    absent = absent;
    elsewhere = elsewhere;
    entries =
        entries_of-added calls iv items stored plain (extra_of stored encoded) n new_entry absent
          entry_of_new;
    found = get-with_item;
    books = λ s book e. elim (get_book s book) [
      | inl same ↦ sym same ∙ e
      | inr (is_file, _) ↦ absurd (cc (is_file, e))
    ];
    folders = get_folder;
  }
