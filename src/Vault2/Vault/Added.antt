-- ===== src/Vault2/Vault/Added.antt =====
-- What `read_entries` makes of a folder to which an item was added.
use desktop_folder_locker.Common.{
  Option, none, some, List, [], ◌∷◌, ◌++◌, ◌≡◌, refl, sym, ap, ◌∙◌, true, false, inl, inr, arith,
  Bool-cases, length, length-append, take, take-append_left, eq_bytes,
}
use desktop_folder_locker.Common.Text.{Text}
use desktop_folder_locker.Vault2.Crypto.{Bytes}
use desktop_folder_locker.Vault2.Names.Defs.{is_internal_entry, sidecar_name, sidecar_suffix}
use desktop_folder_locker.Vault2.Names.Entry.{sidecar-internal}
use desktop_folder_locker.Vault2.Vault.Maps.{text_eq, eq_bytes_iff, get, insert, get-insert}
use desktop_folder_locker.Vault2.Vault.Disk.{Node, Directory}
use desktop_folder_locker.Vault2.Vault.Folders.{NameCalls, Entry, Index}
use desktop_folder_locker.Vault2.Vault.Reading.{keep, encoded_of, entry_of, entries_of, collect}

-- A new key goes to the end.
pub insert_new {ℓ} :
    {A : Type ℓ} (key : Text) (a : A) (m : List (Text × A))
    → get key m ≡ none
    → insert key a m ≡ m ++ (key, a) ∷ []
unfolding get insert
insert_new key a [] h = refl
insert_new key a ((k, b) ∷ m) h = ground (arith, insert_new key a m)

keep-append :
    (o : Option Entry) (n : Node) (xs ys : List (Entry × Node))
    → keep o n (xs ++ ys) ≡ keep o n xs ++ ys
keep-append none n xs ys = refl
keep-append (some entry) n xs ys = refl

-- A folder with the file that holds a long name, if there is one.
abbrev pub beside : Option Node → Text → Directory → Directory
beside none stored items = items
beside (some n) stored items = insert (sidecar_name stored) n items

sidecar_name_inj : (s t : Text) → sidecar_name s ≡ sidecar_name t → s ≡ t
unfolding sidecar_name
sidecar_name_inj s t e =
    let l : length s ≡ length t =
      omega (arith, ap length e, length-append s sidecar_suffix, length-append t sidecar_suffix) in
    sym (take-append_left s sidecar_suffix)
    ∙ ap (take (length s)) e
    ∙ ap (λ n. take n (t ++ sidecar_suffix)) l
    ∙ take-append_left t sidecar_suffix

-- Two texts of which one is a bookkeeping file differ.
pub differs_of_kind :
    (stored s : Text) → is_internal_entry stored ≡ false → eq_bytes stored (sidecar_name s) ≡ false
differs_of_kind stored s plain = elim (Bool-cases (eq_bytes stored (sidecar_name s))) [
  | inr e ↦ e
  | inl e ↦ absurd (cc (sidecar-internal s, plain, (eq_bytes_iff stored (sidecar_name s)).0 e))
]

get_sidecar :
    (extra : Option Node) (stored s : Text) (items : Directory)
    → eq_bytes s stored ≡ false
    → get (sidecar_name s) (beside extra stored items) ≡ get (sidecar_name s) items
get_sidecar none stored s items differs = refl
get_sidecar (some n) stored s items differs =
    get-insert (sidecar_name stored) (sidecar_name s) n items
    ∙ elim (Bool-cases (eq_bytes (sidecar_name stored) (sidecar_name s))) [
      | inr e ↦ rw e refl
      | inl e ↦
          let same = sidecar_name_inj stored s ((eq_bytes_iff _ _).0 e) in
          absurd (cc ((eq_bytes_iff s stored).1 (sym same), differs))
    ]

-- What is no bookkeeping file stays as it was.
pub get_other :
    (extra : Option Node) (stored s : Text) (items : Directory)
    → is_internal_entry s ≡ false
    → get s (beside extra stored items) ≡ get s items
get_other none stored s items plain = refl
get_other (some n) stored s items plain =
    get-insert (sidecar_name stored) s n items
    ∙ elim (Bool-cases (eq_bytes (sidecar_name stored) s)) [
      | inr e ↦ rw e refl
      | inl e ↦
          absurd (cc (sidecar-internal stored, plain, (eq_bytes_iff (sidecar_name stored) s).0 e))
    ]

module _ (calls : NameCalls) where
  -- Bookkeeping files give no entry.
  pub entry_of_internal :
      (iv : Bytes) (items : Directory) (stored : Text) (n : Node)
      → is_internal_entry stored ≡ true
      → entry_of calls iv items stored n ≡ none
  unfolding entry_of
  entry_of_internal iv items stored n h = rw h refl

  -- Which entry a stored name gives depends on the file next to it only.
  entry_of_same :
      (iv : Bytes) (items items' : Directory) (stored : Text) (n : Node)
      → get (sidecar_name stored) items' ≡ get (sidecar_name stored) items
      → entry_of calls iv items' stored n ≡ entry_of calls iv items stored n
  unfolding entry_of encoded_of
  entry_of_same iv items items' stored n h = rw h refl

  entries_of-append :
      (iv : Bytes) (items xs ys : Directory)
      → entries_of calls iv items (xs ++ ys)
        ≡ entries_of calls iv items xs ++ entries_of calls iv items ys
  unfolding entries_of
  entries_of-append iv items [] ys = refl
  entries_of-append iv items ((s, n) ∷ xs) ys =
      ap (keep (entry_of calls iv items s n) n) (entries_of-append iv items xs ys)
      ∙ keep-append (entry_of calls iv items s n) n _ _

  -- A bookkeeping file that is written adds no entry.
  entries_of-insert_internal :
      (iv : Bytes) (items : Directory) (key : Text) (n : Node) (xs : Directory)
      → is_internal_entry key ≡ true
      → entries_of calls iv items (insert key n xs) ≡ entries_of calls iv items xs
  unfolding entries_of insert
  entries_of-insert_internal iv items key n [] h =
      ap (λ o. keep o n []) (entry_of_internal iv items key n h)
  entries_of-insert_internal iv items key n ((s, m) ∷ xs) h = elim (Bool-cases (eq_bytes s key)) [
    | inr differs ↦
        rw differs (
          ap (keep (entry_of calls iv items s m) m)
            (entries_of-insert_internal iv items key n xs h))
    | inl same ↦ rw same (
        ap (λ o. keep o n (entries_of calls iv items xs)) (entry_of_internal iv items key n h)
        ∙ sym (
            ap (λ o. keep o m (entries_of calls iv items xs))
              (entry_of_internal iv items s m (rw ((eq_bytes_iff s key).0 same) h))))
  ]

  -- Entries stay as they were if the files next to them do.
  entries_of_same :
      (iv : Bytes) (items items' : Directory) (stored : Text) (xs : Directory)
      → get stored xs ≡ none
      → ((s : Text)
          → eq_bytes s stored ≡ false
          → get (sidecar_name s) items' ≡ get (sidecar_name s) items)
      → entries_of calls iv items' xs ≡ entries_of calls iv items xs
  unfolding entries_of get
  entries_of_same iv items items' stored [] h beside = refl
  entries_of_same iv items items' stored ((s, m) ∷ xs) h beside =
      elim (Bool-cases (eq_bytes s stored)) [
        | inl same ↦ absurd (cc (rw same at h))
        | inr differs ↦
            ap (λ o. keep o m (entries_of calls iv items' xs))
              (entry_of_same iv items items' s m (beside s differs))
            ∙ ap (keep (entry_of calls iv items s m) m)
                (entries_of_same iv items items' stored xs (rw differs at h) beside)
      ]

  entries_of-beside :
      (iv : Bytes) (after : Directory) (extra : Option Node) (stored : Text) (items : Directory)
      → entries_of calls iv after (beside extra stored items) ≡ entries_of calls iv after items
  entries_of-beside iv after none stored items = refl
  entries_of-beside iv after (some n) stored items =
      entries_of-insert_internal iv after (sidecar_name stored) n items (sidecar-internal stored)

  entries_of_one :
      (iv : Bytes) (after : Directory) (stored : Text) (n : Node) (entry : Entry)
      → entry_of calls iv after stored n ≡ some entry
      → entries_of calls iv after ((stored, n) ∷ []) ≡ (entry, n) ∷ []
  unfolding entries_of
  entries_of_one iv after stored n entry e = ap (λ o. keep o n []) e

  pub collect-append :
      (xs : List (Entry × Node)) (entry : Entry) (n : Node) (index : Index)
      → collect calls (xs ++ (entry, n) ∷ []) index
        ≡ insert (calls.fold entry.name) entry (collect calls xs index)
  unfolding collect
  collect-append [] entry n index = refl
  collect-append ((x, m) ∷ xs) entry n index =
      collect-append xs entry n (insert (calls.fold x.name) x index)

  module _ (iv : Bytes) (items : Directory) (stored : Text)
      (plain : is_internal_entry stored ≡ false) where
    get-beside :
        (extra : Option Node) (n : Node) (s : Text)
        → eq_bytes s stored ≡ false
        → get (sidecar_name s) (insert stored n (beside extra stored items))
          ≡ get (sidecar_name s) items
    get-beside extra n s differs =
        let own : eq_bytes stored (sidecar_name s) ≡ false = differs_of_kind stored s plain in
        get-insert stored (sidecar_name s) n (beside extra stored items)
        ∙ rw own (get_sidecar extra stored s items differs)

    -- A new item, with the file that holds its long name, gives one entry more.
    pub entries_of-added :
        (extra : Option Node) (n : Node) (entry : Entry)
        → get stored items ≡ none
        → let after = insert stored n (beside extra stored items) in
          entry_of calls iv after stored n ≡ some entry
          → entries_of calls iv after after ≡ entries_of calls iv items items ++ (entry, n) ∷ []
    entries_of-added extra n entry absent e =
        let after = insert stored n (beside extra stored items) in
        let absent' : get stored (beside extra stored items) ≡ none =
          get_other extra stored stored items plain ∙ absent in
        ap (entries_of calls iv after) (insert_new stored n (beside extra stored items) absent')
        ∙ entries_of-append iv after (beside extra stored items) ((stored, n) ∷ [])
        ∙ ap (λ l. l ++ entries_of calls iv after ((stored, n) ∷ []))
            (entries_of-beside iv after extra stored items
              ∙ entries_of_same iv items after stored items absent (get-beside extra n))
        ∙ ap (λ l. entries_of calls iv items items ++ l) (entries_of_one iv after stored n entry e)
