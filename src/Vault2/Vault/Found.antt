-- ===== src/Vault2/Vault/Found.antt =====
-- `lookup` finds what the walk through the stored folders finds, whatever the tables hold.
use desktop_folder_locker.Common.{
  Option, none, some, List, [], ◌∷◌, ◌≡◌, refl, sym, ap, ◌∙◌, Bool, true, false, inl, inr,
  Option-cases,
}
use desktop_folder_locker.Common.Text.{Text}
use desktop_folder_locker.Vault2.Crypto.{Bytes}
use desktop_folder_locker.Vault2.Error.{Result, ok, err, Action}
use desktop_folder_locker.Vault2.Vault.Maps.{StoredPath}
use desktop_folder_locker.Vault2.Vault.Disk.{Disk, Node, folder, node}
use desktop_folder_locker.Vault2.Vault.Folders.{NameCalls, Entry, Item, Vault, read_iv, dir}
use desktop_folder_locker.Vault2.Vault.Reading.{find}
use desktop_folder_locker.Vault2.Vault.Lookup.{
  last, or_none, item_of, with_metadata, or_search, exact_path, lookup_exact, stop_at, enter, go_on,
  search_parts, lookup_parts,
}
use desktop_folder_locker.Vault2.Vault.Walk.{
  find_in, found_last, enter_found, follow, walk, walk_parts, AreNames, IsTidy, IsCoherent,
}
use desktop_folder_locker.Vault2.Vault.Ivs.{read_iv-HasIv}
use desktop_folder_locker.Vault2.Vault.Agreement.{Agrees, Agrees-bind, dir-Agrees, find-Agrees}

abbrev some_of : {A B : Type 0} → Result A → (A → Option B) → Option B
some_of (ok a) f = f a
some_of (err e) f = none

some_of-eq_some :
    {A B : Type 0} (r : Result A) (f : A → Option B) {b : B}
    → some_of r f ≡ some b
    → (a : A) × (r ≡ ok a) × (f a ≡ some b)
some_of-eq_some (ok a) f h = (a, refl, h)
some_of-eq_some (err e) f h = absurd (cc h)

module _ (calls : NameCalls) where
  -- `find` in a vault that the first steps of a walk led to.
  pub find_later :
      (v v1 : Vault) (path : StoredPath) (iv : Bytes) (name : Text)
      → v1.disk ≡ v.disk
      → IsCoherent calls v1
      → read_iv path v.disk ≡ ok iv
      → Agrees calls v1 (find calls path iv name v1) (find_in calls v.disk path iv name)
  find_later v v1 path iv name d c known =
      let (e, d1, c1) = find-Agrees calls v1 path iv name c (rw d known) in
      (e ∙ ap (λ disk. find_in calls disk path iv name) d, d1, c1)

  stop_at-Agrees :
      (v : Vault) (path : StoredPath) (found : Option Entry)
      → IsCoherent calls v
      → Agrees calls v (stop_at path found v) (found_last path found)
  stop_at-Agrees v path none c = (refl, refl, c)
  stop_at-Agrees v path (some entry) c = (refl, refl, c)

  go_on-Agrees :
      (inside : StoredPath → Action Vault (Option Item))
      (inside' : StoredPath → Result (Option Item)) (v : Vault) (path : StoredPath)
      (found : Option Entry)
      → IsCoherent calls v
      → ((inner : StoredPath) → Agrees calls v (inside inner v) (inside' inner))
      → Agrees calls v (go_on inside path found v) (follow inside' path found)
  go_on-Agrees inside inside' v path none c h = (refl, refl, c)
  go_on-Agrees inside inside' v path (some entry) c h = enter-Agrees entry.is_dir
    where
      enter-Agrees :
          (is_dir : Bool)
          → Agrees calls v
              (enter inside (entry.stored ∷ path) is_dir v)
              (enter_found inside' (entry.stored ∷ path) is_dir)
      enter-Agrees false = (refl, refl, c)
      enter-Agrees true = h (entry.stored ∷ path)

  search_parts-Agrees :
      (v : Vault) (path : StoredPath) (part : Text) (rest : List Text)
      → IsCoherent calls v
      → Agrees calls v (search_parts calls path part rest v) (walk calls v.disk path part rest)
  unfolding search_parts walk
  search_parts-Agrees v path part [] c =
      Agrees-bind calls v (dir path v) _ (read_iv path v.disk) _ (dir-Agrees calls v path c)
        λ iv v1 known d c1.
          Agrees-bind calls v1 (find calls path iv part v1) (stop_at path)
            (find_in calls v.disk path iv part) (found_last path)
            (find_later v v1 path iv part d c1 known)
            λ found v2 _ d2 c2. stop_at-Agrees v2 path found c2
  search_parts-Agrees v path part (next ∷ rest) c =
      Agrees-bind calls v (dir path v) _ (read_iv path v.disk) _ (dir-Agrees calls v path c)
        λ iv v1 known d c1.
          Agrees-bind calls v1 (find calls path iv part v1)
            (go_on (λ inner. search_parts calls inner next rest) path)
            (find_in calls v.disk path iv part)
            (follow (λ inner. walk calls v.disk inner next rest) path)
            (find_later v v1 path iv part d c1 known)
            λ found v2 _ d2 c2.
              go_on-Agrees (λ inner. search_parts calls inner next rest)
                (λ inner. walk calls v.disk inner next rest) v2 path found c2
                λ inner.
                  let (e, d3, c3) = search_parts-Agrees v2 inner next rest c2 in
                  (e ∙ ap (λ disk. walk calls disk inner next rest) (d2 ∙ d), d3, c3)

  -- The same of a step whose error only means that there is no exact path.
  or_none-Agrees :
      {A B : Type 0} (v : Vault) (run : Result A × Vault) (f : A → Vault → Option B × Vault)
      (r : Result A) (g : A → Option B)
      → Agrees calls v run r
      → ((a : A) (v1 : Vault)
          → r ≡ ok a
          → v1.disk ≡ v.disk
          → IsCoherent calls v1
          → Agrees calls v1 (f a v1) (g a))
      → Agrees calls v (or_none run f) (some_of r g)
  or_none-Agrees v (ok a, v1) f r g h next =
      let (e, d, c) = next a v1 (sym h.0) h.1 h.2 in (e ∙ ap (λ s. some_of s g) h.0, d ∙ h.1, c)
  or_none-Agrees v (err x, v1) f r g h next = (ap (λ s. some_of s g) h.0, h.1, h.2)

  -- The stored path of names in their own case, said of the stored folders alone.
  exact_in : Disk → StoredPath → List Text → Option StoredPath
  exact_in disk path [] = some path
  exact_in disk path (part ∷ parts) = some_of (read_iv path disk) λ iv.
      some_of (calls.encrypt_name iv part)
        λ encoded. exact_in disk (calls.entry_name encoded ∷ path) parts

  exact_path-Agrees :
      (v : Vault) (path : StoredPath) (parts : List Text)
      → IsCoherent calls v
      → Agrees calls v (exact_path calls path parts v) (exact_in v.disk path parts)
  unfolding exact_path exact_in
  exact_path-Agrees v path [] c = (refl, refl, c)
  exact_path-Agrees v path (part ∷ parts) c =
      or_none-Agrees v (dir path v) _ (read_iv path v.disk) _ (dir-Agrees calls v path c)
        λ iv v1 known d c1.
          or_none-Agrees v1 (calls.encrypt_name iv part, v1)
            (λ encoded. exact_path calls (calls.entry_name encoded ∷ path) parts)
            (calls.encrypt_name iv part)
            (λ encoded. exact_in v.disk (calls.entry_name encoded ∷ path) parts) (refl, refl, c1)
            λ encoded v2 _ d2 c2.
              let inner : StoredPath = calls.entry_name encoded ∷ path in
              let (e, d3, c3) = exact_path-Agrees v2 inner parts c2 in
              (e ∙ ap (λ disk. exact_in disk inner parts) (d2 ∙ d), d3, c3)

  -- A path that was computed and is there is where the walk ends.
  walk-exact_in :
      (disk : Disk) (path : StoredPath) (part : Text) (rest : List Text) (found : StoredPath)
      (n : Node)
      → IsTidy calls disk
      → AreNames (part ∷ rest)
      → exact_in disk path (part ∷ rest) ≡ some found
      → node disk found ≡ some n
      → walk calls disk path part rest ≡ ok (item_of (last part rest) found (some n))
  unfolding exact_in walk
  walk-exact_in disk path part [] found n t names e is_there =
      let (iv, known, e1) = some_of-eq_some (read_iv path disk) _ e in
      let (encoded, encrypted, e2) = some_of-eq_some (calls.encrypt_name iv part) _ e1 in
      let at : calls.entry_name encoded ∷ path ≡ found = cc e2 in
      rw known (
        rw (t.exact path iv part encoded n names.0 known encrypted (rw at is_there))
          (rw (← at) refl))
  walk-exact_in disk path part (next ∷ rest) found n t names e is_there =
      let (iv, known, e1) = some_of-eq_some (read_iv path disk) _ e in
      let (encoded, encrypted, e2) = some_of-eq_some (calls.encrypt_name iv part) _ e1 in
      let inner : StoredPath = calls.entry_name encoded ∷ path in
      let (iv1, known1, _) = some_of-eq_some (read_iv inner disk) _ e2 in
      let (items, there, _) = read_iv-HasIv inner disk iv1 known1 in
      let folder_there = t.tree (calls.entry_name encoded) path items there in
      rw known (
        rw (t.exact path iv part encoded folder names.0 known encrypted folder_there)
          (walk-exact_in disk inner next rest found n t names.1 e2 is_there))

  lookup_exact-Agrees :
      (v : Vault) (part : Text) (rest : List Text)
      → IsCoherent calls v
      → (run : Option StoredPath × Vault) → Agrees calls v run (exact_in v.disk [] (part ∷ rest))
      → IsTidy calls v.disk
      → AreNames (part ∷ rest)
      → Agrees calls v
          (or_search calls part rest (with_metadata (last part rest) run))
          (walk calls v.disk [] part rest)
  lookup_exact-Agrees v part rest c (none, v1) (e, d, c1) t names =
      let (e1, d1, c2) = search_parts-Agrees v1 [] part rest c1 in
      (e1 ∙ ap (λ disk. walk calls disk [] part rest) d, d1 ∙ d, c2)
  lookup_exact-Agrees v part rest c (some found, v1) (e, d, c1) t names =
      elim (Option-cases (node v1.disk found)) [
        | inl absent ↦
            let (e1, d1, c2) = search_parts-Agrees v1 [] part rest c1 in
            rw absent (e1 ∙ ap (λ disk. walk calls disk [] part rest) d, d1 ∙ d, c2)
        | inr (n, is_there) ↦ rw is_there (
          sym (walk-exact_in v.disk [] part rest found n t names (sym e) (rw (← d) is_there)),
          d,
          c1,
        )
      ]

  -- In a vault whose tables are current and whose disk is tidy, looking up names gives the item
  -- or the error that following them through the stored folders gives; the disk stays as it was,
  -- and the tables stay current.
  pub lookup_parts-walk_parts :
      (v : Vault) (parts : List Text)
      → IsCoherent calls v
      → IsTidy calls v.disk
      → AreNames parts
      → Agrees calls v (lookup_parts calls parts v) (walk_parts calls v.disk parts)
  unfolding lookup_parts lookup_exact walk_parts
  lookup_parts-walk_parts v [] c t names = (refl, refl, c)
  lookup_parts-walk_parts v (part ∷ rest) c t names =
      lookup_exact-Agrees v part rest c (exact_path calls [] (part ∷ rest) v)
        (exact_path-Agrees v [] (part ∷ rest) c) t names
