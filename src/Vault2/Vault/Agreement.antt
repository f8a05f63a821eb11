-- ===== src/Vault2/Vault/Agreement.antt =====
-- Calls that only read the vault: the result is what the stored folders say, the disk stays, and
-- what was added to the tables is current.
use desktop_folder_locker.Common.{
  none, some, List, ◌≡◌, refl, sym, ap, ◌∙◌, inl, inr, arith, Bool-cases, Option-cases,
}
use desktop_folder_locker.Common.Text.{Text}
use desktop_folder_locker.Vault2.Crypto.{Bytes}
use desktop_folder_locker.Vault2.Error.{
  and_then, Result, ok, err, Error, Action, continue, Result-cases,
}
use desktop_folder_locker.Vault2.Vault.Maps.{
  StoredPath, text_eq, path_eq, eq_path, eq_path_iff, eq_path_refl, get, insert, get-insert,
}
use desktop_folder_locker.Vault2.Vault.Disk.{Node}
use desktop_folder_locker.Vault2.Vault.Folders.{
  NameCalls, Entry, Index, DirState, Vault, read_iv, dir, index_at, set_index,
}
use desktop_folder_locker.Vault2.Vault.Reading.{read_entries, index_of, find}
use desktop_folder_locker.Vault2.Vault.Walk.{find_in, IsCurrent, IsCoherent}

module _ (calls : NameCalls) where
  -- A call at `v` that returns what is given, and leaves a vault that answers as `v`.
  abbrev pub Agrees : {R : Type 0} → Vault → R × Vault → R → Type 0
  Agrees v run r = (run.0 ≡ r) × (run.1.disk ≡ v.disk) × IsCoherent calls run.1

  -- A step that agrees is followed by one that agrees wherever the first may lead.
  pub Agrees-bind :
      {A B : Type 0} (v : Vault) (run : Result A × Vault) (f : A → Action Vault B) (r : Result A)
      (g : A → Result B)
      → Agrees v run r
      → ((a : A) (v1 : Vault)
          → r ≡ ok a
          → v1.disk ≡ v.disk
          → IsCoherent calls v1
          → Agrees v1 (f a v1) (g a))
      → Agrees v (continue f run) (and_then r g)
  Agrees-bind v (ok a, v1) f r g h next =
      let (e, d, c) = next a v1 (sym h.0) h.1 h.2 in (e ∙ ap (λ s. and_then s g) h.0, d ∙ h.1, c)
  Agrees-bind v (err x, v1) f r g h next = (ap (λ s. and_then s g) h.0, h.1, h.2)

  -- A folder that is current may be put in the table.
  insert-IsCoherent :
      (v : Vault) (path : StoredPath) (state : DirState)
      → IsCoherent calls v
      → IsCurrent calls v.disk path state
      → IsCoherent calls (record v { dirs = insert path state v.dirs })
  insert-IsCoherent v path state c current other found h =
      let e = sym (get-insert path other state v.dirs) ∙ h in
      elim (Bool-cases (eq_path path other)) [
        | inl same ↦
            let eq : state ≡ found = ground (arith, e, same) in
            rw (sym ((eq_path_iff path other).0 same), sym eq) current
        | inr differs ↦ c other found (ground (arith, e, differs))
      ]

  dir_known :
      (v : Vault) (path : StoredPath) (state : DirState)
      → get path v.dirs ≡ some state
      → dir path v ≡ (ok state.iv, v)
  unfolding dir
  dir_known v path state e = rw (e, dir) refl

  dir_refused :
      (v : Vault) (path : StoredPath) (x : Error)
      → get path v.dirs ≡ none
      → read_iv path v.disk ≡ err x
      → dir path v ≡ (err x, v)
  unfolding dir
  dir_refused v path x e f = rw (e, dir) (rw (f, dir) refl)

  dir_new :
      (v : Vault) (path : StoredPath) (iv : Bytes)
      → get path v.dirs ≡ none
      → read_iv path v.disk ≡ ok iv
      → dir path v
        ≡ (ok iv, record v { dirs = insert path (record { iv = iv; index = none }) v.dirs })
  unfolding dir
  dir_new v path iv e f = rw (e, dir) (rw (f, dir) refl)

  pub dir-Agrees :
      (v : Vault) (path : StoredPath)
      → IsCoherent calls v
      → Agrees v (dir path v) (read_iv path v.disk)
  dir-Agrees v path c = elim (Option-cases (get path v.dirs)) [
    | inr (state, e) ↦ rw (dir_known v path state e) (sym (c path state e).iv, refl, c)
    | inl e ↦ elim (Result-cases (read_iv path v.disk)) [
      | inr (x, f) ↦ rw (dir_refused v path x e f) (sym f, refl, c)
      | inl (iv, f) ↦ rw (dir_new v path iv e f) (
        sym f,
        refl,
        insert-IsCoherent v path (record { iv = iv; index = none }) c
            (record { iv = f; index = λ index h. absurd (cc h) }),
      )
    ]
  ]

  -- The folder is in the table after a call of `dir`.
  pub dir_kept :
      (v : Vault) (path : StoredPath) (iv : Bytes)
      → read_iv path v.disk ≡ ok iv
      → (state : DirState) × (get path (dir path v).1.dirs ≡ some state)
  dir_kept v path iv f = elim (Option-cases (get path v.dirs)) [
    | inr (state, e) ↦ (state, rw (dir_known v path state e) e)
    | inl e ↦ (
      record { iv = iv; index = none },
      rw (dir_new v path iv e f) (
          get-insert path path (record { iv = iv; index = none }) v.dirs
          ∙ rw (eq_path_refl path) refl),
    )
  ]

  find_built :
      (v : Vault) (path : StoredPath) (iv : Bytes) (name : Text) (index : Index)
      → index_at path v ≡ some index
      → find calls path iv name v ≡ (ok (get (calls.fold name) index), v)
  unfolding find
  find_built v path iv name index e = rw (e, find) refl

  find_refused :
      (v : Vault) (path : StoredPath) (iv : Bytes) (name : Text) (x : Error)
      → index_at path v ≡ none
      → read_entries calls path iv v.disk ≡ err x
      → find calls path iv name v ≡ (err x, v)
  unfolding find
  find_refused v path iv name x e f = rw (e, find) (rw (f, find) refl)

  find_new :
      (v : Vault) (path : StoredPath) (iv : Bytes) (name : Text) (entries : List (Entry × Node))
      → index_at path v ≡ none
      → read_entries calls path iv v.disk ≡ ok entries
      → find calls path iv name v ≡ (
        ok (get (calls.fold name) (index_of calls entries)),
        set_index path (index_of calls entries) v,
      )
  unfolding find
  find_new v path iv name entries e f = rw (e, find) (rw (f, find) refl)

  index_at-some :
      (v : Vault) (path : StoredPath) (index : Index)
      → index_at path v ≡ some index
      → (state : DirState) × (get path v.dirs ≡ some state) × (state.index ≡ some index)
  unfolding index_at
  index_at-some v path index h = elim (Option-cases (get path v.dirs)) [
    | inl e ↦ absurd (cc (rw (e, index_at) at h))
    | inr (state, e) ↦ (state, e, rw (e, index_at) at h)
  ]

  set_index-IsCoherent :
      (v : Vault) (path : StoredPath) (iv : Bytes) (entries : List (Entry × Node))
      → IsCoherent calls v
      → read_iv path v.disk ≡ ok iv
      → read_entries calls path iv v.disk ≡ ok entries
      → ((set_index path (index_of calls entries) v).disk ≡ v.disk)
        × IsCoherent calls (set_index path (index_of calls entries) v)
  unfolding set_index
  set_index-IsCoherent v path iv entries c known read = elim (Option-cases (get path v.dirs)) [
    | inl e ↦ rw (e, set_index) (refl, c)
    | inr (state, e) ↦
        let same : iv ≡ state.iv = cc ((c path state e).iv, known) in
        rw (e, set_index)
          (
            refl,
            insert-IsCoherent v path
                (record { iv = state.iv; index = some (index_of calls entries) }) c
                (record {
                  iv = (c path state e).iv;
                  index = λ index h. (
                    entries,
                    rw (← same) read,
                    λ key. let i : index_of calls entries ≡ index = cc h in rw i refl,
                  );
                }),
          )
  ]

  -- `find` gives what the stored folder has under the name.
  pub find-Agrees :
      (v : Vault) (path : StoredPath) (iv : Bytes) (name : Text)
      → IsCoherent calls v
      → read_iv path v.disk ≡ ok iv
      → Agrees v (find calls path iv name v) (find_in calls v.disk path iv name)
  unfolding find_in
  find-Agrees v path iv name c known = elim (Option-cases (index_at path v)) [
    | inr (index, e) ↦
        let (state, f, g) = index_at-some v path index e in
        let current = c path state f in
        let same : state.iv ≡ iv = cc (current.iv, known) in
        let (entries, read, agree) = current.index index g in
        rw (find_built v path iv name index e)
          (rw (← same) (rw read (ap ok (agree (calls.fold name)))), refl, c)
    | inl e ↦ elim (Result-cases (read_entries calls path iv v.disk)) [
      | inr (x, f) ↦ rw (find_refused v path iv name x e f) (rw f refl, refl, c)
      | inl (entries, f) ↦
          let (d, c') = set_index-IsCoherent v path iv entries c known f in
          rw (find_new v path iv name entries e f) (rw f refl, d, c')
    ]
  ]
