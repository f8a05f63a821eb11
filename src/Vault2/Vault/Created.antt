-- ===== src/Vault2/Vault/Created.antt =====
-- `create_file` does what is planned for a new item of the stored folders.
use desktop_folder_locker.Common.{
  ℕ, none, some, List, [], ◌∷◌, ◌≡◌, refl, sym, ap, ◌∙◌, subst, false, ◌&&◌, inl, inr, Bool-cases,
  if◌then◌else◌, eq_bytes,
}
use desktop_folder_locker.Common.Text.{Text}
use desktop_folder_locker.Vault2.Crypto.{Bytes}
use desktop_folder_locker.Vault2.Error.{
  Result, ok, Error, pure, modify, continue, ◌>>=◌, ◌>>◌, bind_ok,
}
use desktop_folder_locker.Vault2.Vault.Maps.{
  StoredPath, eq_path, eq_path_iff, eq_path_sym, text_eq, get, insert,
}
use desktop_folder_locker.Vault2.Vault.Disk.{Node, file, Disk, node, put, mapped}
use desktop_folder_locker.Vault2.Vault.Folders.{NameCalls, Entry, Vault, read_iv}
use desktop_folder_locker.Vault2.Vault.Changes.{split_last, remember, new_file, index_insert}
use desktop_folder_locker.Vault2.Vault.Creating.{prepare, create_prepared, create_at, create_file}
use desktop_folder_locker.Vault2.Vault.Paths.{components}
use desktop_folder_locker.Vault2.Vault.Walk.{find_in, IsName, AreNames, IsTidy, IsCoherent}
use desktop_folder_locker.Vault2.Vault.Ivs.{read_iv-HasIv}
use desktop_folder_locker.Vault2.Vault.Laws.{NamesAreLawful}
use desktop_folder_locker.Vault2.Vault.Added.{beside, get_other}
use desktop_folder_locker.Vault2.Vault.Grown.{
  Grown, find_in-ok, find_in_same, find_in_grown, kept, item_there,
}
use desktop_folder_locker.Vault2.Vault.Exact.{IsTidy-Grown}
use desktop_folder_locker.Vault2.Vault.Kept.{IsCoherent-Grown, change_index-disk}
use desktop_folder_locker.Vault2.Vault.Written.{extra_of, put_here, put_there, create_new_run}
use desktop_folder_locker.Vault2.Vault.Entered.{grown}
use desktop_folder_locker.Vault2.Vault.Parents.{plan_new}
use desktop_folder_locker.Vault2.Vault.Prepared.{at_last_run, Ready, prepare-Ready}

module _ (calls : NameCalls) where
  module _ {disk disk' : Disk} {path : StoredPath} {iv : Bytes} {entry : Entry} {n : Node}
      (g : Grown calls disk disk' path iv entry n) where
    find_here :
        (name : Text)
        → find_in calls disk' path iv name ≡ (
            if eq_bytes (calls.fold entry.name) (calls.fold name)
            then ok (some entry)
            else find_in calls disk path iv name)
    find_here name =
        let was = find_in-ok calls disk path g.items iv name g.before in
        elim (Bool-cases (eq_bytes (calls.fold entry.name) (calls.fold name))) [
          | inl same ↦ find_in_grown calls g name ∙ rw same refl
          | inr other ↦ find_in_grown calls g name ∙ rw other (sym was)
        ]

    iv_before : (i : Bytes) → read_iv path disk ≡ ok i → i ≡ iv
    iv_before i known =
        let (items, there, has) = read_iv-HasIv path disk i known in
        let at : items ≡ g.items = cc (there, g.before) in cc (rw at at has.0, g.has_iv.0)

    -- What any folder has under a name once an item was added to one of them.
    pub find_everywhere :
        IsTidy calls disk
        → (p : StoredPath) (i name : Text) → read_iv p disk ≡ ok i
        → find_in calls disk' p i name ≡ (
            if eq_path path p && eq_bytes (calls.fold entry.name) (calls.fold name)
            then ok (some entry)
            else find_in calls disk p i name)
    find_everywhere t p i name known = elim (Bool-cases (eq_path path p)) [
      | inr other ↦
          let (items, there, _) = read_iv-HasIv p disk i known in
          rw other (find_in_same calls disk disk' p i name (kept calls g t p items other there))
      | inl same ↦
          let q = (eq_path_iff path p).0 same in
          let j = iv_before i (ap (λ x. read_iv x disk) q ∙ known) in
          rw same (rw (← q) (rw j (find_here name)))
    ]

  module _ (v : Vault) (name encoded : Text) (at : StoredPath) (iv : Bytes)
      {run : Result (StoredPath × Text) × Vault} (r : Ready calls v name encoded at iv run) where
    abbrev stored : Text
    stored = calls.entry_name encoded

    abbrev new_disk : Disk
    new_disk = put stored (file []) at (beside (extra_of stored encoded) stored r.items) r.disk

    abbrev created : Vault
    created = record r.vault { disk = new_disk }

    abbrev opened : Vault
    opened = remember (stored ∷ at) created.next (new_file (stored ∷ at) created).1

    abbrev finished : Vault
    finished = index_insert calls at name stored false opened

    create_prepared_run :
        get stored (beside (extra_of stored encoded) stored r.items) ≡ none
        → create_prepared calls name at stored (record r.vault { disk = r.disk }) ≡ (
          ok (record { stored_path = stored ∷ at; name = name; is_dir = false }, created.next),
          finished,
        )
    unfolding create_prepared new_file
    create_prepared_run absent =
        let e =
          create_new_run stored at r.disk (beside (extra_of stored encoded) stored r.items)
            r.prepared.here absent in
        ap
          (continue λ _. new_file (stored ∷ at) >>= λ f.
            modify (remember (stored ∷ at) f)
            >> (modify (index_insert calls at name stored false)
                >> pure (record { stored_path = stored ∷ at; name = name; is_dir = false }, f)))
          (ap (λ x. (mapped x.0, record r.vault { disk = x.1 })) e)

    abbrev entry : Entry
    entry = record { name = name; stored = stored; is_dir = false }

    created-Grown :
        NamesAreLawful calls → IsName name → Grown calls v.disk new_disk at iv entry (file [])
    created-Grown L is_name =
        let items = beside (extra_of stored encoded) stored r.items in
        grown calls L iv name encoded is_name r.encrypted r.items r.no_folder r.absent (file [])
          r.there (put_here stored (file []) at items r.disk) r.has_iv
          λ p other.
            let other' = eq_path_sym at p other in
            inl (put_there stored (file []) at p items r.disk other' ∙ r.prepared.there p other')

    finished-disk : finished.disk ≡ new_disk
    unfolding index_insert remember new_file
    finished-disk = change_index-disk opened at (insert (calls.fold name) entry)

    finished-IsCoherent :
        NamesAreLawful calls → IsName name → IsTidy calls v.disk → IsCoherent calls finished
    unfolding index_insert remember new_file
    finished-IsCoherent L is_name t =
        IsCoherent-Grown calls (created-Grown L is_name) t r.vault opened r.same r.coherent refl
          refl

    finished-IsTidy :
        (L : NamesAreLawful calls) → IsName name → IsTidy calls v.disk → IsTidy calls finished.disk
    finished-IsTidy L is_name t = subst (IsTidy calls) (sym finished-disk) (
        IsTidy-Grown calls (created-Grown L is_name) t L encoded is_name r.encrypted refl refl
          r.free)

    absent_beside :
        NamesAreLawful calls → get stored (beside (extra_of stored encoded) stored r.items) ≡ none
    absent_beside L =
        get_other (extra_of stored encoded) stored stored r.items
          (L.plain iv name encoded r.encrypted)
        ∙ r.absent

  module _ (L : NamesAreLawful calls) (v : Vault) (path : Text) (parts : List Text) (name : Text)
      (parents : List Text) (c : IsCoherent calls v) (t : IsTidy calls v.disk)
      (taken_apart : components path ≡ ok parts)
      (last_part : split_last parts ≡ some (name, parents)) (is_name : IsName name)
      (are_names : AreNames parents) where
    create_file_at : create_file calls path v ≡ create_at calls name parents v
    unfolding create_file
    create_file_at =
        at_last_run path parts name parents Error.already_exists (create_at calls) v taken_apart
          last_part

    -- Where the names decrypt to themselves, their entries are no bookkeeping and no temporary items,
    -- and no two names of a folder share an entry (which `names-NamesAreLawful` shows of names.rs): a
    -- file that is planned is created, in a vault whose tables are current and whose disk is tidy,
    -- and is empty. Each folder that can be read then has under each name what it had, but for the
    -- folder of the file, which has the file under its name in any case. The tables stay current and
    -- the disk tidy.
    pub create_file-plan_new :
        (at : StoredPath) (iv encoded : Text) (p : StoredPath) (i other : Text)
        → plan_new calls v.disk name parents ≡ ok (at, iv, encoded)
        → read_iv p v.disk ≡ ok i
        → let run = create_file calls path v in
          let stored = calls.entry_name encoded in
          (f : ℕ) × (run.0
            ≡ ok (record { stored_path = stored ∷ at; name = name; is_dir = false }, f))
          × (node run.1.disk (stored ∷ at) ≡ some (file []))
          × (find_in calls run.1.disk p i other ≡ (
              if eq_path at p && eq_bytes (calls.fold name) (calls.fold other)
              then ok (some (record { name = name; stored = stored; is_dir = false }))
              else find_in calls v.disk p i other))
          × IsCoherent calls run.1
          × IsTidy calls run.1.disk
    unfolding create_at
    create_file-plan_new at iv encoded p i other plan known =
        let r = prepare-Ready calls v name parents at iv encoded c t is_name are_names plan in
        let ran : create_file calls path v ≡ (
          ok (
            record { stored_path = calls.entry_name encoded ∷ at; name = name; is_dir = false },
            r.vault.next,
          ),
          finished v name encoded at iv r,
        ) =
          create_file_at
          ∙ bind_ok (prepare calls name parents) (λ s. create_prepared calls name s.0 s.1) v r.ran
          ∙ create_prepared_run v name encoded at iv r (absent_beside v name encoded at iv r L) in
        let g = created-Grown v name encoded at iv r L is_name in
        let d = finished-disk v name encoded at iv r in
        rw ran (
          r.vault.next,
          refl,
          rw d (item_there calls g t (L.plain iv name encoded r.encrypted)),
          rw d (find_everywhere g t p i other known),
          finished-IsCoherent v name encoded at iv r L is_name t,
          finished-IsTidy v name encoded at iv r L is_name t,
        )
