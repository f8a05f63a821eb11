-- ===== src/Vault2/Vault/Refused.antt =====
-- A new item that can't be planned is refused with the error of the plan.
use desktop_folder_locker.Common.{Option, none, some, List, ◌≡◌, refl, ap, ◌∙◌, inl, inr}
use desktop_folder_locker.Common.Text.{Text}
use desktop_folder_locker.Vault2.Crypto.{Bytes}
use desktop_folder_locker.Vault2.Error.{
  Result, ok, err, Error, Action, pure, lift, ◌>>=◌, ◌>>◌, bind_ok, bind_err, Result-cases,
}
use desktop_folder_locker.Vault2.Vault.Maps.{StoredPath}
use desktop_folder_locker.Vault2.Vault.Folders.{NameCalls, Entry, Vault}
use desktop_folder_locker.Vault2.Vault.Reading.{find}
use desktop_folder_locker.Vault2.Vault.Lookup.{parent}
use desktop_folder_locker.Vault2.Vault.Paths.{components}
use desktop_folder_locker.Vault2.Vault.Changes.{split_last, prepare_name, write_sidecar}
use desktop_folder_locker.Vault2.Vault.Creating.{
  create_prepared, create_at, create_file, create_dir_prepared, create_dir_at, create_dir, prepare,
  prepare_new,
}
use desktop_folder_locker.Vault2.Vault.Walk.{find_in, parent_in, AreNames, IsTidy, IsCoherent}
use desktop_folder_locker.Vault2.Vault.Agreement.{Agrees}
use desktop_folder_locker.Vault2.Vault.Found.{find_later}
use desktop_folder_locker.Vault2.Vault.Parents.{
  parent-Agrees, parent_in-eq_ok, plan_name, plan_in, plan_new,
}
use desktop_folder_locker.Vault2.Vault.Prepared.{pair_run, at_last_run}

err_inj : {A : Type 0} {r : Result A} {x e : Error} → r ≡ err x → r ≡ err e → x ≡ e
err_inj p q = cc (p, q)

abbrev to_pair : StoredPath → Text → Action Vault (StoredPath × Text)
to_pair at stored = pure (at, stored)

module _ (calls : NameCalls) where
  prepare_new_refused :
      (v w : Vault) (at : StoredPath) (iv : Bytes) (name : Text) (found : Option Entry) (e : Error)
      → w.disk ≡ v.disk
      → IsCoherent calls w
      → plan_name calls at iv name found ≡ err e
      → Agrees calls v (prepare_new calls at iv name found w) (err e)
  unfolding prepare_name
  prepare_new_refused v w at iv name (some _) e d c plan = (ap err (err_inj refl plan), d, c)
  prepare_new_refused v w at iv name none e d c plan =
      elim (Result-cases (calls.encrypt_name iv name)) [
        | inl (encoded, f) ↦ absurd (cc (rw f at plan))
        | inr (x, f) ↦
            let write_next : Text → Action Vault Text = λ code.
              write_sidecar at (calls.entry_name code) code >> pure (calls.entry_name code) in
            let named : prepare_name calls at iv name w ≡ (err x, w) =
              bind_err (lift (calls.encrypt_name iv name)) write_next w (ap (λ r. (r, w)) f) in
            rw (bind_err (prepare_name calls at iv name) (to_pair at) w named)
              (ap err (err_inj refl (rw f at plan)), d, c)
      ]

  pub prepare_refused :
      (v : Vault) (name : Text) (parents : List Text) (e : Error)
      → IsCoherent calls v
      → IsTidy calls v.disk
      → AreNames parents
      → plan_new calls v.disk name parents ≡ err e
      → Agrees calls v (prepare calls name parents v) (err e)
  unfolding prepare plan_new
  prepare_refused v name parents e c t are_names plan =
      let (e1, d1, c1) = parent-Agrees calls v parents c t are_names in
      let v1 = (parent calls parents v).1 in
      let next : StoredPath × Bytes → Action Vault (StoredPath × Text) =
        λ p. find calls p.0 p.1 name >>= prepare_new calls p.0 p.1 name in
      elim (Result-cases (parent_in calls v.disk parents)) [
        | inr (x, f) ↦
            rw (bind_err (parent calls parents) next v (pair_run (parent calls parents v) (e1 ∙ f)))
              (ap err (err_inj refl (rw f at plan)), d1, c1)
        | inl ((at, iv), f) ↦
            let known = parent_in-eq_ok calls v.disk parents f in
            let (e2, d2, c2) = find_later calls v v1 at iv name d1 c1 known in
            let w = (find calls at iv name v1).1 in
            let plan' : plan_in calls v.disk name (at, iv) ≡ err e = rw f at plan in
            rw (bind_ok (parent calls parents) next v (pair_run (parent calls parents v) (e1 ∙ f)))
              (elim (Result-cases (find_in calls v.disk at iv name)) [
                | inr (x, h) ↦
                    rw
                      (bind_err (find calls at iv name) (prepare_new calls at iv name) v1
                        (pair_run (find calls at iv name v1) (e2 ∙ h)))
                      (ap err (err_inj refl (rw h at plan')), d2 ∙ d1, c2)
                | inl (found, h) ↦
                    rw
                      (bind_ok (find calls at iv name) (prepare_new calls at iv name) v1
                        (pair_run (find calls at iv name v1) (e2 ∙ h)))
                      (prepare_new_refused v w at iv name found e (d2 ∙ d1) c2 (rw h at plan'))
              ])
      ]

  -- What can't be prepared fails.
  refused_after :
      {A : Type 0} (v : Vault) (name : Text) (parents : List Text) (e : Error)
      (f : StoredPath × Text → Action Vault A)
      → Agrees calls v (prepare calls name parents v) (err e)
      → Agrees calls v ((prepare calls name parents >>= f) v) (err e)
  refused_after v name parents e f (r, d, c) =
      rw (bind_err (prepare calls name parents) f v (pair_run (prepare calls name parents v) r))
        (refl, d, c)

  -- A file or folder whose creation can't be planned, since a folder on the way is missing or no
  -- folder, the name is taken in any case, or it can't be encrypted, is refused with the error that
  -- says so. The disk stays as it was, and the tables stay current.
  pub create_file-create_dir-refused :
      (v : Vault) (path : Text) (parts : List Text) (name : Text) (parents : List Text)
      (iv temp : Text) (e : Error)
      → IsCoherent calls v
      → IsTidy calls v.disk
      → components path ≡ ok parts
      → split_last parts ≡ some (name, parents)
      → AreNames parents
      → plan_new calls v.disk name parents ≡ err e
      → Agrees calls v (create_file calls path v) (err e)
        × Agrees calls v (create_dir calls iv temp path v) (err e)
  unfolding create_file create_at create_dir create_dir_at
  create_file-create_dir-refused v path parts name parents iv temp e c t taken last are_names plan =
      let prepared = prepare_refused v name parents e c t are_names plan in
      (
        rw (at_last_run path parts name parents Error.already_exists (create_at calls) v taken last)
            (refused_after v name parents e (λ s. create_prepared calls name s.0 s.1) prepared),
        rw
            (at_last_run path parts name parents Error.already_exists (create_dir_at calls iv temp)
              v taken last)
            (refused_after v name parents e (λ s. create_dir_prepared calls iv temp name s.0 s.1)
              prepared),
      )
