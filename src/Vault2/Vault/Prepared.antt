-- ===== src/Vault2/Vault/Prepared.antt =====
-- Creating an item up to its stored name: `prepare` finds the folder, refuses a name that is taken,
-- and writes the file that a long name needs.
use desktop_folder_locker.Common.{
  Option, none, some, List, ◌≡◌, ◌≢◌, refl, ap, ◌∙◌, inl, inr, Option-cases,
}
use desktop_folder_locker.Common.Text.{Text}
use desktop_folder_locker.Vault2.Crypto.{Bytes}
use desktop_folder_locker.Vault2.Error.{Result, ok, Error, Action, pure, lift, ◌>>=◌, ◌>>◌, bind_ok}
use desktop_folder_locker.Vault2.Names.Defs.{sidecar_name}
use desktop_folder_locker.Vault2.Names.Entry.{sidecar-internal}
use desktop_folder_locker.Vault2.Vault.Maps.{StoredPath, text_eq, get}
use desktop_folder_locker.Vault2.Vault.Disk.{folder, Directory, Disk, node, node_in}
use desktop_folder_locker.Vault2.Vault.Folders.{NameCalls, Entry, Vault, read_iv}
use desktop_folder_locker.Vault2.Vault.Reading.{find}
use desktop_folder_locker.Vault2.Vault.Lookup.{parent}
use desktop_folder_locker.Vault2.Vault.Paths.{components}
use desktop_folder_locker.Vault2.Vault.Changes.{split_last, at_last, prepare_name, write_sidecar}
use desktop_folder_locker.Vault2.Vault.Creating.{prepare, prepare_new}
use desktop_folder_locker.Vault2.Vault.Walk.{
  find_in, parent_in, IsName, AreNames, IsTidy, IsCoherent,
}
use desktop_folder_locker.Vault2.Vault.Ivs.{HasIv, read_iv-HasIv}
use desktop_folder_locker.Vault2.Vault.Found.{find_later}
use desktop_folder_locker.Vault2.Vault.Parents.{
  and_then-eq_ok, parent-Agrees, parent_in-eq_ok, plan_name, plan_in, plan_new,
}
use desktop_folder_locker.Vault2.Vault.Written.{Prepared, write_sidecar_run}

pub pair_run : {R S : Type 0} (run : R × S) {r : R} → run.0 ≡ r → run ≡ (r, run.1)
pair_run run e = ap (λ x. (x, run.1)) e

-- A change of the item at a path is one in the folder of its last name.
pub at_last_run :
    {A : Type 0} (path : Text) (parts : List Text) (name : Text) (parents : List Text) (e : Error)
    (f : Text → List Text → Action Vault A) (v : Vault)
    → components path ≡ ok parts
    → split_last parts ≡ some (name, parents)
    → (lift (components path) >>= λ found. at_last e f (split_last found)) v ≡ f name parents v
at_last_run path parts name parents e f v taken_apart last_part =
    bind_ok (lift (components path)) (λ found. at_last e f (split_last found)) v
      (ap (λ r. (r, v)) taken_apart)
    ∙ ap (λ o. at_last e f o v) last_part

module _ (calls : NameCalls) where
  -- The new item has a free name in a folder that is there, and the folder is prepared for it.
  pub record Ready (v : Vault) (name encoded : Text) (at : StoredPath) (iv : Bytes)
      (run : Result (StoredPath × Text) × Vault) : Type 0 where
    pub vault : Vault
    pub disk : Disk
    pub items : Directory
    pub ran : run ≡ (ok (at, calls.entry_name encoded), record vault { disk = disk })
    pub same : vault.disk ≡ v.disk
    pub coherent : IsCoherent calls vault
    pub there : v.disk at ≡ some items
    pub has_iv : HasIv items iv
    pub encrypted : calls.encrypt_name iv name ≡ ok encoded
    pub free : find_in calls v.disk at iv name ≡ ok none
    pub absent : get (calls.entry_name encoded) items ≡ none
    pub no_folder : get (sidecar_name (calls.entry_name encoded)) items ≢ some folder
    pub prepared : Prepared v.disk disk at (calls.entry_name encoded) encoded items

  prepare_new_run :
      (w : Vault) (disk : Disk) (at : StoredPath) (iv : Bytes) (name encoded : Text)
      → calls.encrypt_name iv name ≡ ok encoded
      → write_sidecar at (calls.entry_name encoded) encoded w ≡ (ok tt, record w { disk = disk })
      → prepare_new calls at iv name none w
        ≡ (ok (at, calls.entry_name encoded), record w { disk = disk })
  unfolding prepare_name
  prepare_new_run w disk at iv name encoded encrypted written =
      let write_next : Text → Action Vault Text =
        λ code. write_sidecar at (calls.entry_name code) code >> pure (calls.entry_name code) in
      let named : prepare_name calls at iv name w
          ≡ (ok (calls.entry_name encoded), record w { disk = disk }) =
        bind_ok (lift (calls.encrypt_name iv name)) write_next w (ap (λ r. (r, w)) encrypted)
        ∙ bind_ok (write_sidecar at (calls.entry_name encoded) encoded)
            (λ _. pure (calls.entry_name encoded)) w written in
      bind_ok (prepare_name calls at iv name) (λ stored. pure (at, stored)) w named

  -- No bookkeeping file of a tidy folder is a folder.
  no_folder_in :
      (disk : Disk) (at : StoredPath) (name : Text) (items : Directory)
      → IsTidy calls disk
      → disk at ≡ some items
      → get (sidecar_name name) items ≢ some folder
  unfolding node node_in
  no_folder_in disk at name items t there e =
      t.books (sidecar_name name) at (sidecar-internal name)
        (ap (node_in (sidecar_name name)) there ∙ e)

  -- A tidy folder has nothing where a free name is stored.
  absent_of_free :
      (disk : Disk) (at : StoredPath) (iv name encoded : Text) (items : Directory)
      → IsTidy calls disk
      → IsName name
      → read_iv at disk ≡ ok iv
      → disk at ≡ some items
      → calls.encrypt_name iv name ≡ ok encoded
      → find_in calls disk at iv name ≡ ok none
      → get (calls.entry_name encoded) items ≡ none
  unfolding node node_in
  absent_of_free disk at iv name encoded items t is_name known there encrypted free =
      elim (Option-cases (get (calls.entry_name encoded) items)) [
        | inl e ↦ e
        | inr (n, e) ↦ absurd (
            cc (
              t.exact at iv name encoded n is_name known encrypted
                  (ap (node_in (calls.entry_name encoded)) there ∙ e),
              free,
            ))
      ]

  plan_name-eq_ok :
      (path : StoredPath) (iv : Bytes) (name : Text) (found : Option Entry) {at : StoredPath}
      {iv' : Bytes} {encoded : Text}
      → plan_name calls path iv name found ≡ ok (at, iv', encoded)
      → (found ≡ none) × (calls.encrypt_name iv name ≡ ok encoded) × (path ≡ at) × (iv ≡ iv')
  plan_name-eq_ok path iv name (some _) e = absurd (cc e)
  plan_name-eq_ok path iv name none e =
      let (code, encrypted, q) =
        and_then-eq_ok (calls.encrypt_name iv name) (λ x. ok (path, iv, x)) e in
      (refl, cc (encrypted, q), cc q, cc q)

  plan_new-eq_ok :
      (disk : Disk) (name : Text) (parents : List Text) {at : StoredPath} {iv : Bytes}
      {encoded : Text}
      → plan_new calls disk name parents ≡ ok (at, iv, encoded)
      → (parent_in calls disk parents ≡ ok (at, iv))
        × (find_in calls disk at iv name ≡ ok none)
        × (calls.encrypt_name iv name ≡ ok encoded)
  unfolding plan_new
  plan_new-eq_ok disk name parents {at} {iv} e =
      let ((path, i), there, q) =
        and_then-eq_ok (parent_in calls disk parents) (plan_in calls disk name) e in
      let (found, read, r) =
        and_then-eq_ok (find_in calls disk path i name) (plan_name calls path i name) q in
      let (is_none, encrypted, p, j) = plan_name-eq_ok path i name found r in
      (
        there ∙ ap (λ x. ok (x, i)) p ∙ ap (λ x. ok (at, x)) j,
        rw (← p) (rw (← j) (read ∙ ap ok is_none)),
        rw (← j) encrypted,
      )

  pub prepare-Ready :
      (v : Vault) (name : Text) (parents : List Text) (at : StoredPath) (iv : Bytes)
      (encoded : Text)
      → IsCoherent calls v
      → IsTidy calls v.disk
      → IsName name
      → AreNames parents
      → plan_new calls v.disk name parents ≡ ok (at, iv, encoded)
      → Ready v name encoded at iv (prepare calls name parents v)
  unfolding prepare
  prepare-Ready v name parents at iv encoded c t is_name are_names plan =
      let (there, free, encrypted) = plan_new-eq_ok v.disk name parents plan in
      let known = parent_in-eq_ok calls v.disk parents there in
      let (items, here, has) = read_iv-HasIv at v.disk iv known in
      let (e1, d1, c1) = parent-Agrees calls v parents c t are_names in
      let v1 = (parent calls parents v).1 in
      let (e2, d2, c2) = find_later calls v v1 at iv name d1 c1 known in
      let w = (find calls at iv name v1).1 in
      let same : w.disk ≡ v.disk = d2 ∙ d1 in
      let no_folder = no_folder_in v.disk at (calls.entry_name encoded) items t here in
      let (disk, written, prepared) =
        write_sidecar_run w at (calls.entry_name encoded) encoded items (ap (λ d. d at) same ∙ here)
          no_folder in
      record {
        vault = w;
        disk = disk;
        items = items;
        ran =
            bind_ok (parent calls parents)
              (λ p. find calls p.0 p.1 name >>= prepare_new calls p.0 p.1 name) v
              (pair_run (parent calls parents v) (e1 ∙ there))
            ∙ bind_ok (find calls at iv name) (prepare_new calls at iv name) v1
                (pair_run (find calls at iv name v1) (e2 ∙ free))
            ∙ prepare_new_run w disk at iv name encoded encrypted written;
        same = same;
        coherent = c2;
        there = here;
        has_iv = has;
        encrypted = encrypted;
        free = free;
        absent = absent_of_free v.disk at iv name encoded items t is_name known here encrypted free;
        no_folder = no_folder;
        prepared = rw (← same) prepared;
      }
