-- ===== src/Vault2/Vault/Parents.antt =====
-- The folder that a change works in, and what is planned for a new item, said of the stored
-- folders alone.
use desktop_folder_locker.Common.{Option, none, some, List, ◌≡◌, refl, ap, ◌∙◌, Bool, true, false}
use desktop_folder_locker.Common.Text.{Text}
use desktop_folder_locker.Vault2.Crypto.{Bytes}
use desktop_folder_locker.Vault2.Error.{Result, ok, err, Error, and_then, pure}
use desktop_folder_locker.Vault2.Vault.Maps.{StoredPath}
use desktop_folder_locker.Vault2.Vault.Disk.{Disk}
use desktop_folder_locker.Vault2.Vault.Folders.{NameCalls, Entry, Item, Vault, read_iv, dir}
use desktop_folder_locker.Vault2.Vault.Lookup.{lookup_parts, dir_if, as_dir, parent}
use desktop_folder_locker.Vault2.Vault.Walk.{
  find_in, walk_parts, dir_at, dir_of, parent_in, AreNames, IsTidy, IsCoherent,
}
use desktop_folder_locker.Vault2.Vault.Agreement.{Agrees, Agrees-bind, dir-Agrees}
use desktop_folder_locker.Vault2.Vault.Found.{lookup_parts-walk_parts}

-- Inversion of a successful step.
pub and_then-eq_ok :
    {A B : Type 0} (r : Result A) (f : A → Result B) {b : B}
    → and_then r f ≡ ok b
    → (a : A) × (r ≡ ok a) × (f a ≡ ok b)
and_then-eq_ok (ok a) f h = (a, refl, h)
and_then-eq_ok (err e) f h = absurd (cc h)

dir_at-eq_ok :
    (disk : Disk) (path : StoredPath) (is_dir : Bool) {at : StoredPath} {iv : Bytes}
    → dir_at disk path is_dir ≡ ok (at, iv)
    → read_iv at disk ≡ ok iv
dir_at-eq_ok disk path false e = absurd (cc e)
dir_at-eq_ok disk path true {at} {iv} e =
    let (i, known, q) = and_then-eq_ok (read_iv path disk) (λ j. ok (path, j)) e in
    let p : path ≡ at = cc q in let j : i ≡ iv = cc q in rw (← p) (rw (← j) known)

dir_of-eq_ok :
    (disk : Disk) (found : Option Item) {at : StoredPath} {iv : Bytes}
    → dir_of disk found ≡ ok (at, iv)
    → read_iv at disk ≡ ok iv
dir_of-eq_ok disk none e = absurd (cc e)
dir_of-eq_ok disk (some item) e = dir_at-eq_ok disk item.stored_path item.is_dir e

module _ (calls : NameCalls) where
  -- The folder at some names can be read.
  pub parent_in-eq_ok :
      (disk : Disk) (parts : List Text) {at : StoredPath} {iv : Bytes}
      → parent_in calls disk parts ≡ ok (at, iv)
      → read_iv at disk ≡ ok iv
  unfolding parent_in
  parent_in-eq_ok disk parts e =
      let (found, _, q) = and_then-eq_ok (walk_parts calls disk parts) (dir_of disk) e in
      dir_of-eq_ok disk found q

  abbrev pub plan_name :
      StoredPath → Bytes → Text → Option Entry → Result (StoredPath × Bytes × Text)
  plan_name path iv name (some _) = err Error.already_exists
  plan_name path iv name none =
      and_then (calls.encrypt_name iv name) λ encoded. ok (path, iv, encoded)

  abbrev pub plan_in : Disk → Text → StoredPath × Bytes → Result (StoredPath × Bytes × Text)
  plan_in disk name (path, iv) = and_then (find_in calls disk path iv name) (plan_name path iv name)

  -- The folder of a new item, its IV, and the name that the new item's name is encrypted to.
  unfoldable pub plan_new : Disk → Text → List Text → Result (StoredPath × Bytes × Text)
  plan_new disk name parents = and_then (parent_in calls disk parents) (plan_in disk name)

  dir_if-Agrees :
      (v v1 : Vault) (path : StoredPath) (is_dir : Bool)
      → v1.disk ≡ v.disk
      → IsCoherent calls v1
      → Agrees calls v1 (dir_if path is_dir v1) (dir_at v.disk path is_dir)
  dir_if-Agrees v v1 path false d c = (refl, refl, c)
  dir_if-Agrees v v1 path true d c =
      let (e, d1, c1) = dir-Agrees calls v1 path c in
      Agrees-bind calls v1 (dir path v1) (λ iv. pure (path, iv)) (read_iv path v.disk)
        (λ iv. ok (path, iv)) (e ∙ ap (read_iv path) d, d1, c1) λ iv v2 _ d2 c2. (refl, refl, c2)

  as_dir-Agrees :
      (v v1 : Vault) (found : Option Item)
      → v1.disk ≡ v.disk
      → IsCoherent calls v1
      → Agrees calls v1 (as_dir found v1) (dir_of v.disk found)
  as_dir-Agrees v v1 none d c = (refl, refl, c)
  as_dir-Agrees v v1 (some item) d c = dir_if-Agrees v v1 item.stored_path item.is_dir d c

  pub parent-Agrees :
      (v : Vault) (parts : List Text)
      → IsCoherent calls v
      → IsTidy calls v.disk
      → AreNames parts
      → Agrees calls v (parent calls parts v) (parent_in calls v.disk parts)
  unfolding parent parent_in
  parent-Agrees v parts c t names =
      Agrees-bind calls v (lookup_parts calls parts v) as_dir (walk_parts calls v.disk parts)
        (dir_of v.disk) (lookup_parts-walk_parts calls v parts c t names)
        λ found v1 _ d c1. as_dir-Agrees v v1 found d c1
