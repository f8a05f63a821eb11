-- ===== src/Vault2/Vault/Written.antt =====
-- The calls of `std::fs` that add an item to a folder, where they succeed.
use desktop_folder_locker.Common.{
  Option, none, some, [], ◌∷◌, ◌≡◌, ◌≢◌, refl, false, inl, inr, Bool-cases, Option-cases,
  if◌then◌else◌,
}
use desktop_folder_locker.Common.Text.{Text}
use desktop_folder_locker.Vault2.Crypto.{Bytes}
use desktop_folder_locker.Vault2.Error.{ok}
use desktop_folder_locker.Vault2.Names.Defs.{is_long_entry, sidecar_name}
use desktop_folder_locker.Vault2.Vault.Maps.{
  StoredPath, eq_path, eq_path_refl, text_eq, get, insert,
}
use desktop_folder_locker.Vault2.Vault.Disk.{
  Node, file, folder, Directory, Disk, put, write, create_new, done,
}
use desktop_folder_locker.Vault2.Vault.Folders.{Vault}
use desktop_folder_locker.Vault2.Vault.Changes.{write_sidecar}
use desktop_folder_locker.Vault2.Vault.Added.{beside}

-- The folder that was changed, and another one.
pub put_here :
    (name : Text) (n : Node) (path : StoredPath) (items : Directory) (disk : Disk)
    → put name n path items disk path ≡ some (insert name n items)
unfolding put
put_here name n path items disk = rw (eq_path_refl path) refl

pub put_there :
    (name : Text) (n : Node) (path p : StoredPath) (items : Directory) (disk : Disk)
    → eq_path p path ≡ false
    → put name n path items disk p ≡ disk p
unfolding put
put_there name n path p items disk other = rw other refl

write_new :
    (name : Text) (path : StoredPath) (bytes : Bytes) (disk : Disk) (items : Directory)
    → disk path ≡ some items
    → get name items ≡ none
    → write (name ∷ path) bytes disk ≡ (done tt, put name (file bytes) path items disk)
unfolding write
write_new name path bytes disk items there absent = rw (there, write) (rw (absent, write) refl)

write_over :
    (name : Text) (path : StoredPath) (bytes old : Bytes) (disk : Disk) (items : Directory)
    → disk path ≡ some items
    → get name items ≡ some (file old)
    → write (name ∷ path) bytes disk ≡ (done tt, put name (file bytes) path items disk)
unfolding write
write_over name path bytes old disk items there has = rw (there, write) (rw (has, write) refl)

pub write_run :
    (name : Text) (path : StoredPath) (bytes : Bytes) (disk : Disk) (items : Directory)
    → disk path ≡ some items
    → get name items ≢ some folder
    → write (name ∷ path) bytes disk ≡ (done tt, put name (file bytes) path items disk)
write_run name path bytes disk items there no_folder = elim (Option-cases (get name items)) [
  | inl absent ↦ write_new name path bytes disk items there absent
  | inr (file old, has) ↦ write_over name path bytes old disk items there has
  | inr (folder, has) ↦ absurd (no_folder has)
]

pub create_new_run :
    (name : Text) (path : StoredPath) (disk : Disk) (items : Directory)
    → disk path ≡ some items
    → get name items ≡ none
    → create_new (name ∷ path) disk ≡ (done tt, put name (file []) path items disk)
unfolding create_new
create_new_run name path disk items there absent =
    rw (there, create_new) (rw (absent, create_new) refl)

-- What a long name writes beside its item.
abbrev pub extra_of : Text → Text → Option Node
extra_of stored encoded = if is_long_entry stored then some (file encoded) else none

-- After `write_sidecar` the folder has the file that a long name needs; nothing else changed.
pub record Prepared (disk disk' : Disk) (path : StoredPath) (stored encoded : Text)
    (items : Directory) : Type 0 where
  pub here : disk' path ≡ some (beside (extra_of stored encoded) stored items)
  pub there : (p : StoredPath) → eq_path p path ≡ false → disk' p ≡ disk p

pub write_sidecar_run :
    (w : Vault) (path : StoredPath) (stored encoded : Text) (items : Directory)
    → w.disk path ≡ some items
    → get (sidecar_name stored) items ≢ some folder
    → (disk' : Disk) × (write_sidecar path stored encoded w ≡ (ok tt, record w { disk = disk' }))
      × Prepared w.disk disk' path stored encoded items
unfolding write_sidecar
write_sidecar_run w path stored encoded items there no_folder =
    elim (Bool-cases (is_long_entry stored)) [
      | inr short ↦ (w.disk, rw short refl, record { here = rw short there; there = λ p _. refl })
      | inl long ↦
          let e = write_run (sidecar_name stored) path encoded w.disk items there no_folder in
          (
            put (sidecar_name stored) (file encoded) path items w.disk,
            rw long (rw e refl),
            record {
              here = rw long (put_here (sidecar_name stored) (file encoded) path items w.disk);
              there = λ p other.
                  put_there (sidecar_name stored) (file encoded) path p items w.disk other;
            },
          )
    ]
