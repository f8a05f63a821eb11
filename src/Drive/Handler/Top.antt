-- ===== src/Drive/Handler/Top.antt =====
-- The top folder of the drive that handler.rs serves, however a program spells its path.
use desktop_folder_locker.Common.{
  ℕ, ◌≡◌, refl, some, [], ◌∷◌, Bool, true, inl, inr, ap, Bool-cases, Option-cases,
}
use desktop_folder_locker.Common.Text.{Text}
use desktop_folder_locker.Vault2.Error.{ok, err, Error, Result-cases}
use desktop_folder_locker.Vault2.Vault.Paths.{components}
use desktop_folder_locker.Vault2.Vault.Folders.{NameCalls, Vault, root}
use desktop_folder_locker.Vault2.Vault.Lookup.{lookup, lookup_parts}
use desktop_folder_locker.Vault2.Vault.Opening.{ContentCalls}
use desktop_folder_locker.Vault2.Vault.Removing.{remove_item}
use desktop_folder_locker.Vault2.Vault.Renaming.{rename}
use desktop_folder_locker.Vault2.Vault.Changes.{split_last}
use desktop_folder_locker.Drive.Handler.Status.{NtStatus, Outcome, success, failed}
use desktop_folder_locker.Drive.Handler.Files.{Handle}
use desktop_folder_locker.Drive.Handler.Named.{
  existing, delete_directory, cleanup, move_file, starts_with_colon,
}

-- A call fails and leaves the vault as it was.
abbrev pub IsRefused : {A : Type 0} → Outcome A × Vault → Vault → Type 0
IsRefused {A} result v = (s : NtStatus) × (result ≡ (failed s, v))

remove_top :
    (calls : NameCalls) (temp path : Text) (v : Vault)
    → components path ≡ ok []
    → remove_item calls temp path v ≡ (err Error.not_allowed, v)
unfolding remove_item split_last
remove_top calls temp path v e = rw e refl

module _ (calls : NameCalls) (content : ContentCalls) (from_win32 : ℕ → NtStatus) where
  existing_top :
      (path : Text) (v : Vault)
      → components path ≡ ok []
      → existing calls content from_win32 (some path) v ≡ (success root, v)
  unfolding existing lookup lookup_parts
  existing_top path v e = rw e refl

  delete_top :
      (path : Text) (v : Vault)
      → components path ≡ ok []
      → delete_directory calls content from_win32 Handle.dir true (some path) v
        ≡ (failed NtStatus.access_denied, v)
  unfolding delete_directory
  delete_top path v e = rw (existing_top path v e) refl

  cleanup_top :
      (temp path : Text) (v : Vault)
      → components path ≡ ok []
      → cleanup calls content from_win32 temp true (some path) v ≡ v
  unfolding cleanup
  cleanup_top temp path v e = ap (λ r. r.1) (remove_top calls temp path v e)

  move_top :
      (path to : Text) (replace : Bool) (v : Vault)
      → components path ≡ ok []
      → IsRefused (move_file calls content from_win32 (some path) (some to) replace v) v
  unfolding move_file rename split_last
  move_top path to replace v e = elim (Bool-cases (starts_with_colon to)) [
    | inl stream ↦ rw stream (_, refl)
    | inr name ↦ elim (Result-cases (components to)) [
      | inl (parts, f) ↦ rw (name, e, f) (_, refl)
      | inr (x, f) ↦ rw (name, e, f) (_, refl)
    ]
  ]

  move_onto_top :
      (path from : Text) (replace : Bool) (v : Vault)
      → components path ≡ ok []
      → IsRefused (move_file calls content from_win32 (some from) (some path) replace v) v
  unfolding move_file rename split_last
  move_onto_top path from replace v e = elim (Bool-cases (starts_with_colon path)) [
    | inl stream ↦ rw stream (_, refl)
    | inr name ↦ elim (Result-cases (components from)) [
      | inr (x, f) ↦ rw (name, f) (_, refl)
      | inl ([], f) ↦ rw (name, f, e) (_, refl)
      | inl (part ∷ rest, f) ↦ elim (Option-cases (split_last rest)) [
        | inl g ↦ rw (name, f, e, g) (_, refl)
        | inr (split, g) ↦ rw (name, f, e, g) (_, refl)
      ]
    ]
  ]

  -- However a program spells the path of the top folder, it finds it there, and can not delete it,
  -- move it, or move something onto it: these calls fail, and they and the cleanup of a handle that
  -- deletes on close leave the vault as it was.
  pub top_stays :
      (temp path other : Text) (replace : Bool) (v : Vault)
      → components path ≡ ok []
      → (existing calls content from_win32 (some path) v ≡ (success root, v))
        × (delete_directory calls content from_win32 Handle.dir true (some path) v
            ≡ (failed NtStatus.access_denied, v))
        × (cleanup calls content from_win32 temp true (some path) v ≡ v)
        × IsRefused (move_file calls content from_win32 (some path) (some other) replace v) v
        × IsRefused (move_file calls content from_win32 (some other) (some path) replace v) v
  top_stays temp path other replace v e = (
    existing_top path v e,
    delete_top path v e,
    cleanup_top temp path v e,
    move_top path other replace v e,
    move_onto_top path other replace v e,
  )
