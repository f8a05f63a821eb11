-- ===== src/Drive/Drives/Views.antt =====
-- What each function of the table does to the mount at one key: the laws of windows.rs's
-- functions, one equation for all keys.
use desktop_folder_locker.Common.{
  ℕ, suc, ◌-◌, ◌≡◌, refl, inl, inr, Option, none, some, List, [], ◌∷◌, true, false, eq_bytes,
  if◌then◌else◌, subst, arith, Option-cases,
}
use desktop_folder_locker.Common.Text.{Text}
use desktop_folder_locker.Vault2.Vault.Maps.{text_eq, get, get-insert, get-remove, eq_bytes_iff}
use desktop_folder_locker.Drive.Protocol.{done}
use desktop_folder_locker.Drive.Drives.Mounts.{
  Mount, Drives, insert_mount, remove_mount, set_thread, mark_ready, forget, ended, take_thread,
  put_back, with_thread, mounted_already,
}
use desktop_folder_locker.Drive.Drives.Mounting.{count, without}

-- The mount at a key.
abbrev pub view : Text → Drives → Option Mount
view k drives = get k drives.mounts

abbrev pub threaded : Option ℕ → Option Mount → Option Mount
threaded thread none = none
threaded thread (some mount) = some (record mount { thread = thread })

abbrev pub readied : Option Mount → Option Mount
readied none = none
readied (some mount) = some (record mount { ready = true })

pub view-with_thread :
    (key k : Text) (thread : Option ℕ) (drives : Drives)
    → view k (with_thread key thread (view key drives) drives)
      ≡ (if eq_bytes key k then threaded thread (view k drives) else view k drives)
view-with_thread key k thread drives = elim (Option-cases (view key drives)) [
  | inl e ↦ rw e (ground (arith, eq_bytes_iff key k, e))
  | inr (mount, e) ↦ rw e (
      ground (
        arith,
        eq_bytes_iff key k,
        e,
        get-insert key k (record mount { thread = thread }) drives.mounts,
      ))
]

pub view-insert_mount :
    (key k vault mount_point : Text) (open_files : ℕ) (drives : Drives)
    → view k (insert_mount key vault mount_point open_files drives) ≡ (
        if eq_bytes key k
        then some (record {
          vault = vault;
          mount_point = mount_point;
          open_files = open_files;
          ready = false;
          thread = none;
        })
        else view k drives)
unfolding insert_mount
view-insert_mount key k vault mount_point open_files drives = get-insert key k _ drives.mounts

pub view-remove_mount :
    (key k : Text) (drives : Drives)
    → view k (remove_mount key drives) ≡ (if eq_bytes key k then none else view k drives)
unfolding remove_mount
view-remove_mount key k drives = get-remove key k drives.mounts

pub view-set_thread :
    (key k : Text) (thread : ℕ) (drives : Drives)
    → view k (set_thread key thread drives).1
      ≡ (if eq_bytes key k then threaded (some thread) (view k drives) else view k drives)
unfolding set_thread
view-set_thread key k thread drives = elim (Option-cases (view key drives)) [
  | inl e ↦ rw e (ground (arith, eq_bytes_iff key k, e))
  | inr (mount, e) ↦ rw e (
      ground (
        arith,
        eq_bytes_iff key k,
        e,
        get-insert key k (record mount { thread = some thread }) drives.mounts,
      ))
]

pub view-mark_ready :
    (key k : Text) (drives : Drives)
    → view k (mark_ready key drives).1
      ≡ (if eq_bytes key k then readied (view k drives) else view k drives)
unfolding mark_ready
view-mark_ready key k drives = elim (Option-cases (view key drives)) [
  | inl e ↦ rw e (ground (arith, eq_bytes_iff key k, e))
  | inr (mount, e) ↦ rw e (
      ground (
        arith,
        eq_bytes_iff key k,
        e,
        get-insert key k (record mount { ready = true }) drives.mounts,
      ))
]

pub view-forget :
    (key k : Text) (thread : Option ℕ) (drives : Drives)
    → view k (forget key thread drives).1 ≡ (if eq_bytes key k then none else view k drives)
unfolding forget
view-forget key k thread drives = view-remove_mount key k drives

pub view-ended :
    (key k : Text) (drives : Drives)
    → view k (ended key drives) ≡ (if eq_bytes key k then none else view k drives)
unfolding ended
view-ended key k drives = elim (Option-cases (view key drives)) [
  | inl e ↦ rw e (ground (arith, eq_bytes_iff key k, e))
  | inr (mount, e) ↦ rw e (get-remove key k drives.mounts)
]

pub view-take_thread :
    (key k : Text) (drives : Drives)
    → view k (take_thread key drives).1
      ≡ (if eq_bytes key k then threaded none (view k drives) else view k drives)
unfolding take_thread
view-take_thread key k drives = view-with_thread key k none drives

pub view-put_back :
    (key k : Text) (thread : ℕ) (drives : Drives)
    → view k (put_back key thread drives)
      ≡ (if eq_bytes key k then threaded (some thread) (view k drives) else view k drives)
unfolding put_back
view-put_back key k thread drives = view-with_thread key k (some thread) drives

pub count-cons :
    (key k : Text) (keys : List Text)
    → count k (key ∷ keys) ≡ (if eq_bytes key k then suc (count k keys) else count k keys)
unfolding count
count-cons key k keys = ground arith

pub count-without :
    (key k : Text) (keys : List Text)
    → count k (without key keys) ≡ (if eq_bytes key k then count k keys - 1 else count k keys)
unfolding count without
count-without key k [] = ground arith
count-without key k (j ∷ keys) =
    ground
      (arith, eq_bytes_iff j key, eq_bytes_iff j k, eq_bytes_iff key k, count-without key k keys)

-- The premises of the steps, which speak of their own key.
pub moved {ℓ} : (P : Text → Type ℓ) (key k : Text) → P key → eq_bytes key k ≡ true → P k
moved P key k h same = subst P ((eq_bytes_iff key k).0 same) h

pub free_lem : (m : Option Mount) → mounted_already m ≡ done tt → m ≡ none
free_lem none h = refl
free_lem (some m) h = absurd (ground arith)
