-- ===== src/Drive/Drives/Unmounting.antt =====
-- `Drives::unmount` and `unmount_all` of native/drive/src/drives/windows.rs, each as a whole. What
-- other threads do to the table between the locks is given.
use desktop_folder_locker.Common.{
  ℕ, Option, none, some, List, [], ◌∷◌, Bool, true, false, ◌&&◌, if◌then◌else◌,
}
use desktop_folder_locker.Common.Text.{Text}
use desktop_folder_locker.Vault2.Vault.Maps.{text_eq}
use desktop_folder_locker.Drive.Protocol.{Reply, done, failed, failure}
use desktop_folder_locker.Drive.Drives.Mounts.{
  Mount, Drives, find_ready, take_thread, put_back, vault_key, vaults,
}
use desktop_folder_locker.Drive.Drives.Waits.{
  Looks, no_open_files, wait_for_thread, file_looks, thread_looks,
}

-- What is answered after the wait for the thread.
abbrev pub closed : Text → ℕ → Mount → Option Bool → Drives → Option (Reply Text × Drives)
closed key thread mount none drives = none
closed key thread mount (some true) drives = some (done mount.mount_point, drives)
closed key thread mount (some false) drives =
    some (failure "unmountFailed" "Windows did not close the drive", put_back key thread drives)

-- With the thread that was taken, if another `unmount` has not.
abbrev pub waited :
    Text
    → Mount
    → Option Bool
    → (Drives → Drives)
    → Option ℕ × Drives
    → Option (Reply Text × Drives)
waited key mount answer meanwhile (none, drives) = some (done mount.mount_point, drives)
waited key mount answer meanwhile (some thread, drives) =
    closed key thread mount answer (meanwhile drives)

-- After the wait for the files, with its answer.
abbrev pub after_files :
    Text
    → Mount
    → Option Bool
    → (fuel : ℕ) → Looks
    → (ℕ → Drives → Drives)
    → Drives
    → Option (Reply Text × Drives)
after_files key mount none fuel looks meanwhile drives = none
after_files key mount (some false) fuel looks meanwhile drives =
    some (failure "inUse" "Programs still have files open", drives)
after_files key mount (some true) fuel looks meanwhile drives =
    waited key mount (wait_for_thread fuel 0 looks) (meanwhile 1) (take_thread key drives)

abbrev pub found_for :
    Text
    → Bool
    → Looks
    → (ℕ → Drives → Drives)
    → Reply Mount
    → Drives
    → Option (Reply Text × Drives)
found_for key force looks meanwhile (failed f) drives = some (failed f, drives)
found_for key force looks meanwhile (done mount) drives =
    after_files key mount (if force then some true else no_open_files file_looks 0 looks)
      thread_looks looks meanwhile (meanwhile 0 drives)

-- The answer, without the number of open files, and the table; none if the fuel is over.
unfoldable pub unmount :
    Text → Bool → Looks → (ℕ → Drives → Drives) → Drives → Option (Reply Text × Drives)
unmount key force looks meanwhile drives =
    found_for key force looks meanwhile (find_ready key drives) drives

infixl 5 ◌>>=◌
-- `none` once the fuel of a wait is over.
abbrev pub ◌>>=◌ {ℓ κ} : {A : Type ℓ} {B : Type κ} → Option A → (A → Option B) → Option B
none >>= f = none
some a >>= f = f a

abbrev pub is_empty : List (Text × Mount) → Bool
is_empty [] = true
is_empty (mount ∷ mounts) = false

-- Each vault, whether it is ready or not, one after the other.
unfoldable pub unmount_each :
    (Text → Text) → List Text → (Text → Looks) → (ℕ → Drives → Drives) → Drives → Option Drives
unmount_each lower [] looks meanwhile drives = some drives
unmount_each lower (vault ∷ rest) looks meanwhile drives = do
  (reply, drives') ← unmount (vault_key lower vault) true (looks vault) meanwhile drives
  unmount_each lower rest looks meanwhile drives'

-- Also whether Dokany is shut down, if it is loaded.
unfoldable pub unmount_all :
    (Text → Text) → Bool → (Text → Looks) → (ℕ → Drives → Drives) → Drives → Option (Bool × Drives)
unmount_all lower loaded looks meanwhile drives = do
  drives' ← unmount_each lower (vaults drives.mounts) looks meanwhile drives
  some (loaded && is_empty drives'.mounts, drives')
