-- ===== src/Drive/Drives/Mounts.antt =====
-- `Drives` of windows.rs: each function is what one thread does while it holds the lock of the
-- table. A thread and the counter of the open files of a drive are numbers, and a message leaves
-- out the mount point that it names.
use desktop_folder_locker.Common.{
  ℕ, ◌/◌, ◌%◌, Option, none, some, List, [], ◌∷◌, ◌++◌, Bool, true, false, if◌then◌else◌,
}
use desktop_folder_locker.Common.Text.{Text, replace, trim_end}
use desktop_folder_locker.Vault2.Vault.Maps.{text_eq, get, insert, remove}
use desktop_folder_locker.Drive.Protocol.{Reply, done, failure}

pub record Mount : Type 0 where
  pub vault : Text
  pub mount_point : Text
  pub open_files : ℕ
  pub ready : Bool
  pub thread : Option ℕ

-- The event `unmounted`.
pub record Event : Type 0 where
  pub vault : Text
  pub mount_point : Text

-- The table by the keys of the vaults, and the events that were sent, the last first.
pub record Drives : Type 0 where
  pub mounts : List (Text × Mount)
  pub sent : List Event

-- `Drives::new`
abbrev pub no_drives : Drives
no_drives = record { mounts = []; sent = [] }

-- The same vault, however the app spells its path. `to_lowercase` is a parameter.
unfoldable pub vault_key : (Text → Text) → Text → Text
vault_key lower vault = lower (trim_end b'\\' (replace b'/' b'\\' vault))

abbrev pub mounted_already : Option Mount → Reply (Unit {0})
mounted_already none = done tt
mounted_already (some mount) = failure "alreadyMounted" "The vault is already open"

-- Whether the vault may be mounted.
unfoldable pub check_free : Text → Drives → Reply (Unit {0})
check_free key drives = mounted_already (get key drives.mounts)

abbrev pub put_mount : Text → Mount → Drives → Drives
put_mount key mount drives = record drives { mounts = insert key mount drives.mounts }

-- The mount of a vault whose thread is not spawned.
unfoldable pub insert_mount : Text → Text → Text → ℕ → Drives → Drives
insert_mount key vault mount_point open_files = put_mount key (record {
  vault = vault;
  mount_point = mount_point;
  open_files = open_files;
  ready = false;
  thread = none;
})

unfoldable pub remove_mount : Text → Drives → Drives
remove_mount key drives = record drives { mounts = remove key drives.mounts }

-- Keeps the thread in the table, or returns it if its mount ended already.
abbrev pub kept_thread : Text → ℕ → Option Mount → Drives → Option ℕ × Drives
kept_thread key thread none drives = (some thread, drives)
kept_thread key thread (some mount) drives =
    (none, put_mount key (record mount { thread = some thread }) drives)

unfoldable pub set_thread : Text → ℕ → Drives → Option ℕ × Drives
set_thread key thread drives = kept_thread key thread (get key drives.mounts) drives

-- The drive is ready, if its mount did not end already.
abbrev pub opened : Text → Option Mount → Drives → Reply Text × Drives
opened key none drives = (failure "mountFailed" "The drive closed right away", drives)
opened key (some mount) drives =
    (done mount.mount_point, put_mount key (record mount { ready = true }) drives)

unfoldable pub mark_ready : Text → Drives → Reply Text × Drives
mark_ready key drives = opened key (get key drives.mounts) drives

-- `Option::or`
abbrev pub or_else : Option ℕ → Option ℕ → Option ℕ
or_else none other = other
or_else (some thread) other = some thread

abbrev pub thread_of : Option Mount → Option ℕ
thread_of none = none
thread_of (some mount) = mount.thread

-- Removes a mount that failed; returns the thread to wait for.
unfoldable pub forget : Text → Option ℕ → Drives → Option ℕ × Drives
forget key thread drives =
    (or_else thread (thread_of (get key drives.mounts)), remove_mount key drives)

abbrev pub announced : Text → Option Mount → Drives → Drives
announced key none drives = drives
announced key (some mount) drives = record {
  mounts = remove key drives.mounts;
  sent =
      if mount.ready
      then record { vault = mount.vault; mount_point = mount.mount_point } ∷ drives.sent
      else drives.sent;
}

-- On the thread of a mount whose drive is gone.
unfoldable pub ended : Text → Drives → Drives
ended key drives = announced key (get key drives.mounts) drives

-- `.filter(|mount| mount.ready)`
abbrev pub if_ready : Option Mount → Option Mount
if_ready none = none
if_ready (some mount) = if mount.ready then some mount else none

abbrev pub or_not_mounted : Option Mount → Reply Mount
or_not_mounted none = failure "notMounted" "The vault is not open as a drive"
or_not_mounted (some mount) = done mount

unfoldable pub find_ready : Text → Drives → Reply Mount
find_ready key drives = or_not_mounted (if_ready (get key drives.mounts))

abbrev pub with_thread : Text → Option ℕ → Option Mount → Drives → Drives
with_thread key thread none drives = drives
with_thread key thread (some mount) drives = put_mount key (record mount { thread = thread }) drives

-- `mount.thread.take()`
unfoldable pub take_thread : Text → Drives → Option ℕ × Drives
take_thread key drives =
    let found = get key drives.mounts in (thread_of found, with_thread key none found drives)

unfoldable pub put_back : Text → ℕ → Drives → Drives
put_back key thread drives = with_thread key (some thread) (get key drives.mounts) drives

-- What `list` answers: the drives that are ready, with the number of files open on each.
unfoldable pub list_mounts : (ℕ → ℕ) → List (Text × Mount) → List (Event × ℕ)
list_mounts load [] = []
list_mounts load ((key, mount) ∷ mounts) =
    let rest = list_mounts load mounts in
    if mount.ready
    then (record { vault = mount.vault; mount_point = mount.mount_point }, load mount.open_files)
      ∷ rest
    else rest

-- The vaults that `unmount_all` unmounts.
unfoldable pub vaults : List (Text × Mount) → List Text
vaults [] = []
vaults ((key, mount) ∷ mounts) = mount.vault ∷ vaults mounts

-- `version_text`, over the digits of a number.
unfoldable pub version_text : (ℕ → Text) → ℕ → Text
version_text digits version =
    digits (version / 100)
    ++ (b'.' ∷ (digits (version / 10 % 10) ++ (b'.' ∷ digits (version % 10))))
