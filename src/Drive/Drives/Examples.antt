-- ===== src/Drive/Drives/Examples.antt =====
-- Runs of the drives' steps and the theorems on them at small inputs.
use desktop_folder_locker.Common.{
  inl, ℕ, ◌≤◌, ◌+◌, ◌-◌, ◌*◌, leb, ◌==◌, if◌then◌else◌, ◌≡◌, refl, Option, none, some, [], ◌∷◌,
  Bool, true, false, arith,
}
use desktop_folder_locker.Common.Text.{Text, codes, trim_end}
use desktop_folder_locker.Vault2.Vault.Maps.{text_eq, get, insert, remove}
use desktop_folder_locker.Drive.Protocol.{Reply, done, failure}
use desktop_folder_locker.Drive.Drives.Mounts.{
  forget, remove_mount, Mount, Drives, vault_key, vaults, check_free, insert_mount, set_thread,
  mark_ready, ended, find_ready, take_thread, put_back, version_text, list_mounts,
}
use desktop_folder_locker.Drive.Drives.Mounting.{
  World, idle, inserted, Reaches, starts, then_does, started, begins, inserts, spawns, keeps,
  becomes_ready, closes, finds, takes, forgets, joins, is_ready, count, without,
}
use desktop_folder_locker.Drive.Drives.Held.{IsServed}
use desktop_folder_locker.Drive.Drives.Exclusive.{served-once}
use desktop_folder_locker.Drive.Drives.Counted.{keys, IsKeyed}
use desktop_folder_locker.Drive.Drives.Counts.{reported-sent}
use desktop_folder_locker.Drive.Drives.Unmounting.{unmount, unmount_each, unmount_all}
use desktop_folder_locker.Drive.Drives.Waits.{
  Looks, IsClocked, no_open_files, wait_for_thread, file_looks, IsAnswered,
  no_open_files-IsAnswered,
}
use desktop_folder_locker.Drive.Drives.Answers.{closing, IsUnmounted, unmount-IsUnmounted}

abbrev vault : Text
vault = codes "C:/a/"

abbrev key : Text
key = codes "C:\\a"

abbrev mount_point : Text
mount_point = codes "V:\\"

abbrev same : Text → Text
same text = text

key_lem : vault_key same vault ≡ key
unfolding vault_key trim_end
key_lem = refl

abbrev mount : Bool → Option ℕ → Mount
mount ready thread = record {
  vault = vault;
  mount_point = mount_point;
  open_files = 0;
  ready = ready;
  thread = thread;
}

-- The vault is mounted,
abbrev mounted : World
mounted = record {
  drives = record { mounts = (key, mount true (some 7)) ∷ []; sent = [] };
  phase = idle;
  served = key ∷ [];
  looked = [];
  reported = key ∷ [];
}

-- its drive is removed, and it is mounted again.
abbrev again : World
again = record {
  drives = record {
    mounts = (key, mount false none) ∷ [];
    sent = record { vault = vault; mount_point = mount_point } ∷ [];
  };
  phase = inserted key;
  served = key ∷ [];
  looked = [];
  reported = key ∷ [];
}

mounted-Reaches : {careful : Bool} → Reaches same careful mounted
unfolding get insert check_free insert_mount set_thread mark_ready
mounted-Reaches =
    then_does
      (then_does
        (then_does
          (then_does (then_does starts (begins started key refl refl))
            (inserts _ key vault mount_point 0 refl key_lem))
          (spawns _ key 7 refl))
        (keeps _ key 7 refl))
      (becomes_ready _ key none refl)

again-Reaches : {careful : Bool} → Reaches same careful again
unfolding get insert remove check_free insert_mount ended count without
again-Reaches =
    then_does
      (then_does (then_does mounted-Reaches (closes mounted key (omega arith) refl))
        (begins _ key refl refl))
      (inserts _ key vault mount_point 0 refl key_lem)

-- An `unmount` that found the first mount takes the thread of the second one, whose `forget` then
-- waits for none, so that a third mount opens the vault before the second one has closed it.
abbrev raced : World
raced = record {
  drives = record {
    mounts = (key, mount false none) ∷ [];
    sent = record { vault = vault; mount_point = mount_point } ∷ [];
  };
  phase = inserted key;
  served = key ∷ key ∷ [];
  looked = key ∷ [];
  reported = key ∷ [];
}

raced-Reaches : Reaches same false raced
unfolding get insert remove check_free insert_mount set_thread find_ready take_thread forget ended
    remove_mount count without
raced-Reaches =
    let found = then_does mounted-Reaches (finds mounted key (mount true (some 7)) refl) in
    let gone = then_does found (closes _ key (omega arith) refl) in
    let begun = then_does gone (begins _ key refl refl) in
    let second = then_does begun (inserts _ key vault mount_point 0 refl key_lem) in
    let kept = then_does (then_does second (spawns _ key 8 refl)) (keeps _ key 8 refl) in
    let taken = then_does kept (takes _ key (omega arith) (λ q. absurd (ground (arith, q)))) in
    let failed = then_does taken (forgets _ key none refl) in
    let left = then_does failed (joins _ key none refl (inl refl)) in
    then_does (then_does left (begins _ key refl refl))
      (inserts _ key vault mount_point 0 refl key_lem)

served-once_example :
    (count key again.served ≤ 1)
    × (again.phase ≡ idle → IsServed (get key again.drives.mounts) (count key again.served))
served-once_example = served-once same key again again-Reaches

reported-sent_example :
    (count key again.reported
      ≡ is_ready (get key again.drives.mounts) + count key (keys same again.drives.sent))
    × IsKeyed same key (get key again.drives.mounts)
reported-sent_example = reported-sent same false key again again-Reaches

-- A file is open until the fourth look, and the thread finishes by the third.
abbrev looks : Looks
looks = record {
  open_files = λ n. 3 - n;
  files_clock = λ n. n * 100;
  finished = λ n. leb 2 n;
  thread_clock = λ n. n * 50;
}

looks-IsClocked : IsClocked looks
looks-IsClocked n = (omega arith, omega arith)

run-looks : no_open_files file_looks 0 looks ≡ some true
unfolding no_open_files
run-looks = refl

no_open_files-IsAnswered_example :
    (answer : Bool) × (no_open_files file_looks 0 looks ≡ some answer) × IsAnswered looks 0 answer
no_open_files-IsAnswered_example = no_open_files-IsAnswered looks looks-IsClocked

-- It is unmounted when no file is open.
run-unmount :
    unmount key false looks (λ n d. d) mounted.drives
    ≡ some (done mount_point, record mounted.drives { mounts = (key, mount true none) ∷ [] })
unfolding unmount find_ready get no_open_files wait_for_thread take_thread insert
run-unmount = refl

-- The drive closes while its thread is waited for.
abbrev late : ℕ → Bool
late n = n == 1

unmount-IsUnmounted_example :
    (reply : Reply Text) × (drives' : Drives) × (unmount key false looks
        (closing key late)
        mounted.drives
      ≡ some (reply, drives'))
    × IsUnmounted key false looks late mounted.drives reply drives'
unmount-IsUnmounted_example =
    unmount-IsUnmounted key false looks late mounted.drives looks-IsClocked (λ m q. refl)

-- Windows does not close the drive: the thread is put back.
abbrev stuck : Looks
stuck = record looks { finished = λ n. false; thread_clock = λ n. 8000 * n }

run-stuck :
    unmount key true stuck (λ n d. d) mounted.drives
    ≡ some (failure "unmountFailed" "Windows did not close the drive", mounted.drives)
unfolding unmount find_ready get wait_for_thread take_thread put_back insert
run-stuck = refl

-- The drive closes while its thread is waited for, so that Dokany may be shut down.
run-all :
    unmount_all same true (λ v. looks) (λ n d. if n == 1 then ended key d else d) mounted.drives
    ≡ some (
      true,
      record { mounts = []; sent = record { vault = vault; mount_point = mount_point } ∷ [] },
    )
unfolding unmount_all unmount_each unmount vaults vault_key trim_end find_ready get wait_for_thread
    take_thread ended insert remove
run-all = refl

run-list :
    list_mounts (λ counter. 4) mounted.drives.mounts
    ≡ (record { vault = vault; mount_point = mount_point }, 4) ∷ []
unfolding list_mounts
run-list = refl

run-version : version_text (λ n. (48 + n) ∷ []) 231 ≡ codes "2.3.1"
unfolding version_text
run-version = refl
