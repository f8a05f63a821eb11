-- ===== src/Drive/Drives/Mounting.antt =====
-- `Drives::mount` and `Drives::unmount` of windows.rs, step by step: each step is what a thread
-- does while it holds the lock of the table, so that the other threads may come in between. One
-- thread mounts at a time, which `mounting` sees to; what Windows and Dokany do is any step.
use desktop_folder_locker.Common.{
  ℕ, ◌+◌, ◌≡◌, ◌≢◌, ◌⊎◌, Option, none, some, List, [], ◌∷◌, Bool, true, not, eq_bytes,
  if◌then◌else◌,
}
use desktop_folder_locker.Common.Text.{Text}
use desktop_folder_locker.Vault2.Vault.Maps.{text_eq, get}
use desktop_folder_locker.Drive.Protocol.{Reply, done, failed}
use desktop_folder_locker.Drive.Drives.Mounts.{
  Mount, Drives, no_drives, vault_key, check_free, insert_mount, remove_mount, set_thread,
  mark_ready, forget, ended, find_ready, take_thread, put_back,
}

-- Where the thread that mounts is in `mount_now`, by the key of its vault: before the lock of
-- `mounting`, before the mount stands in the table, before its thread is spawned, before the thread
-- is kept, before an answer, and before the thread of a failed mount is joined.
pub data Phase : Type 0 where
  idle : Phase
  checked : (key : Text) → Phase
  inserted : (key : Text) → Phase
  spawned : (key : Text) (thread : ℕ) → Phase
  waiting : (key : Text) (left : Option ℕ) → Phase
  joining : (key : Text) (thread : Option ℕ) → Phase

-- The table; the vaults that are open, each from the insert of its mount until the thread of its
-- drive has called `ended`; those
-- that an `unmount` found; and those whose `mount` was answered with a drive, all by their keys.
pub record World : Type 0 where
  pub drives : Drives
  pub phase : Phase
  pub served : List Text
  pub looked : List Text
  pub reported : List Text

abbrev pub started : World
started = record { drives = no_drives; phase = idle; served = []; looked = []; reported = [] }

-- How often a key is listed.
unfoldable pub count : Text → List Text → ℕ
count key [] = 0
count key (k ∷ keys) = (if eq_bytes k key then 1 else 0) + count key keys

-- One vault of the key less.
unfoldable pub without : Text → List Text → List Text
without key [] = []
without key (k ∷ keys) = let rest = without key keys in if eq_bytes k key then keys else k ∷ rest

-- The mount is answered with a drive.
abbrev pub answered : Text → Reply Text → List Text → List Text
answered key (done mount_point) reported = key ∷ reported
answered key (failed failure) reported = reported

-- A thread runs only once it is spawned.
abbrev pub runs : Phase → Text → Bool
runs (inserted k) key = not (eq_bytes k key)
runs _ key = true

abbrev pub is_ready : Option Mount → ℕ
is_ready none = 0
is_ready (some mount) = if mount.ready then 1 else 0

-- What the threads do. `lower` is `to_lowercase`. If `careful`, no `unmount` takes the thread of
-- another mount than the one it found, which the code does not see to.
pub data Step (lower : Text → Text) (careful : Bool) : World → World → Type 0 where
  begins :
      (w : World) (key : Text)
      → w.phase ≡ idle
      → check_free key w.drives ≡ done tt
      → Step lower careful w (record w { phase = checked key })
  -- The header, the keys, the vault or a letter fails.
  gives_up :
      (w : World) (key : Text)
      → w.phase ≡ checked key
      → Step lower careful w (record w { phase = idle })
  inserts :
      (w : World) (key vault mount_point : Text) (open_files : ℕ)
      → w.phase ≡ checked key
      → vault_key lower vault ≡ key
      → Step lower careful w (record w {
        drives = insert_mount key vault mount_point open_files w.drives;
        phase = inserted key;
        served = key ∷ w.served;
      })
  fails_to_spawn :
      (w : World) (key : Text)
      → w.phase ≡ inserted key
      → Step lower careful w (record w {
        drives = remove_mount key w.drives;
        phase = idle;
        served = without key w.served;
      })
  spawns :
      (w : World) (key : Text) (thread : ℕ)
      → w.phase ≡ inserted key
      → Step lower careful w (record w { phase = spawned key thread })
  keeps :
      (w : World) (key : Text) (thread : ℕ)
      → w.phase ≡ spawned key thread
      → Step lower careful w (record w {
        drives = (set_thread key thread w.drives).1;
        phase = waiting key (set_thread key thread w.drives).0;
      })
  becomes_ready :
      (w : World) (key : Text) (left : Option ℕ)
      → w.phase ≡ waiting key left
      → Step lower careful w (record w {
        drives = (mark_ready key w.drives).1;
        phase = idle;
        reported = answered key (mark_ready key w.drives).0 w.reported;
      })
  -- The drive fails, or is not there in time.
  forgets :
      (w : World) (key : Text) (left : Option ℕ)
      → w.phase ≡ waiting key left
      → Step lower careful w (record w {
        drives = (forget key left w.drives).1;
        phase = joining key (forget key left w.drives).0;
      })
  -- There is no thread to join, or it is at its end.
  joins :
      (w : World) (key : Text) (thread : Option ℕ)
      → w.phase ≡ joining key thread
      → (thread ≡ none) ⊎ (count key w.served ≡ 0)
      → Step lower careful w (record w { phase = idle })
  -- The drive is gone: its thread drops the handler, and with it the vault, and calls `ended`. The
  -- vault counts as open until then.
  closes :
      (w : World) (key : Text)
      → count key w.served ≢ 0
      → runs w.phase key ≡ true
      → Step lower careful w
          (record w { drives = ended key w.drives; served = without key w.served })
  -- `unmount` finds the drive,
  finds :
      (w : World) (key : Text) (mount : Mount)
      → find_ready key w.drives ≡ done mount
      → Step lower careful w (record w { looked = key ∷ w.looked })
  -- takes the thread, some time later,
  takes :
      (w : World) (key : Text)
      → count key w.looked ≢ 0
      → (careful ≡ true → is_ready (get key w.drives.mounts) ≡ 1)
      → Step lower careful w (record w { drives = (take_thread key w.drives).1 })
  -- and puts it back if Windows does not close the drive.
  puts_back :
      (w : World) (key : Text) (thread : ℕ)
      → count key w.looked ≢ 0
      → Step lower careful w (record w { drives = put_back key thread w.drives })

pub data Reaches (lower : Text → Text) (careful : Bool) : World → Type 0 where
  starts : Reaches lower careful started
  then_does :
      {w w' : World} → Reaches lower careful w → Step lower careful w w' → Reaches lower careful w'
