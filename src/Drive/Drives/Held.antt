-- ===== src/Drive/Drives/Held.antt =====
-- How the mount and the open vaults at one key go together in each phase of `mount_now` of
-- native/drive/src/drives/windows.rs, and what each step does to them.
use desktop_folder_locker.Common.{
  ℕ, suc, ◌-◌, ◌≤◌, ◌≡◌, ◌≢◌, ◌⊎◌, Option, none, some, true, false, eq_bytes, if◌then◌else◌, arith,
}
use desktop_folder_locker.Common.Text.{Text}
use desktop_folder_locker.Vault2.Vault.Maps.{text_eq, eq_bytes_iff}
use desktop_folder_locker.Drive.Drives.Mounts.{Mount, or_else, thread_of}
use desktop_folder_locker.Drive.Drives.Mounting.{
  World, Phase, idle, checked, inserted, spawned, waiting, joining, is_ready, count,
}
use desktop_folder_locker.Drive.Drives.Views.{view, threaded, readied}

-- A vault is open as long as its mount stands in the table.
abbrev pub IsServed : Option Mount → ℕ → Type 0
IsServed none n = n ≡ 0
IsServed (some mount) n = n ≡ 1

abbrev lacks : Option ℕ → ℕ
lacks none = 1
lacks (some thread) = 0

or_else-some : (left stored : Option ℕ) → lacks stored ≡ 0 → or_else left stored ≢ none
or_else-some (some thread) stored h = λ q. ground arith
or_else-some none (some thread) h = λ q. ground arith
or_else-some none none h = λ q. ground arith

-- 1 for a mount without a thread.
abbrev lacking : Option Mount → ℕ
lacking none = 0
lacking (some mount) = lacks mount.thread

-- Where the thread that mounts holds a mount of this key, the mount is not ready, and its thread is
-- known once it is kept.
abbrev pub IsHeld : Text → Phase → Option Mount → ℕ → Type 0
IsHeld k idle m n = IsServed m n
IsHeld k (checked key) m n = IsServed m n × (eq_bytes key k ≡ true → m ≡ none)
IsHeld k (inserted key) m n = IsServed m n × (eq_bytes key k ≡ true → is_ready m ≡ 0)
IsHeld k (spawned key thread) m n = IsServed m n × (eq_bytes key k ≡ true → is_ready m ≡ 0)
IsHeld k (waiting key left) m n =
    IsServed m n × (eq_bytes key k ≡ true → (is_ready m ≡ 0) × (lacking m ≡ 0))
IsHeld k (joining key thread) m n =
    (eq_bytes key k ≡ false → IsServed m n)
    × (eq_bytes key k ≡ true → (m ≡ none) × (n ≤ 1) × (thread ≡ none → n ≡ 0))

abbrev pub IsExclusive : Text → World → Type 0
IsExclusive k w = IsHeld k w.phase (view k w.drives) (count k w.served)

-- What a step does to the mount of the key it is for, and to the number of its open vaults.
module _ (key k : Text) where
  abbrev pub at : Option Mount → Option Mount → Option Mount
  at new m = if eq_bytes key k then new else m

  abbrev count_at : ℕ → ℕ → ℕ
  count_at new n = if eq_bytes key k then new else n

  pub checks :
      (m : Option Mount) (n : ℕ)
      → IsServed m n
      → (eq_bytes key k ≡ true → m ≡ none)
      → IsHeld k (checked key) m n
  checks m n h f = (h, f)

  pub inserts_lem :
      (mount : Mount) (m : Option Mount) (n : ℕ)
      → mount.ready ≡ false
      → IsHeld k (checked key) m n
      → IsHeld k (inserted key) (at (some mount) m) (count_at (suc n) n)
  inserts_lem mount none n new h = ground arith
  inserts_lem mount (some m) n new h = ground arith

  pub fails_lem :
      (m : Option Mount) (n : ℕ)
      → IsHeld k (inserted key) m n
      → IsServed (at none m) (count_at (n - 1) n)
  fails_lem none n h = ground arith
  fails_lem (some m) n h = ground arith

  pub keeps_lem :
      (thread : ℕ) (left : Option ℕ) (m : Option Mount) (n : ℕ)
      → IsHeld k (spawned key thread) m n
      → IsHeld k (waiting key left) (at (threaded (some thread) m) m) n
  keeps_lem thread left none n h = ground arith
  keeps_lem thread left (some m) n h = ground arith

  pub readies_lem :
      (left : Option ℕ) (m : Option Mount) (n : ℕ)
      → IsHeld k (waiting key left) m n
      → IsServed (at (readied m) m) n
  readies_lem left none n h = ground arith
  readies_lem left (some m) n h = ground arith

  pub forgets_lem :
      (left thread : Option ℕ) (m : Option Mount) (n : ℕ)
      → (eq_bytes key k ≡ true → thread ≡ or_else left (thread_of m))
      → IsHeld k (waiting key left) m n
      → IsHeld k (joining key thread) (at none m) n
  forgets_lem left thread none n e h = ground arith
  forgets_lem left thread (some m) n e h =
      let known : lacks m.thread ≡ 0 → or_else left m.thread ≢ none = or_else-some left m.thread in
      ground arith

  pub joins_lem :
      (thread : Option ℕ) (m : Option Mount) (n : ℕ)
      → (eq_bytes key k ≡ true → (thread ≡ none) ⊎ (n ≡ 0))
      → IsHeld k (joining key thread) m n
      → IsServed m n
  joins_lem thread none n at_end h = ground arith
  joins_lem thread (some m) n at_end h = ground arith

  pub closes_lem :
      (phase : Phase) (m : Option Mount) (n : ℕ)
      → (eq_bytes key k ≡ true → n ≢ 0)
      → IsHeld k phase m n
      → IsHeld k phase (at none m) (count_at (n - 1) n)
  closes_lem idle none n ne h = ground (arith, eq_bytes_iff key k)
  closes_lem idle (some m) n ne h = ground (arith, eq_bytes_iff key k)
  closes_lem (checked other) none n ne h = ground (arith, eq_bytes_iff key k)
  closes_lem (checked other) (some m) n ne h = ground (arith, eq_bytes_iff key k)
  closes_lem (inserted other) none n ne h = ground (arith, eq_bytes_iff key k)
  closes_lem (inserted other) (some m) n ne h = ground (arith, eq_bytes_iff key k)
  closes_lem (spawned other thread) none n ne h = ground (arith, eq_bytes_iff key k)
  closes_lem (spawned other thread) (some m) n ne h = ground (arith, eq_bytes_iff key k)
  closes_lem (waiting other left) none n ne h = ground (arith, eq_bytes_iff key k)
  closes_lem (waiting other left) (some m) n ne h = ground (arith, eq_bytes_iff key k)
  closes_lem (joining other thread) none n ne h = ground (arith, eq_bytes_iff key k)
  closes_lem (joining other thread) (some m) n ne h = ground (arith, eq_bytes_iff key k)

  pub takes_lem :
      (phase : Phase) (m : Option Mount) (n : ℕ)
      → (eq_bytes key k ≡ true → is_ready m ≡ 1)
      → IsHeld k phase m n
      → IsHeld k phase (at (threaded none m) m) n
  takes_lem idle none n ready h = ground (arith, eq_bytes_iff key k)
  takes_lem idle (some m) n ready h = ground (arith, eq_bytes_iff key k)
  takes_lem (checked other) none n ready h = ground (arith, eq_bytes_iff key k)
  takes_lem (checked other) (some m) n ready h = ground (arith, eq_bytes_iff key k)
  takes_lem (inserted other) none n ready h = ground (arith, eq_bytes_iff key k)
  takes_lem (inserted other) (some m) n ready h = ground (arith, eq_bytes_iff key k)
  takes_lem (spawned other thread) none n ready h = ground (arith, eq_bytes_iff key k)
  takes_lem (spawned other thread) (some m) n ready h = ground (arith, eq_bytes_iff key k)
  takes_lem (waiting other left) none n ready h = ground (arith, eq_bytes_iff key k)
  takes_lem (waiting other left) (some m) n ready h = ground (arith, eq_bytes_iff key k)
  takes_lem (joining other thread) none n ready h = ground (arith, eq_bytes_iff key k)
  takes_lem (joining other thread) (some m) n ready h = ground (arith, eq_bytes_iff key k)

  pub puts_lem :
      (new : ℕ) (phase : Phase) (m : Option Mount) (n : ℕ)
      → IsHeld k phase m n
      → IsHeld k phase (at (threaded (some new) m) m) n
  puts_lem new idle none n h = ground (arith, eq_bytes_iff key k)
  puts_lem new idle (some m) n h = ground (arith, eq_bytes_iff key k)
  puts_lem new (checked other) none n h = ground (arith, eq_bytes_iff key k)
  puts_lem new (checked other) (some m) n h = ground (arith, eq_bytes_iff key k)
  puts_lem new (inserted other) none n h = ground (arith, eq_bytes_iff key k)
  puts_lem new (inserted other) (some m) n h = ground (arith, eq_bytes_iff key k)
  puts_lem new (spawned other thread) none n h = ground (arith, eq_bytes_iff key k)
  puts_lem new (spawned other thread) (some m) n h = ground (arith, eq_bytes_iff key k)
  puts_lem new (waiting other left) none n h = ground (arith, eq_bytes_iff key k)
  puts_lem new (waiting other left) (some m) n h = ground (arith, eq_bytes_iff key k)
  puts_lem new (joining other thread) none n h = ground (arith, eq_bytes_iff key k)
  puts_lem new (joining other thread) (some m) n h = ground (arith, eq_bytes_iff key k)
