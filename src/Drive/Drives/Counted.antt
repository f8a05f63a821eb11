-- ===== src/Drive/Drives/Counted.antt =====
-- How the mount at one key, the answers and the events go together in each phase of `mount_now` of
-- native/drive/src/drives/windows.rs, and what each step does to them.
use desktop_folder_locker.Common.{
  ℕ, ◌+◌, ◌≡◌, refl, inl, inr, Option, none, some, List, [], ◌∷◌, true, false, eq_bytes,
  if◌then◌else◌, arith, Bool-cases, Option-cases,
}
use desktop_folder_locker.Common.Text.{Text}
use desktop_folder_locker.Vault2.Vault.Maps.{text_eq, eq_bytes_iff}
use desktop_folder_locker.Drive.Drives.Mounts.{
  Mount, Drives, Event, set_thread, mark_ready, ended, with_thread, vault_key,
}
use desktop_folder_locker.Drive.Drives.Mounting.{
  World, Phase, idle, checked, inserted, spawned, waiting, joining, is_ready, count, answered,
}
use desktop_folder_locker.Drive.Drives.Views.{view, threaded, readied}

module _ (lower : Text → Text) where
  -- The events by the keys of their vaults.
  unfoldable pub keys : List Event → List Text
  keys [] = []
  keys (event ∷ events) = vault_key lower event.vault ∷ keys events

  -- A mount stands at the key of its vault.
  abbrev pub IsKeyed : Text → Option Mount → Type 0
  IsKeyed k none = Unit {0}
  IsKeyed k (some mount) = vault_key lower mount.vault ≡ k

  -- A mount of this key that is not answered yet is not ready.
  abbrev IsPending : Text → Phase → Option Mount → Type 0
  IsPending k idle m = Unit {0}
  IsPending k (checked key) m = eq_bytes key k ≡ true → m ≡ none
  IsPending k (inserted key) m = eq_bytes key k ≡ true → is_ready m ≡ 0
  IsPending k (spawned key thread) m = eq_bytes key k ≡ true → is_ready m ≡ 0
  IsPending k (waiting key left) m = eq_bytes key k ≡ true → is_ready m ≡ 0
  IsPending k (joining key thread) m = Unit {0}

  abbrev pub IsCounted : Text → Phase → Option Mount → (reported gone : ℕ) → Type 0
  IsCounted k phase m reported gone =
      IsKeyed k m × (reported ≡ is_ready m + gone) × IsPending k phase m

  abbrev pub IsTrue : Text → World → Type 0
  IsTrue k w =
      IsCounted k w.phase (view k w.drives) (count k w.reported) (count k (keys w.drives.sent))

  pub sent-set_thread :
      (key : Text) (thread : ℕ) (drives : Drives)
      → (set_thread key thread drives).1.sent ≡ drives.sent
  unfolding set_thread
  sent-set_thread key thread drives = elim (Option-cases (view key drives)) [
    | inl e ↦ rw e refl
    | inr (mount, e) ↦ rw e refl
  ]

  pub sent-mark_ready :
      (key : Text) (drives : Drives) → (mark_ready key drives).1.sent ≡ drives.sent
  unfolding mark_ready
  sent-mark_ready key drives = elim (Option-cases (view key drives)) [
    | inl e ↦ rw e refl
    | inr (mount, e) ↦ rw e refl
  ]

  pub sent-with_thread :
      (key : Text) (thread : Option ℕ) (m : Option Mount) (drives : Drives)
      → (with_thread key thread m drives).sent ≡ drives.sent
  sent-with_thread key thread none drives = refl
  sent-with_thread key thread (some mount) drives = refl

  -- An event is sent for a mount that was ready.
  pub sent-ended :
      (key k : Text) (drives : Drives)
      → IsKeyed key (view key drives)
      → count k (keys (ended key drives).sent) ≡ (
          if eq_bytes key k
          then is_ready (view k drives) + count k (keys drives.sent)
          else count k (keys drives.sent))
  unfolding ended keys count
  sent-ended key k drives keyed = elim (Option-cases (view key drives)) [
    | inl e ↦ rw e (ground (arith, eq_bytes_iff key k, e))
    | inr (mount, e) ↦
        let own : vault_key lower mount.vault ≡ key = rw e at keyed in
        rw e (elim (Bool-cases mount.ready) [
          | inl ready ↦ rw (ready, own) (ground (arith, eq_bytes_iff key k, e, ready))
          | inr not_ready ↦ rw not_ready (ground (arith, eq_bytes_iff key k, e, not_ready))
        ])
  ]

  pub answered-mark_ready :
      (key k : Text) (drives : Drives) (reported : List Text)
      → is_ready (view key drives) ≡ 0
      → count k (answered key (mark_ready key drives).0 reported) ≡ (
          if eq_bytes key k
          then is_ready (readied (view k drives)) + count k reported
          else count k reported)
  unfolding mark_ready count
  answered-mark_ready key k drives reported h = elim (Option-cases (view key drives)) [
    | inl e ↦ rw e (ground (arith, eq_bytes_iff key k, e))
    | inr (mount, e) ↦ rw e (ground (arith, eq_bytes_iff key k, e))
  ]

  pub begins_lem :
      (key k : Text) (m : Option Mount) (a b : ℕ)
      → IsCounted k idle m a b
      → (eq_bytes key k ≡ true → m ≡ none)
      → IsCounted k (checked key) m a b
  begins_lem key k m a b h f = (h.0, h.1, f)

  pub inserts_lem :
      (key k : Text) (mount : Mount) (m : Option Mount) (a b : ℕ)
      → mount.ready ≡ false
      → vault_key lower mount.vault ≡ key
      → IsCounted k (checked key) m a b
      → IsCounted k (inserted key) (if eq_bytes key k then some mount else m) a b
  inserts_lem key k mount none a b new own h = ground (arith, eq_bytes_iff key k)
  inserts_lem key k mount (some m) a b new own h = ground (arith, eq_bytes_iff key k)

  pub fails_lem :
      (key k : Text) (m : Option Mount) (a b : ℕ)
      → IsCounted k (inserted key) m a b
      → IsCounted k idle (if eq_bytes key k then none else m) a b
  fails_lem key k none a b h = ground (arith, eq_bytes_iff key k)
  fails_lem key k (some m) a b h = ground (arith, eq_bytes_iff key k)

  pub keeps_lem :
      (key k : Text) (thread : ℕ) (left : Option ℕ) (m : Option Mount) (a b : ℕ)
      → IsCounted k (spawned key thread) m a b
      → IsCounted k (waiting key left) (if eq_bytes key k then threaded (some thread) m else m) a b
  keeps_lem key k thread left none a b h = ground (arith, eq_bytes_iff key k)
  keeps_lem key k thread left (some m) a b h = ground (arith, eq_bytes_iff key k)

  pub readies_lem :
      (key k : Text) (left : Option ℕ) (m : Option Mount) (a b : ℕ)
      → IsCounted k (waiting key left) m a b
      → IsCounted k idle
          (if eq_bytes key k then readied m else m)
          (if eq_bytes key k then is_ready (readied m) + a else a)
          b
  readies_lem key k left none a b h = ground (arith, eq_bytes_iff key k)
  readies_lem key k left (some m) a b h = ground (arith, eq_bytes_iff key k)

  pub forgets_lem :
      (key k : Text) (left thread : Option ℕ) (m : Option Mount) (a b : ℕ)
      → IsCounted k (waiting key left) m a b
      → IsCounted k (joining key thread) (if eq_bytes key k then none else m) a b
  forgets_lem key k left thread none a b h = ground (arith, eq_bytes_iff key k)
  forgets_lem key k left thread (some m) a b h = ground (arith, eq_bytes_iff key k)

  pub closes_lem :
      (key k : Text) (phase : Phase) (m : Option Mount) (a b : ℕ)
      → IsCounted k phase m a b
      → IsCounted k phase
          (if eq_bytes key k then none else m)
          a
          (if eq_bytes key k then is_ready m + b else b)
  closes_lem key k idle none a b h = ground (arith, eq_bytes_iff key k)
  closes_lem key k idle (some m) a b h = ground (arith, eq_bytes_iff key k)
  closes_lem key k (checked other) none a b h = ground (arith, eq_bytes_iff key k)
  closes_lem key k (checked other) (some m) a b h = ground (arith, eq_bytes_iff key k)
  closes_lem key k (inserted other) none a b h = ground (arith, eq_bytes_iff key k)
  closes_lem key k (inserted other) (some m) a b h = ground (arith, eq_bytes_iff key k)
  closes_lem key k (spawned other thread) none a b h = ground (arith, eq_bytes_iff key k)
  closes_lem key k (spawned other thread) (some m) a b h = ground (arith, eq_bytes_iff key k)
  closes_lem key k (waiting other left) none a b h = ground (arith, eq_bytes_iff key k)
  closes_lem key k (waiting other left) (some m) a b h = ground (arith, eq_bytes_iff key k)
  closes_lem key k (joining other thread) none a b h = ground (arith, eq_bytes_iff key k)
  closes_lem key k (joining other thread) (some m) a b h = ground (arith, eq_bytes_iff key k)

  pub threads_lem :
      (key k : Text) (thread : Option ℕ) (phase : Phase) (m : Option Mount) (a b : ℕ)
      → IsCounted k phase m a b
      → IsCounted k phase (if eq_bytes key k then threaded thread m else m) a b
  threads_lem key k new idle none a b h = ground (arith, eq_bytes_iff key k)
  threads_lem key k new idle (some m) a b h = ground (arith, eq_bytes_iff key k)
  threads_lem key k new (checked other) none a b h = ground (arith, eq_bytes_iff key k)
  threads_lem key k new (checked other) (some m) a b h = ground (arith, eq_bytes_iff key k)
  threads_lem key k new (inserted other) none a b h = ground (arith, eq_bytes_iff key k)
  threads_lem key k new (inserted other) (some m) a b h = ground (arith, eq_bytes_iff key k)
  threads_lem key k new (spawned other thread) none a b h = ground (arith, eq_bytes_iff key k)
  threads_lem key k new (spawned other thread) (some m) a b h = ground (arith, eq_bytes_iff key k)
  threads_lem key k new (waiting other left) none a b h = ground (arith, eq_bytes_iff key k)
  threads_lem key k new (waiting other left) (some m) a b h = ground (arith, eq_bytes_iff key k)
  threads_lem key k new (joining other thread) none a b h = ground (arith, eq_bytes_iff key k)
  threads_lem key k new (joining other thread) (some m) a b h = ground (arith, eq_bytes_iff key k)
