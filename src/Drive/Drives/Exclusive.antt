-- ===== src/Drive/Drives/Exclusive.antt =====
-- No vault is open twice, by the table of native/drive/src/drives/windows.rs, as long as no
-- `unmount` takes the thread of a newer mount; and how it is open twice otherwise.
use desktop_folder_locker.Common.{
  ℕ, ◌≤◌, ◌≡◌, ◌≢◌, ◌⊎◌, refl, inl, inr, Option, none, some, true, eq_bytes, arith, Bool-cases,
  subst,
}
use desktop_folder_locker.Common.Text.{Text}
use desktop_folder_locker.Vault2.Vault.Maps.{text_eq, get}
use desktop_folder_locker.Drive.Drives.Mounts.{
  Mount, set_thread, forget, check_free, or_else, thread_of,
}
use desktop_folder_locker.Drive.Drives.Mounting.{
  World, Phase, idle, checked, inserted, spawned, waiting, joining, Step, begins, gives_up, inserts,
  fails_to_spawn, spawns, keeps, becomes_ready, forgets, joins, closes, finds, takes, puts_back,
  Reaches, starts, then_does, is_ready, count,
}
use desktop_folder_locker.Drive.Drives.Views.{
  view, view-insert_mount, view-remove_mount, view-set_thread, view-mark_ready, view-forget,
  view-ended, view-take_thread, view-put_back, count-cons, count-without, moved, free_lem,
}
use desktop_folder_locker.Drive.Drives.Held.{
  IsServed, IsHeld, IsExclusive, checks, inserts_lem, fails_lem, keeps_lem, readies_lem,
  forgets_lem, joins_lem, closes_lem, takes_lem, puts_lem,
}

at_phase :
    (k : Text) (w : World) (phase : Phase)
    → w.phase ≡ phase
    → IsExclusive k w
    → IsHeld k phase (view k w.drives) (count k w.served)
at_phase k w phase e h = subst (λ p. IsHeld k p (view k w.drives) (count k w.served)) e h

held :
    (k : Text) (phase : Phase) {m m' : Option Mount} {n n' : ℕ}
    → m ≡ m'
    → n ≡ n'
    → IsHeld k phase m' n'
    → IsHeld k phase m n
held k phase e e' h = rw (e, e') h

Step-IsExclusive :
    (lower : Text → Text) (k : Text) {w w' : World}
    → Step lower true w w'
    → IsExclusive k w
    → IsExclusive k w'
Step-IsExclusive lower k (begins w key e free) h =
    checks key k (view k w.drives) (count k w.served) (at_phase k w idle e h) (
      moved (λ j. view j w.drives ≡ none) key k
        (free_lem (view key w.drives) (unfold check_free in free)))
Step-IsExclusive lower k (gives_up w key e) h = (at_phase k w (checked key) e h).0
Step-IsExclusive lower k (inserts w key vault mount_point open_files e v) h =
    held k (inserted key) (view-insert_mount key k vault mount_point open_files w.drives)
      (count-cons key k w.served)
      (inserts_lem key k _ (view k w.drives) (count k w.served) refl
        (at_phase k w (checked key) e h))
Step-IsExclusive lower k (fails_to_spawn w key e) h =
    held k idle (view-remove_mount key k w.drives) (count-without key k w.served)
      (fails_lem key k (view k w.drives) (count k w.served) (at_phase k w (inserted key) e h))
Step-IsExclusive lower k (spawns w key thread e) h = at_phase k w (inserted key) e h
Step-IsExclusive lower k (keeps w key thread e) h =
    held k (waiting key (set_thread key thread w.drives).0) (view-set_thread key k thread w.drives)
      refl
      (keeps_lem key k thread (set_thread key thread w.drives).0 (view k w.drives)
        (count k w.served) (at_phase k w (spawned key thread) e h))
Step-IsExclusive lower k (becomes_ready w key left e) h =
    held k idle (view-mark_ready key k w.drives) refl (
      readies_lem key k left (view k w.drives) (count k w.served)
        (at_phase k w (waiting key left) e h))
Step-IsExclusive lower k (forgets w key left e) h =
    held k (joining key (forget key left w.drives).0) (view-forget key k left w.drives) refl (
      forgets_lem key k left (forget key left w.drives).0 (view k w.drives) (count k w.served)
        (moved (λ j. (forget key left w.drives).0 ≡ or_else left (thread_of (view j w.drives))) key
          k (unfold forget in refl))
        (at_phase k w (waiting key left) e h))
Step-IsExclusive lower k (joins w key thread e at_end) h =
    joins_lem key k thread (view k w.drives) (count k w.served)
      (moved (λ j. (thread ≡ none) ⊎ (count j w.served ≡ 0)) key k at_end)
      (at_phase k w (joining key thread) e h)
Step-IsExclusive lower k (closes w key is_open runs) h =
    held k w.phase (view-ended key k w.drives) (count-without key k w.served) (
      closes_lem key k w.phase (view k w.drives) (count k w.served)
        (moved (λ j. count j w.served ≢ 0) key k is_open) h)
Step-IsExclusive lower k (finds w key mount e) h = h
Step-IsExclusive lower k (takes w key e careful) h =
    held k w.phase (view-take_thread key k w.drives) refl (
      takes_lem key k w.phase (view k w.drives) (count k w.served)
        (moved (λ j. is_ready (view j w.drives) ≡ 1) key k (careful refl)) h)
Step-IsExclusive lower k (puts_back w key thread e) h =
    held k w.phase (view-put_back key k thread w.drives) refl
      (puts_lem key k thread w.phase (view k w.drives) (count k w.served) h)

Reaches-IsExclusive :
    (lower : Text → Text) (k : Text) {w : World} → Reaches lower true w → IsExclusive k w
unfolding count get
Reaches-IsExclusive lower k starts = refl
Reaches-IsExclusive lower k (then_does r step) =
    Step-IsExclusive lower k step (Reaches-IsExclusive lower k r)

served_once : (k : Text) (phase : Phase) (m : Option Mount) (n : ℕ) → IsHeld k phase m n → n ≤ 1
served_once k idle none n h = ground arith
served_once k idle (some m) n h = ground arith
served_once k (checked key) none n h = ground arith
served_once k (checked key) (some m) n h = ground arith
served_once k (inserted key) none n h = ground arith
served_once k (inserted key) (some m) n h = ground arith
served_once k (spawned key thread) none n h = ground arith
served_once k (spawned key thread) (some m) n h = ground arith
served_once k (waiting key left) none n h = ground arith
served_once k (waiting key left) (some m) n h = ground arith
served_once k (joining key thread) none n h = elim (Bool-cases (eq_bytes key k)) [
  | inl e ↦ ground (arith, h.1 e)
  | inr e ↦ ground (arith, h.0 e)
]
served_once k (joining key thread) (some m) n h = elim (Bool-cases (eq_bytes key k)) [
  | inl e ↦ ground (arith, h.1 e)
  | inr e ↦ ground (arith, h.0 e)
]

-- However the threads run, at most one vault of a key is open at a time, and once nothing is being
-- mounted a vault is open exactly as long as its mount stands in the table, if no `unmount` takes
-- the thread of a mount that is not ready.
pub served-once :
    (lower : Text → Text) (k : Text) (w : World)
    → Reaches lower true w
    → (count k w.served ≤ 1)
      × (w.phase ≡ idle → IsServed (get k w.drives.mounts) (count k w.served))
served-once lower k w r =
    let h = Reaches-IsExclusive lower k r in
    (served_once k w.phase (view k w.drives) (count k w.served) h, λ e. at_phase k w idle e h)
