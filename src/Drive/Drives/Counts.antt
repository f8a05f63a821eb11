-- ===== src/Drive/Drives/Counts.antt =====
-- What the app is told of the drives of native/drive/src/drives/windows.rs: a drive that `mount`
-- answered is told to be gone exactly once, when it is.
use desktop_folder_locker.Common.{
  ℕ, ◌+◌, ◌≡◌, refl, Option, none, some, List, Bool, eq_bytes_refl, subst, ap,
}
use desktop_folder_locker.Common.Text.{Text}
use desktop_folder_locker.Vault2.Vault.Maps.{text_eq, get}
use desktop_folder_locker.Drive.Drives.Mounts.{
  Mount, Event, insert_mount, remove_mount, set_thread, forget, take_thread, put_back, check_free,
}
use desktop_folder_locker.Drive.Drives.Mounting.{
  World, Phase, idle, checked, inserted, spawned, waiting, joining, Step, begins, gives_up, inserts,
  fails_to_spawn, spawns, keeps, becomes_ready, forgets, joins, closes, finds, takes, puts_back,
  Reaches, starts, then_does, is_ready, count,
}
use desktop_folder_locker.Drive.Drives.Views.{
  view, view-insert_mount, view-remove_mount, view-set_thread, view-mark_ready, view-forget,
  view-ended, view-take_thread, view-put_back, moved, free_lem,
}
use desktop_folder_locker.Drive.Drives.Counted.{
  keys, IsKeyed, IsCounted, IsTrue, sent-set_thread, sent-mark_ready, sent-with_thread, sent-ended,
  answered-mark_ready, begins_lem, inserts_lem, fails_lem, keeps_lem, readies_lem, forgets_lem,
  closes_lem, threads_lem,
}

module _ (lower : Text → Text) where
  at_phase :
      (k : Text) (w : World) (phase : Phase)
      → w.phase ≡ phase
      → IsTrue lower k w
      → IsCounted lower k phase
          (view k w.drives)
          (count k w.reported)
          (count k (keys lower w.drives.sent))
  at_phase k w phase e h =
      subst
        (λ p.
          IsCounted lower k p (view k w.drives) (count k w.reported)
            (count k (keys lower w.drives.sent)))
        e h

  counted :
      (k : Text) (phase : Phase) {m m' : Option Mount} {a a' b b' : ℕ}
      → m ≡ m'
      → a ≡ a'
      → b ≡ b'
      → IsCounted lower k phase m' a' b'
      → IsCounted lower k phase m a b
  counted k phase e e' e'' h = rw (e, e', e'') h

  of_sent :
      (k : Text) {sent sent' : List Event}
      → sent ≡ sent'
      → count k (keys lower sent) ≡ count k (keys lower sent')
  of_sent k e = ap (λ l. count k (keys lower l)) e

  Step-IsTrue :
      {careful : Bool} {w w' : World}
      → Step lower careful w w'
      → ((k : Text) → IsTrue lower k w)
      → (k : Text) → IsTrue lower k w'
  unfolding check_free insert_mount remove_mount forget take_thread put_back
  Step-IsTrue (begins w key e free) h k =
      begins_lem lower key k (view k w.drives) (count k w.reported)
        (count k (keys lower w.drives.sent)) (at_phase k w idle e (h k))
        (moved (λ j. view j w.drives ≡ none) key k (free_lem (view key w.drives) free))
  Step-IsTrue (gives_up w key e) h k = ((h k).0, (h k).1, tt)
  Step-IsTrue (inserts w key vault mount_point open_files e own) h k =
      counted k (inserted key) (view-insert_mount key k vault mount_point open_files w.drives) refl
        refl
        (inserts_lem lower key k _ (view k w.drives) (count k w.reported)
          (count k (keys lower w.drives.sent)) refl own (at_phase k w (checked key) e (h k)))
  Step-IsTrue (fails_to_spawn w key e) h k =
      counted k idle (view-remove_mount key k w.drives) refl refl (
        fails_lem lower key k (view k w.drives) (count k w.reported)
          (count k (keys lower w.drives.sent)) (at_phase k w (inserted key) e (h k)))
  Step-IsTrue (spawns w key thread e) h k = at_phase k w (inserted key) e (h k)
  Step-IsTrue (keeps w key thread e) h k =
      counted k (waiting key (set_thread key thread w.drives).0)
        (view-set_thread key k thread w.drives) refl
        (of_sent k (sent-set_thread lower key thread w.drives))
        (keeps_lem lower key k thread (set_thread key thread w.drives).0 (view k w.drives)
          (count k w.reported) (count k (keys lower w.drives.sent))
          (at_phase k w (spawned key thread) e (h k)))
  Step-IsTrue (becomes_ready w key left e) h k =
      counted k idle (view-mark_ready key k w.drives)
        (answered-mark_ready lower key k w.drives w.reported
          ((at_phase key w (waiting key left) e (h key)).2 (eq_bytes_refl key)))
        (of_sent k (sent-mark_ready lower key w.drives))
        (readies_lem lower key k left (view k w.drives) (count k w.reported)
          (count k (keys lower w.drives.sent)) (at_phase k w (waiting key left) e (h k)))
  Step-IsTrue (forgets w key left e) h k =
      counted k (joining key (forget key left w.drives).0) (view-forget key k left w.drives) refl
        refl
        (forgets_lem lower key k left (forget key left w.drives).0 (view k w.drives)
          (count k w.reported) (count k (keys lower w.drives.sent))
          (at_phase k w (waiting key left) e (h k)))
  Step-IsTrue (joins w key thread e at_end) h k = ((h k).0, (h k).1, tt)
  Step-IsTrue (closes w key is_open runs) h k =
      counted k w.phase (view-ended key k w.drives) refl (sent-ended lower key k w.drives (h key).0)
        (closes_lem lower key k w.phase (view k w.drives) (count k w.reported)
          (count k (keys lower w.drives.sent)) (h k))
  Step-IsTrue (finds w key mount e) h k = h k
  Step-IsTrue (takes w key e careful) h k =
      counted k w.phase (view-take_thread key k w.drives) refl
        (of_sent k (sent-with_thread lower key none (view key w.drives) w.drives))
        (threads_lem lower key k none w.phase (view k w.drives) (count k w.reported)
          (count k (keys lower w.drives.sent)) (h k))
  Step-IsTrue (puts_back w key thread e) h k =
      counted k w.phase (view-put_back key k thread w.drives) refl
        (of_sent k (sent-with_thread lower key (some thread) (view key w.drives) w.drives))
        (threads_lem lower key k (some thread) w.phase (view k w.drives) (count k w.reported)
          (count k (keys lower w.drives.sent)) (h k))

  Reaches-IsTrue :
      {careful : Bool} {w : World} → Reaches lower careful w → (k : Text) → IsTrue lower k w
  unfolding count get keys
  Reaches-IsTrue starts k = (tt, refl, tt)
  Reaches-IsTrue (then_does r step) k = Step-IsTrue step (Reaches-IsTrue r) k

  -- However the threads run, each vault was answered as mounted as often as the app was told that
  -- its drive is gone, and once more if a ready mount of it stands in the table, which stands at
  -- the key of its vault.
  pub reported-sent :
      (careful : Bool) (k : Text) (w : World)
      → Reaches lower careful w
      → (count k w.reported ≡ is_ready (get k w.drives.mounts) + count k (keys lower w.drives.sent))
        × IsKeyed lower k (get k w.drives.mounts)
  reported-sent careful k w r = ((Reaches-IsTrue r k).1, (Reaches-IsTrue r k).0)
