-- ===== src/Drive/Drives/Changed.antt =====
-- What `take_thread`, `put_back` and `ended` of native/drive/src/drives/windows.rs do to the table and
-- the events, one after the other.
use desktop_folder_locker.Common.{
  ℕ, ◌≡◌, refl, sym, ap, ◌∙◌, inl, inr, Option, none, some, ◌∷◌, true, eq_bytes, if◌then◌else◌,
  Bool-cases,
}
use desktop_folder_locker.Common.Text.{Text}
use desktop_folder_locker.Vault2.Vault.Maps.{text_eq, get, eq_bytes_iff}
use desktop_folder_locker.Drive.Drives.Mounts.{
  Mount, Drives, thread_of, take_thread, put_back, ended, with_thread,
}
use desktop_folder_locker.Drive.Drives.Views.{
  view, threaded, view-take_thread, view-put_back, view-ended, moved,
}

-- The table and the events are as before.
pub record IsSame (drives drives' : Drives) : Type 0 where
  pub same_mounts : (k : Text) → get k drives'.mounts ≡ get k drives.mounts
  pub same_sent : drives'.sent ≡ drives.sent

-- The mount is out of the table, and the app was told.
pub record IsGone (key : Text) (mount : Mount) (drives drives' : Drives) : Type 0 where
  pub others :
      (k : Text) → get k drives'.mounts ≡ (if eq_bytes key k then none else get k drives.mounts)
  pub told :
      drives'.sent ≡ record { vault = mount.vault; mount_point = mount.mount_point } ∷ drives.sent

same_mount :
    (thread : Option ℕ) (m : Option Mount)
    → thread_of m ≡ thread
    → threaded thread (threaded none m) ≡ m
same_mount thread none e = refl
same_mount thread (some m) e = ap (λ t. some (record m { thread = t })) (sym e)

without_thread : (m : Option Mount) → thread_of m ≡ none → threaded none m ≡ m
without_thread none e = refl
without_thread (some m) e = ap (λ t. some (record m { thread = t })) (sym e)

sent-with_thread :
    (key : Text) (thread : Option ℕ) (m : Option Mount) (drives : Drives)
    → (with_thread key thread m drives).sent ≡ drives.sent
sent-with_thread key thread none drives = refl
sent-with_thread key thread (some mount) drives = refl

sent-take_thread : (key : Text) (drives : Drives) → (take_thread key drives).1.sent ≡ drives.sent
unfolding take_thread
sent-take_thread key drives = sent-with_thread key none (view key drives) drives

sent-put_back :
    (key : Text) (thread : ℕ) (drives : Drives) → (put_back key thread drives).sent ≡ drives.sent
unfolding put_back
sent-put_back key thread drives = sent-with_thread key (some thread) (view key drives) drives

-- The thread that was taken is put back.
pub restored :
    (key : Text) (thread : ℕ) (drives : Drives) (mount : Mount)
    → view key drives ≡ some mount
    → mount.thread ≡ some thread
    → IsSame drives (put_back key thread (take_thread key drives).1)
restored key thread drives mount e e' = record {
  same_mounts = λ k.
      view-put_back key k thread (take_thread key drives).1
      ∙ (rw (view-take_thread key k drives) (elim (Bool-cases (eq_bytes key k)) [
        | inl same ↦ rw same (
            same_mount (some thread) (view k drives)
              (rw (moved (λ j. view j drives ≡ some mount) key k e same) e'))
        | inr other ↦ rw other refl
      ]));
  same_sent = sent-put_back key thread (take_thread key drives).1 ∙ sent-take_thread key drives;
}

-- No thread was there to take.
pub took_none :
    (key : Text) (drives : Drives) (mount : Mount)
    → view key drives ≡ some mount
    → mount.thread ≡ none
    → IsSame drives (take_thread key drives).1
took_none key drives mount e e' = record {
  same_mounts = λ k. view-take_thread key k drives ∙ (elim (Bool-cases (eq_bytes key k)) [
    | inl same ↦ rw same (
        without_thread (view k drives)
          (rw (moved (λ j. view j drives ≡ some mount) key k e same) e'))
    | inr other ↦ rw other refl
  ]);
  same_sent = sent-take_thread key drives;
}

pub gone :
    (key : Text) (drives : Drives) (mount : Mount)
    → view key drives ≡ some mount
    → mount.ready ≡ true
    → IsGone key mount drives (ended key drives)
unfolding ended
gone key drives mount e ready = record {
  others = λ k. view-ended key k drives;
  told = rw e (rw ready refl);
}

pub gone_taken :
    (key : Text) (drives : Drives) (mount : Mount)
    → view key drives ≡ some mount
    → mount.ready ≡ true
    → IsGone key mount drives (ended key (take_thread key drives).1)
gone_taken key drives mount e ready =
    let taken : Drives = (take_thread key drives).1 in
    let left : view key taken ≡ some (record mount { thread = none }) =
      view-take_thread key key drives ∙ rw ((eq_bytes_iff key key).1 refl, e) refl in
    let g = gone key taken (record mount { thread = none }) left ready in
    record {
      others = λ k. g.others k ∙ (elim (Bool-cases (eq_bytes key k)) [
        | inl same ↦ rw same refl
        | inr other ↦
            let kept : view k taken ≡ view k drives =
              view-take_thread key k drives ∙ rw other refl in
            rw other kept
      ]);
      told =
          g.told
          ∙ ap (λ l. record { vault = mount.vault; mount_point = mount.mount_point } ∷ l)
              (sent-take_thread key drives);
    }

pub gone-take_thread :
    (key : Text) (drives : Drives)
    → view key drives ≡ none
    → (take_thread key drives) ≡ (none, drives)
unfolding take_thread
gone-take_thread key drives e = rw e refl

pub gone-put_back :
    (key : Text) (thread : ℕ) (drives : Drives)
    → view key drives ≡ none
    → put_back key thread drives ≡ drives
unfolding put_back
gone-put_back key thread drives e = rw e refl

pub taken_first :
    (key : Text) (drives : Drives) (mount : Mount)
    → view key drives ≡ some mount
    → (take_thread key drives).0 ≡ mount.thread
unfolding take_thread
taken_first key drives mount e = rw e refl

pub no_view : (key : Text) (drives : Drives) → view key (ended key drives) ≡ none
no_view key drives = view-ended key key drives ∙ rw ((eq_bytes_iff key key).1 refl) refl
