-- ===== src/Drive/Drives/Answers.antt =====
-- What `Drives::unmount` of native/drive/src/drives/windows.rs answers, while the drive may close:
-- its thread calls `ended` before it is finished. Nobody else mounts or unmounts meanwhile.
use desktop_folder_locker.Common.{
  ℕ, ◌≤◌, ◌≡◌, ◌⊎◌, refl, sym, inl, inr, Option, none, some, Bool, true, false, ◌||◌, if◌then◌else◌,
  arith, Bool-cases, Option-cases,
}
use desktop_folder_locker.Common.Text.{Text}
use desktop_folder_locker.Vault2.Vault.Maps.{text_eq, get}
use desktop_folder_locker.Drive.Protocol.{Reply, done, failed}
use desktop_folder_locker.Drive.Drives.Mounts.{Mount, Drives, find_ready, take_thread, ended}
use desktop_folder_locker.Drive.Drives.Views.{view}
use desktop_folder_locker.Drive.Drives.Unmounting.{unmount, found_for, after_files, waited, closed}
use desktop_folder_locker.Drive.Drives.Waits.{
  Looks, IsClocked, wait_for_thread, thread_looks, IsAnswered, no_open_files-IsAnswered,
  wait_for_thread_from, no_file_early,
}
use desktop_folder_locker.Drive.Drives.Changed.{
  IsSame, IsGone, restored, took_none, gone, gone_taken, gone-take_thread, gone-put_back,
  taken_first, no_view,
}

-- What the drive's own thread does to the table: `closes 0` says whether it closes before `unmount`
-- takes the thread, `closes 1` whether before the end of the wait for it.
abbrev pub closing : Text → (ℕ → Bool) → ℕ → Drives → Drives
closing key closes n drives = if closes n then ended key drives else drives

-- What an answer says of the table before and after it.
abbrev pub IsUnmounted : Text → Bool → Looks → (ℕ → Bool) → Drives → Reply Text → Drives → Type 0
IsUnmounted key force looks closes drives (failed f) drives' =
    IsSame drives drives'
    ⊎ ((mount : Mount) × (get key drives.mounts ≡ some mount)
        × ((closes 0 || closes 1) ≡ true)
        × IsGone key mount drives drives')
IsUnmounted key force looks closes drives (done mount_point) drives' =
    (mount : Mount) × (get key drives.mounts ≡ some mount)
    × (mount.ready ≡ true)
    × (mount_point ≡ mount.mount_point)
    × ((force ≡ true) ⊎ ((m : ℕ) × (m ≤ 20) × (looks.open_files m ≡ 0)))
    × (IsGone key mount drives drives' ⊎ ((mount.thread ≡ none) × IsSame drives drives'))

abbrev Returns : Text → Bool → Looks → (ℕ → Bool) → Drives → Option (Reply Text × Drives) → Type 0
Returns key force looks closes drives result =
    (reply : Reply Text) × (drives' : Drives) × (result ≡ some (reply, drives'))
    × IsUnmounted key force looks closes drives reply drives'

abbrev MayUnmount : Bool → Looks → Type 0
MayUnmount force looks = (force ≡ true) ⊎ ((m : ℕ) × (m ≤ 20) × (looks.open_files m ≡ 0))

module _ (key : Text) (force : Bool) (looks : Looks) (closes : ℕ → Bool) (drives : Drives)
    (mount : Mount) (h : IsClocked looks) (e : view key drives ≡ some mount)
    (ready : mount.ready ≡ true)
    (finishes : (m : ℕ) → looks.finished m ≡ true → (closes 0 || closes 1) ≡ true) where
  -- After the wait for a thread that was taken.
  after_thread :
      (thread : ℕ) (answer : Bool)
      → mount.thread ≡ some thread
      → closes 0 ≡ false
      → (answer ≡ true → closes 1 ≡ true)
      → MayUnmount force looks
      → Returns key force looks closes drives
          (closed key thread mount (some answer) (closing key closes 1 (take_thread key drives).1))
  after_thread thread true e' stays must may = rw (must refl) (
    _,
    ended key (take_thread key drives).1,
    refl,
    (mount, e, ready, refl, may, inl (gone_taken key drives mount e ready)),
  )
  after_thread thread false e' stays must may = elim (Bool-cases (closes 1)) [
    | inl shut ↦
        rw
          (
            shut,
            gone-put_back key thread (ended key (take_thread key drives).1)
                (no_view key (take_thread key drives).1),
          )
          (
            _,
            ended key (take_thread key drives).1,
            refl,
            inr (mount, e, rw (stays, shut) refl, gone_taken key drives mount e ready),
          )
    | inr left ↦ rw left (_, _, refl, inl (restored key thread drives mount e e'))
  ]

  after_take :
      (taken : Option ℕ)
      → mount.thread ≡ taken
      → closes 0 ≡ false
      → MayUnmount force looks
      → Returns key force looks closes drives (
          waited key mount
            (wait_for_thread thread_looks 0 looks)
            (closing key closes 1)
            (taken, (take_thread key drives).1))
  after_take none e' stays may =
      (_, _, refl, (mount, e, ready, refl, may, inr (e', took_none key drives mount e e')))
  after_take (some thread) e' stays may =
      let (m, _, f) = wait_for_thread_from looks thread_looks 0 h (omega arith) (omega arith) in
      rw f (
        after_thread thread (looks.finished m) e' stays (λ q. ground (arith, finishes m q, stays))
          may)

  after_look :
      (answer : Bool)
      → (answer ≡ true → MayUnmount force looks)
      → Returns key force looks closes drives (
          after_files key mount
            (some answer)
            thread_looks
            looks
            (closing key closes)
            (closing key closes 0 drives))
  after_look true may = elim (Bool-cases (closes 0)) [
    | inl shut ↦
        rw (shut, gone-take_thread key (ended key drives) (no_view key drives))
          (_, _, refl, (mount, e, ready, refl, may refl, inl (gone key drives mount e ready)))
    | inr stays ↦ rw stays (
        after_take (take_thread key drives).0 (sym (taken_first key drives mount e)) stays
          (may refl))
  ]
  after_look false may = elim (Bool-cases (closes 0)) [
    | inl shut ↦ rw shut (_, _, refl, inr (mount, e, rw shut refl, gone key drives mount e ready))
    | inr stays ↦ rw stays (_, _, refl, inl (record { same_mounts = λ k. refl; same_sent = refl }))
  ]

may_unmount :
    (force : Bool) (looks : Looks) (answer : Bool)
    → IsClocked looks
    → IsAnswered looks 0 answer
    → answer ≡ true
    → MayUnmount force looks
may_unmount force looks true h answered q = inr (no_file_early looks h answered)
may_unmount force looks false h answered q = absurd (ground (arith, q))

after_find :
    (key : Text) (force : Bool) (looks : Looks) (closes : ℕ → Bool) (drives : Drives)
    (mount : Mount)
    → IsClocked looks
    → view key drives ≡ some mount
    → mount.ready ≡ true
    → ((m : ℕ) → looks.finished m ≡ true → (closes 0 || closes 1) ≡ true)
    → Returns key force looks closes drives
        (found_for key force looks (closing key closes) (done mount) drives)
after_find key true looks closes drives mount h e ready finishes =
    after_look key true looks closes drives mount h e ready finishes true (λ q. inl refl)
after_find key false looks closes drives mount h e ready finishes =
    let (answer, f, answered) = no_open_files-IsAnswered looks h in
    rw f (
      after_look key false looks closes drives mount h e ready finishes answer
        (may_unmount false looks answer h answered))

-- If the clock goes on, nobody else mounts or unmounts, and a thread that is seen finished has
-- closed its drive, `unmount` returns. If it fails, the table and the events are as before, or the
-- drive closed meanwhile, its mount is gone from the table, the others stay and the app was told
-- once. If it succeeds, the drive was ready, one of the first 21 looks saw no open file unless it
-- was forced, and the mount is gone and the app told once, unless another unmount had taken the
-- thread: then the table may also be as before.
pub unmount-IsUnmounted :
    (key : Text) (force : Bool) (looks : Looks) (closes : ℕ → Bool) (drives : Drives)
    → IsClocked looks
    → ((m : ℕ) → looks.finished m ≡ true → (closes 0 || closes 1) ≡ true)
    → (reply : Reply Text) × (drives' : Drives) × (unmount key force looks
          (closing key closes)
          drives
        ≡ some (reply, drives'))
      × IsUnmounted key force looks closes drives reply drives'
unfolding unmount find_ready
unmount-IsUnmounted key force looks closes drives h finishes =
    elim (Option-cases (get key drives.mounts)) [
      | inl missing ↦
          rw missing (_, drives, refl, inl (record { same_mounts = λ k. refl; same_sent = refl }))
      | inr (mount, e) ↦ elim (Bool-cases mount.ready) [
        | inl ready ↦
            rw (e, ready) (after_find key force looks closes drives mount h e ready finishes)
        | inr coming ↦
            rw (e, coming)
              (_, drives, refl, inl (record { same_mounts = λ k. refl; same_sent = refl }))
      ]
    ]
