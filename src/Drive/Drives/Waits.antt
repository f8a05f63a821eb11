-- ===== src/Drive/Drives/Waits.antt =====
-- The two waits of `Drives::unmount` of native/drive/src/drives/windows.rs: for files that are open
-- for a moment, and for the thread of the drive. What the looks at the counter, the thread and the
-- clock see is given.
use desktop_folder_locker.Common.{
  ℕ, zero, suc, ◌+◌, ◌*◌, ◌≤◌, ◌<◌, ◌≡◌, refl, inl, inr, Option, none, some, Bool, true, false, not,
  ◌&&◌, ◌==◌, ==_iff, ◌≢◌, subst, leb, ltb, if◌then◌else◌, arith, Bool-cases,
}
use desktop_folder_locker.Vault2.Vault.Maps.{text_eq}

-- What the looks see, the first one at 0; times are in milliseconds since the wait began.
pub record Looks : Type 0 where
  pub open_files : ℕ → ℕ
  pub files_clock : ℕ → ℕ
  pub finished : ℕ → Bool
  pub thread_clock : ℕ → ℕ

abbrev pub in_use_grace : ℕ
in_use_grace = 2000

abbrev pub unmount_timeout : ℕ
unmount_timeout = 15000

-- Whether no file is open at a look before the grace is over; none if the fuel is.
unfoldable pub no_open_files : ℕ → ℕ → Looks → Option Bool
no_open_files zero n looks = none
no_open_files (suc fuel) n looks =
    let rest = no_open_files fuel (suc n) looks in
    if looks.open_files n == 0
    then some true
    else if leb in_use_grace (looks.files_clock n)
    then some false
    else rest

-- Whether the thread is finished at the look after the wait.
unfoldable pub wait_for_thread : ℕ → ℕ → Looks → Option Bool
wait_for_thread zero n looks = none
wait_for_thread (suc fuel) n looks =
    let rest = wait_for_thread fuel (suc n) looks in
    if not (looks.finished n) && ltb (looks.thread_clock n) unmount_timeout
    then rest
    else some (looks.finished (suc n))

-- One look each 100 and each 50 milliseconds, and the one that sees that the time is over.
abbrev pub file_looks : ℕ
file_looks = 21

abbrev pub thread_looks : ℕ
thread_looks = 301

-- The clock goes at least as far as the thread sleeps between two looks.
abbrev pub IsClocked : Looks → Type 0
IsClocked looks = (n : ℕ) → (n * 100 ≤ looks.files_clock n) × (n * 50 ≤ looks.thread_clock n)

-- What the answer says of the looks from the one at `n` on: a look in time sees no file open, or
-- there is one open at each look until the grace is over.
abbrev pub IsAnswered : Looks → ℕ → Bool → Type 0
IsAnswered looks n true =
    (m : ℕ) × (looks.open_files m ≡ 0)
    × (n ≤ m)
    × ((j : ℕ) → n ≤ j → j < m → looks.files_clock j < in_use_grace)
IsAnswered looks n false =
    (m : ℕ) × (in_use_grace ≤ looks.files_clock m)
    × (n ≤ m)
    × ((j : ℕ) → n ≤ j → j ≤ m → looks.open_files j ≢ 0)

from_here : (P : ℕ → Type 0) (n j : ℕ) → n ≤ j → P n → (suc n ≤ j → P j) → P j
from_here P n j low here later = elim (Bool-cases (n == j)) [
  | inl same ↦ subst P ((==_iff n j).0 same) here
  | inr other ↦ later (ground (arith, ==_iff n j))
]

one_more :
    (looks : Looks) (n : ℕ) (answer : Bool)
    → looks.open_files n ≢ 0
    → looks.files_clock n < in_use_grace
    → IsAnswered looks (suc n) answer
    → IsAnswered looks n answer
one_more looks n true used early (m, no_file, le, before) = (
  m,
  no_file,
  omega arith,
  λ j low high.
      from_here (λ i. looks.files_clock i < in_use_grace) n j low early
        (λ more. before j more high),
)
one_more looks n false used early (m, late, le, before) = (
  m,
  late,
  omega arith,
  λ j low high. from_here (λ i. looks.open_files i ≢ 0) n j low used (λ more. before j more high),
)

no_open_files_from :
    (looks : Looks) (fuel n : ℕ)
    → IsClocked looks
    → n ≤ 20
    → 20 < n + fuel
    → (answer : Bool) × (no_open_files fuel n looks ≡ some answer) × IsAnswered looks n answer
unfolding no_open_files
no_open_files_from looks zero n h low enough = absurd (omega arith)
no_open_files_from looks (suc fuel) n h low enough = elim (Bool-cases (looks.open_files n == 0)) [
  | inl free ↦ rw free (
    true,
    refl,
    (n, (==_iff (looks.open_files n) 0).0 free, omega arith, λ j first high. absurd (omega arith)),
  )
  | inr used ↦ elim (Bool-cases (leb in_use_grace (looks.files_clock n))) [
    | inl late ↦
        rw (used, late)
          (
            false,
            refl,
            (
              n,
              ground arith,
              omega arith,
              λ j first high.
                  from_here (λ i. looks.open_files i ≢ 0) n j first
                    (ground (arith, ==_iff (looks.open_files n) 0)) (λ more. absurd (omega arith)),
            ),
          )
    | inr early ↦
        let in_time : looks.files_clock n < in_use_grace = ground arith in
        let (answer, e, answered) =
          no_open_files_from looks fuel (suc n) h (omega (arith, (h n).0)) (omega arith) in
        rw (used, early)
          (
            answer,
            e,
            one_more looks n answer (ground (arith, ==_iff (looks.open_files n) 0)) in_time
                answered,
          )
  ]
]

pub wait_for_thread_from :
    (looks : Looks) (fuel n : ℕ)
    → IsClocked looks
    → n ≤ 300
    → 300 < n + fuel
    → (m : ℕ) × (m ≤ 301) × (wait_for_thread fuel n looks ≡ some (looks.finished m))
unfolding wait_for_thread
wait_for_thread_from looks zero n h low enough = absurd (omega arith)
wait_for_thread_from looks (suc fuel) n h low enough =
    elim (Bool-cases (not (looks.finished n) && ltb (looks.thread_clock n) unmount_timeout)) [
      | inl goes_on ↦
          let in_time : looks.thread_clock n < unmount_timeout = ground arith in
          let (m, le, e) =
            wait_for_thread_from looks fuel (suc n) h (omega (arith, (h n).1)) (omega arith) in
          rw goes_on (m, le, e)
      | inr over ↦ rw over (suc n, omega arith, refl)
    ]

-- The wait for the files returns after at most 21 looks: with yes if a look before the grace was
-- over saw no open file, with no if every look until then saw one.
pub no_open_files-IsAnswered :
    (looks : Looks)
    → IsClocked looks
    → (answer : Bool) × (no_open_files file_looks 0 looks ≡ some answer) × IsAnswered looks 0 answer
no_open_files-IsAnswered looks h =
    no_open_files_from looks file_looks 0 h (omega arith) (omega arith)

-- A look in time is one of the first 21.
pub no_file_early :
    (looks : Looks)
    → IsClocked looks
    → IsAnswered looks 0 true
    → (m : ℕ) × (m ≤ 20) × (looks.open_files m ≡ 0)
no_file_early looks h (zero, no_file, _, before) = (0, omega arith, no_file)
no_file_early looks h (suc m, no_file, _, before) =
    (suc m, omega (arith, before m (omega arith) (omega arith), (h m).0), no_file)
