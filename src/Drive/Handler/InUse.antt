-- ===== src/Drive/Handler/InUse.antt =====
-- How many files programs have open on a drive: `open_new`, `release`, `cleanup` and `close_file`
-- of handler.rs. The handles are numbered as they are opened, each with its flag `in_use`.
use desktop_folder_locker.Common.{
  ℕ, zero, suc, ◌+◌, ◌-◌, ◌/◌, ◌%◌, ◌^◌, ◌≤◌, ◌<◌, ◌≡◌, inl, inr, refl, sym, ap, ◌∙◌, List, [], ◌∷◌,
  ◌++◌, Bool, true, false, ◌||◌, ◌==◌, if◌then◌else◌, length, arith, length-append, Bool-cases,
}
use native.Mathlib.Nat.{mod-eq_of_lt}

pub record Files : Type 0 where
  pub open_files : ℕ
  pub in_use : List Bool

abbrev pub no_files : Files
no_files = record { open_files = 0; in_use = [] }

-- The bits of `DATA_ACCESS`: to read, write, append or execute, and the generic ones.
abbrev pub data_access : List ℕ
data_access = 0 ∷ 1 ∷ 2 ∷ 5 ∷ 28 ∷ 29 ∷ 30 ∷ 31 ∷ []

-- `access & mask != 0`
unfoldable pub has_any : ℕ → List ℕ → Bool
has_any access [] = false
has_any access (bit ∷ mask) = (access / 2 ^ bit) % 2 == 1 || has_any access mask

-- `fetch_add` and `fetch_sub` wrap around.
abbrev pub fetch_add : ℕ → ℕ
fetch_add n = (n + 1) % 2 ^ 64

abbrev pub fetch_sub : ℕ → ℕ
fetch_sub n = (n + (2 ^ 64 - 1)) % 2 ^ 64

unfoldable pub open_new : ℕ → Files → Files
open_new desired_access files =
    let in_use = has_any desired_access data_access in
    record {
      open_files = if in_use then fetch_add files.open_files else files.open_files;
      in_use = files.in_use ++ in_use ∷ [];
    }

unfoldable pub is_in_use : List Bool → ℕ → Bool
is_in_use [] handle = false
is_in_use (b ∷ flags) zero = b
is_in_use (b ∷ flags) (suc handle) = is_in_use flags handle

unfoldable pub clear_flag : List Bool → ℕ → List Bool
clear_flag [] handle = []
clear_flag (b ∷ flags) zero = false ∷ flags
clear_flag (b ∷ flags) (suc handle) = b ∷ clear_flag flags handle

-- `release`, which `cleanup` and later `close_file` call.
unfoldable pub release : ℕ → Files → Files
release handle files =
    if is_in_use files.in_use handle
    then record { open_files = fetch_sub files.open_files; in_use = clear_flag files.in_use handle }
    else files

pub data Event : Type 0 where
  opens : (desired_access : ℕ) → Event
  cleans_up : (handle : ℕ) → Event
  closes : (handle : ℕ) → Event

abbrev pub step : Event → Files → Files
step (Event.opens desired_access) files = open_new desired_access files
step (Event.cleans_up handle) files = release handle files
step (Event.closes handle) files = release handle files

unfoldable pub run : List Event → Files → Files
run [] files = files
run (event ∷ events) files = run events (step event files)

unfoldable pub count_in_use : List Bool → ℕ
count_in_use [] = 0
count_in_use (true ∷ flags) = suc (count_in_use flags)
count_in_use (false ∷ flags) = count_in_use flags

count_in_use-append :
    (flags : List Bool) (b : Bool)
    → count_in_use (flags ++ b ∷ []) ≡ count_in_use flags + (if b then 1 else 0)
unfolding count_in_use
count_in_use-append [] true = refl
count_in_use-append [] false = refl
count_in_use-append (true ∷ flags) b = omega (arith, count_in_use-append flags b)
count_in_use-append (false ∷ flags) b = count_in_use-append flags b

count_in_use-le : (flags : List Bool) → count_in_use flags ≤ length flags
unfolding count_in_use
count_in_use-le [] = omega arith
count_in_use-le (true ∷ flags) = omega (arith, count_in_use-le flags)
count_in_use-le (false ∷ flags) = omega (arith, count_in_use-le flags)

count_in_use-clear_flag :
    (flags : List Bool) (handle : ℕ)
    → is_in_use flags handle ≡ true
    → suc (count_in_use (clear_flag flags handle)) ≡ count_in_use flags
unfolding count_in_use is_in_use clear_flag
count_in_use-clear_flag [] handle h = absurd (ground arith)
count_in_use-clear_flag (true ∷ flags) zero h = refl
count_in_use-clear_flag (false ∷ flags) zero h = absurd (ground arith)
count_in_use-clear_flag (true ∷ flags) (suc handle) h =
    ap suc (count_in_use-clear_flag flags handle h)
count_in_use-clear_flag (false ∷ flags) (suc handle) h = count_in_use-clear_flag flags handle h

length-clear_flag :
    (flags : List Bool) (handle : ℕ) → length (clear_flag flags handle) ≡ length flags
unfolding clear_flag
length-clear_flag [] handle = refl
length-clear_flag (b ∷ flags) zero = refl
length-clear_flag (b ∷ flags) (suc handle) = ap suc (length-clear_flag flags handle)

is_in_use-clear_flag :
    (flags : List Bool) (handle : ℕ) → is_in_use (clear_flag flags handle) handle ≡ false
unfolding is_in_use clear_flag
is_in_use-clear_flag [] handle = refl
is_in_use-clear_flag (b ∷ flags) zero = refl
is_in_use-clear_flag (b ∷ flags) (suc handle) = is_in_use-clear_flag flags handle

abbrev Counts : ℕ → Files → Type 0
Counts limit files = (files.open_files ≡ count_in_use files.in_use) × (length files.in_use ≤ limit)

counted :
    (b : Bool) (n before after : ℕ)
    → n ≡ before
    → after ≡ before + (if b then 1 else 0)
    → suc before < 2 ^ 64
    → (if b then fetch_add n else n) ≡ after
counted true n before after e e' small =
    mod-eq_of_lt (let z : n + 1 < 2 ^ 64 = omega arith in z) ∙ omega arith
counted false n before after e e' small = omega arith

fetch_sub_lem : (n m : ℕ) → suc m ≡ n → n < 2 ^ 64 → fetch_sub n ≡ m
fetch_sub_lem n m e small = omega arith

open_new-Counts :
    (access limit : ℕ) (files : Files)
    → suc limit < 2 ^ 64
    → Counts limit files
    → Counts (suc limit) (open_new access files)
unfolding open_new
open_new-Counts access limit files small (e, l) =
    let count = count_in_use-append files.in_use (has_any access data_access) in
    let at_most = count_in_use-le files.in_use in
    (
      counted (has_any access data_access) files.open_files _ _ e count (omega arith),
      omega (arith, length-append files.in_use (has_any access data_access ∷ [])),
    )

release-Counts :
    (handle limit : ℕ) (files : Files)
    → suc limit < 2 ^ 64
    → Counts limit files
    → Counts (suc limit) (release handle files)
unfolding release
release-Counts handle limit files small (e, l) = elim (Bool-cases (is_in_use files.in_use handle)) [
  | inl used ↦
      let less = count_in_use-clear_flag files.in_use handle used in
      let at_most = count_in_use-le files.in_use in
      rw used (
        fetch_sub_lem files.open_files _ (less ∙ sym e) (omega arith),
        omega (arith, length-clear_flag files.in_use handle),
      )
  | inr unused ↦ rw unused (e, omega arith)
]

run-from :
    (events : List Event) (limit : ℕ) (files : Files)
    → limit + length events < 2 ^ 64
    → Counts limit files
    → (run events files).open_files ≡ count_in_use (run events files).in_use
unfolding run
run-from [] limit files small h = h.0
run-from (Event.opens access ∷ events) limit files small h =
    run-from events (suc limit) (open_new access files) (omega arith)
      (open_new-Counts access limit files (omega arith) h)
run-from (Event.cleans_up handle ∷ events) limit files small h =
    run-from events (suc limit) (release handle files) (omega arith)
      (release-Counts handle limit files (omega arith) h)
run-from (Event.closes handle ∷ events) limit files small h =
    run-from events (suc limit) (release handle files) (omega arith)
      (release-Counts handle limit files (omega arith) h)

release_used :
    (handle : ℕ) (files : Files)
    → is_in_use files.in_use handle ≡ true
    → release handle files
      ≡ record { open_files = fetch_sub files.open_files; in_use = clear_flag files.in_use handle }
unfolding release
release_used handle files e = rw (release, e) refl

release_unused :
    (handle : ℕ) (files : Files)
    → is_in_use files.in_use handle ≡ false
    → release handle files ≡ files
unfolding release
release_unused handle files e = rw (release, e) refl

release_idem :
    (handle : ℕ) (files : Files) → release handle (release handle files) ≡ release handle files
release_idem handle files = elim (Bool-cases (is_in_use files.in_use handle)) [
  | inl used ↦
      ap (release handle) (release_used handle files used)
      ∙ release_unused handle _ (is_in_use-clear_flag files.in_use handle)
      ∙ sym (release_used handle files used)
  | inr unused ↦ ap (release handle) (release_unused handle files unused)
]

-- Whatever order handles are opened, cleaned up and closed in, the number of open files is that of
-- the handles in use, so that it never falls below 0 and wraps around; and to close a handle that
-- was cleaned up, or to clean up twice, changes nothing.
pub run-count_in_use :
    (events : List Event) (handle : ℕ)
    → length events < 2 ^ 64
    → let files = run events no_files in
      (files.open_files ≡ count_in_use files.in_use)
      × (release handle (release handle files) ≡ release handle files)
unfolding count_in_use
run-count_in_use events handle small = (
  run-from events 0 no_files (omega arith) (refl, omega arith),
  release_idem handle (run events no_files),
)
