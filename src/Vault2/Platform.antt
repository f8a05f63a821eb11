-- ===== src/Vault2/Platform.antt =====
-- The times of native/vault2/src/platform.rs. A `SystemTime` is how long it is after 1970 or
-- before it, in seconds and nanoseconds below a second, as `duration_since` tells.
use desktop_folder_locker.Common.{
  ℕ, ◌+◌, ◌-◌, ◌*◌, ◌/◌, ◌%◌, ◌^◌, ◌<◌, ◌≡◌, false, leb, ◌==◌, ==_iff, if◌then◌else◌, arith,
  Bool-cases, inl, inr, le→leb, lt→leb,
}
use desktop_folder_locker.Vault2.Content.Lengths.{le_or_lt}

pub data SystemTime : Type 0 where
  since : (secs nanos : ℕ) → SystemTime
  before : (secs nanos : ℕ) → SystemTime

-- Seconds between 1601-01-01 and 1970-01-01.
abbrev pub filetime_unix_offset : ℕ
filetime_unix_offset = 11644473600

unfoldable pub file_time : SystemTime → ℕ
file_time (since secs nanos) = ((secs + filetime_unix_offset) * 10000000 + nanos / 100) % 2 ^ 64
file_time (before secs nanos) =
    filetime_unix_offset * 10000000 - (secs * 10000000 + nanos / 100) % 2 ^ 64

-- `UNIX_EPOCH - secs + nanos`, of less than a second of nanoseconds.
abbrev pub epoch_minus : ℕ → ℕ → SystemTime
epoch_minus secs nanos =
    if nanos == 0 then before secs 0 else before (secs - 1) (1000000000 - nanos)

unfoldable pub system_time : ℕ → SystemTime
system_time time =
    let secs = time / 10000000 in
    let nanos = time % 10000000 * 100 in
    if leb filetime_unix_offset secs
    then since (secs - filetime_unix_offset) nanos
    else epoch_minus (filetime_unix_offset - secs) nanos

not_zero : (n : ℕ) → (n == 0) ≡ false → 0 < n
not_zero n h = ground arith

-- A Windows file time is the same after it was converted to a time and back, before 1970 too.
pub file_time-system_time : (time : ℕ) → time < 2 ^ 64 → file_time (system_time time) ≡ time
unfolding file_time system_time
file_time-system_time time small = elim (le_or_lt filetime_unix_offset (time / 10000000)) [
  | inl later ↦ rw (le→leb filetime_unix_offset (time / 10000000) later) (omega arith)
  | inr earlier ↦
      rw (lt→leb filetime_unix_offset (time / 10000000) earlier)
        (elim (Bool-cases (time % 10000000 * 100 == 0)) [
          | inl whole ↦ rw whole (omega (arith, (==_iff (time % 10000000 * 100) 0).0 whole))
          | inr part ↦ rw part (omega (arith, not_zero (time % 10000000 * 100) part))
        ])
]
