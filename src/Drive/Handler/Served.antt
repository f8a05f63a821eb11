-- ===== src/Drive/Handler/Served.antt =====
-- What a program sees of an open file on the drive: the plain file.
use native.Mathlib.Nat.{mod-eq_of_lt}
use desktop_folder_locker.Common.{
  ℕ, ◌+◌, ◌-◌, ◌^◌, ◌≤◌, ◌<◌, ◌≡◌, inl, inr, refl, ap, ◌∙◌, min, Bool, true, false, length, take,
  ltb, lt→ltb, le→ltb, if◌then◌else◌, arith,
}
use desktop_folder_locker.Vault2.Crypto.{Bytes}
use desktop_folder_locker.Vault2.Content.Codec.{Codec}
use desktop_folder_locker.Vault2.Content.Disk.{Disk, slice, write_all_at, set_len as truncate}
use desktop_folder_locker.Vault2.Content.Holds.{Holds, IsUsable}
use desktop_folder_locker.Vault2.Content.Resize.{CanWrite, set_len-Holds}
use desktop_folder_locker.Vault2.Content.Written.{write_at-Holds}
use desktop_folder_locker.Vault2.Content.Read.{read_at-Holds}
use desktop_folder_locker.Vault2.Content.Refused.{append-Holds, write_within-Holds}
use desktop_folder_locker.Vault2.Content.File.{State, i64_max, len}
use desktop_folder_locker.Vault2.Content.Lengths.{le_or_lt}
use desktop_folder_locker.Drive.Handler.Status.{NtStatus, success}
use desktop_folder_locker.Drive.Handler.Files.{
  ℤ, pos, negsuc, Handle, OperationInfo, lift, as_u32, written, read_file, write_file,
  set_end_of_file, set_allocation_size,
}

-- How many bytes a write writes, and the plain file after it. The offset of a write to the end is
-- not read; what Windows passes then is -1.
abbrev pub expected : OperationInfo → ℤ → Bytes → Disk → ℕ × Disk
expected info (negsuc k) buffer plain = (length buffer, write_all_at plain plain.len buffer)
expected info (pos offset) buffer plain =
    if info.write_to_eof
    then (length buffer, write_all_at plain plain.len buffer)
    else if info.paging_io
    then (
      min (length buffer) (plain.len - offset),
      write_all_at plain offset (take (min (length buffer) (plain.len - offset)) buffer),
    )
    else (length buffer, write_all_at plain offset buffer)

-- The write ends before 2^63: at the end of the file, and elsewhere where the offset is read, which
-- is not negative then.
abbrev pub Fits : OperationInfo → ℤ → Bytes → Disk → Type 0
Fits info (negsuc k) buffer plain =
    (info.write_to_eof ≡ true) × (plain.len + length buffer ≤ i64_max)
Fits info (pos offset) buffer plain =
    if info.write_to_eof
    then plain.len + length buffer ≤ i64_max
    else (plain.len ≤ i64_max) × (offset + length buffer ≤ i64_max)

module _ (from_win32 : ℕ → NtStatus) (c : Codec) (U : IsUsable c) where
  written-Holds :
      (eof paging : Bool) (st : State) (plain : Disk) (offset : ℤ) (buffer : Bytes)
      → Holds c st plain
      → CanWrite st
      → let info : OperationInfo = record { write_to_eof = eof; paging_io = paging } in
        Fits info offset buffer plain
        → (st' : State) × (written from_win32 c info offset buffer st
            ≡ (success (expected info offset buffer plain).0, st'))
          × Holds c st' (expected info offset buffer plain).1
  written-Holds true paging st plain (negsuc k) buffer h can fits =
      let (st', e, h') = append-Holds c U st plain buffer h can fits.1 in
      (st', ap (lift from_win32 c) e, h')
  written-Holds false paging st plain (negsuc k) buffer h can fits = absurd (ground (arith, fits.0))
  written-Holds true paging st plain (pos offset) buffer h can fits =
      let (st', e, h') = append-Holds c U st plain buffer h can fits in
      (st', ap (lift from_win32 c) e, h')
  written-Holds false true st plain (pos offset) buffer h can fits =
      let (st', e, h', _) = write_within-Holds c U st plain offset buffer h can (omega arith) in
      (st', ap (lift from_win32 c) e, h')
  written-Holds false false st plain (pos offset) buffer h can fits =
      let (st', e, h') = write_at-Holds c U st plain offset buffer h can (omega (arith, fits.1)) in
      (st', ap (lift from_win32 c) e, h')

  expected_small :
      (eof paging : Bool) (plain : Disk) (offset : ℤ) (buffer : Bytes)
      → length buffer < 2 ^ 32
      → (expected (record { write_to_eof = eof; paging_io = paging }) offset buffer plain).0
        < 2 ^ 32
  expected_small eof paging plain (negsuc k) buffer h = h
  expected_small true paging plain (pos offset) buffer h = h
  expected_small false true plain (pos offset) buffer h = omega arith
  expected_small false false plain (pos offset) buffer h = h

  -- A write to an open file that can be changed does to the plain file what Windows asks for: to
  -- the end of the file, whatever the offset is then, within it (a paging write never grows it) or
  -- at the offset, if it ends before 2^63; and the number of bytes written, below 2^32, is reported
  -- whole.
  pub write_file-Holds :
      (info : OperationInfo) (st : State) (plain : Disk) (offset : ℤ) (buffer : Bytes)
      → Holds c st plain
      → CanWrite st
      → Fits info offset buffer plain
      → length buffer < 2 ^ 32
      → (st' : State) × (write_file from_win32 c info Handle.file offset buffer st
          ≡ (success (expected info offset buffer plain).0, st'))
        × Holds c st' (expected info offset buffer plain).1
  unfolding write_file
  write_file-Holds info st plain offset buffer h can fits word =
      let (st', e, h') =
        written-Holds info.write_to_eof info.paging_io st plain offset buffer h can fits in
      (
        st',
        ap (as_u32 from_win32 c) e
            ∙ ap (λ n. (success n, st'))
                (mod-eq_of_lt
                  (expected_small info.write_to_eof info.paging_io plain offset buffer word)),
        h',
      )

  allocated :
      (st : State) (plain : Disk) (n : ℕ)
      → Holds c st plain
      → CanWrite st
      → n ≤ i64_max
      → (st' : State) × (set_allocation_size from_win32 c Handle.file (pos n) st
          ≡ (success tt, st'))
        × Holds c st' (if ltb n plain.len then truncate plain n else plain)
  unfolding set_allocation_size len truncate
  allocated st plain n h can small = elim (le_or_lt plain.len n) [
    | inl keeps ↦ (st, rw (h.size, le→ltb n plain.len keeps) refl, rw (le→ltb n plain.len keeps) h)
    | inr cuts ↦
        let (st', e, h') = set_len-Holds c U st plain n h can small in
        (
          st',
          rw (h.size, lt→ltb n plain.len cuts) (ap (lift from_win32 c) e),
          rw (lt→ltb n plain.len cuts) h',
        )
  ]

  -- A read of an open file returns the bytes of the plain file, a new end of the file cuts or grows
  -- it, and a new allocation size cuts it or leaves it; none of them reserves space.
  pub other_calls-Holds :
      (st : State) (plain : Disk) (offset n : ℕ)
      → Holds c st plain
      → CanWrite st
      → n ≤ i64_max
      → (read_file from_win32 c Handle.file (pos offset) n st
          ≡ (success (slice plain.byte offset (min n (plain.len - offset))), st))
        × ((st' : State) × (set_end_of_file from_win32 c Handle.file (pos n) st ≡ (success tt, st'))
            × Holds c st' (truncate plain n))
        × ((st' : State) × (set_allocation_size from_win32 c Handle.file (pos n) st
              ≡ (success tt, st'))
            × Holds c st' (if ltb n plain.len then truncate plain n else plain))
  unfolding read_file set_end_of_file
  other_calls-Holds st plain offset n h can small =
      let (st', e, h') = set_len-Holds c U st plain n h can small in
      (
        ap (lift from_win32 c) (read_at-Holds c U st plain offset n h),
        (st', ap (lift from_win32 c) e, h'),
        allocated st plain n h can small,
      )
