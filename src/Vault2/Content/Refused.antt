-- ===== src/Vault2/Content/Refused.antt =====
-- `append` and `write_within` in terms of `write_at`.
use desktop_folder_locker.Common.{
  ℕ, ◌+◌, ◌-◌, ◌≤◌, ◌<◌, ◌≡◌, inl, inr, refl, ap, ◌∙◌, min, length, take, arith, [], ◌∷◌,
  length-take,
}
use desktop_folder_locker.Vault2.Error.{ok}
use desktop_folder_locker.Vault2.Crypto.{Bytes}
use desktop_folder_locker.Vault2.Content.Disk.{Disk, write_all_at}
use desktop_folder_locker.Vault2.Content.Codec.{Codec, plain_len}
use desktop_folder_locker.Vault2.Content.Lengths.{le_or_lt}
use desktop_folder_locker.Vault2.Content.Holds.{Holds, IsUsable}
use desktop_folder_locker.Vault2.Content.Resize.{CanWrite}
use desktop_folder_locker.Vault2.Content.Written.{write_at-Holds}
use desktop_folder_locker.Vault2.Content.File.{State, i64_max, len, write_at, append, write_within}

module _ (c : Codec) where
  append-eq :
      (st : State) (size : ℕ) (bytes : Bytes)
      → plain_len c st.stored_len ≡ size
      → append c bytes st ≡ write_at c size bytes st
  unfolding append write_at len
  append-eq st size bytes e = rw e refl

  write_within-eq :
      (st : State) (size offset : ℕ) (bytes : Bytes)
      → plain_len c st.stored_len ≡ size
      → offset < size
      → write_within c offset bytes st
        ≡ write_at c offset (take (min (length bytes) (size - offset)) bytes) st
  unfolding write_within write_at len
  write_within-eq st size offset bytes e less = ground arith

  write_within_past :
      (st : State) (size offset : ℕ) (bytes : Bytes)
      → plain_len c st.stored_len ≡ size
      → size ≤ offset
      → write_within c offset bytes st ≡ (ok 0, st)
  unfolding write_within len
  write_within_past st size offset bytes e past = ground arith

  -- `append` writes all bytes at the end of the plain file.
  pub append-Holds :
      IsUsable c
      → (st : State) (plain : Disk) (bytes : Bytes) → Holds c st plain
      → CanWrite st
      → plain.len + length bytes ≤ i64_max
      → (st' : State) × (append c bytes st ≡ (ok (length bytes), st'))
        × Holds c st' (write_all_at plain plain.len bytes)
  append-Holds U st plain bytes h can small =
      let (st', e, h') = write_at-Holds c U st plain plain.len bytes h can small in
      (st', append-eq st plain.len bytes h.size ∙ e, h')

  len-write_all_at_inside :
      (d : Disk) (pos : ℕ) (bytes : Bytes)
      → pos + length bytes ≤ d.len
      → (write_all_at d pos bytes).len ≡ d.len
  unfolding write_all_at
  len-write_all_at_inside d pos [] h = refl
  len-write_all_at_inside d pos (b ∷ bytes) h = omega arith

  -- `write_within` writes the bytes that fit before the end of the plain file, reports their
  -- number, and leaves the length of the plain file as it is.
  pub write_within-Holds :
      IsUsable c
      → (st : State) (plain : Disk) (offset : ℕ) (bytes : Bytes) → Holds c st plain
      → CanWrite st
      → plain.len ≤ i64_max
      → let fits = min (length bytes) (plain.len - offset) in
        (st' : State) × (write_within c offset bytes st ≡ (ok fits, st'))
        × Holds c st' (write_all_at plain offset (take fits bytes))
        × ((write_all_at plain offset (take fits bytes)).len ≡ plain.len)
  unfolding write_all_at
  write_within-Holds U st plain offset bytes h can small = elim (le_or_lt plain.len offset) [
    | inl past ↦
        let e : 0 ≡ min (length bytes) (plain.len - offset) = omega arith in
        rw (← e) (st, write_within_past st plain.len offset bytes h.size past, h, refl)
    | inr less ↦
        let fits = min (length bytes) (plain.len - offset) in
        let l : length (take fits bytes) ≡ fits = length-take fits bytes ∙ omega arith in
        let (st', e, h') =
          write_at-Holds c U st plain offset (take fits bytes) h can (omega arith) in
        (
          st',
          write_within-eq st plain.len offset bytes h.size less ∙ e ∙ ap (λ n. (ok n, st')) l,
          h',
          len-write_all_at_inside plain offset (take fits bytes) (omega arith),
        )
  ]
