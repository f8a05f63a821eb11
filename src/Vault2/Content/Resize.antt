-- ===== src/Vault2/Content/Resize.antt =====
-- `set_len`: cutting and growing an encrypted file cuts and grows the plain file that it holds.
use native.Mathlib.Decide.{ℕ_discrete}
use desktop_folder_locker.Common.{
  ℕ, ◌≤◌, ◌≡◌, ◌≢◌, ◌⊎◌, inl, inr, refl, sym, ◌∙◌, arith, none, true,
}
use desktop_folder_locker.Vault2.Error.{ok}
use desktop_folder_locker.Vault2.Content.Disk.{Disk, padded_inside, set_len as truncate}
use desktop_folder_locker.Vault2.Content.Codec.{Codec, plain_len}
use desktop_folder_locker.Vault2.Content.Lengths.{zero_or_pos, le_or_lt}
use desktop_folder_locker.Vault2.Content.Holds.{Holds, Holds-congr, IsUsable}
use desktop_folder_locker.Vault2.Content.Grown.{grow-Holds}
use desktop_folder_locker.Vault2.Content.File.{State, i64_max, len, make_writable, resize, set_len}
use desktop_folder_locker.Vault2.Content.Cut.{shrink-Holds, clear-Holds}

-- The file can be changed: its handle may write, or opening it again for writing works.
abbrev pub CanWrite : State → Type 0
CanWrite st = (st.writable ≡ true) ⊎ (st.reopen ≡ none)

module _ (c : Codec) (U : IsUsable c) where
  pub make_writable-Holds :
      (st : State) (plain : Disk)
      → CanWrite st
      → Holds c st plain
      → (st' : State) × (make_writable st ≡ (ok tt, st'))
        × Holds c st' plain
        × (st'.writable ≡ true)
        × (st'.stored_len ≡ st.stored_len)
  unfolding make_writable
  make_writable-Holds st plain can h =
      let st' : State = record st { writable = true } in
      (
        st',
        ground arith,
        record { stored = h.stored; size = h.size; header = h.header; blocks = h.blocks },
        refl,
        refl,
      )

  set_len_run :
      (st first : State) (size n : ℕ)
      → n ≤ i64_max
      → plain_len c st.stored_len ≡ size
      → n ≢ size
      → make_writable st ≡ (ok tt, first)
      → set_len c n st ≡ resize c size n first
  unfolding set_len len
  set_len_run st first size n small e ne e1 = ground arith

  set_len_same :
      (st : State) (n : ℕ)
      → n ≤ i64_max
      → plain_len c st.stored_len ≡ n
      → set_len c n st ≡ (ok tt, st)
  unfolding set_len len
  set_len_same st n small e = ground arith

  set_len_self :
      (st : State) (plain : Disk) (n : ℕ)
      → n ≡ plain.len
      → Holds c st plain
      → Holds c st (truncate plain n)
  unfolding truncate
  set_len_self st plain n e h =
      Holds-congr c st plain (truncate plain n) e (λ q l. padded_inside plain q l) h

  resize-Holds :
      (st : State) (plain : Disk) (n : ℕ)
      → Holds c st plain
      → n ≢ plain.len
      → (st' : State) × (resize c plain.len n st ≡ (ok tt, st')) × Holds c st' (truncate plain n)
  unfolding resize
  resize-Holds st plain n h ne = elim (le_or_lt n plain.len) [
    | inl le ↦ elim (zero_or_pos n) [
      | inl z ↦ let (st', e, h') = clear-Holds c U st plain in (st', ground arith, rw z h')
      | inr p ↦
          let (st', e, h') = shrink-Holds c U st plain n h (omega arith) p in
          (st', ground arith, h')
    ]
    | inr gt ↦
        let (st', e, h', _) = grow-Holds c U st plain n h (omega arith) (omega arith) in
        (st', ground arith, h')
  ]

  -- `set_len` of a length that is not too large succeeds on a file that can be changed, and does
  -- to the plain file what `File::set_len` does: it is cut, or grows by zeros.
  pub set_len-Holds :
      (st : State) (plain : Disk) (n : ℕ)
      → Holds c st plain
      → CanWrite st
      → n ≤ i64_max
      → (st' : State) × (set_len c n st ≡ (ok tt, st')) × Holds c st' (truncate plain n)
  set_len-Holds st plain n h can small = elim (ℕ_discrete n plain.len) [
    | yes same ↦ (st, set_len_same st n small (h.size ∙ sym same), set_len_self st plain n same h)
    | no ne ↦
        let (first, e1, h1, _, kept) = make_writable-Holds st plain can h in
        let (st', e2, h2) = resize-Holds first plain n h1 ne in
        (st', set_len_run st first plain.len n small h.size ne e1 ∙ e2, h2)
  ]
