-- ===== src/Vault2/Content/Joined.antt =====
-- Writes to an encrypted file one after the other, taken together.
use mathlib.Core.List.{append-nil}
use desktop_folder_locker.Common.{
  ℕ, ◌+◌, ◌-◌, ◌≡◌, sym, ap, ◌∙◌, inl, inr, max, arith, [], ◌∷◌, ◌++◌, length, length-append,
  get_or-append_left, get_or-append_right,
}
use desktop_folder_locker.Vault2.Crypto.{Bytes}
use desktop_folder_locker.Vault2.Content.Disk.{
  Disk, write_all_at, patch, padded, padded_inside, padded_outside, patch_inside, patch_below,
  patch_above,
}
use desktop_folder_locker.Vault2.Content.Codec.{Codec}
use desktop_folder_locker.Vault2.Content.Lengths.{le_or_lt}
use desktop_folder_locker.Vault2.Content.Holds.{Holds, Holds-congr}
use desktop_folder_locker.Vault2.Content.File.{State}

module _ (plain : Disk) (offset : ℕ) (xs ys : Bytes) where
  abbrev once : Disk
  once = record { len = max plain.len (offset + length xs); byte = patch (padded plain) offset xs }

  padded-once : (q : ℕ) → padded once q ≡ patch (padded plain) offset xs q
  padded-once q = elim (le_or_lt once.len q) [
    | inl past ↦
        padded_outside once q past
        ∙ sym (padded_outside plain q (omega arith))
        ∙ sym (patch_above (padded plain) offset xs q (omega arith))
    | inr inside ↦ padded_inside once q inside
  ]

  -- Two writes, one after the other, do what one write does.
  patch-once :
      (q : ℕ)
      → patch (padded once) (offset + length xs) ys q ≡ patch (padded plain) offset (xs ++ ys) q
  patch-once q = elim (le_or_lt (offset + length xs) q) [
    | inr early ↦
        patch_below (padded once) (offset + length xs) ys q early
        ∙ padded-once q
        ∙ (elim (le_or_lt offset q) [
          | inr before ↦
              patch_below (padded plain) offset xs q before
              ∙ sym (patch_below (padded plain) offset (xs ++ ys) q before)
          | inl from ↦
              let k = q - offset in
              let at : q ≡ offset + k = omega arith in
              rw at (
                patch_inside (padded plain) offset xs k (omega arith)
                ∙ sym (get_or-append_left xs ys k 0 (omega arith))
                ∙ sym (
                    patch_inside (padded plain) offset (xs ++ ys) k
                      (omega (arith, length-append xs ys))))
        ])
    | inl late ↦ elim (le_or_lt (offset + length xs + length ys) q) [
      | inl past ↦
          patch_above (padded once) (offset + length xs) ys q past
          ∙ padded-once q
          ∙ patch_above (padded plain) offset xs q late
          ∙ sym
              (patch_above (padded plain) offset (xs ++ ys) q (omega (arith, length-append xs ys)))
      | inr inside ↦
          let k = q - (offset + length xs) in
          let at : q ≡ offset + length xs + k = omega arith in
          let at' : offset + length xs + k ≡ offset + (length xs + k) = omega arith in
          rw at (
            patch_inside (padded once) (offset + length xs) ys k (omega arith)
            ∙ sym (get_or-append_right xs ys k 0)
            ∙ sym (
                patch_inside (padded plain) offset (xs ++ ys) (length xs + k)
                  (omega (arith, length-append xs ys)))
            ∙ ap (patch (padded plain) offset (xs ++ ys)) (sym at'))
    ]
  ]

module _ (c : Codec) (plain : Disk) (offset : ℕ) where
  -- A file that holds the pieces one after the other holds all of them.
  pub Holds-append :
      (xs ys : Bytes) (st : State)
      → Holds c st (write_all_at (write_all_at plain offset xs) (offset + length xs) ys)
      → Holds c st (write_all_at plain offset (xs ++ ys))
  unfolding write_all_at
  Holds-append [] ys st h = let at : offset + 0 ≡ offset = omega arith in rw at at h
  Holds-append (x ∷ xs) [] st h = rw (append-nil xs) h
  Holds-append (x ∷ xs) (y ∷ ys) st h =
      Holds-congr c st _ _ (omega (arith, length-append (x ∷ xs) (y ∷ ys)))
        (λ q _. sym (patch-once plain offset (x ∷ xs) (y ∷ ys) q)) h
