-- ===== src/Vault2/Tree/Trip.antt =====
-- A file that is imported, compared with its source, and exported again.
use desktop_folder_locker.Common.{
  ℕ, suc, ◌-◌, ◌≤◌, ◌≡◌, sym, ap, subst, ◌∙◌, min, arith, Bool, [], ◌∷◌, length, List,
}
use desktop_folder_locker.Vault2.Error.{ok}
use desktop_folder_locker.Vault2.Crypto.{Bytes}
use desktop_folder_locker.Vault2.Content.Disk.{Disk, slice, write_all_at}
use desktop_folder_locker.Vault2.Content.Codec.{Codec}
use desktop_folder_locker.Vault2.Content.Holds.{Holds, IsUsable}
use desktop_folder_locker.Vault2.Content.Read.{written_back}
use desktop_folder_locker.Vault2.Content.Resize.{CanWrite}
use desktop_folder_locker.Vault2.Content.File.{State, i64_max}
use desktop_folder_locker.Vault2.Tree.Reader.{Reader, Answer, AreQuiet}
use desktop_folder_locker.Vault2.Tree.Copying.{Run}
use desktop_folder_locker.Vault2.Tree.Copied.{Allows, importing, copy_in-Holds}
use desktop_folder_locker.Vault2.Tree.Compared.{checking}
use desktop_folder_locker.Vault2.Tree.Exported.{exporting, compare_complete, copy_out-Holds}

len-written :
    (plain : Disk) (bytes : Bytes) → plain.len ≡ 0 → (write_all_at plain 0 bytes).len ≡ length bytes
unfolding write_all_at
len-written plain [] e = e
len-written plain (b ∷ bytes) e = omega (arith, e)

-- A file that was empty has the bytes that were written.
slice-written :
    (plain : Disk) (bytes : Bytes)
    → plain.len ≡ 0
    → let after = write_all_at plain 0 bytes in slice after.byte 0 (after.len - 0) ≡ bytes
slice-written plain bytes e =
    let after = write_all_at plain 0 bytes in
    let n : after.len - 0 ≡ min (length bytes) (after.len - 0) =
      omega (arith, len-written plain bytes e) in
    ap (slice after.byte 0) n ∙ written_back plain 0 bytes

abbrev pub reading : Bytes → List Answer → Reader
reading bytes answers = record { rest = bytes; answers = answers }

module _ (c : Codec) (U : IsUsable c) {P : Type 0} (progress : ℕ → P → Bool × P)
    (allows : Allows progress) (chunk : ℕ) where
  -- Over a cipher that keeps its laws, a source shorter than 2 ^ 63 is copied into an empty file that
  -- can be changed, comparing the two then succeeds, and copying the file out gives the bytes of
  -- the source. The reads of the source may be short or interrupted but do not fail, and the
  -- function `progress` never cancels.
  pub import-verify-export :
      (bytes : Bytes) (answers answers' : List Answer) (run : Run State P) (plain : Disk)
      → AreQuiet answers
      → AreQuiet answers'
      → length bytes ≤ i64_max
      → plain.len ≡ 0
      → Holds c run.vault plain
      → CanWrite run.vault
      → let fuel = suc (length bytes) in
        (run1 : Run State P) × (run2 : Run State P) × (run3 : Run State P) × (importing c U progress
            allows chunk fuel 0
            (reading bytes answers)
            run
          ≡ (ok tt, run1))
        × (checking c U progress chunk fuel 0 (reading bytes answers') run1 ≡ (ok tt, run2))
        × (exporting c U progress allows chunk fuel 0 [] run2 ≡ (ok bytes, run3))
  import-verify-export bytes answers answers' run plain q q' small e h can =
      let fuel = suc (length bytes) in
      let after = write_all_at plain 0 bytes in
      let (run1, imported, h1, _, _) =
        copy_in-Holds c U progress allows chunk fuel bytes answers 0 run plain q (omega arith)
          (omega arith) h can in
      let (run2, verified, kept, _) =
        compare_complete c U progress allows chunk fuel bytes answers' 0 run1 after q' (omega arith)
          h1 (slice-written plain bytes e) in
      let (run3, exported, _, _) =
        copy_out-Holds c U progress allows chunk fuel run2 after
          (omega (arith, len-written plain bytes e))
          (subst (λ st. Holds c st after) (sym kept) h1) in
      (
        run1,
        run2,
        run3,
        imported,
        verified,
        exported
            ∙ ap (λ n. (ok (slice after.byte 0 n), run3))
                (let z : after.len ≡ after.len - 0 = omega arith in z)
            ∙ ap (λ ys. (ok ys, run3)) (slice-written plain bytes e),
      )
