-- ===== src/Vault2/Tree/Exported.antt =====
-- Comparing a file with an encrypted copy of it, and copying this out again, over the encrypted
-- file of content.rs.
use mathlib.Core.List.{append_assoc, append-nil}
use desktop_folder_locker.Common.{
  ℕ, zero, suc, ◌+◌, ◌-◌, ◌≤◌, ◌<◌, ◌≡◌, refl, sym, ap, ◌∙◌, inl, inr, max, min, arith, Bool, List,
  [], ◌∷◌, ◌++◌, length, take, drop, length-append, drop-append_left, take-append_left,
  eq_bytes_refl,
}
use desktop_folder_locker.Vault2.Error.{Result, ok, Action, continue, pure}
use desktop_folder_locker.Vault2.Crypto.{Bytes}
use desktop_folder_locker.Vault2.Content.Disk.{
  Disk, slice, length-slice, slice-add, take-slice, drop-slice,
}
use desktop_folder_locker.Vault2.Content.Codec.{Codec}
use desktop_folder_locker.Vault2.Content.Lengths.{zero_or_pos}
use desktop_folder_locker.Vault2.Content.Holds.{Holds, IsUsable}
use desktop_folder_locker.Vault2.Content.Read.{read_at-Holds}
use desktop_folder_locker.Vault2.Content.File.{State, read_at}
use desktop_folder_locker.Vault2.Tree.Reader.{Answer, AreQuiet}
use desktop_folder_locker.Vault2.Tree.Copying.{Run, append_piece, copy_out, with_vault}
use desktop_folder_locker.Vault2.Tree.Copied.{
  Allows, with_bytes, with_bytes-add, after_piece, report-allowed, take-drop,
}
use desktop_folder_locker.Vault2.Tree.Compared.{checking, against, compared, compare_step}

module _ (c : Codec) (U : IsUsable c) {P : Type 0} (progress : ℕ → P → Bool × P)
    (allows : Allows progress) (chunk : ℕ) where
  -- The run goes on to its end, with the vault as it was, and counts this many bytes.
  abbrev pub Passes : {A : Type 0} → Run State P → ℕ → A → Result A × Run State P → Type 0
  Passes run n a result =
      (run' : Run State P) × (result ≡ (ok a, run'))
      × (run'.vault ≡ run.vault)
      × (run'.stats ≡ with_bytes run.stats n)

  -- A file that starts with a piece, and what follows.
  split_piece :
      (plain : Disk) (offset : ℕ) (piece rest : Bytes)
      → slice plain.byte offset (plain.len - offset) ≡ piece ++ rest
      → (length piece ≤ plain.len - offset)
        × (slice plain.byte offset (length piece) ≡ piece)
        × (slice plain.byte (offset + length piece) (plain.len - (offset + length piece)) ≡ rest)
  split_piece plain offset piece rest e =
      let count : plain.len - offset ≡ length piece + length rest =
        sym (length-slice plain.byte offset (plain.len - offset))
        ∙ ap length e
        ∙ length-append piece rest in
      (
        omega arith,
        sym (take-slice plain.byte offset (length piece) (plain.len - offset) (omega arith))
            ∙ ap (take (length piece)) e
            ∙ take-append_left piece rest,
        ap (slice plain.byte (offset + length piece)) (omega arith)
            ∙ sym (drop-slice plain.byte offset (length piece) (plain.len - offset))
            ∙ ap (drop (length piece)) e
            ∙ drop-append_left piece rest,
      )

  -- `compare` accepts a file with the bytes of the source, and counts them.
  pub compare_complete :
      (fuel : ℕ) (rest : Bytes) (answers : List Answer) (offset : ℕ) (run : Run State P)
      → (plain : Disk) → AreQuiet answers
      → length rest < fuel
      → Holds c run.vault plain
      → slice plain.byte offset (plain.len - offset) ≡ rest
      → Passes run
          (length rest)
          tt
          (checking c U progress chunk fuel offset (record { rest = rest; answers = answers }) run)
  unfolding slice
  compare_complete zero rest answers offset run plain q enough h e = absurd (omega arith)
  compare_complete (suc fuel) [] answers offset run plain q enough h e =
      let (answers', step, _) =
        compare_step c U progress chunk fuel offset [] answers run plain h q in
      let none : plain.len - offset ≡ 0 = sym (length-slice plain.byte offset _) ∙ ap length e in
      let asked : min 1 (plain.len - offset) ≡ 0 = omega arith in
      (
        run,
        step
            ∙ ap
                (λ n.
                  compared c U progress chunk fuel offset [] (slice plain.byte offset n)
                    (record { rest = []; answers = answers' }) run)
                asked,
        refl,
        ap (λ b. record run.stats { bytes = b }) (omega arith),
      )
  compare_complete (suc fuel) (x ∷ xs) answers offset run plain q enough h e =
      let piece : Bytes = x ∷ take chunk xs in
      let rest = drop chunk xs in
      let all : length (take chunk xs) + length rest ≡ length xs =
        sym (length-append (take chunk xs) rest) ∙ ap length (take-drop chunk xs) in
      let (answers', step, q') =
        compare_step c U progress chunk fuel offset (x ∷ xs) answers run plain h q in
      let (within, whole, beyond) =
        split_piece plain offset piece rest (e ∙ ap (λ ys. x ∷ ys) (sym (take-drop chunk xs))) in
      let asked : min (max (length piece) 1) (plain.len - offset) ≡ length piece = omega arith in
      let equal : against c U progress chunk plain offset piece ≡ piece =
        ap (slice plain.byte offset) asked ∙ whole in
      let run1 = after_piece progress allows run run.vault (length piece) in
      let (run', e', kept, counts) =
        compare_complete fuel rest answers' (offset + length piece) run1 plain q' (omega arith) h
          beyond in
      (
        run',
        step
            ∙ ap
                (λ stored.
                  compared c U progress chunk fuel offset piece stored
                    (record { rest = rest; answers = answers' }) run)
                equal
            ∙ rw (eq_bytes_refl piece, report-allowed progress allows run run.vault (length piece))
                e',
        kept,
        counts
            ∙ with_bytes-add run.stats (length piece) (length rest) (suc (length xs)) (omega arith),
      )

  -- The new file is what is returned.
  abbrev pub unwritten : Bytes → Action State (Unit {0})
  unwritten bytes = pure tt

  abbrev pub exporting : ℕ → ℕ → Bytes → Action (Run State P) Bytes
  exporting = copy_out progress (suc chunk) (read_at c) unwritten

  export_left :
      (fuel left offset : ℕ) (out : Bytes) (run : Run State P) (plain : Disk)
      → plain.len - offset ≡ left
      → left < fuel
      → Holds c run.vault plain
      → Passes run left (out ++ slice plain.byte offset left) (exporting fuel offset out run)
  unfolding copy_out slice
  export_left zero left offset out run plain e enough h = absurd (omega arith)
  export_left (suc fuel) left offset out run plain e enough h =
      let next =
        append_piece progress (suc chunk) (read_at c) unwritten (exporting fuel) offset out in
      let step : exporting (suc fuel) offset out run
          ≡ next (slice plain.byte offset (min (suc chunk) left)) run =
        ap (λ r. continue next (with_vault run r))
          (read_at-Holds c U run.vault plain offset (suc chunk) h)
        ∙ ap (λ n. next (slice plain.byte offset (min (suc chunk) n)) run) e in
      elim (zero_or_pos left) [
        | inl z ↦
            let nothing : min (suc chunk) left ≡ 0 = omega arith in
            (
              run,
              step
                  ∙ ap (λ n. next (slice plain.byte offset n) run) nothing
                  ∙ ap (λ ys. (ok ys, run)) (sym (append-nil out))
                  ∙ ap (λ n. (ok (out ++ slice plain.byte offset n), run)) (sym z),
              refl,
              ap (λ b. record run.stats { bytes = b }) (omega arith),
            )
        | inr p ↦
            let j = min chunk (left - 1) in
            let some_bytes : min (suc chunk) left ≡ suc j = omega arith in
            let piece = slice plain.byte offset (suc j) in
            let n : length piece ≡ suc j = length-slice plain.byte offset (suc j) in
            let run1 = after_piece progress allows run run.vault (length piece) in
            let (run', e', kept, counts) =
              export_left fuel (left - length piece) (offset + length piece) (out ++ piece) run1
                plain (omega (arith, n)) (omega (arith, n)) h in
            let whole : piece ++ slice plain.byte (offset + length piece) (left - length piece)
                ≡ slice plain.byte offset left =
              ap (λ k. piece ++ slice plain.byte (offset + k) (left - k)) n
              ∙ sym (slice-add plain.byte offset (suc j) (left - suc j))
              ∙ ap (slice plain.byte offset)
                  (let z : suc j + (left - suc j) ≡ left = omega arith in z) in
            (
              run',
              step
                  ∙ ap (λ n. next (slice plain.byte offset n) run) some_bytes
                  ∙ rw (report-allowed progress allows run run.vault (length piece)) e'
                  ∙ ap (λ ys. (ok ys, run'))
                      (append_assoc out piece _ ∙ ap (λ ys. out ++ ys) whole),
              kept,
              counts
                  ∙ with_bytes-add run.stats (length piece) (left - length piece) left
                      (omega (arith, n)),
            )
      ]

  -- The loop of `export_dir` over one file writes its plain bytes to the new file, and counts them.
  pub copy_out-Holds :
      (fuel : ℕ) (run : Run State P) (plain : Disk)
      → plain.len < fuel
      → Holds c run.vault plain
      → Passes run plain.len (slice plain.byte 0 plain.len) (exporting fuel 0 [] run)
  copy_out-Holds fuel run plain enough h =
      export_left fuel plain.len 0 [] run plain (omega arith) enough h
