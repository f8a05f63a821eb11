-- ===== src/Vault2/Tree/Counted.antt =====
-- What an import that succeeds has counted, whatever the vault does with the calls.
use desktop_folder_locker.Common.{
  ℕ, zero, suc, ◌+◌, ◌<◌, ◌≡◌, refl, sym, ap, ◌∙◌, arith, Bool, true, false, List, [], ◌∷◌, length,
  take, drop, length-append,
}
use desktop_folder_locker.Vault2.Error.{Result, ok, err, Action, continue, ◌>>◌}
use desktop_folder_locker.Vault2.Crypto.{Bytes}
use desktop_folder_locker.Vault2.Tree.Reader.{Reader, Answer, AreQuiet, read_full-take}
use desktop_folder_locker.Vault2.Tree.Copying.{
  Run, on_vault, with_vault, answer, counted, count_bytes, write_piece, copy_in,
}
use desktop_folder_locker.Vault2.Tree.Copied.{take-drop, with_bytes, with_bytes-add}

-- A chain that succeeds has a first step that does.
pub continue_inv :
    {S A B : Type 0} (f : A → Action S B) (r : Result A × S) (b : B) (t : S)
    → continue f r ≡ (ok b, t)
    → (a : A) × (s : S) × (r ≡ (ok a, s)) × (f a s ≡ (ok b, t))
continue_inv f (ok a, s) b t e = (a, s, refl, e)
continue_inv f (err x, s) b t e = absurd (cc e)

pub with_vault_stats :
    {S P A : Type 0} (run run' : Run S P) (r : Result A × S) (a : A)
    → with_vault run r ≡ (ok a, run')
    → run'.stats ≡ run.stats
with_vault_stats run run' (r, s) a e = sym (ap (λ q. q.1.stats) e)

module _ {S P : Type 0} (progress : ℕ → P → Bool × P) where
  answered_stats :
      (run run' : Run S P) (answered : Bool × P)
      → answer progress run answered ≡ (ok tt, run')
      → run'.stats ≡ run.stats
  answered_stats run run' (true, seen) e = sym (ap (λ q. q.1.stats) e)
  answered_stats run run' (false, seen) e = absurd (cc e)

  module _ (chunk : ℕ) (write : ℕ → Bytes → Action S ℕ) where
    pub copy_in-counts :
        (fuel : ℕ) (rest : Bytes) (answers : List Answer) (offset : ℕ) (run run' : Run S P)
        → AreQuiet answers
        → length rest < fuel
        → copy_in progress
            (suc chunk)
            write
            fuel
            offset
            (record { rest = rest; answers = answers })
            run
          ≡ (ok tt, run')
        → run'.stats ≡ with_bytes run.stats (length rest)
    unfolding copy_in
    copy_in-counts zero rest answers offset run run' q enough e = absurd (omega arith)
    copy_in-counts (suc fuel) [] answers offset run run' q enough e =
        let (answers', read, _) =
          read_full-take (suc chunk) (record { rest = []; answers = answers }) q in
        let same : write_piece progress (suc chunk) write (copy_in progress (suc chunk) write fuel)
              offset (ok [], record { rest = []; answers = answers' }) run
            ≡ (ok tt, run') =
          rw read at e in
        sym (ap (λ r. r.1.stats) same) ∙ ap (λ b. record run.stats { bytes = b }) (omega arith)
    copy_in-counts (suc fuel) (x ∷ xs) answers offset run run' q enough e =
        let rest = drop chunk xs in
        let piece : Bytes = x ∷ take chunk xs in
        let all : length (take chunk xs) + length rest ≡ length xs =
          sym (length-append (take chunk xs) rest) ∙ ap length (take-drop chunk xs) in
        let (answers', read, q') =
          read_full-take (suc chunk) (record { rest = x ∷ xs; answers = answers }) q in
        let left : Reader = record { rest = rest; answers = answers' } in
        let next = copy_in progress (suc chunk) write fuel (offset + length piece) left in
        let (_, run1, e1, then1) =
          continue_inv (λ _. counted progress (length piece) >> next)
            (on_vault (write offset piece) run) tt run' (rw read at e) in
        let (_, run2, e2, then2) =
          continue_inv (λ _. next) (counted progress (length piece) run1) tt run' then1 in
        let kept : run1.stats ≡ run.stats =
          with_vault_stats run run1 (write offset piece run.vault) _ e1 in
        copy_in-counts fuel rest answers' (offset + length piece) run2 run' q' (omega arith) then2
        ∙ ap (λ s. with_bytes s (length rest))
            (answered_stats (count_bytes (length piece) run1) run2 _ e2
              ∙ ap (λ s. with_bytes s (length piece)) kept)
        ∙ with_bytes-add run.stats (length piece) (length rest) (suc (length xs)) (omega arith)
