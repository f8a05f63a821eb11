-- ===== src/Vault2/Tree/Cancelled.antt =====
-- Copying a file into a vault when the function `progress` may cancel it.
use desktop_folder_locker.Common.{
  ℕ, zero, suc, ◌+◌, ◌≤◌, ◌<◌, ◌≡◌, ◌⊎◌, refl, sym, ap, subst, ◌∙◌, inl, inr, arith, Bool, true,
  false, List, [], ◌∷◌, ◌++◌, length, take, drop, length-append, take-append_left, Bool-cases,
}
use desktop_folder_locker.Vault2.Error.{Result, ok, err, Error, Action}
use desktop_folder_locker.Vault2.Crypto.{Bytes}
use desktop_folder_locker.Vault2.Content.Disk.{Disk, write_all_at}
use desktop_folder_locker.Vault2.Content.Codec.{Codec}
use desktop_folder_locker.Vault2.Content.Holds.{Holds, IsUsable}
use desktop_folder_locker.Vault2.Content.Joined.{Holds-append}
use desktop_folder_locker.Vault2.Content.Resize.{CanWrite}
use desktop_folder_locker.Vault2.Content.Written.{write_at-CanWrite}
use desktop_folder_locker.Vault2.Content.File.{State, i64_max, write_at}
use desktop_folder_locker.Vault2.Tree.Reader.{Reader, Answer, AreQuiet, read_full-take}
use desktop_folder_locker.Vault2.Tree.Copying.{
  Run, answer, counted, count_bytes, write_piece, copy_in,
}
use desktop_folder_locker.Vault2.Tree.Copied.{take-drop, with_bytes}

take-append_more {ℓ} :
    {A : Type ℓ} (xs ys : List A) (n : ℕ) → take (length xs + n) (xs ++ ys) ≡ xs ++ take n ys
take-append_more [] ys n = ap (λ m. take m ys) (let z : 0 + n ≡ n = omega arith in z)
take-append_more (x ∷ xs) ys n =
    let shift : suc (length xs) + n ≡ suc (length xs + n) = omega arith in
    ap (λ m. take m (x ∷ (xs ++ ys))) shift ∙ ap (λ zs. x ∷ zs) (take-append_more xs ys n)

module _ (c : Codec) (U : IsUsable c) {P : Type 0} (progress : ℕ → P → Bool × P) (chunk : ℕ) where
  abbrev pub copying : ℕ → ℕ → Reader → Action (Run State P) (Unit {0})
  copying = copy_in progress (suc chunk) (write_at c)

  -- The file has the first `n` of these bytes, all of them if nothing was cancelled.
  abbrev pub Ends : Disk → ℕ → Bytes → Result (Unit {0}) × Run State P → Type 0
  Ends plain offset rest result =
      (run' : Run State P) × (n : ℕ) × (n ≤ length rest)
      × Holds c run'.vault (write_all_at plain offset (take n rest))
      × (((result ≡ (ok tt, run')) × (n ≡ length rest)) ⊎ (result ≡ (err Error.cancelled, run')))

  -- The run after a piece of `n` bytes was written and reported.
  abbrev reported : Run State P → State → ℕ → Run State P
  reported run st n = record {
    vault = st;
    seen = (progress (run.stats.bytes + n) run.seen).1;
    stats = with_bytes run.stats n;
  }

  counted-answer :
      (run : Run State P) (st : State) (n : ℕ) (b : Bool)
      → (progress (run.stats.bytes + n) run.seen).0 ≡ b
      → counted progress n (record run { vault = st })
        ≡ answer progress
            (count_bytes n (record run { vault = st }))
            (b, (progress (run.stats.bytes + n) run.seen).1)
  counted-answer run st n b e =
      ap
        (λ b.
          answer progress (count_bytes n (record run { vault = st }))
            (b, (progress (run.stats.bytes + n) run.seen).1))
        e

  abbrev piece_of : ℕ → ℕ → ℕ → Bytes → Reader → Action (Run State P) (Unit {0})
  piece_of fuel offset x bytes source =
      write_piece progress (suc chunk) (write_at c) (copying fuel) offset (ok (x ∷ bytes), source)

  module _ (fuel offset x : ℕ) (bytes : Bytes) (source : Reader) (run : Run State P) (st : State)
      (n : ℕ) (e : write_at c offset (x ∷ bytes) run.vault ≡ (ok n, st)) where
    piece_goes_on :
        (progress (run.stats.bytes + length (x ∷ bytes)) run.seen).0 ≡ true
        → piece_of fuel offset x bytes source run
          ≡ copying fuel (offset + length (x ∷ bytes)) source (reported run st (length (x ∷ bytes)))
    piece_goes_on go = rw (e, counted-answer run st (length (x ∷ bytes)) true go) refl

    piece_cancelled :
        (progress (run.stats.bytes + length (x ∷ bytes)) run.seen).0 ≡ false
        → piece_of fuel offset x bytes source run
          ≡ (err Error.cancelled, reported run st (length (x ∷ bytes)))
    piece_cancelled stop = rw (e, counted-answer run st (length (x ∷ bytes)) false stop) refl

  -- The loop of `import_dir` over one file ends: either all bytes are written, or `progress`
  -- cancelled it after some of them, and then the file has these and the error says so. The reads
  -- of the source do not fail, there are more rounds than bytes, and the file ends before 2 ^ 63.
  pub copy_in-Ends :
      (fuel : ℕ) (rest : Bytes) (answers : List Answer) (offset : ℕ) (run : Run State P)
      → (plain : Disk) → AreQuiet answers
      → length rest < fuel
      → offset + length rest ≤ i64_max
      → Holds c run.vault plain
      → CanWrite run.vault
      → Ends plain offset rest (copying fuel offset (record { rest = rest; answers = answers }) run)
  unfolding copy_in write_all_at
  copy_in-Ends zero rest answers offset run plain q enough small h can = absurd (omega arith)
  copy_in-Ends (suc fuel) [] answers offset run plain q enough small h can =
      let (answers', e, _) =
        read_full-take (suc chunk) (record { rest = []; answers = answers }) q in
      (
        run,
        0,
        omega arith,
        h,
        inl (
          ap (λ r. write_piece progress (suc chunk) (write_at c) (copying fuel) offset r run) e,
          refl,
        ),
      )
  copy_in-Ends (suc fuel) (x ∷ xs) answers offset run plain q enough small h can =
      let piece : Bytes = x ∷ take chunk xs in
      let rest = drop chunk xs in
      let whole : piece ++ rest ≡ x ∷ xs = ap (λ ys. x ∷ ys) (take-drop chunk xs) in
      let all : length piece + length rest ≡ length (x ∷ xs) =
        sym (length-append piece rest) ∙ ap length whole in
      let (answers', read, q') =
        read_full-take (suc chunk) (record { rest = x ∷ xs; answers = answers }) q in
      let left : Reader = record { rest = rest; answers = answers' } in
      let (st, written, h1, can1) =
        write_at-CanWrite c U run.vault plain offset piece h can (omega arith) in
      let first =
        ap (λ r. write_piece progress (suc chunk) (write_at c) (copying fuel) offset r run) read in
      elim (Bool-cases (progress (run.stats.bytes + length piece) run.seen).0) [
        | inr stop ↦ (
          reported run st (length piece),
          length piece,
          omega arith,
          subst (λ ys. Holds c st (write_all_at plain offset ys))
              (sym (take-append_left piece rest) ∙ ap (take (length piece)) whole) h1,
          inr (
              first
              ∙ piece_cancelled fuel offset x (take chunk xs) left run st (length piece) written
                  stop),
        )
        | inl go ↦
            let (run', n, le, h2, outcome) =
              copy_in-Ends fuel rest answers' (offset + length piece)
                (reported run st (length piece)) (write_all_at plain offset piece) q' (omega arith)
                (omega arith) h1 can1 in
            let on =
              first
              ∙ piece_goes_on fuel offset x (take chunk xs) left run st (length piece) written go in
            (
              run',
              length piece + n,
              omega arith,
              subst (λ ys. Holds c run'.vault (write_all_at plain offset ys))
                  (sym (take-append_more piece rest n) ∙ ap (take (length piece + n)) whole)
                  (Holds-append c plain offset piece (take n rest) run'.vault h2),
              elim outcome [
                | inl (done, full) ↦ inl (on ∙ done, omega arith)
                | inr stopped ↦ inr (on ∙ stopped)
              ],
            )
      ]
