-- ===== src/Vault2/Tree/Copied.antt =====
-- Copying a file into a vault, over the encrypted file of content.rs.
use desktop_folder_locker.Common.{
  ℕ, zero, suc, ◌+◌, ◌≤◌, ◌<◌, ◌≡◌, refl, sym, ap, subst, ◌∙◌, arith, Bool, true, List, [], ◌∷◌,
  ◌++◌, length, take, drop, length-append,
}
use desktop_folder_locker.Vault2.Error.{Result, ok, Action}
use desktop_folder_locker.Vault2.Crypto.{Bytes}
use desktop_folder_locker.Vault2.Content.Disk.{Disk, write_all_at}
use desktop_folder_locker.Vault2.Content.Codec.{Codec}
use desktop_folder_locker.Vault2.Content.Holds.{Holds, IsUsable}
use desktop_folder_locker.Vault2.Content.Resize.{CanWrite}
use desktop_folder_locker.Vault2.Content.Written.{write_at-CanWrite}
use desktop_folder_locker.Vault2.Content.File.{State, i64_max, write_at}
use desktop_folder_locker.Vault2.Tree.Reader.{Reader, Answer, AreQuiet, read_full-take}
use desktop_folder_locker.Vault2.Tree.Copying.{
  Run, TreeStats, answer, counted, count_bytes, write_piece, copy_in,
}
use desktop_folder_locker.Vault2.Content.Joined.{Holds-append}

pub take-drop {ℓ} : {A : Type ℓ} (n : ℕ) (xs : List A) → take n xs ++ drop n xs ≡ xs
take-drop zero xs = refl
take-drop (suc n) [] = refl
take-drop (suc n) (x ∷ xs) = ap (λ ys. x ∷ ys) (take-drop n xs)

-- A function `progress` that never cancels.
abbrev pub Allows : {P : Type 0} → (ℕ → P → Bool × P) → Type 0
Allows progress = (n : ℕ) → (seen : _) → (progress n seen).0 ≡ true

-- The statistics with this many bytes more.
abbrev pub with_bytes : TreeStats → ℕ → TreeStats
with_bytes stats n = record stats { bytes = stats.bytes + n }

pub with_bytes-add :
    (stats : TreeStats) (n m k : ℕ)
    → n + m ≡ k
    → with_bytes (with_bytes stats n) m ≡ with_bytes stats k
with_bytes-add stats n m k e =
    ap (λ b. record stats { bytes = b })
      (let z : stats.bytes + n + m ≡ stats.bytes + k = omega arith in z)

module _ {S P : Type 0} (progress : ℕ → P → Bool × P) (allows : Allows progress) where
  -- The run after a piece of `n` bytes.
  abbrev pub after_piece : Run S P → S → ℕ → Run S P
  after_piece run st n = record {
    vault = st;
    seen = (progress (run.stats.bytes + n) run.seen).1;
    stats = with_bytes run.stats n;
  }

  pub report-allowed :
      (run : Run S P) (st : S) (n : ℕ)
      → counted progress n (record run { vault = st }) ≡ (ok tt, after_piece run st n)
  report-allowed run st n =
      ap
        (λ b.
          answer progress (count_bytes n (record run { vault = st }))
            (b, (progress (run.stats.bytes + n) run.seen).1))
        (allows (run.stats.bytes + n) run.seen)

module _ (c : Codec) (U : IsUsable c) {P : Type 0} (progress : ℕ → P → Bool × P)
    (allows : Allows progress) (chunk : ℕ) where
  abbrev pub importing : ℕ → ℕ → Reader → Action (Run State P) (Unit {0})
  importing = copy_in progress (suc chunk) (write_at c)

  -- What the loop is to do with these bytes.
  abbrev pub Copies : Run State P → Disk → ℕ → Bytes → Result (Unit {0}) × Run State P → Type 0
  Copies run plain offset rest result =
      (run' : Run State P) × (result ≡ (ok tt, run'))
      × Holds c run'.vault (write_all_at plain offset rest)
      × CanWrite run'.vault
      × (run'.stats ≡ with_bytes run.stats (length rest))

  copy_piece :
      (fuel offset x : ℕ) (bytes : Bytes) (source : Reader) (run : Run State P) (st : State) (n : ℕ)
      → write_at c offset (x ∷ bytes) run.vault ≡ (ok n, st)
      → write_piece progress
          (suc chunk)
          (write_at c)
          (importing fuel)
          offset
          (ok (x ∷ bytes), source)
          run
        ≡ importing fuel
            (offset + length (x ∷ bytes))
            source
            (after_piece progress allows run st (length (x ∷ bytes)))
  copy_piece fuel offset x bytes source run st n e =
      rw (e, report-allowed progress allows run st (length (x ∷ bytes))) refl

  -- The loop of `import_dir` over one file does what one write of all its bytes does, and counts
  -- them. More rounds than bytes are enough.
  pub copy_in-Holds :
      (fuel : ℕ) (rest : Bytes) (answers : List Answer) (offset : ℕ) (run : Run State P)
      → (plain : Disk) → AreQuiet answers
      → length rest < fuel
      → offset + length rest ≤ i64_max
      → Holds c run.vault plain
      → CanWrite run.vault
      → Copies run plain offset rest
          (importing fuel offset (record { rest = rest; answers = answers }) run)
  unfolding copy_in write_all_at
  copy_in-Holds zero rest answers offset run plain q enough small h can = absurd (omega arith)
  copy_in-Holds (suc fuel) [] answers offset run plain q enough small h can =
      let (answers', e, q') =
        read_full-take (suc chunk) (record { rest = []; answers = answers }) q in
      (
        run,
        ap (λ r. write_piece progress (suc chunk) (write_at c) (importing fuel) offset r run) e,
        h,
        can,
        ap (λ b. record run.stats { bytes = b }) (omega arith),
      )
  copy_in-Holds (suc fuel) (x ∷ xs) answers offset run plain q enough small h can =
      let piece : Bytes = x ∷ take chunk xs in
      let rest = drop chunk xs in
      let all : length (take chunk xs) + length rest ≡ length xs =
        sym (length-append (take chunk xs) rest) ∙ ap length (take-drop chunk xs) in
      let (answers', e, q') =
        read_full-take (suc chunk) (record { rest = x ∷ xs; answers = answers }) q in
      let (st, written, h1, can1) =
        write_at-CanWrite c U run.vault plain offset piece h can (omega arith) in
      let (run', e', h2, can2, counts) =
        copy_in-Holds fuel rest answers' (offset + length piece)
          (after_piece progress allows run st (length piece)) (write_all_at plain offset piece) q'
          (omega arith) (omega arith) h1 can1 in
      (
        run',
        ap (λ r. write_piece progress (suc chunk) (write_at c) (importing fuel) offset r run) e
            ∙ copy_piece fuel offset x (take chunk xs) _ run st (length piece) written
            ∙ e',
        subst (λ ys. Holds c run'.vault (write_all_at plain offset (x ∷ ys))) (take-drop chunk xs)
            (Holds-append c plain offset piece rest run'.vault h2),
        can2,
        counts
            ∙ with_bytes-add run.stats (length piece) (length rest) (suc (length xs)) (omega arith),
      )
