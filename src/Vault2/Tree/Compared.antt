-- ===== src/Vault2/Tree/Compared.antt =====
-- What the loop of `verify_dir` accepts, over the encrypted file of content.rs.
use desktop_folder_locker.Common.{
  ℕ, zero, suc, ◌+◌, ◌-◌, ◌≤◌, ◌<◌, ◌≡◌, refl, sym, ap, subst, ◌∙◌, inl, inr, max, min, arith, Bool,
  true, false, List, [], ◌∷◌, ◌++◌, length, take, drop, length-append, eq_bytes, eq_of_eq_bytes,
  Bool-cases,
}
use desktop_folder_locker.Vault2.Error.{ok, Action, continue}
use desktop_folder_locker.Vault2.Crypto.{Bytes}
use desktop_folder_locker.Vault2.Content.Disk.{Disk, slice, length-slice, slice-add}
use desktop_folder_locker.Vault2.Content.Codec.{Codec}
use desktop_folder_locker.Vault2.Content.Holds.{Holds, IsUsable}
use desktop_folder_locker.Vault2.Content.Read.{read_at-Holds}
use desktop_folder_locker.Vault2.Content.File.{State, read_at}
use desktop_folder_locker.Vault2.Tree.Reader.{Reader, Answer, AreQuiet, read_full-take}
use desktop_folder_locker.Vault2.Tree.Copying.{
  Run, answer, count_bytes, same_piece, compare_piece, compare, with_vault,
}
use desktop_folder_locker.Vault2.Tree.Copied.{take-drop}

module _ (c : Codec) (U : IsUsable c) {P : Type 0} (progress : ℕ → P → Bool × P) (chunk : ℕ) where
  abbrev pub checking : ℕ → ℕ → Reader → Action (Run State P) (Unit {0})
  checking = compare progress (suc chunk) (read_at c)

  abbrev pub onward : ℕ → Bytes → List Answer → ℕ → Action (Run State P) (Unit {0})
  onward fuel rest answers offset =
      checking fuel offset (record { rest = drop (suc chunk) rest; answers = answers })

  -- The bytes of the vault's file that are compared with these.
  abbrev pub against : Disk → ℕ → Bytes → Bytes
  against plain offset expected =
      slice plain.byte offset (min (max (length expected) 1) (plain.len - offset))

  abbrev pub compared : ℕ → ℕ → Bytes → Bytes → Reader → Action (Run State P) (Unit {0})
  compared fuel offset expected stored source =
      same_piece progress (suc chunk) (read_at c) (λ o. checking fuel o source) offset expected
        stored

  -- A round of the loop.
  pub compare_step :
      (fuel offset : ℕ) (rest : Bytes) (answers : List Answer) (run : Run State P) (plain : Disk)
      → Holds c run.vault plain
      → AreQuiet answers
      → (answers' : List Answer) × (checking
            (suc fuel)
            offset
            (record { rest = rest; answers = answers })
            run
          ≡ compared fuel offset
              (take (suc chunk) rest)
              (against plain offset (take (suc chunk) rest))
              (record { rest = drop (suc chunk) rest; answers = answers' })
              run)
        × AreQuiet answers'
  unfolding compare
  compare_step fuel offset rest answers run plain h q =
      let expected = take (suc chunk) rest in
      let (answers', e, q') =
        read_full-take (suc chunk) (record { rest = rest; answers = answers }) q in
      let left : Reader = record { rest = drop (suc chunk) rest; answers = answers' } in
      (
        answers',
        ap (λ r. compare_piece progress (suc chunk) (read_at c) (checking fuel) offset r run) e
            ∙ ap
                (λ r.
                  continue (λ stored. compared fuel offset expected stored left) (with_vault run r))
                (read_at-Holds c U run.vault plain offset (max (length expected) 1) h),
        q',
      )

  -- A piece is compared only where the vault's file has all of it.
  whole_piece :
      (plain : Disk) (offset x : ℕ) (bytes : Bytes)
      → x ∷ bytes ≡ against plain offset (x ∷ bytes)
      → (length (x ∷ bytes) ≤ plain.len - offset)
        × (slice plain.byte offset (length (x ∷ bytes)) ≡ x ∷ bytes)
  whole_piece plain offset x bytes e =
      let l = length (x ∷ bytes) in
      let n = min (max l 1) (plain.len - offset) in
      let count : l ≡ n = ap length e ∙ length-slice plain.byte offset n in
      (omega arith, ap (slice plain.byte offset) count ∙ sym e)

  pub joined :
      (plain : Disk) (offset l : ℕ)
      → l ≤ plain.len - offset
      → slice plain.byte offset (plain.len - offset)
        ≡ slice plain.byte offset l ++ slice plain.byte (offset + l) (plain.len - (offset + l))
  joined plain offset l h =
      ap (slice plain.byte offset)
        (let z : plain.len - offset ≡ l + (plain.len - (offset + l)) = omega arith in z)
      ∙ slice-add plain.byte offset l (plain.len - (offset + l))

  abbrev same :
      (ℕ → Action (Run State P) (Unit {0})) → ℕ → Bytes → Bytes → Action (Run State P) (Unit {0})
  same = same_piece progress (suc chunk) (read_at c)

  both_end :
      (next : ℕ → Action (Run State P) (Unit {0})) (offset : ℕ) (stored : Bytes)
      → (run run' : Run State P) → same next offset [] stored run ≡ (ok tt, run')
      → stored ≡ []
  both_end next offset [] run run' e = refl
  both_end next offset (s ∷ stored) run run' e = absurd (cc e)

  goes_on :
      (next : Action (Run State P) (Unit {0})) (run run' : Run State P) (answered : Bool × P)
      → continue (λ _. next) (answer progress run answered) ≡ (ok tt, run')
      → (run1 : Run State P) × (run1.vault ≡ run.vault) × (next run1 ≡ (ok tt, run'))
  goes_on next run run' (true, seen) e = (record run { seen = seen }, refl, e)
  goes_on next run run' (false, seen) e = absurd (cc e)

  both_go_on :
      (next : ℕ → Action (Run State P) (Unit {0})) (offset x : ℕ) (bytes stored : Bytes)
      → (run run' : Run State P) → same next offset (x ∷ bytes) stored run ≡ (ok tt, run')
      → (x ∷ bytes ≡ stored)
        × (run1 : Run State P) × (run1.vault ≡ run.vault)
        × (next (offset + length (x ∷ bytes)) run1 ≡ (ok tt, run'))
  both_go_on next offset x bytes stored run run' e =
      elim (Bool-cases (eq_bytes (x ∷ bytes) stored)) [
        | inr differs ↦ absurd (cc (rw differs at e))
        | inl equal ↦
            let l = length (x ∷ bytes) in
            let (run1, kept, e1) =
              goes_on (next (offset + l)) (count_bytes l run) run' _ (rw equal at e) in
            (eq_of_eq_bytes (x ∷ bytes) stored equal, run1, kept, e1)
      ]

  -- Where the loop of `verify_dir` ends without an error, the file of the vault has the bytes of the
  -- source, from the offset on, whatever the function `progress` answered. No read of the source
  -- fails, and there are more rounds than bytes.
  pub compare_sound :
      (fuel : ℕ) (rest : Bytes) (answers : List Answer) (offset : ℕ) (run run' : Run State P)
      → (plain : Disk) → AreQuiet answers
      → length rest < fuel
      → Holds c run.vault plain
      → checking fuel offset (record { rest = rest; answers = answers }) run ≡ (ok tt, run')
      → slice plain.byte offset (plain.len - offset) ≡ rest
  unfolding slice
  compare_sound zero rest answers offset run run' plain q enough h e = absurd (omega arith)
  compare_sound (suc fuel) [] answers offset run run' plain q enough h e =
      let (answers', step, _) = compare_step fuel offset [] answers run plain h q in
      let none_stored : against plain offset [] ≡ [] =
        both_end (onward fuel [] answers') offset (against plain offset []) run run'
          (sym step ∙ e) in
      let none : min 1 (plain.len - offset) ≡ 0 =
        sym (length-slice plain.byte offset _) ∙ ap length none_stored in
      let z : plain.len - offset ≡ 0 = omega (arith, none) in rw z refl
  compare_sound (suc fuel) (x ∷ xs) answers offset run run' plain q enough h e =
      let piece : Bytes = x ∷ take chunk xs in
      let rest = drop chunk xs in
      let all : length (take chunk xs) + length rest ≡ length xs =
        sym (length-append (take chunk xs) rest) ∙ ap length (take-drop chunk xs) in
      let (answers', step, q') = compare_step fuel offset (x ∷ xs) answers run plain h q in
      let (equal, run1, kept, e1) =
        both_go_on (onward fuel (x ∷ xs) answers') offset x (take chunk xs)
          (against plain offset piece) run run' (sym step ∙ e) in
      let (within, whole) = whole_piece plain offset x (take chunk xs) equal in
      joined plain offset (length piece) within
      ∙ ap
          (λ ys.
            ys ++ slice plain.byte (offset + length piece) (plain.len - (offset + length piece)))
          whole
      ∙ ap (λ ys. piece ++ ys)
          (compare_sound fuel rest answers' (offset + length piece) run1 run' plain q' (omega arith)
            (subst (λ st. Holds c st plain) (sym kept) h) e1)
      ∙ ap (λ ys. x ∷ ys) (take-drop chunk xs)
