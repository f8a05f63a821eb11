-- ===== src/Vault2/Tree/Reader.antt =====
-- `read_full` of tree.rs over an open file of the operating system, which may return less than was
-- asked for, be interrupted, or fail.
use desktop_folder_locker.Common.{
  ℕ, zero, suc, ◌+◌, ◌-◌, ◌≤◌, ◌<◌, ◌≡◌, refl, ap, ◌∙◌, min, arith, List, [], ◌∷◌, ◌++◌, length,
  take, drop,
}
use desktop_folder_locker.Vault2.Error.{Result, ok, err, IoError, io, Action}
use desktop_folder_locker.Vault2.Crypto.{Bytes}

-- How the system answers one `read`: with at most this many bytes and one more, with
-- `ErrorKind::Interrupted`, or with another error.
pub data Answer : Type 0 where
  short : ℕ → Answer
  interrupted : Answer
  fails : IoError → Answer

-- An open file: the bytes from its position on, and how the next calls are answered. The calls
-- after those return all that was asked for and is there.
pub record Reader : Type 0 where
  pub rest : Bytes
  pub answers : List Answer

pub data Outcome : Type 0 where
  got : Bytes → Outcome
  again : Outcome
  failed : IoError → Outcome

abbrev pub advance : ℕ → Bytes → List Answer → Outcome × Reader
advance n rest answers = (got (take n rest), record { rest = drop n rest; answers = answers })

unfoldable pub read : ℕ → Reader → Outcome × Reader
read n source = elim source.answers [
  | [] ↦ advance n source.rest []
  | short k ∷ answers ↦ advance (min n (suc k)) source.rest answers
  | interrupted ∷ answers ↦ (again, record { rest = source.rest; answers = answers })
  | fails e ∷ answers ↦ (failed e, record { rest = source.rest; answers = answers })
]

abbrev pub prepend : Bytes → Result Bytes × Reader → Result Bytes × Reader
prepend bytes (ok rest, source) = (ok (bytes ++ rest), source)
prepend bytes (err e, source) = (err e, source)

-- A round of the loop of `read_full` that wants `n` bytes, after its read; `go` is what follows.
abbrev pub after : (ℕ → Action Reader Bytes) → ℕ → Outcome × Reader → Result Bytes × Reader
after go n (got [], source) = (ok [], source)
after go n (got (b ∷ bytes), source) = prepend (b ∷ bytes) (go (n - length (b ∷ bytes)) source)
after go n (again, source) = go n source
after go n (failed e, source) = (err (io e), source)

-- The loop of `read_full` while `n` bytes of the buffer are not filled.
unfoldable pub fill : ℕ → ℕ → Action Reader Bytes
fill fuel zero source = (ok [], source)
fill zero (suc n) source = (ok [], source)
fill (suc fuel) (suc n) source = after (fill fuel) (suc n) (read (suc n) source)

-- Each answer is for one round; two more see the end of the file.
unfoldable pub read_full : ℕ → Action Reader Bytes
read_full n source = fill (length source.answers + 2) n source

-- None of the answers is an error.
abbrev pub AreQuiet : List Answer → Type 0
AreQuiet [] = Unit {0}
AreQuiet (short k ∷ answers) = AreQuiet answers
AreQuiet (interrupted ∷ answers) = AreQuiet answers
AreQuiet (fails e ∷ answers) = ⊥

take-nil {ℓ} : {A : Type ℓ} (n : ℕ) → take {A = A} n [] ≡ []
take-nil zero = refl
take-nil (suc n) = refl

drop-nil {ℓ} : {A : Type ℓ} (n : ℕ) → drop {A = A} n [] ≡ []
drop-nil zero = refl
drop-nil (suc n) = refl

take-split {ℓ} :
    {A : Type ℓ} (k n : ℕ) (xs : List A)
    → k ≤ n
    → take k xs ++ take (n - length (take k xs)) (drop k xs) ≡ take n xs
take-split zero n xs h = ap (λ m. take m xs) (let z : n - 0 ≡ n = omega arith in z)
take-split (suc k) zero xs h = elim h [ ]
take-split (suc k) (suc n) [] h = take-nil (suc n - 0)
take-split (suc k) (suc n) (x ∷ xs) h =
    let shift : suc n - suc (length (take k xs)) ≡ n - length (take k xs) = omega arith in
    ap (λ m. x ∷ (take k xs ++ take m (drop k xs))) shift
    ∙ ap (λ ys. x ∷ ys) (take-split k n xs (omega arith))

drop-split {ℓ} :
    {A : Type ℓ} (k n : ℕ) (xs : List A)
    → k ≤ n
    → drop (n - length (take k xs)) (drop k xs) ≡ drop n xs
drop-split zero n xs h = ap (λ m. drop m xs) (let z : n - 0 ≡ n = omega arith in z)
drop-split (suc k) zero xs h = elim h [ ]
drop-split (suc k) (suc n) [] h = drop-nil (suc n - 0)
drop-split (suc k) (suc n) (x ∷ xs) h =
    let shift : suc n - suc (length (take k xs)) ≡ n - length (take k xs) = omega arith in
    ap (λ m. drop m (drop k xs)) shift ∙ drop-split k n xs (omega arith)

-- What a full buffer, or the end of the file, leaves to read.
abbrev Full : ℕ → Bytes → Result Bytes × Reader → Type 0
Full n rest result =
    (answers : List Answer) × (result
      ≡ (ok (take n rest), record { rest = drop n rest; answers = answers }))
    × AreQuiet answers

drop-past {ℓ} :
    {A : Type ℓ} (n m : ℕ) (xs : List A) → n - length (take n xs) ≡ suc m → drop n xs ≡ []
drop-past zero m xs e = absurd (omega arith)
drop-past (suc n) m [] e = refl
drop-past (suc n) m (x ∷ xs) e =
    let shift : n - length (take n xs) ≡ suc m =
      (let z : n - length (take n xs) ≡ suc n - suc (length (take n xs)) = omega arith in z) ∙ e in
    drop-past n m xs shift

full_eq :
    (read read' rest rest' : Bytes) (answers : List Answer)
    → read ≡ read'
    → rest ≡ rest'
    → Path
        (Result Bytes × Reader)
        (ok read, record { rest = rest; answers = answers })
        (ok read', record { rest = rest'; answers = answers })
full_eq read read' rest rest' answers e e' = cc (e, e')

-- A round that asks for `n` bytes and gets at most `j`.
round-Full :
    (go : ℕ → Action Reader Bytes) (j n : ℕ) (rest : Bytes) (answers : List Answer)
    → 0 < j
    → j ≤ n
    → AreQuiet answers
    → Full
        (n - length (take j rest))
        (drop j rest)
        (go (n - length (take j rest)) (record { rest = drop j rest; answers = answers }))
    → Full n rest (after go n (advance j rest answers))
round-Full go zero n rest answers p le q h = elim p [ ]
round-Full go (suc j) zero rest answers p le q h = elim le [ ]
round-Full go (suc j) (suc n) [] answers p le q h = (answers, refl, q)
round-Full go (suc j) (suc n) (x ∷ xs) answers p le q (answers', e, q') = (
  answers',
  ap (prepend (x ∷ take j xs)) e
      ∙ full_eq _ _ _ _ answers' (take-split (suc j) (suc n) (x ∷ xs) le)
          (drop-split (suc j) (suc n) (x ∷ xs) le),
  q',
)

-- The round after a read that got all there is.
fill_last :
    (fuel n left : ℕ) (rest : Bytes)
    → n - length (take n rest) ≡ left
    → Full left (drop n rest) (fill (suc fuel) left (record { rest = drop n rest; answers = [] }))
unfolding fill read
fill_last fuel n zero rest e = ([], refl, tt)
fill_last fuel n (suc left) rest e = rw (drop-past n left rest e) ([], refl, tt)

-- With enough fuel, `fill` fills the buffer or reads the file to its end.
fill-Full :
    (fuel n : ℕ) (rest : Bytes) (answers : List Answer)
    → AreQuiet answers
    → length answers + 2 ≤ fuel
    → Full n rest (fill fuel n (record { rest = rest; answers = answers }))
unfolding fill read
fill-Full zero n rest answers q h = absurd (omega arith)
fill-Full (suc fuel) zero rest answers q h = (answers, refl, q)
fill-Full (suc zero) (suc n) rest answers q h = absurd (omega arith)
fill-Full (suc (suc fuel)) (suc n) rest [] q h =
    round-Full (fill (suc fuel)) (suc n) (suc n) rest [] (omega arith) (omega arith) q
      (fill_last fuel (suc n) _ rest refl)
fill-Full (suc (suc fuel)) (suc n) rest (short k ∷ answers) q h =
    let asked = min (suc n) (suc k) in
    round-Full (fill (suc fuel)) asked (suc n) rest answers (omega arith) (omega arith) q (
      fill-Full (suc fuel) (suc n - length (take asked rest)) (drop asked rest) answers q
        (omega arith))
fill-Full (suc (suc fuel)) (suc n) rest (interrupted ∷ answers) q h =
    fill-Full (suc fuel) (suc n) rest answers q (omega arith)
fill-Full (suc (suc fuel)) (suc n) rest (fails e ∷ answers) q h = absurd q

-- `read_full` returns the next bytes of the file, as many as asked for or as there are, however
-- the system splits or interrupts the reads, if none of them fails.
pub read_full-take :
    (n : ℕ) (source : Reader)
    → AreQuiet source.answers
    → (answers : List Answer) × (read_full n source
        ≡ (ok (take n source.rest), record { rest = drop n source.rest; answers = answers }))
      × AreQuiet answers
unfolding read_full
read_full-take n source q = fill-Full _ n source.rest source.answers q (omega arith)
