-- ===== src/Shell/Quote.antt =====
-- `quote` of menu.rs against `CommandLineToArgvW`, which reads it back.
use desktop_folder_locker.Common.{
  ℕ, zero, suc, ◌+◌, ◌-◌, ◌/◌, ◌%◌, ◌≡◌, refl, sym, ap, ◌∙◌, Option, some, none, [], ◌∷◌, ◌++◌,
  Bool, true, false, ◌&&◌, not, ◌==◌, ==_iff, if◌then◌else◌, arith, length, length-append,
  Bool-cases, inl, inr,
}
use mathlib.Core.List.{append_assoc, append-nil}
use desktop_folder_locker.Common.Text.{Text, trim_end, repeat, is_empty}
use desktop_folder_locker.Shell.Menu.{quote}

-- How Windows reads a quoted argument, from after its opening quote on, with `n` backslashes read
-- just before: the argument, and what follows its closing quote. Before a quote, two backslashes
-- stand for one, and one more makes the quote part of the argument; elsewhere they stand for
-- themselves.
unfoldable pub prepend : Text → Option (Text × Text) → Option (Text × Text)
prepend part none = none
prepend part (some (argument, line)) = some (part ++ argument, line)

unfoldable pub read_quoted : ℕ → Text → Option (Text × Text)
read_quoted n [] = none
read_quoted n (c ∷ line) =
    if c == b'\\'
    then read_quoted (suc n) line
    else if c == b'"'
    then (if n % 2 == 0
        then some (repeat (n / 2) b'\\', line)
        else prepend (repeat (n / 2) b'\\' ++ c ∷ []) (read_quoted 0 line))
    else prepend (repeat n b'\\' ++ c ∷ []) (read_quoted 0 line)

trailing : Text → ℕ
trailing text = length text - length (trim_end b'\\' text)

abbrev pub no_quote : Text → Bool
no_quote [] = true
no_quote (c ∷ text) = not (c == b'"') && no_quote text

kept : (p e : Bool) (text : Text) → e ≡ false → (if p && e then [] else text) ≡ text
kept p true text h = absurd (ground arith)
kept true false text h = refl
kept false false text h = refl

not_empty : (n b : ℕ) (t : Text) → is_empty t ≡ false → is_empty (repeat n b ++ t) ≡ false
unfolding repeat
not_empty zero b t h = h
not_empty (suc n) b t h = refl

trim_end-repeat_append :
    (n b : ℕ) (t : Text)
    → is_empty (trim_end b t) ≡ false
    → trim_end b (repeat n b ++ t) ≡ repeat n b ++ trim_end b t
unfolding trim_end repeat
trim_end-repeat_append zero b t h = refl
trim_end-repeat_append (suc n) b t h =
    let rest = trim_end-repeat_append n b t h in
    kept (b == b) _ _ (ap is_empty rest ∙ not_empty n b (trim_end b t) h) ∙ ap (λ t. b ∷ t) rest

trim_end-cons : (b c : ℕ) (t : Text) → (c == b) ≡ false → trim_end b (c ∷ t) ≡ c ∷ trim_end b t
unfolding trim_end
trim_end-cons b c t h = rw h refl

trim_end-repeat : (n b : ℕ) → trim_end b (repeat n b) ≡ []
unfolding trim_end repeat
trim_end-repeat zero b = refl
trim_end-repeat (suc n) b = rw (trim_end-repeat n b, (==_iff b b).1 refl) refl

length-repeat : (n b : ℕ) → length (repeat n b) ≡ n
unfolding repeat
length-repeat zero b = refl
length-repeat (suc n) b = ap suc (length-repeat n b)

append_one : (xs t : Text) (c : ℕ) → (xs ++ c ∷ []) ++ t ≡ xs ++ c ∷ t
append_one [] t c = refl
append_one (x ∷ xs) t c = ap (λ ys. x ∷ ys) (append_one xs t c)

repeat_shift : (n b : ℕ) (t : Text) → repeat n b ++ b ∷ t ≡ repeat (suc n) b ++ t
unfolding repeat
repeat_shift zero b t = refl
repeat_shift (suc n) b t = ap (λ ys. b ∷ ys) (repeat_shift n b t)

-- Backslashes after a character that is none are the trailing ones.
trailing-cons :
    (n c : ℕ) (t : Text) → (c == b'\\') ≡ false → trailing (repeat n b'\\' ++ c ∷ t) ≡ trailing t
unfolding trailing repeat trim_end
trailing-cons n c t h =
    let e : trim_end b'\\' (repeat n b'\\' ++ c ∷ t) ≡ repeat n b'\\' ++ c ∷ trim_end b'\\' t =
      trim_end-repeat_append n b'\\' (c ∷ t) (ap is_empty (trim_end-cons b'\\' c t h))
      ∙ ap (λ t. repeat n b'\\' ++ t) (trim_end-cons b'\\' c t h) in
    ap (λ u. length (repeat n b'\\' ++ c ∷ t) - length u) e
    ∙ omega (
      arith,
      length-append (repeat n b'\\') (c ∷ t),
      length-append (repeat n b'\\') (c ∷ trim_end b'\\' t),
    )

trailing-repeat : (n : ℕ) → trailing (repeat n b'\\') ≡ n
unfolding trailing repeat trim_end
trailing-repeat n =
    ap (λ u. length (repeat n b'\\') - length u) (trim_end-repeat n b'\\')
    ∙ omega (arith, length-repeat n b'\\')

read_quoted-repeat :
    (n k : ℕ) (line : Text) → read_quoted n (repeat k b'\\' ++ line) ≡ read_quoted (n + k) line
unfolding read_quoted repeat
read_quoted-repeat n zero line = ap (λ m. read_quoted m line) (let z : n ≡ n + 0 = omega arith in z)
read_quoted-repeat n (suc k) line =
    read_quoted-repeat (suc n) k line
    ∙ ap (λ m. read_quoted m line) (let z : suc n + k ≡ n + suc k = omega arith in z)

closing : (n : ℕ) (line : Text) → read_quoted (n + n) (b'"' ∷ line) ≡ some (repeat n b'\\', line)
unfolding read_quoted
closing n line =
    let even : ((n + n) % 2 == 0) ≡ true = ground arith in
    let half : (n + n) / 2 ≡ n = omega arith in rw even (ap (λ k. some (repeat k b'\\', line)) half)

step_backslash :
    (n c : ℕ) (line : Text)
    → (c == b'\\') ≡ true
    → read_quoted n (c ∷ line) ≡ read_quoted (suc n) line
unfolding read_quoted
step_backslash n c line h = rw h refl

step_other :
    (n c : ℕ) (line : Text)
    → (c == b'\\') ≡ false
    → (c == b'"') ≡ false
    → read_quoted n (c ∷ line) ≡ prepend (repeat n b'\\' ++ c ∷ []) (read_quoted 0 line)
unfolding read_quoted
step_other n c line h1 h2 = rw (h1, h2) refl

no_quote-cons :
    (c : ℕ) (text : Text)
    → no_quote (c ∷ text) ≡ true
    → ((c == b'"') ≡ false) × (no_quote text ≡ true)
no_quote-cons c text h = ground arith

read_text :
    (n : ℕ) (text line : Text)
    → no_quote text ≡ true
    → read_quoted n (text ++ (repeat (trailing (repeat n b'\\' ++ text)) b'\\' ++ b'"' ∷ line))
      ≡ some (repeat n b'\\' ++ text, line)
unfolding prepend repeat
read_text n [] line h =
    ap (λ t. read_quoted n (repeat (trailing t) b'\\' ++ b'"' ∷ line)) (append-nil (repeat n b'\\'))
    ∙ ap (λ k. read_quoted n (repeat k b'\\' ++ b'"' ∷ line)) (trailing-repeat n)
    ∙ read_quoted-repeat n n (b'"' ∷ line)
    ∙ closing n line
    ∙ ap (λ t. some (t, line)) (sym (append-nil (repeat n b'\\')))
read_text n (c ∷ text) line h =
    let (plain, h') = no_quote-cons c text h in
    elim (Bool-cases (c == b'\\')) [
      | inl e ↦
          let s : repeat n b'\\' ++ c ∷ text ≡ repeat (suc n) b'\\' ++ text =
            ap (λ c. repeat n b'\\' ++ c ∷ text) ((==_iff c b'\\').0 e)
            ∙ repeat_shift n b'\\' text in
          step_backslash n c _ e
          ∙ ap (λ u. read_quoted (suc n) (text ++ (repeat (trailing u) b'\\' ++ b'"' ∷ line))) s
          ∙ read_text (suc n) text line h'
          ∙ ap (λ u. some (u, line)) (sym s)
      | inr e ↦
          step_other n c _ e plain
          ∙ ap
              (λ k.
                prepend (repeat n b'\\' ++ c ∷ [])
                  (read_quoted 0 (text ++ (repeat k b'\\' ++ b'"' ∷ line))))
              (trailing-cons n c text e)
          ∙ ap (prepend (repeat n b'\\' ++ c ∷ [])) (read_text 0 text line h')
          ∙ ap (λ u. some (u, line)) (append_one (repeat n b'\\') text c)
    ]

-- Windows reads a quoted text back as it was, up to the end of its quotes, unless it holds a
-- quote itself, which no path does.
pub read_quoted-quote :
    (text line : Text)
    → no_quote text ≡ true
    → (rest : Text) × (quote text ++ line ≡ b'"' ∷ rest) × (read_quoted 0 rest ≡ some (text, line))
unfolding quote trailing repeat
read_quoted-quote text line h =
    let k = trailing text in
    (
      (text ++ (repeat k b'\\' ++ b'"' ∷ [])) ++ line,
      refl,
      ap (read_quoted 0) (
            append_assoc text (repeat k b'\\' ++ b'"' ∷ []) line
            ∙ ap (λ t. text ++ t) (append_one (repeat k b'\\') line b'"'))
          ∙ read_text 0 text line h,
    )
