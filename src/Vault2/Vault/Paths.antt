-- ===== src/Vault2/Vault/Paths.antt =====
-- `components` of vault.rs: the names of a path.
use desktop_folder_locker.Common.{
  ℕ, ◌≡◌, refl, sym, ap, subst, ◌∙◌, List, [], ◌∷◌, ◌++◌, Bool, false, ◌||◌, ◌==◌, if◌then◌else◌,
  arith, inl, inr,
}
use mathlib.Core.List.{append_assoc, append-nil}
use desktop_folder_locker.Common.Text.{Text, any, is_empty}
use desktop_folder_locker.Vault2.Error.{Result, ok, err, Result-cases}
use desktop_folder_locker.Vault2.Names.Defs.{check_name}

abbrev pub is_separator : ℕ → Bool
is_separator c = c == b'\\' || c == b'/'

-- `split(['\\', '/'])` without the empty parts, where `part` is read already.
unfoldable pub parts_of : Text → Text → List Text
parts_of part [] = if is_empty part then [] else part ∷ []
parts_of part (c ∷ path) =
    let rest = parts_of [] path in
    let longer = parts_of (part ++ c ∷ []) path in
    if is_separator c then (if is_empty part then rest else part ∷ rest) else longer

unfoldable pub check_all : List Text → Result (Unit {0})
check_all [] = ok tt
check_all (part ∷ parts) = elim (check_name part) [ err e ↦ err e | ok _ ↦ check_all parts ]

unfoldable pub components : Text → Result (List Text)
components path = elim (check_all (parts_of [] path)) [
  | err e ↦ err e
  | ok _ ↦ ok (parts_of [] path)
]

-- The path of some names: a backslash before each.
abbrev pub path_of : List Text → Text
path_of [] = []
path_of (name ∷ names) = b'\\' ∷ name ++ path_of names

abbrev pub AreValid : List Text → Type 0
AreValid [] = Unit
AreValid (name ∷ names) = (check_name name ≡ ok tt) × AreValid names

check_all-cons :
    (name : Text) (names : List Text)
    → check_name name ≡ ok tt
    → check_all (name ∷ names) ≡ check_all names
unfolding check_all
check_all-cons name names e = rw (check_all, e) refl

check_all-AreValid : (names : List Text) → AreValid names → check_all names ≡ ok tt
unfolding check_all
check_all-AreValid [] h = refl
check_all-AreValid (name ∷ names) (e, h) = check_all-cons name names e ∙ check_all-AreValid names h

AreValid-check_all : (names : List Text) → check_all names ≡ ok tt → AreValid names
unfolding check_all
AreValid-check_all [] h = tt
AreValid-check_all (name ∷ names) h = elim (Result-cases (check_name name)) [
  | inl (unit, e) ↦ (e, AreValid-check_all names (sym (check_all-cons name names e) ∙ h))
  | inr (x, e) ↦ absurd (ground arith)
]

any-is_separator :
    (name : Text)
    → any (λ c. c == b'\\' || (c == b'/' || c == 0)) name ≡ false
    → any is_separator name ≡ false
any-is_separator [] h = refl
any-is_separator (c ∷ name) h = ground (arith, any-is_separator name)

-- A valid name is not empty and has no separator in it.
plain_name :
    (name : Text)
    → check_name name ≡ ok tt
    → (is_empty name ≡ false) × (any is_separator name ≡ false)
unfolding check_name
plain_name [] h = absurd (ground arith)
plain_name (c ∷ name) h = (refl, any-is_separator (c ∷ name) (ground arith))

parts_of-cons :
    (part path : Text) (c : ℕ)
    → is_separator c ≡ false
    → parts_of part (c ∷ path) ≡ parts_of (part ++ c ∷ []) path
unfolding parts_of
parts_of-cons part path c h = rw h refl

full_part :
    (part : Text) (names : List Text)
    → is_empty part ≡ false
    → parts_of part (path_of names) ≡ part ∷ parts_of [] (path_of names)
unfolding parts_of
full_part part [] h = rw h refl
full_part part (name ∷ names) h = rw h refl

-- A name is read up to the next separator, or to the end.
parts_of-name :
    (part name : Text) (names : List Text)
    → is_empty (part ++ name) ≡ false
    → any is_separator name ≡ false
    → parts_of part (name ++ path_of names) ≡ (part ++ name) ∷ parts_of [] (path_of names)
parts_of-name part [] names h plain =
    full_part part names (ap is_empty (sym (append-nil part)) ∙ h)
    ∙ ap (λ t. t ∷ parts_of [] (path_of names)) (sym (append-nil part))
parts_of-name part (c ∷ name) names h plain =
    let longer : (part ++ c ∷ []) ++ name ≡ part ++ c ∷ name = append_assoc part (c ∷ []) name in
    let (first, rest) : (is_separator c ≡ false) × (any is_separator name ≡ false) = ground arith in
    parts_of-cons part (name ++ path_of names) c first
    ∙ parts_of-name (part ++ c ∷ []) name names (ap is_empty longer ∙ h) rest
    ∙ ap (λ t. t ∷ parts_of [] (path_of names)) longer

parts_of-path_of : (names : List Text) → AreValid names → parts_of [] (path_of names) ≡ names
unfolding parts_of
parts_of-path_of [] h = refl
parts_of-path_of (name ∷ names) (e, h) =
    let (full, plain) = plain_name name e in
    parts_of-name [] name names full plain ∙ ap (λ t. name ∷ t) (parts_of-path_of names h)

components-eq :
    (path : Text) → check_all (parts_of [] path) ≡ ok tt → components path ≡ ok (parts_of [] path)
unfolding components
components-eq path e = rw (components, e) refl

-- The path of valid names is taken apart into these names.
pub components-path_of :
    (names : List Text) → AreValid names → components (path_of names) ≡ ok names
components-path_of names h =
    let same = parts_of-path_of names h in
    components-eq (path_of names) (ap check_all same ∙ check_all-AreValid names h) ∙ ap ok same

-- A path that is accepted has valid names only.
pub components-AreValid :
    (path : Text) (names : List Text) → components path ≡ ok names → AreValid names
unfolding components
components-AreValid path names e = elim (Result-cases (check_all (parts_of [] path))) [
  | inl (unit, h) ↦
      subst AreValid
        (ap (λ r. elim r [ ok names ↦ names | err x ↦ names ]) (sym (components-eq path h) ∙ e))
        (AreValid-check_all (parts_of [] path) h)
  | inr (x, h) ↦ absurd (ground arith)
]
