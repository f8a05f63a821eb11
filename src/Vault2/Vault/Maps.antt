-- ===== src/Vault2/Vault/Maps.antt =====
-- `HashMap` as vault.rs uses it: pairs in the order of their first insertion, which the code never
-- reads. Keys are names or paths.
use desktop_folder_locker.Common.{
  Bool-cases, inl, inr, sym, ◌≡◌, ◌↔◌, refl, Option, none, some, List, [], ◌∷◌, Bool, true, false,
  ◌&&◌, eq_bytes, eq_bytes_refl, eq_of_eq_bytes, if◌then◌else◌, arith,
}
use desktop_folder_locker.Common.Text.{Text}

pub record Eq {ℓ} (K : Type ℓ) : Type ℓ where
  pub beq : K → K → Bool
  pub beq_iff : (a b : K) → (beq a b ≡ true) ↔ (a ≡ b)

pub eq_bytes_iff : (a b : Text) → (eq_bytes a b ≡ true) ↔ (a ≡ b)
eq_bytes_iff a b = (eq_of_eq_bytes a b, λ e. rw e (eq_bytes_refl b))

instance abbrev pub text_eq : Eq Text
text_eq = record { beq = eq_bytes; beq_iff = eq_bytes_iff }

-- A path is the list of its names below the data folder, the innermost first, so that joining a
-- name puts it in front.
abbrev pub StoredPath : Type 0
StoredPath = List Text

-- `PathBuf` equality.
abbrev pub eq_path : StoredPath → StoredPath → Bool
eq_path [] [] = true
eq_path [] (m ∷ q) = false
eq_path (n ∷ p) [] = false
eq_path (n ∷ p) (m ∷ q) = eq_bytes n m && eq_path p q

pub eq_path_refl : (p : StoredPath) → eq_path p p ≡ true
eq_path_refl [] = refl
eq_path_refl (n ∷ p) = ground (arith, eq_bytes_refl n, eq_path_refl p)

pub eq_of_eq_path : (p q : StoredPath) → eq_path p q ≡ true → p ≡ q
eq_of_eq_path [] [] h = refl
eq_of_eq_path [] (m ∷ q) h = ground arith
eq_of_eq_path (n ∷ p) [] h = ground arith
eq_of_eq_path (n ∷ p) (m ∷ q) h = ground (arith, eq_of_eq_bytes n m, eq_of_eq_path p q)

pub eq_path_iff : (p q : StoredPath) → (eq_path p q ≡ true) ↔ (p ≡ q)
eq_path_iff p q = (eq_of_eq_path p q, λ e. rw e (eq_path_refl q))

pub eq_path_sym : (p q : StoredPath) → eq_path p q ≡ false → eq_path q p ≡ false
eq_path_sym p q h = elim (Bool-cases (eq_path q p)) [
  | inr e ↦ e
  | inl e ↦ absurd (cc ((eq_path_iff p q).1 (sym (eq_of_eq_path q p e)), h))
]

instance abbrev pub path_eq : Eq StoredPath
path_eq = record { beq = eq_path; beq_iff = eq_path_iff }

module _ {ℓ κ} {K : Type ℓ} {A : Type κ} ⦃e : Eq K⦄ where
  unfoldable pub get : K → List (K × A) → Option A
  get key [] = none
  get key ((k, a) ∷ m) = if e.beq k key then some a else get key m

  unfoldable pub insert : K → A → List (K × A) → List (K × A)
  insert key a [] = (key, a) ∷ []
  insert key a ((k, b) ∷ m) = if e.beq k key then (key, a) ∷ m else (k, b) ∷ insert key a m

  unfoldable pub remove : K → List (K × A) → List (K × A)
  remove key [] = []
  remove key ((k, a) ∷ m) = let rest = remove key m in if e.beq k key then rest else (k, a) ∷ rest

  pub get-insert :
      (k j : K) (a : A) (m : List (K × A))
      → get j (insert k a m) ≡ (if e.beq k j then some a else get j m)
  unfolding get insert
  get-insert k j a [] = refl
  get-insert k j a ((i, b) ∷ m) =
      ground (arith, e.beq_iff k j, e.beq_iff i k, e.beq_iff i j, get-insert k j a m)

  pub get-remove :
      (k j : K) (m : List (K × A)) → get j (remove k m) ≡ (if e.beq k j then none else get j m)
  unfolding get remove
  get-remove k j [] = ground arith
  get-remove k j ((i, b) ∷ m) =
      ground (arith, e.beq_iff k j, e.beq_iff i k, e.beq_iff i j, get-remove k j m)

-- `HashMap::retain`
unfoldable pub retain {ℓ κ} :
    {K : Type ℓ} {A : Type κ} → (K → A → Bool) → List (K × A) → List (K × A)
retain p [] = []
retain p ((k, a) ∷ m) = let rest = retain p m in if p k a then (k, a) ∷ rest else rest

-- `keys().filter(p)`
unfoldable pub keys_with {ℓ κ} : {K : Type ℓ} {A : Type κ} → (K → Bool) → List (K × A) → List K
keys_with p [] = []
keys_with p ((k, a) ∷ m) = let rest = keys_with p m in if p k then k ∷ rest else rest
