-- ===== src/Vault2/Error.antt =====
-- native/vault2/src/error.rs: the errors of vault operations. Below them, how a fallible method
-- of an object is written here: it returns its result with the state that it leaves, after an
-- error too.
use Prim.Native.String.{String}
use desktop_folder_locker.Common.{ℕ, ◌≡◌, refl, ap, ◌⊎◌, inl, inr, Option, Bool, true, false}

-- `std::io::ErrorKind`, as far as the code tells kinds apart.
pub data ErrorKind : Type 0 where
  not_found already_exists invalid_input unexpected_eof permission_denied other : ErrorKind

-- `std::io::Error`: its kind, and the code of the operating system if it has one.
pub record IoError : Type 0 where
  pub kind : ErrorKind
  pub raw_os_error : Option ℕ

pub data Error : Type 0 where
  io : IoError → Error
  corrupt : String → Error
  not_found already_exists not_a_directory is_a_directory directory_not_empty : Error
  invalid_name wrong_key not_allowed cancelled : Error
  unsupported : String → Error
  mismatch : String → Error

-- `Error::from_io`
unfoldable pub from_io : IoError → Error
from_io e = elim e.kind [
  | ErrorKind.not_found ↦ Error.not_found
  | ErrorKind.already_exists ↦ Error.already_exists
  | _ ↦ io e
]

pub data Result {ℓ} (A : Type ℓ) : Type ℓ where
  ok : A → Result A
  err : Error → Result A

abbrev pub and_then : {A B : Type 0} → Result A → (A → Result B) → Result B
and_then (ok a) f = f a
and_then (err e) f = err e

abbrev pub Action : Type 0 → Type 0 → Type 0
Action S A = S → Result A × S

module _ {S : Type 0} where
  abbrev pub pure : {A : Type 0} → A → Action S A
  pure a s = (ok a, s)

  abbrev pub raise : {A : Type 0} → Error → Action S A
  raise e s = (err e, s)

  -- A value that was computed as a `Result`, with `?`.
  abbrev pub lift : {A : Type 0} → Result A → Action S A
  lift r s = (r, s)

  abbrev pub gets : {A : Type 0} → (S → A) → Action S A
  gets f s = (ok (f s), s)

  abbrev pub modify : (S → S) → Action S (Unit {0})
  modify f s = (ok tt, f s)

  abbrev pub unless : Bool → Action S (Unit {0}) → Action S (Unit {0})
  unless true m = pure tt
  unless false m = m

  abbrev pub continue : {A B : Type 0} → (A → Action S B) → Result A × S → Result B × S
  continue f (ok a, s) = f a s
  continue f (err e, s) = (err e, s)

  infixl 5 ◌>>=◌ ◌>>◌
  abbrev pub ◌>>=◌ : {A B : Type 0} → Action S A → (A → Action S B) → Action S B
  ◌>>=◌ m f s = continue f (m s)

  abbrev pub ◌>>◌ : {B : Type 0} → Action S (Unit {0}) → Action S B → Action S B
  m >> k = m >>= λ _. k

-- A step that succeeds goes on.
pub bind_ok :
    {S A B : Type 0} (m : Action S A) (f : A → Action S B) (s : S) {a : A} {t : S}
    → m s ≡ (ok a, t)
    → (m >>= f) s ≡ f a t
bind_ok m f s e = ap (continue f) e

-- A step that fails is the last.
pub bind_err :
    {S A B : Type 0} (m : Action S A) (f : A → Action S B) (s : S) {x : Error} {t : S}
    → m s ≡ (err x, t)
    → (m >>= f) s ≡ (err x, t)
bind_err m f s e = ap (continue f) e

pub Result-cases {ℓ} :
    {A : Type ℓ} (r : Result A) → ((a : A) × (r ≡ ok a)) ⊎ ((e : Error) × (r ≡ err e))
Result-cases (ok a) = inl (a, refl)
Result-cases (err e) = inr (e, refl)
