-- ===== src/Drive/Handler/Create.antt =====
-- `create_file` of handler.rs: what opening a path on the drive does. The vault and its files are
-- an interface, with the calls that handler.rs makes on them.
use desktop_folder_locker.Common.{
  ℕ, ◌≡◌, ◌⊎◌, inl, inr, refl, ap, ◌∙◌, Option, none, some, List, [], ◌∷◌, Bool, true, false, not,
  ◌&&◌, ◌||◌, ◌==◌, ltb, if◌then◌else◌, arith, Bool-cases,
}
use desktop_folder_locker.Common.Text.{Text, is_empty}
use desktop_folder_locker.Vault2.Error.{Result, ok, err, Result-cases}
use desktop_folder_locker.Drive.Handler.Status.{
  NtStatus, Outcome, success, failed, status, lookup_status,
}
use desktop_folder_locker.Drive.Handler.InUse.{has_any, data_access}

abbrev pub file_supersede : ℕ
file_supersede = 0

abbrev pub file_open : ℕ
file_open = 1

abbrev pub file_create : ℕ
file_create = 2

abbrev pub file_open_if : ℕ
file_open_if = 3

abbrev pub file_overwrite : ℕ
file_overwrite = 4

abbrev pub file_overwrite_if : ℕ
file_overwrite_if = 5

-- The bits of options and attributes.
abbrev pub directory_file : ℕ
directory_file = 0

abbrev pub non_directory_file : ℕ
non_directory_file = 6

abbrev pub delete_on_close : ℕ
delete_on_close = 12

abbrev pub read_only : ℕ
read_only = 0

abbrev pub hidden_or_system : List ℕ
hidden_or_system = 1 ∷ 2 ∷ []

abbrev pub kept_attributes : List ℕ
kept_attributes = 0 ∷ 1 ∷ 2 ∷ 5 ∷ 13 ∷ []

-- `FILE_WRITE_DATA | FILE_APPEND_DATA`
abbrev pub write_access : List ℕ
write_access = 1 ∷ 2 ∷ []

-- `stored & mask & !attributes != 0`
unfoldable pub has_more : ℕ → ℕ → List ℕ → Bool
has_more stored attributes [] = false
has_more stored attributes (bit ∷ mask) =
    (has_any stored (bit ∷ []) && not (has_any attributes (bit ∷ [])))
    || has_more stored attributes mask

pub record Item : Type 0 where
  pub name : Text
  pub is_dir : Bool

-- What handler.rs calls: `S` is the state of the vault, `F` an open file. `lookup` also fills the
-- tables of the vault, on which no answer depends if they are current; that is left out here.
pub record Calls (S F : Type 0) : Type 0 where
  pub lookup : Text → S → Result (Option Item)
  pub open_file : Item → S → Result F × S
  pub attributes_of : F → S → Outcome ℕ
  pub truncate : F → S → Result (Unit {0}) × S
  pub set_file_attributes : F → ℕ → S → Outcome (Unit {0}) × S
  pub create_dir : Text → S → Result Item × S
  pub set_dir_attributes : Item → ℕ → S → S
  pub create_file : Text → S → Result F × S

-- `CreateFileInfo`
pub data Opened (F : Type 0) : Type 0 where
  dir : (new : Bool) → Opened F
  file : (file : F) (in_use new : Bool) → Opened F

pub record Request : Type 0 where
  pub desired_access : ℕ
  pub file_attributes : ℕ
  pub create_disposition : ℕ
  pub create_options : ℕ

abbrev pub replaces : ℕ → Bool
replaces disposition =
    disposition == file_supersede
    || (disposition == file_overwrite || disposition == file_overwrite_if)

module _ {S F : Type 0} (calls : Calls S F) (from_win32 : ℕ → NtStatus) where
  abbrev pub opened_file : F → Bool → Request → Outcome (Opened F)
  opened_file f new r = success (Opened.file f (has_any r.desired_access data_access) new)

  unfoldable pub open_dir : Item → Request → Outcome (Opened F)
  open_dir it r =
      if has_any r.create_options (non_directory_file ∷ [])
      then failed NtStatus.file_is_a_directory
      else if has_any r.create_options (delete_on_close ∷ []) && is_empty it.name
      then failed NtStatus.access_denied
      else if r.create_disposition == file_open || r.create_disposition == file_open_if
      then success (Opened.dir false)
      else if r.create_disposition == file_create
      then failed NtStatus.object_name_collision
      else failed NtStatus.invalid_parameter

  -- An existing file is replaced: it is cut to nothing and gets the new attributes.
  unfoldable pub replace : F → ℕ → Request → S → Outcome (Opened F) × S
  replace f stored r st =
      if has_any stored (read_only ∷ []) || has_more stored r.file_attributes hidden_or_system
      then (failed NtStatus.access_denied, st)
      else let (cut, st1) = calls.truncate f st in
        elim cut [
          | err e ↦ (failed (status from_win32 e), st1)
          | ok _ ↦
              let (set, st2) = calls.set_file_attributes f r.file_attributes st1 in
              elim set [ failed s ↦ (failed s, st2) | success _ ↦ (opened_file f false r, st2) ]
        ]

  unfoldable pub use_file : F → ℕ → Request → S → Outcome (Opened F) × S
  use_file f stored r st =
      if has_any stored (read_only ∷ []) && has_any r.desired_access write_access
      then (failed NtStatus.access_denied, st)
      else if has_any stored (read_only ∷ []) && has_any r.create_options (delete_on_close ∷ [])
      then (failed NtStatus.cannot_delete, st)
      else if replaces r.create_disposition
      then replace f stored r st
      else (opened_file f false r, st)

  -- The file was opened, or not, and then its attributes were read, or not.
  abbrev pub with_attributes : F → Request → S → Outcome ℕ → Outcome (Opened F) × S
  with_attributes f r st (failed s) = (failed s, st)
  with_attributes f r st (success stored) = use_file f stored r st

  abbrev pub with_file : Request → Result F × S → Outcome (Opened F) × S
  with_file r (err e, st) = (failed (status from_win32 e), st)
  with_file r (ok f, st) = with_attributes f r st (calls.attributes_of f st)

  unfoldable pub open_existing : Item → Request → S → Outcome (Opened F) × S
  open_existing it r st =
      if has_any r.create_options (directory_file ∷ [])
      then (failed NtStatus.not_a_directory, st)
      else if r.create_disposition == file_create
      then (failed NtStatus.object_name_collision, st)
      else with_file r (calls.open_file it st)

  unfoldable pub create_new : Text → Request → S → Outcome (Opened F) × S
  create_new path r st =
      if r.create_disposition == file_open || r.create_disposition == file_overwrite
      then (failed NtStatus.object_name_not_found, st)
      else if has_any r.create_options (directory_file ∷ [])
      then (if not (r.create_disposition == file_create || r.create_disposition == file_open_if)
          then (failed NtStatus.invalid_parameter, st)
          else let (made, st1) = calls.create_dir path st in
            elim made [
              | err e ↦ (failed (status from_win32 e), st1)
              | ok it ↦ (
                success (Opened.dir true),
                if has_any r.file_attributes kept_attributes
                    then calls.set_dir_attributes it r.file_attributes st1
                    else st1,
              )
            ])
      else let (made, st1) = calls.create_file path st in
        elim made [
          | err e ↦ (failed (status from_win32 e), st1)
          | ok f ↦ (
            opened_file f true r,
            if has_any r.file_attributes kept_attributes
                then (calls.set_file_attributes f r.file_attributes st1).1
                else st1,
          )
        ]

  -- `create_file`, for a path that `path_of` read, or could not read.
  unfoldable pub create_file : Option Text → Request → S → Outcome (Opened F) × S
  create_file path r st =
      if ltb file_overwrite_if r.create_disposition
      then (failed NtStatus.invalid_parameter, st)
      else elim path [
        | none ↦ (failed NtStatus.object_name_invalid, st)
        | some path ↦ elim (calls.lookup path st) [
          | err e ↦ (failed (lookup_status from_win32 e), st)
          | ok found ↦ elim found [
            | none ↦ create_new path r st
            | some it ↦ if it.is_dir then (open_dir it r, st) else open_existing it r st
          ]
        ]
      ]

  if_false : {A : Type 0} (b : Bool) (x y : A) → b ≡ false → (if b then x else y) ≡ y
  if_false b x y h = rw h refl

  not_replaces : (n : ℕ) → n ≡ file_open → replaces n ≡ false
  not_replaces n e = rw e refl

  use_file-open :
      (f : F) (stored : ℕ) (r : Request) (st : S)
      → replaces r.create_disposition ≡ false
      → (use_file f stored r st).1 ≡ st
  unfolding use_file
  use_file-open f stored r st h = ground arith

  with_attributes-open :
      (f : F) (r : Request) (st : S) (attributes : Outcome ℕ)
      → replaces r.create_disposition ≡ false
      → (with_attributes f r st attributes).1 ≡ st
  with_attributes-open f r st (failed s) h = refl
  with_attributes-open f r st (success stored) h = use_file-open f stored r st h

  with_file-open :
      (r : Request) (opened : Result F × S)
      → replaces r.create_disposition ≡ false
      → (with_file r opened).1 ≡ opened.1
  with_file-open r (err e, st) h = refl
  with_file-open r (ok f, st) h = with_attributes-open f r st (calls.attributes_of f st) h

  open_existing-open :
      (it : Item) (r : Request) (st : S)
      → replaces r.create_disposition ≡ false
      → ((open_existing it r st).1 ≡ st) ⊎ ((open_existing it r st).1 ≡ (calls.open_file it st).1)
  unfolding open_existing
  open_existing-open it r st h =
      elim (Bool-cases (has_any r.create_options (directory_file ∷ []))) [
        | inl want ↦ inl (rw want refl)
        | inr no_dir ↦ elim (Bool-cases (r.create_disposition == file_create)) [
          | inl new ↦ inl (rw (no_dir, new) refl)
          | inr old ↦ inr (rw (no_dir, old) (with_file-open r (calls.open_file it st) h))
        ]
      ]

  create_new-open :
      (path : Text) (r : Request) (st : S)
      → r.create_disposition ≡ file_open
      → (create_new path r st).1 ≡ st
  unfolding create_new
  create_new-open path r st e = rw (create_new, e) refl

  create_file_run :
      (path : Text) (r : Request) (st : S)
      → r.create_disposition ≡ file_open
      → create_file (some path) r st ≡ (elim (calls.lookup path st) [
        | err e ↦ (failed (lookup_status from_win32 e), st)
        | ok found ↦ elim found [
          | none ↦ create_new path r st
          | some it ↦ if it.is_dir then (open_dir it r, st) else open_existing it r st
        ]
      ])
  unfolding create_file
  create_file_run path r st e =
      let small : ltb file_overwrite_if r.create_disposition ≡ false = ground arith in
      rw (create_file, small) refl

  -- Whatever `FILE_OPEN` finds, it creates, cuts and changes nothing: the state is the one before,
  -- or the one after an existing file was opened.
  pub file_open-create_file :
      (path : Text) (r : Request) (st : S)
      → r.create_disposition ≡ file_open
      → ((create_file (some path) r st).1 ≡ st)
        ⊎ ((it : Item) × (calls.lookup path st ≡ ok (some it))
            × (it.is_dir ≡ false)
            × ((create_file (some path) r st).1 ≡ (calls.open_file it st).1))
  file_open-create_file path r st e =
      let run = create_file_run path r st e in
      elim (Result-cases (calls.lookup path st)) [
        | inr (x, l) ↦ inl (rw run (rw l refl))
        | inl (none, l) ↦ inl (rw run (rw l (create_new-open path r st e)))
        | inl (some it, l) ↦ elim (Bool-cases it.is_dir) [
          | inl folder ↦ inl (rw run (rw (l, folder) refl))
          | inr no_dir ↦ elim (open_existing-open it r st (not_replaces r.create_disposition e)) [
            | inl same ↦ inl (
                rw run (
                  rw l (
                    ap (λ p. p.1)
                      (if_false it.is_dir (open_dir it r, st) (open_existing it r st) no_dir)
                    ∙ same)))
            | inr opened ↦ inr (
              it,
              l,
              no_dir,
              rw run (
                  rw l (
                    ap (λ p. p.1)
                      (if_false it.is_dir (open_dir it r, st) (open_existing it r st) no_dir)
                    ∙ opened)),
            )
          ]
        ]
      ]
