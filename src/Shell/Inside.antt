-- ===== src/Shell/Inside.antt =====
-- Which paths native/shell/src/menu.rs offers to lock that are not listed, told by what stands in
-- their text.
use desktop_folder_locker.Common.{
  ℕ, suc, ◌≤◌, ◌-◌, ◌≡◌, ◌≢◌, refl, sym, ap, ◌∙◌, inl, inr, List, [], ◌∷◌, ◌++◌, Bool, true, false,
  ◌&&◌, ◌||◌, ◌==◌, leb, le→leb, eq_bytes, eq_bytes_refl, length, drop, length-append,
  drop-append_left, arith, Bool-cases,
}
use desktop_folder_locker.Common.Text.{Text, codes, ends_with, split}
use desktop_folder_locker.Shell.Menu.{is_drive_root, is_ascii_alphabetic, any_folder, folders_of}

abbrev vault_suffix : Text
vault_suffix = codes ".flkd"

abbrev bin : Text
bin = codes "$recycle.bin"

-- A normalized path that may be locked: no `.flk` file, no `.flkd` folder, no drive, and below no
-- folder that ends in `.flkd` or that is the Recycle Bin.
pub record Lockable (name : Text) (is_dir : Bool) : Type 0 where
  pub no_file : (p : Text) → name ≢ p ++ codes ".flk"
  pub no_vault : is_dir ≡ true → (p : Text) → name ≢ p ++ codes ".flkd"
  pub no_drive : (c : ℕ) → is_ascii_alphabetic c ≡ true → name ≢ c ∷ b':' ∷ []
  pub not_in_vault : (p q : Text) → name ≢ p ++ (codes ".flkd\\" ++ q)
  pub not_in_bin : (p q : Text) → name ≢ p ++ (codes "\\$recycle.bin\\" ++ q)
  pub not_in_top_bin : (q : Text) → name ≢ codes "$recycle.bin\\" ++ q

pub ends_with-append : (p suffix : Text) → ends_with suffix (p ++ suffix) ≡ true
ends_with-append p suffix =
    let e : length (p ++ suffix) - length suffix ≡ length p =
      omega (arith, length-append p suffix) in
    let same : eq_bytes (drop (length (p ++ suffix) - length suffix) (p ++ suffix)) suffix ≡ true =
      ap (λ n. eq_bytes (drop n (p ++ suffix)) suffix) e
      ∙ ap (λ t. eq_bytes t suffix) (drop-append_left p suffix)
      ∙ eq_bytes_refl suffix in
    let fits : leb (length suffix) (length (p ++ suffix)) ≡ true =
      le→leb _ _ (omega (arith, length-append p suffix)) in
    rw (same, fits) refl

-- A folder that ends in `.flkd` is among them.
any_vault : List Text → Bool
any_vault [] = false
any_vault (folder ∷ folders) = ends_with vault_suffix folder || any_vault folders

any_vault-any_folder : (folders : List Text) → any_vault folders ≡ true → any_folder folders ≡ true
unfolding any_vault any_folder
any_vault-any_folder [] h = h
any_vault-any_folder (folder ∷ folders) h = ground (arith, h, any_vault-any_folder folders)

and_cases : (a b : Bool) → (a && b) ≡ true → (a ≡ true) × (b ≡ true)
and_cases true b h = (refl, h)
and_cases false b h = absurd (ground (arith, h))

leb_le : (a b : ℕ) → leb a b ≡ true → a ≤ b
leb_le a b h = ground arith

ends_with-cons :
    (c : ℕ) (t suffix : Text) → ends_with suffix t ≡ true → ends_with suffix (c ∷ t) ≡ true
ends_with-cons c t suffix h =
    let (fits, same) = and_cases (leb (length suffix) (length t)) _ h in
    let le : length suffix ≤ length t = leb_le (length suffix) (length t) fits in
    let n : suc (length t) - length suffix ≡ suc (length t - length suffix) = omega arith in
    let longer : leb (length suffix) (suc (length t)) ≡ true = le→leb _ _ (omega arith) in
    let found : eq_bytes (drop (suc (length t) - length suffix) (c ∷ t)) suffix ≡ true =
      ap (λ m. eq_bytes (drop m (c ∷ t)) suffix) n ∙ same in
    rw (longer, found) refl

longer_first :
    (c : ℕ) (first : Text) (rest : List Text)
    → any_vault (folders_of (first, rest)) ≡ true
    → any_vault (folders_of (c ∷ first, rest)) ≡ true
unfolding any_vault folders_of
longer_first c first [] h = h
longer_first c first (part ∷ parts) h = ground (arith, h, ends_with-cons c first vault_suffix)

in_vault : (p q : Text) → any_vault (folders_of (split b'\\' (p ++ (codes ".flkd\\" ++ q)))) ≡ true
unfolding split any_vault folders_of
in_vault [] q = refl
in_vault (c ∷ p) q = elim (Bool-cases (c == b'\\')) [
  | inl e ↦ rw e (in_vault p q)
  | inr e ↦ rw e (
      longer_first c (split b'\\' (p ++ (codes ".flkd\\" ++ q))).0
        (split b'\\' (p ++ (codes ".flkd\\" ++ q))).1 (in_vault p q))
]

-- Whether a folder after the first part is closed.
later : Text × List Text → Bool
later (first, []) = false
later (first, part ∷ parts) = any_folder (folders_of (part, parts))

later-any_folder :
    (parts : Text × List Text) → later parts ≡ true → any_folder (folders_of parts) ≡ true
unfolding later any_folder folders_of
later-any_folder (first, []) h = h
later-any_folder (first, part ∷ parts) h = ground (arith, h)

later_longer :
    (c : ℕ) (first : Text) (rest : List Text) → later (c ∷ first, rest) ≡ later (first, rest)
unfolding later
later_longer c first [] = refl
later_longer c first (part ∷ parts) = refl

in_bin : (p q : Text) → later (split b'\\' (p ++ (codes "\\$recycle.bin\\" ++ q))) ≡ true
unfolding split later any_folder folders_of
in_bin [] q = refl
in_bin (c ∷ p) q = elim (Bool-cases (c == b'\\')) [
  | inl e ↦
      rw e (later-any_folder (split b'\\' (p ++ (codes "\\$recycle.bin\\" ++ q))) (in_bin p q))
  | inr e ↦ rw e (
      later_longer c (split b'\\' (p ++ (codes "\\$recycle.bin\\" ++ q))).0
        (split b'\\' (p ++ (codes "\\$recycle.bin\\" ++ q))).1
      ∙ in_bin p q)
]

in_top_bin : (q : Text) → any_folder (folders_of (split b'\\' (codes "$recycle.bin\\" ++ q))) ≡ true
unfolding split any_folder folders_of
in_top_bin q = refl

drive_root : (c : ℕ) → is_ascii_alphabetic c ≡ true → is_drive_root (c ∷ b':' ∷ []) ≡ true
drive_root c letter = rw letter refl

differ : {b : Bool} → b ≡ true → b ≢ false
differ e e' = absurd (ground (arith, e, e'))

second : {a b : Bool} → a ≡ true → (a && b) ≡ false → b ≡ false
second e h = ground (arith, e, h)

-- What the guards of `command_for` let through may be locked.
pub passed-Lockable :
    (name : Text) (is_dir : Bool)
    → ends_with (codes ".flk") name ≡ false
    → (is_dir && ends_with (codes ".flkd") name) ≡ false
    → is_drive_root name ≡ false
    → any_folder (folders_of (split b'\\' name)) ≡ false
    → Lockable name is_dir
passed-Lockable name is_dir file vault drive inside =
    let closed = λ (t : Text) (same : name ≡ t).
      ap (λ n. any_folder (folders_of (split b'\\' n))) (sym same) ∙ inside in
    record {
      no_file = λ p same.
          differ (ends_with-append p (codes ".flk"))
            (ap (ends_with (codes ".flk")) (sym same) ∙ file);
      no_vault = λ dir p same.
          differ (ends_with-append p vault_suffix)
            (ap (ends_with vault_suffix) (sym same) ∙ second dir vault);
      no_drive =
          λ c letter same. differ (drive_root c letter) (ap is_drive_root (sym same) ∙ drive);
      not_in_vault = λ p q same.
          differ
            (any_vault-any_folder (folders_of (split b'\\' (p ++ (codes ".flkd\\" ++ q))))
              (in_vault p q))
            (closed _ same);
      not_in_bin = λ p q same.
          differ
            (later-any_folder (split b'\\' (p ++ (codes "\\$recycle.bin\\" ++ q))) (in_bin p q))
            (closed _ same);
      not_in_top_bin = λ q same. differ (in_top_bin q) (closed _ same);
    }
