-- ===== src/Drive/Letters.antt =====
-- `free_drive_letter` and `serial_number` of native/drive/src/drives/windows.rs: what a drive is
-- mounted as. The mask of used letters that Windows answers is an argument.
use desktop_folder_locker.Common.{
  ℕ, ◌-◌, ◌/◌, ◌%◌, ◌^◌, ◌≤◌, ◌≡◌, ◌⊎◌, refl, inl, inr, Option, some, none, [], ◌∷◌, Bool, true,
  false, ◌&&◌, leb, ◌==◌, ==_iff, if◌then◌else◌, arith, Bool-cases, take, from_le_bytes,
}
use desktop_folder_locker.Common.Text.{Text, codes, any}
use desktop_folder_locker.Vault2.Crypto.{Bytes}

abbrev pub letters : Text
letters = codes "VWXYZUTSRQPONMLKJIHGFED"

-- `char::is_ascii_uppercase`
abbrev pub is_ascii_uppercase : ℕ → Bool
is_ascii_uppercase letter = leb 65 letter && leb letter 90

-- `char::to_ascii_uppercase`
abbrev pub to_ascii_uppercase : ℕ → ℕ
to_ascii_uppercase c = if leb 97 c && leb c 122 then c - 32 else c

-- A letter that has no bit in the mask.
unfoldable pub free : ℕ → ℕ → Bool
free used letter = is_ascii_uppercase letter && (used / 2 ^ (letter - 65)) % 2 == 0

-- `Iterator::find`
unfoldable pub find_first : (ℕ → Bool) → Text → Option ℕ
find_first p [] = none
find_first p (c ∷ t) = if p c then some c else find_first p t

-- What is preferred if that is free, else the first free one of the letters.
unfoldable pub free_drive_letter : Option ℕ → ℕ → Option ℕ
free_drive_letter none used = find_first (free used) letters
free_drive_letter (some preferred) used =
    if free used (to_ascii_uppercase preferred)
    then some (to_ascii_uppercase preferred)
    else find_first (free used) letters

abbrev pub serial_number : Bytes → ℕ
serial_number vault_id = from_le_bytes (take 4 vault_id)

-- A free letter that is used for a mount.
abbrev pub IsChosen : Option ℕ → ℕ → ℕ → Type 0
IsChosen chosen used letter = (chosen ≡ some letter) × (free used letter ≡ true)

find_first_lem :
    (used : ℕ) (t : Text) (letter : ℕ)
    → any (λ c. c == letter) t ≡ true
    → free used letter ≡ true
    → (chosen : ℕ) × IsChosen (find_first (free used) t) used chosen
unfolding find_first
find_first_lem used [] letter h is_free = absurd (ground arith)
find_first_lem used (c ∷ t) letter h is_free = elim (Bool-cases (free used c)) [
  | inl e ↦ (c, (rw e refl, e))
  | inr e ↦
      let member : any (λ c. c == letter) t ≡ true = ground (arith, ==_iff c letter) in
      let (chosen, (found, e')) = find_first_lem used t letter member is_free in
      (chosen, (rw e found, e'))
]

letters_lem : (letter : ℕ) → 68 ≤ letter → letter ≤ 90 → any (λ c. c == letter) letters ≡ true
letters_lem letter low high = ground arith

-- If some letter from D to Z is free, a free letter is chosen, and the preferred one, in upper
-- case, unless that is not free.
pub free_drive_letter-IsChosen :
    (preferred used letter : ℕ)
    → 68 ≤ letter
    → letter ≤ 90
    → free used letter ≡ true
    → (chosen : ℕ) × IsChosen (free_drive_letter (some preferred) used) used chosen
      × ((chosen ≡ to_ascii_uppercase preferred)
          ⊎ (free used (to_ascii_uppercase preferred) ≡ false))
unfolding free_drive_letter
free_drive_letter-IsChosen preferred used letter low high is_free =
    elim (Bool-cases (free used (to_ascii_uppercase preferred))) [
      | inl e ↦ (to_ascii_uppercase preferred, (rw e refl, e), inl refl)
      | inr e ↦
          let (chosen, (found, e')) =
            find_first_lem used letters letter (letters_lem letter low high) is_free in
          (chosen, (rw e found, e'), inr e)
    ]
