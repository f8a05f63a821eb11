-- ===== src/Shell/Shown.antt =====
-- native/shell/src/shown.rs: the folders that Explorer shows, as the app gets them. Which folders
-- its windows show is asked from Explorer through COM, and an argument here; a path is its units in
-- UTF-16.
use desktop_folder_locker.Common.{
  ℕ, ◌^◌, ◌≤◌, ◌<◌, ◌≡◌, refl, ap, ◌∙◌, Option, some, none, List, [], ◌∷◌, ◌++◌, true, false, ltb,
  leb, ◌==◌, ==_iff, if◌then◌else◌, arith, length, take, drop, take-append_left,
}
use desktop_folder_locker.Common.Text.{Text, any, split}

-- What `shown_folders` ends with; a panic is caught.
pub data Shown : Type 0 where
  folders : List Text → Shown
  error : (code : ℕ) → Shown
  panicked : Shown

-- What the function returns: a length, or the 32 bits of an error code, a negative number.
pub data Returned : Type 0 where
  length_of : ℕ → Returned
  hresult : (code : ℕ) → Returned

-- `E_UNEXPECTED`, as 32 bits.
abbrev pub e_unexpected : ℕ
e_unexpected = 2147549183

unfoldable pub encode : List Text → Text
encode [] = []
encode (folder ∷ rest) = folder ++ 0 ∷ encode rest

-- `copy_nonoverlapping`, unless the buffer is null or too short; its length is the capacity.
unfoldable pub copy : Text → Option Text → Option Text
copy text none = none
copy text (some buffer) =
    if leb (length text) (length buffer)
    then some (text ++ drop (length text) buffer)
    else some buffer

-- `CloakShownFolders`
unfoldable pub cloak_shown_folders : Shown → Option Text → Returned × Option Text
cloak_shown_folders (folders shown) buffer =
    if ltb (length (encode shown)) (2 ^ 31)
    then (length_of (length (encode shown)), copy (encode shown) buffer)
    else (hresult e_unexpected, buffer)
cloak_shown_folders (error code) buffer = (hresult code, buffer)
cloak_shown_folders panicked buffer = (hresult e_unexpected, buffer)

-- No path holds a NUL.
abbrev pub ArePlain : List Text → Type 0
ArePlain [] = Unit
ArePlain (folder ∷ rest) = (any (λ c. c == 0) folder ≡ false) × ArePlain rest

-- The parts that end with a NUL, and what follows the last.
abbrev pub parts : Text × List Text → List Text
parts (first, rest) = first ∷ rest

split-append :
    (folder t : Text)
    → any (λ c. c == 0) folder ≡ false
    → split 0 (folder ++ 0 ∷ t) ≡ (folder, parts (split 0 t))
unfolding split
split-append [] t h = refl
split-append (c ∷ folder) t h = ground (arith, split-append folder t, ==_iff c 0)

split-encode :
    (shown : List Text) → ArePlain shown → parts (split 0 (encode shown)) ≡ shown ++ [] ∷ []
unfolding split encode
split-encode [] plain = refl
split-encode (folder ∷ rest) plain =
    ap parts (split-append folder (encode rest) plain.0)
    ∙ ap (λ t. folder ∷ t) (split-encode rest plain.1)

-- With a buffer that is large enough, the app gets the length of the answer, and the buffer then
-- holds in that length the shown folders, each ended by a NUL, if no path holds one.
pub cloak_shown_folders-split :
    (shown : List Text) (buffer : Text)
    → ArePlain shown
    → length (encode shown) ≤ length buffer
    → length (encode shown) < 2 ^ 31
    → (after : Text) × (cloak_shown_folders (folders shown) (some buffer)
        ≡ (length_of (length (encode shown)), some after))
      × (parts (split 0 (take (length (encode shown)) after)) ≡ shown ++ [] ∷ [])
unfolding cloak_shown_folders copy
cloak_shown_folders-split shown buffer plain fits small =
    let fits' : leb (length (encode shown)) (length buffer) ≡ true = ground arith in
    let small' : ltb (length (encode shown)) (2 ^ 31) ≡ true = ground arith in
    (
      encode shown ++ drop (length (encode shown)) buffer,
      rw (small', fits') refl,
      rw (take-append_left (encode shown) (drop (length (encode shown)) buffer))
          (split-encode shown plain),
    )
