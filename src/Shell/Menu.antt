-- ===== src/Shell/Menu.antt =====
-- native/shell/src/menu.rs: which right-click entry a path gets, and what it asks the app to do.
use desktop_folder_locker.Common.{
  ℕ, ◌-◌, Option, some, none, List, [], ◌∷◌, ◌++◌, Bool, false, ◌&&◌, ◌||◌, ◌==◌, leb, eq_bytes,
  if◌then◌else◌, length,
}
use desktop_folder_locker.Common.Text.{Text, codes, trim_end, ends_with, split, repeat}
use desktop_folder_locker.Shell.State.{Item, Items, Method, Role, is_open_drive, normalize, find}

pub data Verb : Type 0 where
  lock unlock open_vault : Verb

abbrev pub argument : Verb → Text
argument Verb.lock = codes "--lock"
argument Verb.unlock = codes "--unlock"
argument Verb.open_vault = codes "--open"

abbrev pub title : Verb → Text
title Verb.lock = codes "Lock with Cloak"
title Verb.unlock = codes "Unlock with Cloak"
title Verb.open_vault = codes "Open with Cloak"

pub record Command : Type 0 where
  pub verb : Verb
  pub target : Text

unfoldable pub quote : Text → Text
quote text =
    let trailing = length text - length (trim_end b'\\' text) in
    b'"' ∷ text ++ (repeat trailing b'\\' ++ b'"' ∷ [])

unfoldable pub command_line : Command → Text → Text
command_line command app =
    quote app ++ (b' ' ∷ argument command.verb ++ (b' ' ∷ quote command.target))

abbrev pub command : Verb → Text → Option Command
command verb target = some (record { verb = verb; target = target })

abbrev pub is_ascii_alphabetic : ℕ → Bool
is_ascii_alphabetic c = (leb b'a' c && leb c b'z') || (leb b'A' c && leb c b'Z')

abbrev pub is_drive_root : Text → Bool
is_drive_root [] = false
is_drive_root (letter ∷ []) = false
is_drive_root (letter ∷ colon ∷ []) = is_ascii_alphabetic letter && colon == b':'
is_drive_root (letter ∷ colon ∷ c ∷ path) = false

unfoldable pub listed : Item → Role → Text → Option Command
listed it role path = elim role [
  | Role.vault_header ↦ none
  | Role.vault ↦ elim it.method [
    | Method.encrypt ↦ none
    | _ ↦
        if is_open_drive it
        then command Verb.lock it.item_path
        else if it.protected
        then command Verb.open_vault path
        else none
  ]
  | Role.drive ↦ if is_open_drive it then command Verb.lock it.item_path else none
  | Role.item ↦
      if it.protected then command Verb.unlock it.item_path else command Verb.lock it.item_path
]

-- The parts of a path but the last.
unfoldable pub folders_of : Text × List Text → List Text
folders_of (first, []) = []
folders_of (first, part ∷ parts) = first ∷ folders_of (part, parts)

-- `.flkd` folders and the Recycle Bin: what is inside cannot be locked.
abbrev pub is_closed_folder : Text → Bool
is_closed_folder folder = ends_with (codes ".flkd") folder || eq_bytes folder (codes "$recycle.bin")

unfoldable pub any_folder : List Text → Bool
any_folder [] = false
any_folder (folder ∷ folders) = is_closed_folder folder || any_folder folders

unfoldable pub unlisted : Text → Text → Bool → Option Command
unlisted name path is_dir =
    if ends_with (codes ".flk") name
    then none
    else if is_dir && ends_with (codes ".flkd") name
    then command Verb.open_vault path
    else if is_drive_root name || any_folder (folders_of (split b'\\' name))
    then none
    else command Verb.lock path

module _ (lower : Text → Text) where
  unfoldable pub command_for : Text → Bool → Items → Option Command
  command_for path is_dir items = elim (find lower items path) [
    | some (it, role) ↦ listed it role path
    | none ↦ unlisted (normalize lower path) path is_dir
  ]
