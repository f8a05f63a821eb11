-- ===== src/Shell/Examples.antt =====
-- Runs of the Explorer plug-in and the theorems on it at a short list of items.
use desktop_folder_locker.Common.{
  ◌-◌, ◌<◌, length, take, ◌≡◌, ◌⊎◌, refl, Option, some, none, List, [], ◌∷◌, ◌++◌, Bool, true,
  false, ◌&&◌, if◌then◌else◌, arith,
}
use desktop_folder_locker.Common.Text.{Text, codes, trim_end, split, repeat}
use desktop_folder_locker.Shell.State.{
  Items, Stored, items_of, get, or_insert, insert_all, nth, normalize, paths_of, index_items, parse,
  find,
}
use desktop_folder_locker.Shell.Cache.{Stamp, reload, World, default_settings, fresh}
use desktop_folder_locker.Shell.Owner.{owner, find-parse}
use desktop_folder_locker.Shell.Menu.{
  Verb, Command, command, command_for, listed, unlisted, folders_of, any_folder, quote,
  command_line,
}
use desktop_folder_locker.Shell.Badge.{has_badge}
use desktop_folder_locker.Shell.Entries.{Allowed, command_for-Allowed}
use desktop_folder_locker.Shell.Quote.{read_quoted, read_quoted-quote}
use desktop_folder_locker.Shell.Shown.{
  folders, length_of, encode, copy, cloak_shown_folders, parts, cloak_shown_folders-split,
}
use desktop_folder_locker.Shell.Fresh.{Among, after, IsFresh, after-IsFresh}

-- Paths that are in lower case already.
abbrev lower : Text → Text
lower t = t

abbrev music : Stored
music = record {
  item_path = codes "d:\\music";
  vault_path = none;
  method = codes "blockAccess";
  status = codes "protected";
  mount_point = none;
}

-- An open drive, whose vault another entry of the list claims too.
abbrev taxes : Stored
taxes = record {
  item_path = codes "c:\\docs\\taxes";
  vault_path = some (codes "c:\\docs\\taxes.flkd");
  method = codes "drive";
  status = codes "unprotected";
  mount_point = some (codes "v:\\");
}

abbrev twin : Stored
twin = record taxes { status = codes "protected"; mount_point = none }

abbrev unknown : Stored
unknown = record music { method = codes "somethingNew" }

abbrev values : List (Option Stored)
values = some music ∷ none ∷ some unknown ∷ some taxes ∷ some twin ∷ []

abbrev items : Items
items = parse lower (some values)

entry : Text → Bool → Option Command
unfolding parse items_of index_items insert_all or_insert get find nth normalize trim_end
    command_for listed unlisted folders_of any_folder split
entry path is_dir = command_for lower path is_dir items

entry-listed :
    (entry (codes "D:/music") true ≡ command Verb.lock (codes "D:/music"))
    × (entry (codes "d:/music/") true ≡ command Verb.unlock (codes "d:\\music"))
    × (entry (codes "v:\\") true ≡ command Verb.lock (codes "c:\\docs\\taxes"))
    × (entry (codes "c:\\docs\\taxes.flkd") true ≡ command Verb.lock (codes "c:\\docs\\taxes"))
    × (entry (codes "c:\\docs\\taxes.flkd\\vault.flk") false ≡ none)
unfolding entry
entry-listed = (refl, refl, refl, refl, refl)

entry-unlisted :
    (entry (codes "e:\\a.flkd") true ≡ command Verb.open_vault (codes "e:\\a.flkd"))
    × (entry (codes "e:\\a.flkd\\data") true ≡ none)
    × (entry (codes "e:\\a.flk") false ≡ none)
    × (entry (codes "e:\\") true ≡ none)
unfolding entry
entry-unlisted = (refl, refl, refl, refl)

line-drive :
    command_line (record { verb = Verb.lock; target = codes "v:\\" }) (codes "c:\\cloak.exe")
    ≡ codes "\"c:\\cloak.exe\" --lock \"v:\\\\\""
unfolding command_line quote repeat trim_end
line-drive = refl

find-parse_example :
    find lower items (codes "v:\\")
    ≡ owner (paths_of lower) (items_of values) (normalize lower (codes "v:\\"))
find-parse_example = find-parse lower values (codes "v:\\")

badged : has_badge lower (codes "d:/music/") items default_settings ≡ true
unfolding has_badge entry
badged = refl

abbrev lock_new : Command
lock_new = record { verb = Verb.lock; target = codes "E:/new" }

new_entry : command_for lower (codes "E:/new") true items ≡ some lock_new
unfolding entry
new_entry = refl

command_for-Allowed_example : Allowed lower (codes "E:/new") true items lock_new
command_for-Allowed_example =
    command_for-Allowed lower (codes "E:/new") true items lock_new new_entry

-- A vault inside a vault is offered to be opened.
nested_vault :
    entry (codes "e:\\a.flkd\\b.flkd") true ≡ command Verb.open_vault (codes "e:\\a.flkd\\b.flkd")
unfolding entry
nested_vault = refl

read_quoted-quote_example :
    (rest : Text) × (quote (codes "v:\\") ++ codes " x" ≡ b'"' ∷ rest)
    × (read_quoted 0 rest ≡ some (codes "v:\\", codes " x"))
read_quoted-quote_example = read_quoted-quote (codes "v:\\") (codes " x") refl

-- Any text is a list of one item that is blocked.
abbrev read_items : Text → Option (List (Option Stored))
read_items json = some (some music ∷ [])

abbrev read_setting : Text → Option Bool
read_setting json = some false

abbrev world : World
world = record {
  now = 5000;
  changed = true;
  can_watch = true;
  items_file = record { stamp = some (7, 2); text = some (codes "[]") };
  settings_file = record { stamp = none; text = none };
}

-- Half a second later the items are gone, which is not seen yet.
abbrev later : World
later = record world {
  now = 5500;
  changed = false;
  items_file = record { stamp = none; text = none };
}

abbrev version : Stamp → Option Text
version stamp = world.items_file.text

abbrev no_version : Stamp → Option Text
no_version stamp = none

after-IsFresh_example :
    (w0 : World) × Among w0 (later ∷ world ∷ [])
    × IsFresh lower read_items read_setting w0
        (after lower read_items read_setting (later ∷ world ∷ []))
    × ((w0 ≡ later)
        ⊎ ((((after lower read_items read_setting (world ∷ [])).watch && later.changed) ≡ false)
            × (later.now - w0.now < (
                if (after lower read_items read_setting (world ∷ [])).watch then 10000 else 1000))))
after-IsFresh_example =
    after-IsFresh lower read_items read_setting version no_version later (world ∷ [])
      (tt, tt, (refl, tt, tt))

later_answer :
    (after lower read_items read_setting (later ∷ world ∷ []))
    ≡ after lower read_items read_setting (world ∷ [])
unfolding after fresh reload
later_answer = refl

abbrev two_shown : List Text
two_shown = codes "C:" ∷ codes "D:" ∷ []

short_buffer :
    cloak_shown_folders (folders two_shown) (some (repeat 5 1)) ≡ (length_of 6, some (repeat 5 1))
unfolding cloak_shown_folders copy encode repeat
short_buffer = refl

cloak_shown_folders-split_example :
    (after : Text) × (cloak_shown_folders (folders two_shown) (some (repeat 8 1))
      ≡ (length_of (length (encode two_shown)), some after))
    × (parts (split 0 (take (length (encode two_shown)) after)) ≡ two_shown ++ [] ∷ [])
unfolding encode repeat
cloak_shown_folders-split_example =
    cloak_shown_folders-split two_shown (repeat 8 1) (refl, (refl, tt)) (omega arith) (omega arith)
