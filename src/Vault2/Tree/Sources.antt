-- ===== src/Vault2/Tree/Sources.antt =====
-- A folder of the operating system that tree.rs reads, and `scan`. The names of its items are what
-- the system stores; `to_str` tells which of them are Unicode, and how that is spelled. The folder
-- stays the same meanwhile. Errors name no path.
use desktop_folder_locker.Common.{
  ℕ, ◌+◌, Bool, true, false, ◌||◌, ◌==◌, ltb, Option, none, some, List, [], ◌∷◌, length,
  if◌then◌else◌,
}
use desktop_folder_locker.Common.Text.{Text}
use desktop_folder_locker.Vault2.Error.{
  Result, ok, err, unsupported, Action, lift, modify, ◌>>=◌, ◌>>◌,
}
use desktop_folder_locker.Vault2.Tree.Reader.{Reader}
use desktop_folder_locker.Vault2.Tree.Copying.{TreeStats, no_stats}

-- The times and attributes of an item.
pub record Stamp : Type 0 where
  pub created : ℕ
  pub accessed : ℕ
  pub written : ℕ
  pub attributes : ℕ

-- An item, with the metadata that are copied, and the items of a folder in the order in which the
-- system lists them.
mutual
  pub data Source : Type 0 where
    file : Stamp → Reader → Source
    folder : Stamp → Sources → Source
    link : Source

  pub data Sources : Type 0 where
    end : Sources
    entry : Text → Source → Sources → Sources

-- `name.contains(['\\', '/'])`
abbrev pub has_separator : Text → Bool
has_separator [] = false
has_separator (ch ∷ name) = ch == b'\\' || ch == b'/' || has_separator name

abbrev pub source_len : Reader → ℕ
source_len source = length source.rest

abbrev pub count_dir : TreeStats → TreeStats
count_dir stats = record stats { dirs = stats.dirs + 1 }

abbrev pub count_one : TreeStats → TreeStats
count_one stats = record stats { files = stats.files + 1 }

abbrev pub count_file : ℕ → TreeStats → TreeStats
count_file n stats = record stats { files = stats.files + 1; bytes = stats.bytes + n }

abbrev pub with_stats : Result (Unit {0}) × TreeStats → Result TreeStats
with_stats (ok _, stats) = ok stats
with_stats (err e, stats) = err e

-- The names by which a folder is sorted: `sort_by_key` with `file_name`.
abbrev pub le_text : Text → Text → Bool
le_text [] ys = true
le_text (x ∷ xs) [] = false
le_text (x ∷ xs) (y ∷ ys) = ltb x y || (if x == y then le_text xs ys else false)

-- What stands under names, put in the order of the names.
abbrev pub sort_in : {A : Type 0} → Text × A → List (Text × A) → List (Text × A)
sort_in item [] = item ∷ []
sort_in item (other ∷ rest) =
    let placed = sort_in item rest in
    if le_text item.0 other.0 then item ∷ other ∷ rest else other ∷ placed

unfoldable pub sorted_entries : {A : Type 0} → List (Text × A) → List (Text × A)
sorted_entries [] = []
sorted_entries (item ∷ rest) = sort_in item (sorted_entries rest)

module _ (to_str : Text → Option Text) where
  -- `check_source`, which returns the name.
  abbrev pub check_name : Option Text → Result Text
  check_name none = err (unsupported "an item has a name that isn't valid Unicode")
  check_name (some name) =
      if has_separator name then err (unsupported "an item has an invalid name") else ok name

  unfoldable pub check_source : Text → Source → Result Text
  check_source name link = err (unsupported "an item is a link (symbolic link or junction).")
  check_source name (file stamp source) = check_name (to_str name)
  check_source name (folder stamp inside) = check_name (to_str name)

  abbrev pub checked : Text → Source → Action TreeStats (Unit {0}) → Action TreeStats (Unit {0})
  checked name node next = do _ ← lift (check_source name node); next

  -- An item after its check, which refuses links.
  unfoldable mutual
    pub scan_entry : Source → Action TreeStats (Unit {0})
    scan_entry (file stamp source) = modify (count_file (source_len source))
    scan_entry (folder stamp inside) = modify count_dir >> scan_dir inside
    scan_entry link = λ stats. (ok tt, stats)

    pub scan_dir : Sources → Action TreeStats (Unit {0})
    scan_dir end = λ stats. (ok tt, stats)
    scan_dir (entry name node rest) = checked name node (scan_entry node) >> scan_dir rest

  unfoldable pub scan : Sources → Result TreeStats
  scan sources = with_stats (scan_dir sources no_stats)
