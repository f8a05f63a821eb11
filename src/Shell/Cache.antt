-- ===== src/Shell/Cache.antt =====
-- `State` of native/shell/src/state.rs: the app's two files, read again when they change. The
-- world outside is what the calls of a question find: the time, in milliseconds, whether the
-- change notification has fired, whether one can be had, and the two files. JSON is read by
-- serde_json, a parameter.
use desktop_folder_locker.Common.{
  ℕ, ◌-◌, Option, some, none, List, Bool, true, false, not, ◌&&◌, ◌||◌, ◌==◌, ltb, if◌then◌else◌,
}
use desktop_folder_locker.Common.Text.{Text}
use desktop_folder_locker.Shell.State.{Items, Stored, parse, no_items}

pub record Settings : Type 0 where
  pub explorer_integration : Bool

-- `Settings::default`
abbrev pub default_settings : Settings
default_settings = record { explorer_integration = true }

-- Modification time and size.
abbrev pub Stamp : Type 0
Stamp = ℕ × ℕ

pub record Cache : Type 0 where
  pub items : Items
  pub settings : Settings
  pub checked : Option ℕ
  pub items_stamp : Option Stamp
  pub settings_stamp : Option Stamp
  -- Whether there is a change notification.
  pub watch : Bool

abbrev pub default_cache : Cache
default_cache = record {
  items = no_items;
  settings = default_settings;
  checked = none;
  items_stamp = none;
  settings_stamp = none;
  watch = false;
}

-- A file: its stamp, if its metadata can be read, and its text, if that can be read.
pub record File : Type 0 where
  pub stamp : Option Stamp
  pub text : Option Text

pub record World : Type 0 where
  pub now : ℕ
  pub changed : Bool
  pub can_watch : Bool
  pub items_file : File
  pub settings_file : File

abbrev pub recheck_after : ℕ
recheck_after = 1000

abbrev pub recheck_watched_after : ℕ
recheck_watched_after = 10000

abbrev pub same_stamp : Option Stamp → Option Stamp → Bool
same_stamp (some (time, size)) (some (time', size')) = time == time' && size == size'
same_stamp _ _ = false

module _ (lower : Text → Text) (read_items : Text → Option (List (Option Stored)))
    (read_setting : Text → Option Bool) where
  -- `json.map(|json| Items::parse(&json)).unwrap_or_default()`
  abbrev pub load_items : Option Text → Items
  load_items none = no_items
  load_items (some json) = parse lower (read_items json)

  -- `Settings::parse`
  abbrev pub parse_settings : Text → Settings
  parse_settings json = elim (read_setting json) [
    | none ↦ record { explorer_integration = true }
    | some value ↦ record { explorer_integration = value }
  ]

  abbrev pub load_settings : Option Text → Settings
  load_settings none = default_settings
  load_settings (some json) = parse_settings json

  -- The closure `read` of `reload`, on the items and on the settings.
  abbrev pub reload_items : World → Cache → Cache
  reload_items w cache =
      if same_stamp w.items_file.stamp cache.items_stamp
      then cache
      else record cache { items = load_items w.items_file.text; items_stamp = w.items_file.stamp }

  abbrev pub reload_settings : World → Cache → Cache
  reload_settings w cache =
      if same_stamp w.settings_file.stamp cache.settings_stamp then cache else record cache {
        settings = load_settings w.settings_file.text;
        settings_stamp = w.settings_file.stamp;
      }

  unfoldable pub reload : World → Cache → Cache
  reload w cache =
      let watched : Cache = if cache.watch then cache else record cache { watch = w.can_watch } in
      reload_settings w (reload_items w watched)

  abbrev pub holds_for : Cache → ℕ
  holds_for cache = if cache.watch then recheck_watched_after else recheck_after

  abbrev pub is_current : World → Cache → Bool
  is_current w cache = elim cache.checked [
    | none ↦ false
    | some checked ↦ ltb (w.now - checked) (holds_for cache)
  ]

  -- `fresh`, up to what is read of the cache in the end: `dir` tells whether the app's folder is
  -- known.
  unfoldable pub fresh : Bool → World → Cache → Cache
  fresh dir w cache =
      let checked : Cache = record cache { checked = some w.now } in
      if (cache.watch && w.changed) || not (is_current w cache)
      then (if dir then reload w checked else checked)
      else cache
