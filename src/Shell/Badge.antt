-- ===== src/Shell/Badge.antt =====
-- native/shell/src/badge.rs: which paths get the lock badge.
use desktop_folder_locker.Common.{Option, some, Bool, true, false, ◌&&◌}
use desktop_folder_locker.Common.Text.{Text}
use desktop_folder_locker.Shell.State.{Item, Items, Method, Role, find}
use desktop_folder_locker.Shell.Cache.{Settings}

abbrev pub stays_in_place : Method → Bool
stays_in_place Method.encrypt = false
stays_in_place Method.drive = false
stays_in_place _ = true

abbrev pub badge_of : Option (Item × Role) → Bool
badge_of (some (it, Role.item)) = it.protected && stays_in_place it.method
badge_of _ = false

module _ (lower : Text → Text) where
  unfoldable pub has_badge : Text → Items → Settings → Bool
  has_badge path items settings = settings.explorer_integration && badge_of (find lower items path)
