-- ===== src/Shell/State.antt =====
-- native/shell/src/state.rs: what the app knows about the user's items and settings. `lower` is
-- `str::to_lowercase`, whose tables are not part of the model. JSON is read by serde_json: a file
-- arrives as the list of its entries, each one `none` where it does not have the stored shape.
use desktop_folder_locker.Common.{
  ℕ, zero, suc, Option, some, none, List, [], ◌∷◌, ◌++◌, Bool, true, false, not, ◌&&◌, eq_bytes,
  if◌then◌else◌,
}
use desktop_folder_locker.Common.Text.{Text, codes, replace, trim_end}

pub data Method : Type 0 where
  encrypt drive block_access read_only hide_only : Method

pub record Item : Type 0 where
  pub item_path : Text
  pub vault_path : Option Text
  pub method : Method
  pub protected : Bool
  pub mount_point : Option Text

pub data Role : Type 0 where
  item vault vault_header drive : Role

abbrev pub is_drive : Method → Bool
is_drive Method.drive = true
is_drive _ = false

abbrev pub is_some {ℓ} : {A : Type ℓ} → Option A → Bool
is_some none = false
is_some (some a) = true

abbrev pub is_open_drive : Item → Bool
is_open_drive it = is_drive it.method && (not it.protected && is_some it.mount_point)

abbrev pub at_item_path : Item → Bool
at_item_path it = elim it.method [
  | Method.encrypt ↦ not it.protected && not (is_open_drive it)
  | Method.drive ↦ not it.protected && not (is_open_drive it)
  | _ ↦ true
]

-- An entry of items.json.
pub record Stored : Type 0 where
  pub item_path : Text
  pub vault_path : Option Text
  pub method : Text
  pub status : Text
  pub mount_point : Option Text

abbrev pub method_of : Text → Option Method
method_of name =
    if eq_bytes name (codes "encrypt")
    then some Method.encrypt
    else if eq_bytes name (codes "drive")
    then some Method.drive
    else if eq_bytes name (codes "blockAccess")
    then some Method.block_access
    else if eq_bytes name (codes "readOnly")
    then some Method.read_only
    else if eq_bytes name (codes "none")
    then some Method.hide_only
    else none

abbrev pub item_of : Stored → Option Item
item_of stored = elim (method_of stored.method) [
  | none ↦ none
  | some method ↦ some (record {
    item_path = stored.item_path;
    vault_path = stored.vault_path;
    method = method;
    protected = eq_bytes stored.status (codes "protected");
    mount_point = stored.mount_point;
  })
]

-- The entries that are understood, in their order.
unfoldable pub items_of : List (Option Stored) → List Item
items_of [] = []
items_of (none ∷ values) = items_of values
items_of (some stored ∷ values) = elim (item_of stored) [
  | none ↦ items_of values
  | some it ↦ it ∷ items_of values
]

abbrev pub Paths : Type 0
Paths = List (Text × (ℕ × Role))

-- `HashMap::get`
unfoldable pub get : Paths → Text → Option (ℕ × Role)
get [] path = none
get ((p, found) ∷ paths) path = if eq_bytes p path then some found else get paths path

-- `entry(path).or_insert(found)`
unfoldable pub or_insert : Paths → Text → ℕ × Role → Paths
or_insert paths path found = elim (get paths path) [
  | none ↦ paths ++ (path, found) ∷ []
  | some _ ↦ paths
]

unfoldable pub insert_all : ℕ → List (Text × Role) → Paths → Paths
insert_all index [] paths = paths
insert_all index ((path, role) ∷ more) paths =
    insert_all index more (or_insert paths path (index, role))

pub record Items : Type 0 where
  pub items : List Item
  pub paths : Paths

-- `Items::default`
abbrev pub no_items : Items
no_items = record { items = []; paths = [] }

unfoldable pub nth : List Item → ℕ → Option Item
nth [] index = none
nth (it ∷ items) zero = some it
nth (it ∷ items) (suc index) = nth items index

module _ (lower : Text → Text) where
  unfoldable pub normalize : Text → Text
  normalize path = lower (trim_end b'\\' (replace b'/' b'\\' path))

  abbrev pub drive_paths : Item → List (Text × Role)
  drive_paths it = elim it.mount_point [
    | none ↦ []
    | some mount_point ↦ if is_open_drive it then (normalize mount_point, Role.drive) ∷ [] else []
  ]

  abbrev pub vault_paths : Item → List (Text × Role)
  vault_paths it = elim it.vault_path [
    | none ↦ []
    | some vault_path ↦
        let vault = normalize vault_path in
        (if is_drive it.method then (vault ++ codes "\\vault.flk", Role.vault_header) ∷ [] else [])
        ++ ((vault, Role.vault) ∷ [])
  ]

  abbrev pub paths_of : Item → List (Text × Role)
  paths_of it =
      drive_paths it
      ++ (vault_paths it
          ++ (if at_item_path it then (normalize it.item_path, Role.item) ∷ [] else []))

  -- The map of the paths of the items from number `index` on, added to `paths`.
  unfoldable pub index_items : ℕ → List Item → Paths → Paths
  index_items index [] paths = paths
  index_items index (it ∷ items) paths =
      index_items (suc index) items (insert_all index (paths_of it) paths)

  -- `Items::parse`, of a file that serde_json read or refused.
  unfoldable pub parse : Option (List (Option Stored)) → Items
  parse none = no_items
  parse (some values) =
      let items = items_of values in record { items = items; paths = index_items 0 items [] }

  -- `Items::find`. The map holds indices of the list only, so that the lookup in the list, which
  -- would panic, succeeds.
  unfoldable pub find : Items → Text → Option (Item × Role)
  find items path = elim (get items.paths (normalize path)) [
    | none ↦ none
    | some (index, role) ↦ elim (nth items.items index) [ none ↦ none | some it ↦ some (it, role) ]
  ]
