-- ===== src/Shell/Owner.antt =====
-- `find` of state.rs against a search of the list: the map of paths holds each path of each item
-- under the first item that claims it.
use desktop_folder_locker.Common.{
  ℕ, suc, ◌+◌, ◌≡◌, refl, sym, ap, ◌∙◌, Option, some, none, List, [], ◌∷◌, ◌++◌, Bool, true, false,
  eq_bytes, eq_of_eq_bytes, if◌then◌else◌, arith, Option-cases, inl, inr,
}
use desktop_folder_locker.Common.Text.{Text}
use desktop_folder_locker.Shell.State.{
  Item, Items, Role, Stored, Paths, items_of, get, or_insert, insert_all, nth, normalize, paths_of,
  index_items, parse, find,
}

-- The role of the first entry for a path.
unfoldable pub role_in : List (Text × Role) → Text → Option Role
role_in [] path = none
role_in ((p, role) ∷ more) path = if eq_bytes p path then some role else role_in more path

-- The first item of the list that has a path, and the first role that it has it in.
unfoldable pub owner : (Item → List (Text × Role)) → List Item → Text → Option (Item × Role)
owner paths [] path = none
owner paths (it ∷ items) path = elim (role_in (paths it) path) [
  | some role ↦ some (it, role)
  | none ↦ owner paths items path
]

or_else : {A : Type 0} → Option A → Option A → Option A
or_else none b = b
or_else (some a) b = some a

with_index : ℕ → Option Role → Option (ℕ × Role)
with_index index none = none
with_index index (some role) = some (index, role)

or_else_assoc : {A : Type 0} (a b c : Option A) → or_else (or_else a b) c ≡ or_else a (or_else b c)
unfolding or_else
or_else_assoc none b c = refl
or_else_assoc (some a) b c = refl

or_else-none : {A : Type 0} (a : Option A) → or_else a none ≡ a
unfolding or_else
or_else-none none = refl
or_else-none (some a) = refl

get-append_one :
    (paths : Paths) (p path : Text) (found : ℕ × Role)
    → get (paths ++ (p, found) ∷ []) path
      ≡ or_else (get paths path) (if eq_bytes p path then some found else none)
unfolding get or_else
get-append_one [] p path found = refl
get-append_one ((q, other) ∷ paths) p path found = ground (arith, get-append_one paths p path found)

-- An entry that is there stays.
kept_entry :
    (paths : Paths) (p path : Text) (old found : ℕ × Role) (same : Bool)
    → eq_bytes p path ≡ same
    → get paths p ≡ some old
    → get paths path ≡ or_else (get paths path) (if same then some found else none)
unfolding or_else
kept_entry paths p path old found false h e = sym (or_else-none (get paths path))
kept_entry paths p path old found true h e =
    let there : get paths path ≡ some old = ap (get paths) (sym (eq_of_eq_bytes p path h)) ∙ e in
    rw there refl

first_role :
    (index : ℕ) (role : Role) (rest : Option Role) (same : Bool)
    → or_else (if same then some (index, role) else none) (with_index index rest)
      ≡ with_index index (if same then some role else rest)
unfolding or_else with_index
first_role index role rest true = refl
first_role index role rest false = refl

get-or_insert :
    (paths : Paths) (p path : Text) (found : ℕ × Role)
    → get (or_insert paths p found) path
      ≡ or_else (get paths path) (if eq_bytes p path then some found else none)
unfolding or_insert or_else
get-or_insert paths p path found = elim (Option-cases (get paths p)) [
  | inl e ↦ rw (or_insert, e) (get-append_one paths p path found)
  | inr (old, e) ↦ rw (or_insert, e) (kept_entry paths p path old found (eq_bytes p path) refl e)
]

get-insert_all :
    (index : ℕ) (more : List (Text × Role)) (paths : Paths) (path : Text)
    → get (insert_all index more paths) path
      ≡ or_else (get paths path) (with_index index (role_in more path))
unfolding insert_all role_in or_else with_index
get-insert_all index [] paths path = sym (or_else-none (get paths path))
get-insert_all index ((p, role) ∷ more) paths path =
    get-insert_all index more (or_insert paths p (index, role)) path
    ∙ ap (λ o. or_else o (with_index index (role_in more path)))
        (get-or_insert paths p path (index, role))
    ∙ or_else_assoc (get paths path) _ _
    ∙ ap (or_else (get paths path)) (first_role index role (role_in more path) (eq_bytes p path))

-- What `find` makes of a found index.
item_at : List Item → Option (ℕ × Role) → Option (Item × Role)
item_at items none = none
item_at items (some (index, role)) = elim (nth items index) [
  | none ↦ none
  | some it ↦ some (it, role)
]

item_found :
    (all : List Item) (index : ℕ) (role : Role) (it : Item)
    → nth all index ≡ some it
    → item_at all (some (index, role)) ≡ some (it, role)
unfolding item_at
item_found all index role it e = rw (item_at, e) refl

module _ (lower : Text → Text) where
  get-index_items :
      (index : ℕ) (items : List Item) (paths : Paths) (path : Text)
      → get (index_items lower index items paths) path
        ≡ or_else (get paths path) (get (index_items lower index items []) path)
  unfolding index_items or_else get
  get-index_items index [] paths path = sym (or_else-none (get paths path))
  get-index_items index (it ∷ items) paths path =
      let more = paths_of lower it in
      let rest = get (index_items lower (suc index) items []) path in
      get-index_items (suc index) items (insert_all index more paths) path
      ∙ ap (λ o. or_else o rest) (get-insert_all index more paths path)
      ∙ or_else_assoc (get paths path) _ rest
      ∙ ap (or_else (get paths path))
          (sym (ap (λ o. or_else o rest) (get-insert_all index more [] path)))
      ∙ ap (or_else (get paths path))
          (sym (get-index_items (suc index) items (insert_all index more []) path))

  -- What the first item adds to an empty map comes before what the others add.
  first_item :
      (index : ℕ) (it : Item) (items : List Item) (path : Text)
      → get (index_items lower (suc index) items (insert_all index (paths_of lower it) [])) path
        ≡ or_else
            (with_index index (role_in (paths_of lower it) path))
            (get (index_items lower (suc index) items []) path)
  unfolding or_else with_index get
  first_item index it items path =
      let more = paths_of lower it in
      get-index_items (suc index) items (insert_all index more []) path
      ∙ ap (λ o. or_else o (get (index_items lower (suc index) items []) path))
          (get-insert_all index more [] path)

  chosen :
      (all : List Item) (k : ℕ) (it : Item) (items : List Item) (path : Text) (role : Option Role)
      → nth all k ≡ some it
      → item_at all (get (index_items lower (suc k) items []) path)
        ≡ owner (paths_of lower) items path
      → item_at all (or_else (with_index k role) (get (index_items lower (suc k) items []) path))
        ≡ (elim role [ some role ↦ some (it, role) | none ↦ owner (paths_of lower) items path ])
  unfolding with_index or_else
  chosen all k it items path (some role) h rest = item_found all k role it h
  chosen all k it items path none h rest = rest

  found_from :
      (all : List Item) (k : ℕ) (items : List Item) (path : Text)
      → ((i : ℕ) → nth all (k + i) ≡ nth items i)
      → item_at all (get (index_items lower k items []) path) ≡ owner (paths_of lower) items path
  unfolding index_items owner nth item_at get
  found_from all k [] path h = refl
  found_from all k (it ∷ items) path h =
      ap (item_at all) (first_item k it items path)
      ∙ chosen all k it items path (role_in (paths_of lower it) path)
          (ap (nth all) (let z : k ≡ k + 0 = omega arith in z) ∙ h 0)
          (found_from all (suc k) items path
            (λ i. ap (nth all) (let z : suc k + i ≡ k + suc i = omega arith in z) ∙ h (suc i)))

  find-get :
      (items : Items) (path : Text)
      → find lower items path ≡ item_at items.items (get items.paths (normalize lower path))
  unfolding find item_at
  find-get items path = refl

  -- `find` returns the first item of the list that one of its paths is the normalized path, and
  -- the first role that the item has it in.
  pub find-parse :
      (values : List (Option Stored)) (path : Text)
      → find lower (parse lower (some values)) path
        ≡ owner (paths_of lower) (items_of values) (normalize lower path)
  unfolding parse
  find-parse values path =
      find-get (parse lower (some values)) path
      ∙ found_from (items_of values) 0 (items_of values) (normalize lower path)
          (λ i. ap (nth (items_of values)) (let z : 0 + i ≡ i = omega arith in z))
