-- ===== src/Shell/Entries.antt =====
-- What the entries of menu.rs and the badges of badge.rs say together.
use desktop_folder_locker.Common.{
  ◌≡◌, ◌≢◌, inl, inr, refl, sym, ap, subst, ◌∙◌, Option, some, none, Bool, true, false, ◌&&◌, ◌||◌,
  if◌then◌else◌, arith, Option-cases,
}
use desktop_folder_locker.Common.Text.{
  Text, codes, ends_with, split, replace, trim_end, replace_idem, trim_end_idem, replace-trim_end,
}
use desktop_folder_locker.Shell.State.{Item, Items, Method, Role, normalize, find}
use desktop_folder_locker.Shell.Cache.{Settings}
use desktop_folder_locker.Shell.Badge.{badge_of, has_badge}
use desktop_folder_locker.Shell.Inside.{Lockable, passed-Lockable}
use desktop_folder_locker.Shell.Menu.{
  Verb, Command, command, command_for, listed, unlisted, is_drive_root, any_folder, folders_of,
}

module _ (lower : Text → Text) where
  command_for-listed :
      (path : Text) (is_dir : Bool) (items : Items) (it : Item) (role : Role)
      → find lower items path ≡ some (it, role)
      → command_for lower path is_dir items ≡ listed it role path
  unfolding command_for
  command_for-listed path is_dir items it role e = rw (command_for, e) refl

  command_for-unlisted :
      (path : Text) (is_dir : Bool) (items : Items)
      → find lower items path ≡ none
      → command_for lower path is_dir items ≡ unlisted (normalize lower path) path is_dir
  unfolding command_for
  command_for-unlisted path is_dir items e = rw (command_for, e) refl

  listed_protected :
      (it : Item) (path : Text)
      → it.protected ≡ true
      → listed it Role.item path ≡ command Verb.unlock it.item_path
  unfolding listed
  listed_protected it path p = rw (listed, p) refl

  badge_item :
      (found : Option (Item × Role))
      → badge_of found ≡ true
      → (it : Item) × (found ≡ some (it, Role.item)) × (it.protected ≡ true)
  badge_item (some (it, Role.item)) h = (it, refl, ground arith)
  badge_item (some (it, Role.vault)) h = absurd (ground arith)
  badge_item (some (it, Role.vault_header)) h = absurd (ground arith)
  badge_item (some (it, Role.drive)) h = absurd (ground arith)
  badge_item none h = absurd (ground arith)

  -- A path with the lock badge is that of a protected item, and its entry unlocks that item.
  pub has_badge-command_for :
      (path : Text) (is_dir : Bool) (items : Items) (settings : Settings)
      → has_badge lower path items settings ≡ true
      → (it : Item) × (find lower items path ≡ some (it, Role.item))
        × (command_for lower path is_dir items ≡ command Verb.unlock it.item_path)
  unfolding has_badge
  has_badge-command_for path is_dir items settings h =
      let (it, e, p) = badge_item (find lower items path) (ground arith) in
      (it, e, command_for-listed path is_dir items it Role.item e ∙ listed_protected it path p)

  -- What an entry may do: unlock the protected item at its own path; open a vault, which is the
  -- selected path itself: that of a protected item that is not encrypted to a file, or a `.flkd`
  -- folder that is not listed, wherever it is; lock a listed item that is not protected, or a path
  -- that is not listed and, by its text, is no `.flk` file, no `.flkd` folder and no drive, and lies
  -- below no folder that ends in `.flkd` and not in the Recycle Bin.
  pub data Allowed (path : Text) (is_dir : Bool) (items : Items) : Command → Type 0 where
    unlocks :
        (it : Item)
        → find lower items path ≡ some (it, Role.item)
        → it.protected ≡ true
        → Allowed path is_dir items (record { verb = Verb.unlock; target = it.item_path })
    opens :
        (it : Item)
        → find lower items path ≡ some (it, Role.vault)
        → it.protected ≡ true
        → it.method ≢ Method.encrypt
        → Allowed path is_dir items (record { verb = Verb.open_vault; target = path })
    opens_unlisted :
        find lower items path ≡ none
        → is_dir ≡ true
        → ends_with (codes ".flkd") (normalize lower path) ≡ true
        → Allowed path is_dir items (record { verb = Verb.open_vault; target = path })
    locks :
        (it : Item) (role : Role)
        → find lower items path ≡ some (it, role)
        → it.protected ≡ false
        → Allowed path is_dir items (record { verb = Verb.lock; target = it.item_path })
    locks_unlisted :
        find lower items path ≡ none
        → Lockable (normalize lower path) is_dir
        → Allowed path is_dir items (record { verb = Verb.lock; target = path })

  module _ (path : Text) (is_dir : Bool) (items : Items) (entry : Command) where
    same_entry :
        (other : Command)
        → some other ≡ some entry
        → Allowed path is_dir items other
        → Allowed path is_dir items entry
    same_entry other h a =
        subst (Allowed path is_dir items) (ap (λ o. elim o [ none ↦ entry | some entry ↦ entry ]) h)
          a

    no_entry : none ≡ some entry → Allowed path is_dir items entry
    no_entry h = absurd (ground arith)

    listed-Allowed :
        (item_path : Text) (vault_path : Option Text) (method : Method) (protected : Bool)
        (mount_point : Option Text) (role : Role)
        → let it : Item = record {
          item_path = item_path;
          vault_path = vault_path;
          method = method;
          protected = protected;
          mount_point = mount_point;
        } in
          find lower items path ≡ some (it, role)
          → listed it role path ≡ some entry
          → Allowed path is_dir items entry
    unfolding listed
    listed-Allowed i v m p mp Role.vault_header e h = no_entry h
    listed-Allowed i v m true mp Role.item e h = same_entry _ h (Allowed.unlocks _ e refl)
    listed-Allowed i v m false mp Role.item e h = same_entry _ h (Allowed.locks _ _ e refl)
    listed-Allowed i v Method.drive false (some mp) Role.drive e h =
        same_entry _ h (Allowed.locks _ _ e refl)
    listed-Allowed i v Method.drive false none Role.drive e h = no_entry h
    listed-Allowed i v Method.drive true mp Role.drive e h = no_entry h
    listed-Allowed i v Method.encrypt p mp Role.drive e h = no_entry h
    listed-Allowed i v Method.block_access p mp Role.drive e h = no_entry h
    listed-Allowed i v Method.read_only p mp Role.drive e h = no_entry h
    listed-Allowed i v Method.hide_only p mp Role.drive e h = no_entry h
    listed-Allowed i v Method.encrypt p mp Role.vault e h = no_entry h
    listed-Allowed i v Method.drive true mp Role.vault e h =
        same_entry _ h (Allowed.opens _ e refl (λ q. ground arith))
    listed-Allowed i v Method.drive false (some mp) Role.vault e h =
        same_entry _ h (Allowed.locks _ _ e refl)
    listed-Allowed i v Method.drive false none Role.vault e h = no_entry h
    listed-Allowed i v Method.block_access true mp Role.vault e h =
        same_entry _ h (Allowed.opens _ e refl (λ q. ground arith))
    listed-Allowed i v Method.block_access false mp Role.vault e h = no_entry h
    listed-Allowed i v Method.read_only true mp Role.vault e h =
        same_entry _ h (Allowed.opens _ e refl (λ q. ground arith))
    listed-Allowed i v Method.read_only false mp Role.vault e h = no_entry h
    listed-Allowed i v Method.hide_only true mp Role.vault e h =
        same_entry _ h (Allowed.opens _ e refl (λ q. ground arith))
    listed-Allowed i v Method.hide_only false mp Role.vault e h = no_entry h

    unlisted-Allowed :
        find lower items path ≡ none
        → (flk flkd dir root inside : Bool) → ends_with (codes ".flk") (normalize lower path) ≡ flk
        → ends_with (codes ".flkd") (normalize lower path) ≡ flkd
        → is_dir ≡ dir
        → is_drive_root (normalize lower path) ≡ root
        → any_folder (folders_of (split b'\\' (normalize lower path))) ≡ inside
        → (if flk
            then none
            else if dir && flkd
            then command Verb.open_vault path
            else if root || inside
            then none
            else command Verb.lock path)
          ≡ some entry
        → Allowed path is_dir items entry
    unlisted-Allowed e true flkd dir root inside e0 e1 e2 e3 e4 h = no_entry h
    unlisted-Allowed e false true true root inside e0 e1 e2 e3 e4 h =
        same_entry _ h (Allowed.opens_unlisted e e2 e1)
    unlisted-Allowed e false true false true inside e0 e1 e2 e3 e4 h = no_entry h
    unlisted-Allowed e false true false false true e0 e1 e2 e3 e4 h = no_entry h
    unlisted-Allowed e false true false false false e0 e1 e2 e3 e4 h = same_entry _ h (
        Allowed.locks_unlisted e
          (passed-Lockable (normalize lower path) is_dir e0 (rw (e1, e2) refl) e3 e4))
    unlisted-Allowed e false false true true inside e0 e1 e2 e3 e4 h = no_entry h
    unlisted-Allowed e false false true false true e0 e1 e2 e3 e4 h = no_entry h
    unlisted-Allowed e false false true false false e0 e1 e2 e3 e4 h = same_entry _ h (
        Allowed.locks_unlisted e
          (passed-Lockable (normalize lower path) is_dir e0 (rw (e1, e2) refl) e3 e4))
    unlisted-Allowed e false false false true inside e0 e1 e2 e3 e4 h = no_entry h
    unlisted-Allowed e false false false false true e0 e1 e2 e3 e4 h = no_entry h
    unlisted-Allowed e false false false false false e0 e1 e2 e3 e4 h = same_entry _ h (
        Allowed.locks_unlisted e
          (passed-Lockable (normalize lower path) is_dir e0 (rw (e1, e2) refl) e3 e4))

  -- An entry that `command_for` shows unlocks a protected item at its own path, opens a vault that is
  -- the selected path, or locks a listed item that is not protected, or a path that is not listed and
  -- is no locked file, no vault folder, no drive, and not within a vault folder or a Recycle Bin.
  pub command_for-Allowed :
      (path : Text) (is_dir : Bool) (items : Items) (entry : Command)
      → command_for lower path is_dir items ≡ some entry
      → Allowed path is_dir items entry
  unfolding unlisted
  command_for-Allowed path is_dir items entry h = elim (Option-cases (find lower items path)) [
    | inl e ↦
        unlisted-Allowed path is_dir items entry e _ _ _ _ _ refl refl refl refl refl
          (sym (command_for-unlisted path is_dir items e) ∙ h)
    | inr ((it, role), e) ↦
        listed-Allowed path is_dir items entry it.item_path it.vault_path it.method it.protected
          it.mount_point role e (sym (command_for-listed path is_dir items it role e) ∙ h)
  ]

  -- A path is normalized once: the lowercase tables must be idempotent, and must neither make nor
  -- change slashes.
  pub normalize_idem :
      ((t : Text) → lower (lower t) ≡ lower t)
      → ((t : Text) → replace b'/' b'\\' (lower t) ≡ lower (replace b'/' b'\\' t))
      → ((t : Text) → trim_end b'\\' (lower t) ≡ lower (trim_end b'\\' t))
      → (path : Text) → normalize lower (normalize lower path) ≡ normalize lower path
  unfolding normalize
  normalize_idem idem slashes ends path =
      let slashed = replace b'/' b'\\' path in
      let same : replace b'/' b'\\' slashed ≡ slashed = replace_idem b'/' b'\\' path refl in
      let trimmed = trim_end b'\\' slashed in
      ap (λ t. lower (trim_end b'\\' t))
        (slashes trimmed ∙ ap lower (replace-trim_end b'/' b'\\' b'\\' slashed same))
      ∙ ap lower (ends trimmed ∙ ap lower (trim_end_idem b'\\' slashed))
      ∙ idem trimmed
