-- ===== src/Vault2/Tree/Tally.antt =====
-- What `scan` counts: a reference that adds up the items of a folder.
use desktop_folder_locker.Common.{
  ◌+◌, ◌≡◌, refl, sym, ap, ◌∙◌, subst, inl, inr, arith, Bool, true, false, ◌&&◌, ◌⊎◌, Option,
  Bool-cases, not, ◌||◌, ◌==◌, none, some, [], ◌∷◌,
}
use desktop_folder_locker.Common.Text.{Text, any}
use desktop_folder_locker.Vault2.Error.{Result, ok, err, Error, Result-cases, continue}
use desktop_folder_locker.Vault2.Tree.Copying.{TreeStats, no_stats}
use desktop_folder_locker.Vault2.Tree.Sources.{
  Source, file, folder, link, Sources, end, entry, source_len, check_source, scan_entry, scan_dir,
  check_name, has_separator, scan, count_dir, with_stats, checked,
}

abbrev pub add : TreeStats → TreeStats → TreeStats
add s t = record { files = s.files + t.files; dirs = s.dirs + t.dirs; bytes = s.bytes + t.bytes }

unfoldable mutual
  pub tally : Source → TreeStats
  tally (file stamp source) = record { files = 1; dirs = 0; bytes = source_len source }
  tally (folder stamp inside) = add (record { files = 0; dirs = 1; bytes = 0 }) (tally_all inside)
  tally link = no_stats

  pub tally_all : Sources → TreeStats
  tally_all end = no_stats
  tally_all (entry name node rest) = add (tally node) (tally_all rest)

abbrev pub is_ok {ℓ} : {A : Type ℓ} → Result A → Bool
is_ok (ok a) = true
is_ok (err e) = false

pub stats_ext : (s t : TreeStats) → s.files ≡ t.files → s.dirs ≡ t.dirs → s.bytes ≡ t.bytes → s ≡ t
stats_ext s t e e' e'' = cc (e, e', e'')

pub add_assoc : (r s t : TreeStats) → add (add r s) t ≡ add r (add s t)
add_assoc r s t = stats_ext _ _ (omega arith) (omega arith) (omega arith)

pub add_none : (s : TreeStats) → add s no_stats ≡ s
add_none s = stats_ext _ _ (omega arith) (omega arith) (omega arith)

pub none_add : (s : TreeStats) → add no_stats s ≡ s
none_add s = stats_ext _ _ (omega arith) (omega arith) (omega arith)

module _ (to_str : Text → Option Text) where
  -- A name is Unicode, and spelled without slashes.
  abbrev pub is_usable : Option Text → Bool
  is_usable none = false
  is_usable (some name) = not (any (λ c. c == b'\\' || c == b'/') name)

  -- An item is a file or a folder.
  abbrev pub is_stored : Source → Bool
  is_stored link = false
  is_stored (file stamp source) = true
  is_stored (folder stamp inside) = true

  -- All that is inside the item are files and folders with usable names.
  unfoldable mutual
    pub storable_inside : Source → Bool
    storable_inside (file stamp source) = true
    storable_inside (folder stamp inside) = all_storable inside
    storable_inside link = true

    pub all_storable : Sources → Bool
    all_storable end = true
    all_storable (entry name node rest) =
        (is_stored node && is_usable (to_str name)) && storable_inside node && all_storable rest

  -- `scan_dir` adds the tally if all can be stored, and fails otherwise.
  abbrev Scans : Bool → TreeStats → TreeStats → Result (Unit {0}) × TreeStats → Type 0
  Scans true stats t result = result ≡ (ok tt, add stats t)
  Scans false stats t result = (e : Error) × (stats' : TreeStats) × (result ≡ (err e, stats'))

  Scans-then :
      (b b' : Bool) (stats t t' : TreeStats) (r : Result (Unit {0}) × TreeStats)
      → (next : TreeStats → Result (Unit {0}) × TreeStats) → Scans b stats t r
      → ((stats' : TreeStats) → Scans b' stats' t' (next stats'))
      → Scans (b && b') stats (add t t') (continue (λ _. next) r)
  Scans-then true true stats t t' r next h h' =
      ap (continue (λ _. next)) h ∙ h' (add stats t) ∙ ap (λ s. (ok tt, s)) (add_assoc stats t t')
  Scans-then true false stats t t' r next h h' =
      let (e, stats', run) = h' (add stats t) in (e, stats', ap (continue (λ _. next)) h ∙ run)
  Scans-then false b' stats t t' r next (e, stats', run) h' =
      (e, stats', ap (continue (λ _. next)) run)

  has_separator-any : (name : Text) → has_separator name ≡ any (λ c. c == b'\\' || c == b'/') name
  has_separator-any [] = refl
  has_separator-any (c ∷ name) = ground (arith, has_separator-any name)

  name_checked : (spelled : Option Text) → is_ok (check_name to_str spelled) ≡ is_usable spelled
  name_checked none = refl
  name_checked (some name) = elim (Bool-cases (has_separator name)) [
    | inl bad ↦ rw (sym (has_separator-any name), bad) refl
    | inr good ↦ rw (sym (has_separator-any name), good) refl
  ]

  -- `check_source` passes these items and no other.
  pub is_ok-check_source :
      (name : Text) (node : Source)
      → is_ok (check_source to_str name node) ≡ (is_stored node && is_usable (to_str name))
  unfolding check_source
  is_ok-check_source name link = refl
  is_ok-check_source name (file stamp source) = name_checked (to_str name)
  is_ok-check_source name (folder stamp inside) = name_checked (to_str name)

  Scans-if_ok :
      (name : Text) (node : Source) (b : Bool) (stats t : TreeStats)
      → Scans b stats t (scan_entry to_str node stats)
      → Scans
          (is_ok (check_source to_str name node) && b)
          stats
          t
          (checked to_str name node (scan_entry to_str node) stats)
  Scans-if_ok name node b stats t h = elim (Result-cases (check_source to_str name node)) [
    | inl (a, e) ↦ rw e h
    | inr (x, e) ↦ rw e (x, stats, refl)
  ]

  Scans-checked :
      (name : Text) (node : Source) (b : Bool) (stats t : TreeStats)
      → Scans b stats t (scan_entry to_str node stats)
      → Scans
          ((is_stored node && is_usable (to_str name)) && b)
          stats
          t
          (checked to_str name node (scan_entry to_str node) stats)
  Scans-checked name node b stats t h =
      subst (λ p. Scans (p && b) stats t (checked to_str name node (scan_entry to_str node) stats))
        (is_ok-check_source name node) (Scans-if_ok name node b stats t h)

  mutual
    unfolding scan_entry tally storable_inside

    scan_entry-Scans :
        (node : Source) (stats : TreeStats)
        → Scans (storable_inside node) stats (tally node) (scan_entry to_str node stats)
    scan_entry-Scans (file stamp source) stats =
        ap (λ s. (ok tt, s)) (stats_ext _ _ refl (omega arith) refl)
    scan_entry-Scans link stats = ap (λ s. (ok tt, s)) (sym (add_none stats))
    scan_entry-Scans (folder stamp inside) stats =
        Scans-then true (all_storable inside) stats (record { files = 0; dirs = 1; bytes = 0 })
          (tally_all inside) (ok tt, count_dir stats) (scan_dir to_str inside)
          (ap (λ s. (ok tt, s)) (stats_ext _ _ (omega arith) refl (omega arith)))
          (scan_dir-Scans inside)

    scan_dir-Scans :
        (sources : Sources) (stats : TreeStats)
        → Scans (all_storable sources) stats (tally_all sources) (scan_dir to_str sources stats)
    scan_dir-Scans end stats = ap (λ s. (ok tt, s)) (sym (add_none stats))
    scan_dir-Scans (entry name node rest) stats =
        Scans-then ((is_stored node && is_usable (to_str name)) && storable_inside node)
          (all_storable rest) stats (tally node) (tally_all rest)
          (checked to_str name node (scan_entry to_str node) stats) (scan_dir to_str rest)
          (Scans-checked name node (storable_inside node) stats (tally node)
            (scan_entry-Scans node stats))
          (scan_dir-Scans rest)

  pub scan-eq_ok :
      (sources : Sources)
      → all_storable sources ≡ true
      → scan to_str sources ≡ ok (tally_all sources)
  unfolding scan
  scan-eq_ok sources all =
      let run : Scans true no_stats (tally_all sources) (scan_dir to_str sources no_stats) =
        rw all at (scan_dir-Scans sources no_stats) in
      ap with_stats run ∙ ap ok (none_add (tally_all sources))

  -- `scan` counts the files, folders and bytes of a folder if all that is in it are files and folders
  -- whose names are Unicode without slashes, and fails otherwise.
  pub scan-tally :
      (sources : Sources)
      → ((all_storable sources ≡ true) × (scan to_str sources ≡ ok (tally_all sources)))
        ⊎ ((all_storable sources ≡ false) × (e : Error) × (scan to_str sources ≡ err e))
  unfolding scan
  scan-tally sources = elim (Bool-cases (all_storable sources)) [
    | inl all ↦ inl (all, scan-eq_ok sources all)
    | inr some_not ↦
        let (e, stats, run) : Scans false no_stats (tally_all sources)
            (scan_dir to_str sources no_stats) =
          rw some_not at (scan_dir-Scans sources no_stats) in
        inr (some_not, e, ap with_stats run)
  ]
