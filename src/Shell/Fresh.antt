-- ===== src/Shell/Fresh.antt =====
-- How old an answer of `State` can be, over a sequence of questions.
use desktop_folder_locker.Common.{
  ℕ, ◌-◌, ◌<◌, ◌≡◌, ◌⊎◌, inl, inr, refl, sym, ap, subst, ◌∙◌, Option, Bool-cases, some, none, List,
  [], ◌∷◌, Bool, true, false, ◌&&◌, ◌||◌, not, ==_iff, ltb, if◌then◌else◌, arith,
}
use desktop_folder_locker.Common.Text.{Text}
use desktop_folder_locker.Shell.State.{Stored}
use desktop_folder_locker.Shell.Cache.{
  Cache, World, File, Stamp, default_cache, same_stamp, load_items, load_settings, reload,
  reload_items, reload_settings, is_current, holds_for, fresh,
}

-- The text of a file is told by its time and size, where these can be read: a file that is written
-- gets another time or size.
abbrev pub IsVersion : (Stamp → Option Text) → File → Type 0
IsVersion version file = elim file.stamp [
  | none ↦ Unit {0}
  | some stamp ↦ file.text ≡ version stamp
]

-- So it is at each of the questions.
abbrev pub AreVersions : (Stamp → Option Text) → (Stamp → Option Text) → List World → Type 0
AreVersions items settings [] = Unit
AreVersions items settings (w ∷ ws) =
    IsVersion items w.items_file
    × IsVersion settings w.settings_file
    × AreVersions items settings ws

-- The world of one of the questions.
abbrev pub Among : World → List World → Type 0
Among w0 [] = false ≡ true
Among w0 (w ∷ ws) = (w0 ≡ w) ⊎ Among w0 ws

module _ (lower : Text → Text) (read_items : Text → Option (List (Option Stored)))
    (read_setting : Text → Option Bool) where
  -- The cache holds what the files hold.
  pub record IsFresh (w : World) (cache : Cache) : Type 0 where
    pub items : cache.items ≡ load_items lower read_items read_setting w.items_file.text
    pub settings : cache.settings ≡ load_settings lower read_items read_setting w.settings_file.text

  -- The cache after these questions, the last of which stands first.
  unfoldable pub after : List World → Cache
  after [] = default_cache
  after (w ∷ ws) = fresh lower read_items read_setting true w (after ws)

  -- What is kept of a file whose stamp was read is that version of it.
  abbrev IsKept :
      {A : Type 0} → (Option Text → A) → (Stamp → Option Text) → Option Stamp → A → Type 0
  IsKept load version none value = Unit {0}
  IsKept load version (some stamp) value = value ≡ load (version stamp)

  equal_stamps :
      (s t : Option Stamp)
      → same_stamp s t ≡ true
      → (stamp : Stamp) × (s ≡ some stamp) × (t ≡ some stamp)
  equal_stamps none t h = absurd (ground (arith, h))
  equal_stamps (some (time, size)) none h = absurd (ground (arith, h))
  equal_stamps (some (time, size)) (some (time', size')) h =
      let same : (time ≡ time') × (size ≡ size') =
        ground (arith, h, ==_iff time time', ==_iff size size') in
      ((time', size'), cc (same.0, same.1), refl)

  still :
      {A : Type 0} (load : Option Text → A) (version : Stamp → Option Text) (file : File)
      (kept : Option Stamp) (value : A)
      → IsVersion version file
      → IsKept load version kept value
      → same_stamp file.stamp kept ≡ true
      → value ≡ load file.text
  still load version file kept value is_version is_kept same =
      let (stamp, e, e') = equal_stamps file.stamp kept same in
      let now : file.text ≡ version stamp = rw e at is_version in
      let before : value ≡ load (version stamp) = rw e' at is_kept in before ∙ ap load (sym now)

  new_kept :
      {A : Type 0} (load : Option Text → A) (version : Stamp → Option Text) (stamp : Option Stamp)
      (text : Option Text)
      → IsVersion version (record { stamp = stamp; text = text })
      → IsKept load version stamp (load text)
  new_kept load version none text h = tt
  new_kept load version (some stamp) text h = ap load h

  record Keeps (of_items of_settings : Stamp → Option Text) (cache : Cache) : Type 0 where
    items : IsKept (load_items lower read_items read_setting) of_items cache.items_stamp cache.items
    settings :
        IsKept
          (load_settings lower read_items read_setting)
          of_settings
          cache.settings_stamp
          cache.settings

  module _ (of_items of_settings : Stamp → Option Text) where
    -- The two reads of `reload`, of the items and then of the settings.
    reads_items :
        (w : World) (cache : Cache)
        → IsVersion of_items w.items_file
        → Keeps of_items of_settings cache
        → ((reload_items lower read_items read_setting w cache).items
            ≡ load_items lower read_items read_setting w.items_file.text)
          × Keeps of_items of_settings (reload_items lower read_items read_setting w cache)
    reads_items w cache v k = elim (Bool-cases (same_stamp w.items_file.stamp cache.items_stamp)) [
      | inl same ↦ rw same (
        still (load_items lower read_items read_setting) of_items w.items_file cache.items_stamp
            cache.items v k.items same,
        k,
      )
      | inr new ↦ rw new (
        refl,
        record {
          items =
              new_kept (load_items lower read_items read_setting) of_items w.items_file.stamp
                w.items_file.text v;
          settings = k.settings;
        },
      )
    ]

    reads_settings :
        (w : World) (cache : Cache)
        → IsVersion of_settings w.settings_file
        → Keeps of_items of_settings cache
        → cache.items ≡ load_items lower read_items read_setting w.items_file.text
        → IsFresh w (reload_settings lower read_items read_setting w cache)
          × Keeps of_items of_settings (reload_settings lower read_items read_setting w cache)
          × ((reload_settings lower read_items read_setting w cache).checked ≡ cache.checked)
    reads_settings w cache v k e =
        elim (Bool-cases (same_stamp w.settings_file.stamp cache.settings_stamp)) [
          | inl same ↦ rw same (
            record {
              items = e;
              settings =
                  still (load_settings lower read_items read_setting) of_settings w.settings_file
                    cache.settings_stamp cache.settings v k.settings same;
            },
            k,
            refl,
          )
          | inr new ↦ rw new (
            record { items = e; settings = refl },
            record {
              items = k.items;
              settings =
                  new_kept (load_settings lower read_items read_setting) of_settings
                    w.settings_file.stamp w.settings_file.text v;
            },
            refl,
          )
        ]

    checked_items :
        (w : World) (cache : Cache)
        → (reload_items lower read_items read_setting w cache).checked ≡ cache.checked
    checked_items w cache = elim (Bool-cases (same_stamp w.items_file.stamp cache.items_stamp)) [
      | inl same ↦ rw same refl
      | inr new ↦ rw new refl
    ]

    watched :
        (w : World) (cache : Cache)
        → Keeps of_items of_settings cache
        → Keeps of_items of_settings
            (if cache.watch then cache else record cache { watch = w.can_watch })
          × ((if cache.watch then cache else record cache { watch = w.can_watch }).checked
              ≡ cache.checked)
    watched w cache k = elim (Bool-cases cache.watch) [
      | inl yes_watch ↦ rw yes_watch (record { items = k.items; settings = k.settings }, refl)
      | inr no_watch ↦ rw no_watch (record { items = k.items; settings = k.settings }, refl)
    ]

    reload-IsFresh :
        (w : World) (cache : Cache)
        → IsVersion of_items w.items_file
        → IsVersion of_settings w.settings_file
        → Keeps of_items of_settings cache
        → IsFresh w (reload lower read_items read_setting w cache)
          × Keeps of_items of_settings (reload lower read_items read_setting w cache)
          × ((reload lower read_items read_setting w cache).checked ≡ cache.checked)
    unfolding reload
    reload-IsFresh w cache v v' k =
        let seen : Cache = if cache.watch then cache else record cache { watch = w.can_watch } in
        let (k1, c1) = watched w cache k in
        let (e, k2) = reads_items w seen v k1 in
        let (fresh, k3, c3) =
          reads_settings w (reload_items lower read_items read_setting w seen) v' k2 e in
        (fresh, k3, c3 ∙ checked_items w seen ∙ c1)

    some_lem : (a b : ℕ) → some a ≡ some b → a ≡ b
    some_lem a b e = ap (λ o. elim o [ none ↦ a | some c ↦ c ]) e

    neither : (a b : Bool) → (a || not b) ≡ false → (a ≡ false) × (b ≡ true)
    neither a b h = ground (arith, h)

    looked_at :
        (now : ℕ) (checked : Option ℕ) (limit : ℕ)
        → (elim checked [ none ↦ false | some checked ↦ ltb (now - checked) limit ]) ≡ true
        → (time : ℕ) × (checked ≡ some time) × (now - time < limit)
    looked_at now none limit h = absurd (ground arith)
    looked_at now (some time) limit h = (time, refl, ground arith)

    -- The files were looked at for one of the questions, if ever.
    IsLooked : List World → Cache → Type 0
    IsLooked ws cache =
        (cache.checked ≡ none)
        ⊎ ((w0 : World) × Among w0 ws × IsFresh w0 cache × (cache.checked ≡ some w0.now))

    -- An answer that leaves the second cache in place of the first.
    abbrev Answers : World → List World → Cache → Cache → Type 0
    Answers w ws cache cache' =
        (w0 : World) × Among w0 (w ∷ ws)
        × IsFresh w0 cache'
        × (cache'.checked ≡ some w0.now)
        × ((w0 ≡ w)
            ⊎ (((cache.watch && w.changed) ≡ false)
                × (w.now - w0.now < holds_for lower read_items read_setting cache)))

    kept_answer :
        (w : World) (ws : List World) (cache : Cache)
        → IsLooked ws cache
        → (cache.watch && w.changed) ≡ false
        → is_current lower read_items read_setting w cache ≡ true
        → Answers w ws cache cache
    unfolding IsLooked
    kept_answer w ws cache (inl never) quiet current =
        let (time, e, near) =
          looked_at w.now cache.checked (holds_for lower read_items read_setting cache) current in
        absurd (cc (sym never ∙ e))
    kept_answer w ws cache (inr (w0, among, is_fresh, at)) quiet current =
        let (time, e, near) =
          looked_at w.now cache.checked (holds_for lower read_items read_setting cache) current in
        let same : w0.now ≡ time = some_lem w0.now time (sym at ∙ e) in
        (
          w0,
          inr among,
          is_fresh,
          at,
          inr (
            quiet,
            subst (λ t. w.now - t < holds_for lower read_items read_setting cache) (sym same) near,
          ),
        )

    one_answer :
        (w : World) (ws : List World) (cache : Cache)
        → IsVersion of_items w.items_file
        → IsVersion of_settings w.settings_file
        → Keeps of_items of_settings cache
        → IsLooked ws cache
        → Keeps of_items of_settings (fresh lower read_items read_setting true w cache)
          × Answers w ws cache (fresh lower read_items read_setting true w cache)
    unfolding fresh
    one_answer w ws cache v v' k looked =
        elim (Bool-cases
          ((cache.watch && w.changed) || not (is_current lower read_items read_setting w cache))) [
            | inl again ↦
                let (is_fresh, k', at) =
                  reload-IsFresh w (record cache { checked = some w.now }) v v'
                    (record { items = k.items; settings = k.settings }) in
                rw again (k', (w, inl refl, is_fresh, at, inl refl))
            | inr kept ↦
                let (quiet, current) = neither (cache.watch && w.changed) _ kept in
                rw kept (k, kept_answer w ws cache looked quiet current)
          ]

    all_answers :
        (ws : List World)
        → AreVersions of_items of_settings ws
        → Keeps of_items of_settings (after ws) × IsLooked ws (after ws)
    unfolding after IsLooked
    all_answers [] v = (record { items = tt; settings = tt }, inl refl)
    all_answers (w ∷ ws) (v, v', vs) =
        let (k, looked) = all_answers ws vs in
        let (k', (w0, among, is_fresh, at, _)) = one_answer w ws (after ws) v v' k looked in
        (k', inr (w0, among, is_fresh, at))

    -- Where the app's folder is known and a written file gets another time or size, the answer to a
    -- question is what both files held at one of the questions so far: at this one, or else at one
    -- that was asked less than ten seconds ago, or less than one second without a notification, and
    -- no change is notified since the last question.
    pub after-IsFresh :
        (w : World) (ws : List World)
        → AreVersions of_items of_settings (w ∷ ws)
        → (w0 : World) × Among w0 (w ∷ ws)
          × IsFresh w0 (after (w ∷ ws))
          × ((w0 ≡ w)
              ⊎ ((((after ws).watch && w.changed) ≡ false)
                  × (w.now - w0.now < (if (after ws).watch then 10000 else 1000))))
    unfolding after
    after-IsFresh w ws (v, v', vs) =
        let (k, looked) = all_answers ws vs in
        let (_, (w0, among, is_fresh, _, when)) = one_answer w ws (after ws) v v' k looked in
        (w0, among, is_fresh, when)
