-- ===== src/Drive/Flags.antt =====
-- The jobs without their flags' addresses: which requests run, and which of them are cancelled.
-- No two jobs share a flag, so the operations on addresses do what these do on requests.
use desktop_folder_locker.Common.{
  ℕ, suc, ◌<◌, ◌≡◌, ◌≢◌, inl, inr, refl, sym, ap, subst, ◌∙◌, some, none, List, [], ◌∷◌, Bool, true,
  ◌==◌, ==_iff, if◌then◌else◌, arith, Bool-cases,
}
use desktop_folder_locker.Drive.Jobs.{Jobs, get, insert, remove, store, store_all}

abbrev pub Cancelled : Type 0
Cancelled = List (ℕ × Bool)

-- Every address is below the limit, and no address stands twice.
abbrev pub IsFreshFor : ℕ → List (ℕ × ℕ) → Type 0
IsFreshFor flag [] = Unit
IsFreshFor flag ((id, other) ∷ running) = (flag ≢ other) × IsFreshFor flag running

abbrev pub AreDistinct : ℕ → List (ℕ × ℕ) → Type 0
AreDistinct limit [] = Unit
AreDistinct limit ((id, flag) ∷ running) =
    (flag < limit) × IsFreshFor flag running × AreDistinct limit running

abbrev pub IsValid : Jobs → Type 0
IsValid jobs = AreDistinct jobs.next jobs.running

unfoldable pub view_of : List (ℕ × ℕ) → (ℕ → Bool) → Cancelled
view_of [] flags = []
view_of ((id, flag) ∷ running) flags = (id, flags flag) ∷ view_of running flags

abbrev pub view : Jobs → Cancelled
view jobs = view_of jobs.running jobs.flags

unfoldable pub set : ℕ → Cancelled → Cancelled
set id [] = []
set id ((key, b) ∷ table) = if key == id then (key, true) ∷ table else (key, b) ∷ set id table

unfoldable pub set_all : Cancelled → Cancelled
set_all [] = []
set_all ((key, b) ∷ table) = (key, true) ∷ set_all table

pub store_other :
    (flag other : ℕ) (value : Bool) (flags : ℕ → Bool)
    → flag ≢ other
    → store flag value flags other ≡ flags other
store_other flag other value flags ne = ground (arith, ==_iff other flag)

pub store_same : (flag : ℕ) (value : Bool) (flags : ℕ → Bool) → store flag value flags flag ≡ value
store_same flag value flags = rw ((==_iff flag flag).1 refl) refl

pub get-IsFreshFor :
    (id flag other : ℕ) (running : List (ℕ × ℕ))
    → IsFreshFor other running
    → get running id ≡ some flag
    → other ≢ flag
unfolding get
get-IsFreshFor id flag other [] h e = absurd (ground arith)
get-IsFreshFor id flag other ((key, first) ∷ running) (ne, h) e = elim (Bool-cases (key == id)) [
  | inl same ↦
      let found : some first ≡ some flag = rw same at e in
      λ q. ne (q ∙ sym (ap (λ o. elim o [ none ↦ flag | some a ↦ a ]) found))
  | inr differ ↦ get-IsFreshFor id flag other running h (rw differ at e)
]

-- A flag that no job has is not seen.
pub view-store :
    (flag : ℕ) (value : Bool) (running : List (ℕ × ℕ)) (flags : ℕ → Bool)
    → IsFreshFor flag running
    → view_of running (store flag value flags) ≡ view_of running flags
unfolding view_of
view-store flag value [] flags h = refl
view-store flag value ((id, other) ∷ running) flags (ne, h) =
    cc (store_other flag other value flags ne, view-store flag value running flags h)

pub above_all :
    (limit : ℕ) (running : List (ℕ × ℕ)) → AreDistinct limit running → IsFreshFor limit running
above_all limit [] h = tt
above_all limit ((id, flag) ∷ running) (below, fresh, h) =
    (λ q. absurd (omega (arith, q)), above_all limit running h)

pub view-insert :
    (id flag : ℕ) (running : List (ℕ × ℕ)) (flags : ℕ → Bool)
    → view_of (insert id flag running) flags ≡ insert id (flags flag) (view_of running flags)
unfolding view_of insert
view-insert id flag [] flags = refl
view-insert id flag ((key, other) ∷ running) flags =
    ground (arith, view-insert id flag running flags)

pub view-remove :
    (id : ℕ) (running : List (ℕ × ℕ)) (flags : ℕ → Bool)
    → view_of (remove id running) flags ≡ remove id (view_of running flags)
unfolding view_of remove
view-remove id [] flags = refl
view-remove id ((key, other) ∷ running) flags = ground (arith, view-remove id running flags)

-- Setting the flag of a running request sets what is seen of that request.
pub view-cancel :
    (limit id flag : ℕ) (running : List (ℕ × ℕ)) (flags : ℕ → Bool)
    → AreDistinct limit running
    → get running id ≡ some flag
    → view_of running (store flag true flags) ≡ set id (view_of running flags)
unfolding view_of get set
view-cancel limit id flag [] flags h e = refl
view-cancel limit id flag ((key, other) ∷ running) flags (below, fresh, h) e =
    elim (Bool-cases (key == id)) [
      | inl same ↦
          let found : some other ≡ some flag = rw same at e in
          let at_flag : other ≡ flag = ap (λ o. elim o [ none ↦ flag | some a ↦ a ]) found in
          rw same (
            cc (
              ap (store flag true flags) at_flag ∙ store_same flag true flags,
              view-store flag true running flags (subst (λ a. IsFreshFor a running) at_flag fresh),
            ))
      | inr differ ↦
          let there : get running id ≡ some flag = rw differ at e in
          rw differ (
            cc (
              store_other flag other true flags
                  (λ q. get-IsFreshFor id flag other running fresh there (sym q)),
              view-cancel limit id flag running flags h there,
            ))
    ]

pub view-none :
    (id : ℕ) (running : List (ℕ × ℕ)) (flags : ℕ → Bool)
    → get running id ≡ none
    → view_of running flags ≡ set id (view_of running flags)
unfolding view_of get set
view-none id [] flags e = refl
view-none id ((key, other) ∷ running) flags e = elim (Bool-cases (key == id)) [
  | inl same ↦ let found : some other ≡ none = rw same at e in absurd (ground arith)
  | inr differ ↦
      rw differ (ap (λ t. (key, flags other) ∷ t) (view-none id running flags (rw differ at e)))
]

-- What `store_all` keeps: a flag that no job has.
store_all-IsFreshFor :
    (running : List (ℕ × ℕ)) (flags : ℕ → Bool) (flag : ℕ)
    → IsFreshFor flag running
    → store_all running flags flag ≡ flags flag
unfolding store_all
store_all-IsFreshFor [] flags flag h = refl
store_all-IsFreshFor ((id, other) ∷ running) flags flag (ne, h) =
    store_all-IsFreshFor running (store other true flags) flag h
    ∙ store_other other flag true flags (λ q. ne (sym q))

pub view-store_all :
    (limit : ℕ) (running : List (ℕ × ℕ)) (flags : ℕ → Bool)
    → AreDistinct limit running
    → view_of running (store_all running flags) ≡ set_all (view_of running flags)
unfolding view_of store_all set_all
view-store_all limit [] flags h = refl
view-store_all limit ((id, flag) ∷ running) flags (below, fresh, h) =
    let first : store_all running (store flag true flags) flag ≡ true =
      store_all-IsFreshFor running (store flag true flags) flag fresh
      ∙ store_same flag true flags in
    let rest = view-store_all limit running (store flag true flags) h in
    let same = ap set_all (view-store flag true running flags fresh) in cc (first, rest, same)

insert-IsFreshFor :
    (id flag other : ℕ) (running : List (ℕ × ℕ))
    → other ≢ flag
    → IsFreshFor other running
    → IsFreshFor other (insert id flag running)
unfolding insert
insert-IsFreshFor id flag other [] ne h = (ne, tt)
insert-IsFreshFor id flag other ((key, first) ∷ running) ne (ne', h) =
    elim (Bool-cases (key == id)) [
      | inl same ↦ rw same (ne, h)
      | inr differ ↦ rw differ (ne', insert-IsFreshFor id flag other running ne h)
    ]

wider :
    (limit : ℕ) (running : List (ℕ × ℕ))
    → AreDistinct limit running
    → AreDistinct (suc limit) running
wider limit [] h = tt
wider limit ((id, flag) ∷ running) (below, fresh, h) = (omega arith, fresh, wider limit running h)

pub insert-AreDistinct :
    (id limit : ℕ) (running : List (ℕ × ℕ))
    → AreDistinct limit running
    → AreDistinct (suc limit) (insert id limit running)
unfolding insert
insert-AreDistinct id limit [] h = (omega arith, tt, tt)
insert-AreDistinct id limit ((key, flag) ∷ running) (below, fresh, h) =
    elim (Bool-cases (key == id)) [
      | inl same ↦ rw same (omega arith, above_all limit running h, wider limit running h)
      | inr differ ↦ rw differ (
        omega arith,
        insert-IsFreshFor id limit flag running (λ q. absurd (omega (arith, q))) fresh,
        insert-AreDistinct id limit running h,
      )
    ]

remove-IsFreshFor :
    (id other : ℕ) (running : List (ℕ × ℕ))
    → IsFreshFor other running
    → IsFreshFor other (remove id running)
unfolding remove
remove-IsFreshFor id other [] h = tt
remove-IsFreshFor id other ((key, flag) ∷ running) (ne, h) = elim (Bool-cases (key == id)) [
  | inl same ↦ rw same h
  | inr differ ↦ rw differ (ne, remove-IsFreshFor id other running h)
]

pub remove-AreDistinct :
    (id limit : ℕ) (running : List (ℕ × ℕ))
    → AreDistinct limit running
    → AreDistinct limit (remove id running)
unfolding remove
remove-AreDistinct id limit [] h = tt
remove-AreDistinct id limit ((key, flag) ∷ running) (below, fresh, h) =
    elim (Bool-cases (key == id)) [
      | inl same ↦ rw same h
      | inr differ ↦
          rw differ
            (below, remove-IsFreshFor id flag running fresh, remove-AreDistinct id limit running h)
    ]
