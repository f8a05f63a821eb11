-- ===== src/Drive/Early.antt =====
-- Cancelling a request before its thread has begun, in native/drive/src/main.rs.
use desktop_folder_locker.Common.{
  ℕ, sym, subst, Bool-cases, Option-cases, inl, inr, ==_iff, refl, some, ◌≡◌, ap, ◌∙◌, List, [],
  ◌∷◌, ◌++◌, true, false, ◌==◌, if◌then◌else◌, none, arith,
}
use desktop_folder_locker.Drive.Jobs.{Jobs, get, insert, remove, start, finish, cancel}
use desktop_folder_locker.Drive.Cancelling.{cancel-eq_none, cancel-eq_some}
use desktop_folder_locker.Drive.Flags.{store_same}
use desktop_folder_locker.Drive.Helper.{Helper, Step, Reaches, count, count-remove_one, count-cons}

-- The keys of a table, each once.
abbrev IsNew : ℕ → List (ℕ × ℕ) → Type 0
IsNew id [] = Unit
IsNew id ((key, flag) ∷ table) = ((key == id) ≡ false) × IsNew id table

abbrev AreKeys : List (ℕ × ℕ) → Type 0
AreKeys [] = Unit
AreKeys ((key, flag) ∷ table) = IsNew key table × AreKeys table

insert-IsNew :
    (id key flag : ℕ) (table : List (ℕ × ℕ))
    → (id == key) ≡ false
    → IsNew key table
    → IsNew key (insert id flag table)
unfolding insert
insert-IsNew id key flag [] ne h = (ne, tt)
insert-IsNew id key flag ((other, f) ∷ table) ne h = elim (Bool-cases (other == id)) [
  | inl same ↦ rw same (ne, h.1)
  | inr differ ↦ rw differ (h.0, insert-IsNew id key flag table ne h.1)
]

insert-AreKeys :
    (id flag : ℕ) (table : List (ℕ × ℕ)) → AreKeys table → AreKeys (insert id flag table)
unfolding insert
insert-AreKeys id flag [] h = (tt, tt)
insert-AreKeys id flag ((key, f) ∷ table) h = elim (Bool-cases (key == id)) [
  | inl same ↦ rw same (subst (λ k. IsNew k table) ((==_iff key id).0 same) h.0, h.1)
  | inr differ ↦ rw differ (
    insert-IsNew id key flag table (ground (arith, ==_iff id key, ==_iff key id)) h.0,
    insert-AreKeys id flag table h.1,
  )
]

remove-IsNew : (id key : ℕ) (table : List (ℕ × ℕ)) → IsNew key table → IsNew key (remove id table)
unfolding remove
remove-IsNew id key [] h = tt
remove-IsNew id key ((other, f) ∷ table) h = elim (Bool-cases (other == id)) [
  | inl same ↦ rw same h.1
  | inr differ ↦ rw differ (h.0, remove-IsNew id key table h.1)
]

remove-AreKeys : (id : ℕ) (table : List (ℕ × ℕ)) → AreKeys table → AreKeys (remove id table)
unfolding remove
remove-AreKeys id [] h = tt
remove-AreKeys id ((other, f) ∷ table) h = elim (Bool-cases (other == id)) [
  | inl same ↦ rw same h.1
  | inr differ ↦ rw differ (remove-IsNew id other table h.0, remove-AreKeys id table h.1)
]

get-IsNew : (id : ℕ) (table : List (ℕ × ℕ)) → IsNew id table → get table id ≡ none
unfolding get
get-IsNew id [] h = refl
get-IsNew id ((key, f) ∷ table) h = rw h.0 (get-IsNew id table h.1)

absent :
    (key id x : ℕ) (table : List (ℕ × ℕ))
    → IsNew key table
    → (key == id) ≡ true
    → (id == x) ≡ true
    → get table x ≡ none
absent key id x table h e e' =
    let same : key ≡ x = (==_iff key id).0 e ∙ (==_iff id x).0 e' in
    subst (λ i. get table i ≡ none) same (get-IsNew key table h)

get-remove :
    (id x : ℕ) (table : List (ℕ × ℕ))
    → AreKeys table
    → get (remove id table) x ≡ (if id == x then none else get table x)
unfolding get remove
get-remove id x [] h = ground arith
get-remove id x ((key, f) ∷ table) h = ground (
  arith,
  ==_iff key id,
  ==_iff key x,
  ==_iff id x,
  get-remove id x table h.1,
  absent key id x table h.0,
)

get-insert_other :
    (id x flag : ℕ) (table : List (ℕ × ℕ))
    → (id == x) ≡ false
    → get (insert id flag table) x ≡ get table x
unfolding get insert
get-insert_other id x flag [] ne = rw ne refl
get-insert_other id x flag ((key, f) ∷ table) ne =
    ground (arith, ==_iff key id, ==_iff key x, ==_iff id x, get-insert_other id x flag table ne)

get-insert_same : (id flag : ℕ) (table : List (ℕ × ℕ)) → get (insert id flag table) id ≡ some flag
unfolding get insert
get-insert_same id flag [] = ground (arith, ==_iff id id)
get-insert_same id flag ((key, f) ∷ table) =
    ground (arith, ==_iff id id, get-insert_same id flag table)

-- A request that is not worked on has no flag.
record IsTidy (h : Helper) : Type 0 where
  keys : AreKeys h.jobs.running
  known : (x : ℕ) → count x h.working ≡ 0 → get h.jobs.running x ≡ none

cancel-running : (id : ℕ) (jobs : Jobs) → (cancel id jobs).1.running ≡ jobs.running
cancel-running id jobs = elim (Option-cases (get jobs.running id)) [
  | inl e ↦ ap (λ r. r.1.running) (cancel-eq_none jobs id e)
  | inr (flag, e) ↦ ap (λ r. r.1.running) (cancel-eq_some jobs id flag e)
]

Step-IsTidy : (h h' : Helper) → Step h h' → IsTidy h → IsTidy h'
unfolding start finish
Step-IsTidy h _ (Step.answers id) t = record { keys = t.keys; known = t.known }
Step-IsTidy h _ (Step.spawns id) t = record { keys = t.keys; known = t.known }
Step-IsTidy h _ (Step.fails_to_spawn id) t = record { keys = t.keys; known = t.known }
Step-IsTidy h _ (Step.cancels id target) t = record {
  keys = subst AreKeys (sym (cancel-running target h.jobs)) t.keys;
  known = λ x e. ap (λ r. get r x) (cancel-running target h.jobs) ∙ t.known x e;
}
Step-IsTidy h _ (Step.begins before after id e) t = record {
  keys = insert-AreKeys id h.jobs.next h.jobs.running t.keys;
  known = λ x none_works.
      let other : (id == x) ≡ false = ground (arith, none_works) in
      get-insert_other id x h.jobs.next h.jobs.running other
      ∙ t.known x (omega (arith, none_works, count-cons x id h.working));
}
Step-IsTidy h _ (Step.ends before after id e) t = record {
  keys = remove-AreKeys id h.jobs.running t.keys;
  known = λ x none_works. elim (Bool-cases (id == x)) [
    | inl same ↦ get-remove id x h.jobs.running t.keys ∙ rw same refl
    | inr other ↦
        let alone : count x (id ∷ []) ≡ 0 = rw other refl in
        get-remove id x h.jobs.running t.keys
        ∙ rw other (
            t.known x (
              ap (count x) e
              ∙ omega (arith, none_works, alone, count-remove_one x id before after)))
  ];
}

Reaches-IsTidy : (h : Helper) → Reaches h → IsTidy h
unfolding get
Reaches-IsTidy _ Reaches.at_start = record { keys = tt; known = λ x e. refl }
Reaches-IsTidy _ (Reaches.then_step h h' r s) = Step-IsTidy h h' s (Reaches-IsTidy h r)

-- A request whose thread is spawned and has not begun is read to be cancelled: whatever happened
-- before, if its id is not that of another request that is worked on, the answer is `false`, and
-- when the thread then begins, its flag is not set.
pub early_cancel :
    (h : Helper) (canceller id : ℕ) (before after : List ℕ)
    → Reaches h
    → h.waiting ≡ before ++ id ∷ after
    → count id h.working ≡ 0
    → ((cancel id h.jobs).0 ≡ false)
      × (h1 : Helper) × (h2 : Helper) × Step h h1
      × (h1.jobs ≡ (cancel id h.jobs).1)
      × (h1.replies ≡ canceller ∷ h.replies)
      × Step h1 h2
      × (h2.working ≡ id ∷ h.working)
      × (flag : ℕ) × (get h2.jobs.running id ≡ some flag)
      × (h2.jobs.flags flag ≡ false)
unfolding start
early_cancel h canceller id before after r e idle =
    let unknown = (Reaches-IsTidy h r).known id idle in
    let jobs : Jobs = (cancel id h.jobs).1 in
    (
      ap (λ r. r.0) (cancel-eq_none h.jobs id unknown),
      _,
      _,
      Step.cancels canceller id,
      refl,
      refl,
      Step.begins before after id e,
      refl,
      jobs.next,
      get-insert_same id jobs.next jobs.running,
      store_same jobs.next false jobs.flags,
    )
