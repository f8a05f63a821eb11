-- ===== src/Drive/Jobs.antt =====
-- `Jobs` and `Reporter` of native/drive/src/jobs.rs: the cancel flags of running requests. A flag
-- is an address in `flags`, which the table of jobs shares with the worker that runs the job.
use desktop_folder_locker.Common.{
  ℕ, suc, ◌-◌, Option, some, none, List, [], ◌∷◌, ◌++◌, Bool, true, false, ◌||◌, ◌==◌, leb,
  if◌then◌else◌,
}

pub record Jobs : Type 0 where
  -- Request ids and the addresses of their flags.
  pub running : List (ℕ × ℕ)
  pub flags : ℕ → Bool
  -- The next address that is free.
  pub next : ℕ

-- `Jobs::default`
abbrev pub no_jobs : Jobs
no_jobs = record { running = []; flags = λ _. false; next = 0 }

module _ {V : Type 0} where
  -- `HashMap::get`, `insert` and `remove`
  unfoldable pub get : List (ℕ × V) → ℕ → Option V
  get [] id = none
  get ((key, v) ∷ table) id = if key == id then some v else get table id

  unfoldable pub insert : ℕ → V → List (ℕ × V) → List (ℕ × V)
  insert id v [] = (id, v) ∷ []
  insert id v ((key, w) ∷ table) =
      if key == id then (id, v) ∷ table else (key, w) ∷ insert id v table

  unfoldable pub remove : ℕ → List (ℕ × V) → List (ℕ × V)
  remove id [] = []
  remove id ((key, w) ∷ table) = if key == id then table else (key, w) ∷ remove id table

abbrev pub store : ℕ → Bool → (ℕ → Bool) → ℕ → Bool
store flag value flags other = if other == flag then value else flags other

-- The new state, and the flag.
unfoldable pub start : ℕ → Jobs → ℕ × Jobs
start id jobs = (
  jobs.next,
  record {
    running = insert id jobs.next jobs.running;
    flags = store jobs.next false jobs.flags;
    next = suc jobs.next;
  },
)

unfoldable pub finish : ℕ → Jobs → Jobs
finish id jobs = record jobs { running = remove id jobs.running }

unfoldable pub cancel : ℕ → Jobs → Bool × Jobs
cancel id jobs = elim (get jobs.running id) [
  | some flag ↦ (true, record jobs { flags = store flag true jobs.flags })
  | none ↦ (false, jobs)
]

unfoldable pub store_all : List (ℕ × ℕ) → (ℕ → Bool) → ℕ → Bool
store_all [] flags = flags
store_all ((id, flag) ∷ running) flags = store_all running (store flag true flags)

unfoldable pub cancel_all : Jobs → Jobs
cancel_all jobs = record jobs { flags = store_all jobs.running jobs.flags }

-- What `Reporter` keeps, and the numbers that it has sent.
pub record Reporter : Type 0 where
  pub total : ℕ
  pub cancel : ℕ
  pub last : Option ℕ
  pub sent : List ℕ

unfoldable pub send : ℕ → ℕ → Reporter → Reporter
send now n reporter = record reporter { last = some now; sent = reporter.sent ++ n ∷ [] }

abbrev pub is_due : ℕ → Option ℕ → Bool
is_due now none = true
is_due now (some last) = leb 200 (now - last)

-- `report` at the time `now`, in milliseconds: whether to go on.
unfoldable pub report : Jobs → ℕ → ℕ → Reporter → Bool × Reporter
report jobs now n reporter = if jobs.flags reporter.cancel then (false, reporter) else (
  true,
  if is_due now reporter.last || n == reporter.total then send now n reporter else reporter,
)

-- `Reporter::new`, which sends that nothing is done yet.
unfoldable pub new_reporter : ℕ → ℕ → ℕ → Reporter
new_reporter now total cancel =
    send now 0 (record { total = total; cancel = cancel; last = none; sent = [] })
