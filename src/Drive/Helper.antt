-- ===== src/Drive/Helper.antt =====
-- `Helper` of native/drive/src/main.rs: `handle` and `run` as steps. The reading thread takes one
-- request after the other; a request that takes long runs on a thread of its own, which may begin
-- later than the next request is read. `received` is every request so far, to compare with.
use desktop_folder_locker.Common.{
  ℕ, suc, ◌+◌, ◌≡◌, ap, List, [], ◌∷◌, ◌++◌, ◌==◌, if◌then◌else◌, arith,
}
use desktop_folder_locker.Drive.Jobs.{Jobs, no_jobs, start, finish, cancel}

pub record Helper : Type 0 where
  pub jobs : Jobs
  -- Threads that are spawned and have not begun, and those that work.
  pub waiting : List ℕ
  pub working : List ℕ
  pub replies : List ℕ
  pub received : List ℕ

abbrev pub started : Helper
started = record { jobs = no_jobs; waiting = []; working = []; replies = []; received = [] }

-- A panic of the work, after which no reply is sent, is no step.
pub data Step (h : Helper) : Helper → Type 0 where
  -- `Hello` and `List`, and a line that is no request: answered at once.
  answers : (id : ℕ) → Step h (record h { replies = id ∷ h.replies; received = id ∷ h.received })
  cancels :
      (id target : ℕ)
      → Step h (record h {
        jobs = (cancel target h.jobs).1;
        replies = id ∷ h.replies;
        received = id ∷ h.received;
      })
  -- `Import`, `Export`, `Mount` and `Unmount`.
  spawns : (id : ℕ) → Step h (record h { waiting = id ∷ h.waiting; received = id ∷ h.received })
  fails_to_spawn :
      (id : ℕ) → Step h (record h { replies = id ∷ h.replies; received = id ∷ h.received })
  begins :
      (before after : List ℕ) (id : ℕ)
      → h.waiting ≡ before ++ id ∷ after
      → Step h (record h {
        jobs = (start id h.jobs).1;
        waiting = before ++ after;
        working = id ∷ h.working;
      })
  ends :
      (before after : List ℕ) (id : ℕ)
      → h.working ≡ before ++ id ∷ after
      → Step h (record h {
        jobs = finish id h.jobs;
        working = before ++ after;
        replies = id ∷ h.replies;
      })

pub data Reaches : Helper → Type 0 where
  at_start : Reaches started
  then_step : (h h' : Helper) → Reaches h → Step h h' → Reaches h'

abbrev pub count : ℕ → List ℕ → ℕ
count id [] = 0
count id (other ∷ ids) = if other == id then suc (count id ids) else count id ids

pub count-remove_one :
    (x id : ℕ) (before after : List ℕ)
    → count x (before ++ id ∷ after) ≡ count x (id ∷ []) + count x (before ++ after)
count-remove_one x id [] after = ground arith
count-remove_one x id (other ∷ before) after = ground (arith, count-remove_one x id before after)

pub count-cons : (x id : ℕ) (ids : List ℕ) → count x (id ∷ ids) ≡ count x (id ∷ []) + count x ids
count-cons x id ids = ground arith

Balanced : ℕ → Helper → Type 0
Balanced x h = count x h.received ≡ count x h.waiting + (count x h.working + count x h.replies)

Balanced-Step : (x : ℕ) (h h' : Helper) → Step h h' → Balanced x h → Balanced x h'
unfolding Balanced
Balanced-Step x h _ (Step.answers id) b =
    omega (arith, count-cons x id h.received, count-cons x id h.replies)
Balanced-Step x h _ (Step.cancels id target) b =
    omega (arith, count-cons x id h.received, count-cons x id h.replies)
Balanced-Step x h _ (Step.spawns id) b =
    omega (arith, count-cons x id h.received, count-cons x id h.waiting)
Balanced-Step x h _ (Step.fails_to_spawn id) b =
    omega (arith, count-cons x id h.received, count-cons x id h.replies)
Balanced-Step x h _ (Step.begins before after id e) b =
    omega (arith, ap (count x) e, count-remove_one x id before after, count-cons x id h.working)
Balanced-Step x h _ (Step.ends before after id e) b =
    omega (arith, ap (count x) e, count-remove_one x id before after, count-cons x id h.replies)

-- However the threads run, each request that was received waits, is worked on, or was answered,
-- as often as it was received: none is lost and none is answered twice.
pub received-count :
    (h : Helper)
    → Reaches h
    → (id : ℕ)
    → count id h.received ≡ count id h.waiting + (count id h.working + count id h.replies)
unfolding Balanced
received-count _ Reaches.at_start id = omega arith
received-count _ (Reaches.then_step h h' r s) id = Balanced-Step id h h' s (received-count h r id)
