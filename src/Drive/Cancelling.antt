-- ===== src/Drive/Cancelling.antt =====
-- Running and cancelling requests: the jobs refine a table of requests, and a cancelled job's
-- reporter stops it.
use desktop_folder_locker.Common.{
  ℕ, ◌≡◌, inl, inr, refl, sym, ap, ◌∙◌, subst, some, none, List, [], ◌∷◌, true, false, Option-cases,
}
use desktop_folder_locker.Drive.Jobs.{
  Jobs, no_jobs, get, insert, remove, store, start, finish, cancel, cancel_all,
}
use desktop_folder_locker.Drive.Flags.{
  Cancelled, IsValid, view, view_of, set, set_all, view-insert, view-remove, view-store,
  view-cancel, view-none, view-store_all, above_all, insert-AreDistinct, remove-AreDistinct,
  store_same,
}

pub data Action : Type 0 where
  starts : (id : ℕ) → Action
  finishes : (id : ℕ) → Action
  cancels : (id : ℕ) → Action
  cancels_all : Action

abbrev pub step : Action → Jobs → Jobs
step (Action.starts id) jobs = (start id jobs).1
step (Action.finishes id) jobs = finish id jobs
step (Action.cancels id) jobs = (cancel id jobs).1
step Action.cancels_all jobs = cancel_all jobs

unfoldable pub run : List Action → Jobs → Jobs
run [] jobs = jobs
run (action ∷ actions) jobs = run actions (step action jobs)

-- The same on requests that are cancelled or not.
abbrev pub step_view : Action → Cancelled → Cancelled
step_view (Action.starts id) requests = insert id false requests
step_view (Action.finishes id) requests = remove id requests
step_view (Action.cancels id) requests = set id requests
step_view Action.cancels_all requests = set_all requests

unfoldable pub run_view : List Action → Cancelled → Cancelled
run_view [] requests = requests
run_view (action ∷ actions) requests = run_view actions (step_view action requests)

pub cancel-eq_some :
    (jobs : Jobs) (id flag : ℕ)
    → get jobs.running id ≡ some flag
    → cancel id jobs ≡ (true, record jobs { flags = store flag true jobs.flags })
unfolding cancel
cancel-eq_some jobs id flag e = rw (cancel, e) refl

pub cancel-eq_none :
    (jobs : Jobs) (id : ℕ) → get jobs.running id ≡ none → cancel id jobs ≡ (false, jobs)
unfolding cancel
cancel-eq_none jobs id e = rw (cancel, e) refl

step-IsValid : (action : Action) (jobs : Jobs) → IsValid jobs → IsValid (step action jobs)
unfolding start finish cancel cancel_all
step-IsValid (Action.starts id) jobs h = insert-AreDistinct id jobs.next jobs.running h
step-IsValid (Action.finishes id) jobs h = remove-AreDistinct id jobs.next jobs.running h
step-IsValid (Action.cancels id) jobs h = elim (Option-cases (get jobs.running id)) [
  | inl e ↦ subst (λ r. IsValid r.1) (sym (cancel-eq_none jobs id e)) h
  | inr (flag, e) ↦ subst (λ r. IsValid r.1) (sym (cancel-eq_some jobs id flag e)) h
]
step-IsValid Action.cancels_all jobs h = h

view-step :
    (action : Action) (jobs : Jobs)
    → IsValid jobs
    → view (step action jobs) ≡ step_view action (view jobs)
unfolding start finish cancel cancel_all
view-step (Action.starts id) jobs h =
    view-insert id jobs.next jobs.running (store jobs.next false jobs.flags)
    ∙ ap (λ b. insert id b (view_of jobs.running (store jobs.next false jobs.flags)))
        (store_same jobs.next false jobs.flags)
    ∙ ap (insert id false)
        (view-store jobs.next false jobs.running jobs.flags (above_all jobs.next jobs.running h))
view-step (Action.finishes id) jobs h = view-remove id jobs.running jobs.flags
view-step (Action.cancels id) jobs h = elim (Option-cases (get jobs.running id)) [
  | inl e ↦ ap (λ r. view r.1) (cancel-eq_none jobs id e) ∙ view-none id jobs.running jobs.flags e
  | inr (flag, e) ↦
      ap (λ r. view r.1) (cancel-eq_some jobs id flag e)
      ∙ (view-cancel jobs.next id flag jobs.running jobs.flags h e)
]
view-step Action.cancels_all jobs h = view-store_all jobs.next jobs.running jobs.flags h

run-from :
    (actions : List Action) (jobs : Jobs)
    → IsValid jobs
    → IsValid (run actions jobs) × (view (run actions jobs) ≡ run_view actions (view jobs))
unfolding run run_view
run-from [] jobs h = (h, refl)
run-from (action ∷ actions) jobs h =
    let (h', e) = run-from actions (step action jobs) (step-IsValid action jobs h) in
    (h', e ∙ ap (run_view actions) (view-step action jobs h))

-- In any order of starting, finishing and cancelling, no two running requests share a flag, and
-- which requests run and which are cancelled is as in a table without flags: a start is not
-- cancelled, a cancellation is of that request only, and what finished is gone.
pub run-view :
    (actions : List Action)
    → IsValid (run actions no_jobs) × (view (run actions no_jobs) ≡ run_view actions [])
unfolding view_of
run-view actions = run-from actions no_jobs tt
