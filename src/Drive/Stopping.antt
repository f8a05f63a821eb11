-- ===== src/Drive/Stopping.antt =====
-- Cancelling a running request of native/drive/src/jobs.rs: what its reporter and those of other
-- requests do from then on.
use desktop_folder_locker.Common.{
  ℕ, ◌<◌, Bool, ◌≡◌, ◌≢◌, inl, inr, refl, sym, ap, ◌∙◌, subst, some, none, List, [], ◌∷◌, true,
  false, ◌==◌, ==_iff, arith, Bool-cases, Option-cases,
}
use desktop_folder_locker.Drive.Jobs.{
  Jobs, get, store, store_all, start, finish, cancel, cancel_all, Reporter, report,
}
use desktop_folder_locker.Drive.Flags.{
  IsValid, AreDistinct, store_other, store_same, get-IsFreshFor,
}
use desktop_folder_locker.Drive.Cancelling.{Action, step, run, cancel-eq_some, cancel-eq_none}

value_of : (d a b : ℕ) → some a ≡ some b → a ≡ b
value_of d a b e = ap (λ o. elim o [ none ↦ d | some a ↦ a ]) e

other_flag :
    (id other flag flag' : ℕ) (limit : ℕ) (running : List (ℕ × ℕ))
    → AreDistinct limit running
    → id ≢ other
    → get running id ≡ some flag
    → get running other ≡ some flag'
    → flag ≢ flag'
unfolding get
other_flag id other flag flag' limit [] h ne e e' = absurd (ground arith)
other_flag id other flag flag' limit ((key, first) ∷ running) (below, fresh, h) ne e e' =
    elim (Bool-cases (key == id)) [
      | inl same ↦
          let found : some first ≡ some flag = rw same at e in
          let differ : (key == other) ≡ false = ground (arith, ==_iff key id, ==_iff key other) in
          λ q.
            get-IsFreshFor other flag' first running fresh (rw differ at e')
              (value_of flag first flag found ∙ q)
      | inr differ ↦ elim (Bool-cases (key == other)) [
        | inl same ↦
            let found : some first ≡ some flag' = rw same at e' in
            λ q.
              get-IsFreshFor id flag first running fresh (rw differ at e)
                (value_of flag' first flag' found ∙ sym q)
        | inr differ' ↦
            other_flag id other flag flag' limit running h ne (rw differ at e) (rw differ' at e')
      ]
    ]

report_stops :
    (jobs : Jobs) (now n : ℕ) (reporter : Reporter)
    → jobs.flags reporter.cancel ≡ true
    → report jobs now n reporter ≡ (false, reporter)
unfolding report
report_stops jobs now n reporter e = rw (report, e) refl

pub report_goes_on :
    (jobs : Jobs) (now n : ℕ) (reporter : Reporter)
    → jobs.flags reporter.cancel ≡ false
    → (report jobs now n reporter).0 ≡ true
unfolding report
report_goes_on jobs now n reporter e = rw (report, e) refl

report_same :
    (jobs jobs' : Jobs) (now n : ℕ) (reporter : Reporter)
    → jobs.flags reporter.cancel ≡ jobs'.flags reporter.cancel
    → report jobs now n reporter ≡ report jobs' now n reporter
unfolding report
report_same jobs jobs' now n reporter e = rw (report, e) refl

store_all-true :
    (running : List (ℕ × ℕ)) (flags : ℕ → Bool) (flag : ℕ)
    → flags flag ≡ true
    → store_all running flags flag ≡ true
unfolding store_all
store_all-true [] flags flag e = e
store_all-true ((id, other) ∷ running) flags flag e =
    store_all-true running (store other true flags) flag (ground (arith, e, ==_iff flag other))

-- A flag that is set stays set: new flags have new addresses.
abbrev IsRaised : ℕ → Jobs → Type 0
IsRaised flag jobs = (flag < jobs.next) × (jobs.flags flag ≡ true)

IsRaised-step :
    (action : Action) (jobs : Jobs) (flag : ℕ)
    → IsRaised flag jobs
    → IsRaised flag (step action jobs)
unfolding start finish cancel cancel_all
IsRaised-step (Action.starts id) jobs flag (lt, e) =
    (omega arith, ground (arith, e, ==_iff flag jobs.next))
IsRaised-step (Action.finishes id) jobs flag h = h
IsRaised-step (Action.cancels id) jobs flag (lt, e) = elim (Option-cases (get jobs.running id)) [
  | inl g ↦ subst (λ r. IsRaised flag r.1) (sym (cancel-eq_none jobs id g)) (lt, e)
  | inr (other, g) ↦
      subst (λ r. IsRaised flag r.1) (sym (cancel-eq_some jobs id other g))
        (lt, ground (arith, e, ==_iff flag other))
]
IsRaised-step Action.cancels_all jobs flag (lt, e) =
    (lt, store_all-true jobs.running jobs.flags flag e)

IsRaised-run :
    (actions : List Action) (jobs : Jobs) (flag : ℕ)
    → IsRaised flag jobs
    → IsRaised flag (run actions jobs)
unfolding run
IsRaised-run [] jobs flag h = h
IsRaised-run (action ∷ actions) jobs flag h =
    IsRaised-run actions (step action jobs) flag (IsRaised-step action jobs flag h)

get-lt :
    (id flag limit : ℕ) (running : List (ℕ × ℕ))
    → AreDistinct limit running
    → get running id ≡ some flag
    → flag < limit
unfolding get
get-lt id flag limit [] h e = absurd (ground arith)
get-lt id flag limit ((key, first) ∷ running) (below, fresh, h) e = elim (Bool-cases (key == id)) [
  | inl same ↦
      let found : some first ≡ some flag = rw same at e in
      subst (λ f. f < limit) (value_of flag first flag found) below
  | inr differ ↦ get-lt id flag limit running h (rw differ at e)
]

-- Two tables that differ in one flag at most.
record Agrees (flag : ℕ) (jobs jobs' : Jobs) : Type 0 where
  same_running : jobs.running ≡ jobs'.running
  same_next : jobs.next ≡ jobs'.next
  same_flags : (other : ℕ) → other ≢ flag → jobs.flags other ≡ jobs'.flags other

store-Agrees :
    (at other : ℕ) (value : Bool) (flags flags' : ℕ → Bool)
    → flags other ≡ flags' other
    → store at value flags other ≡ store at value flags' other
store-Agrees at other value flags flags' e = ground (arith, e)

store_all-Agrees :
    (running : List (ℕ × ℕ)) (other : ℕ) (flags flags' : ℕ → Bool)
    → flags other ≡ flags' other
    → store_all running flags other ≡ store_all running flags' other
unfolding store_all
store_all-Agrees [] other flags flags' e = e
store_all-Agrees ((id, at) ∷ running) other flags flags' e =
    store_all-Agrees running other (store at true flags) (store at true flags')
      (store-Agrees at other true flags flags' e)

Agrees-step :
    (action : Action) (flag : ℕ) (running : List (ℕ × ℕ)) (next : ℕ) (flags flags' : ℕ → Bool)
    → ((other : ℕ) → other ≢ flag → flags other ≡ flags' other)
    → Agrees flag
        (step action (record { running = running; flags = flags; next = next }))
        (step action (record { running = running; flags = flags'; next = next }))
unfolding start finish cancel cancel_all
Agrees-step (Action.starts id) flag running next flags flags' h = record {
  same_running = refl;
  same_next = refl;
  same_flags = λ other ne. store-Agrees next other false flags flags' (h other ne);
}
Agrees-step (Action.finishes id) flag running next flags flags' h = record {
  same_running = refl;
  same_next = refl;
  same_flags = h;
}
Agrees-step (Action.cancels id) flag running next flags flags' h =
    let jobs : Jobs = record { running = running; flags = flags; next = next } in
    let jobs' : Jobs = record { running = running; flags = flags'; next = next } in
    elim (Option-cases (get running id)) [
      | inl g ↦
          subst (λ r. Agrees flag r.1 (cancel id jobs').1) (sym (cancel-eq_none jobs id g))
            (subst (λ r. Agrees flag jobs r.1) (sym (cancel-eq_none jobs' id g))
              (record { same_running = refl; same_next = refl; same_flags = h }))
      | inr (at, g) ↦
          subst (λ r. Agrees flag r.1 (cancel id jobs').1) (sym (cancel-eq_some jobs id at g))
            (subst (λ r. Agrees flag (record jobs { flags = store at true flags }) r.1)
              (sym (cancel-eq_some jobs' id at g))
              (record {
                same_running = refl;
                same_next = refl;
                same_flags = λ other ne. store-Agrees at other true flags flags' (h other ne);
              }))
    ]
Agrees-step Action.cancels_all flag running next flags flags' h = record {
  same_running = refl;
  same_next = refl;
  same_flags = λ other ne. store_all-Agrees running other flags flags' (h other ne);
}

Agrees-run :
    (actions : List Action) (flag : ℕ) (jobs jobs' : Jobs)
    → Agrees flag jobs jobs'
    → (other : ℕ) → other ≢ flag
    → (run actions jobs).flags other ≡ (run actions jobs').flags other
unfolding run
Agrees-run [] flag jobs jobs' h other ne = h.same_flags other ne
Agrees-run (action ∷ actions) flag jobs jobs' h other ne =
    let same : record { running = jobs.running; flags = jobs'.flags; next = jobs.next } ≡ jobs' =
      cc (h.same_running, h.same_next) in
    Agrees-run actions flag (step action jobs) (step action jobs')
      (subst (λ j. Agrees flag (step action jobs) (step action j)) same
        (Agrees-step action flag jobs.running jobs.next jobs.flags jobs'.flags h.same_flags))
      other ne

-- To cancel a running request succeeds. From then on, whatever is started, finished or cancelled,
-- its reporter stops it, at any time and whatever is done, and sends nothing; and the reporter of
-- another request, which was running then, does what it would do without that.
pub cancel-report :
    (jobs : Jobs) (id flag other flag' : ℕ) (actions : List Action) (now n : ℕ)
    (mine others : Reporter)
    → IsValid jobs
    → get jobs.running id ≡ some flag
    → get jobs.running other ≡ some flag'
    → id ≢ other
    → mine.cancel ≡ flag
    → others.cancel ≡ flag'
    → ((cancel id jobs).0 ≡ true)
      × (report (run actions (cancel id jobs).1) now n mine ≡ (false, mine))
      × (report (run actions (cancel id jobs).1) now n others
          ≡ report (run actions jobs) now n others)
cancel-report jobs id flag other flag' actions now n mine others h e e' ne m o =
    let ne' = other_flag id other flag flag' jobs.next jobs.running h ne e e' in
    let after : Jobs = record jobs { flags = store flag true jobs.flags } in
    let set : IsRaised flag (run actions after) =
      IsRaised-run actions after flag
        (get-lt id flag jobs.next jobs.running h e, store_same flag true jobs.flags) in
    let agrees : Agrees flag after jobs = record {
      same_running = refl;
      same_next = refl;
      same_flags = λ a diff. store_other flag a true jobs.flags (λ q. diff (sym q));
    } in
    let c = cancel-eq_some jobs id flag e in
    (
      ap (λ r. r.0) c,
      ap (λ r. report (run actions r.1) now n mine) c
          ∙ report_stops (run actions after) now n mine (ap (run actions after).flags m ∙ set.1),
      ap (λ r. report (run actions r.1) now n others) c
          ∙ report_same (run actions after) (run actions jobs) now n others
              (Agrees-run actions flag after jobs agrees others.cancel (λ q. ne' (sym q ∙ o))),
    )
