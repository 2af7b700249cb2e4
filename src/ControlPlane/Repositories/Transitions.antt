-- ===== src/ControlPlane/Repositories/Transitions.antt =====
-- The state machine that cancellation makes of an experiment's status.
use text.Mathlib.Text.{◌==◌}
use text.Mathlib.TextEquality.{eq_iff}
use text.Mathlib.TextPositions.{eq_refl}
use resilience_lab.Common.{
  ℕ, String, ◌≡◌, refl, ◌∙◌, inl, inr, Bool, true, false, Option, none, some, List, [], ◌∷◌, arith,
  if◌then◌else◌, Option-cases,
}
use resilience_lab.Common.Table
use resilience_lab.ControlPlane.Records.{
  Status, created, queued, running, cancel_requested, cancelled, ExperimentRecord, RunRecord,
  Database, experiment_key, is_terminal,
}
use resilience_lab.ControlPlane.Repositories.{
  get_experiment, set_experiment, cancel_now, ask_to_cancel, cancel_by_status, request_cancel,
  mark_experiment, mark_cancelled, mark_run, mark_run_cancelled, not_found, set_run,
}

-- Where a request leads from each status.
abbrev pub target : Status → Option Status
target created = some cancelled
target queued = some cancelled
target running = some cancel_requested
target _ = none

abbrev pub status_of : Option ExperimentRecord → Option Status
status_of none = none
status_of (some e) = some e.status

abbrev pub moved : Option Status → Option Status
moved none = none
moved (some s) = elim (target s) [ none ↦ some s | some t ↦ some t ]

abbrev pub can_move : Option Status → Bool
can_move none = false
can_move (some s) = elim (target s) [ none ↦ false | some t ↦ true ]

pub get-set :
    (id j : String) (f : ExperimentRecord → ExperimentRecord) (db : Database)
    → ((e : ExperimentRecord) → (f e).experiment_id ≡ e.experiment_id)
    → get_experiment (set_experiment id f db) j ≡ (
        if id == j
        then Table.change experiment_key f (get_experiment db j)
        else get_experiment db j)
unfolding get_experiment
get-set id j f db same = Table.find-modify experiment_key id j f db.experiments same

request_by_status :
    (now : ℕ) (id j reason : String) (db : Database) (e : ExperimentRecord) (s : Status)
    → get_experiment db id ≡ some e
    → e.status ≡ s
    → let (answer, db') = cancel_by_status s now id reason db in
      (answer.0 ≡ can_move (some s))
      × (status_of (get_experiment db' j) ≡ (
          if id == j
          then moved (status_of (get_experiment db j))
          else status_of (get_experiment db j)))
unfolding cancel_by_status
request_by_status now id j reason db e created h k =
    ground (arith, h, k, eq_iff id j, get-set id j (cancel_now now reason) db)
request_by_status now id j reason db e queued h k =
    ground (arith, h, k, eq_iff id j, get-set id j (cancel_now now reason) db)
request_by_status now id j reason db e running h k =
    ground (arith, h, k, eq_iff id j, get-set id j (ask_to_cancel now reason) db)
request_by_status now id j reason db e _ h k = ground (arith, h, k, eq_iff id j)

requested :
    (now : ℕ) (id reason : String) (db : Database) (e : ExperimentRecord)
    → get_experiment db id ≡ some e
    → request_cancel now id reason db ≡ cancel_by_status e.status now id reason db
unfolding request_cancel
requested now id reason db e h = rw (h, request_cancel)

unknown :
    (now : ℕ) (id reason : String) (db : Database)
    → get_experiment db id ≡ none
    → request_cancel now id reason db ≡ ((false, not_found), db)
unfolding request_cancel
unknown now id reason db h = rw (h, request_cancel)

-- `request_cancel` succeeds exactly when the experiment's status is created, queued or running;
-- it moves that status to cancelled, cancelled and cancel_requested in turn, leaves every other
-- status as it is, and moves the status of no other experiment.
pub request_cancel_lem :
    (now : ℕ) (id j reason : String) (db : Database)
    → let (answer, db') = request_cancel now id reason db in
      (answer.0 ≡ can_move (status_of (get_experiment db id)))
      × (status_of (get_experiment db' j) ≡ (
          if id == j
          then moved (status_of (get_experiment db j))
          else status_of (get_experiment db j)))
request_cancel_lem now id j reason db = elim (Option-cases (get_experiment db id)) [
  | inl e ↦ rw (unknown now id reason db e) (ground (arith, e, eq_iff id j))
  | inr (x, e) ↦
      rw (requested now id reason db x e)
        (ground (arith, e, request_by_status now id j reason db x x.status e refl))
]

elsewhere_by_status :
    (now : ℕ) (id j reason : String) (db : Database) (s : Status)
    → (id == j) ≡ false
    → get_experiment (cancel_by_status s now id reason db).1 j ≡ get_experiment db j
unfolding cancel_by_status
elsewhere_by_status now id j reason db created h =
    get-set id j (cancel_now now reason) db (λ e. refl) ∙ rw h refl
elsewhere_by_status now id j reason db queued h =
    get-set id j (cancel_now now reason) db (λ e. refl) ∙ rw h refl
elsewhere_by_status now id j reason db running h =
    get-set id j (ask_to_cancel now reason) db (λ e. refl) ∙ rw h refl
elsewhere_by_status now id j reason db _ h = refl

-- A request changes nothing of another experiment.
pub request_cancel_elsewhere :
    (now : ℕ) (id j reason : String) (db : Database)
    → (id == j) ≡ false
    → get_experiment (request_cancel now id reason db).1 j ≡ get_experiment db j
request_cancel_elsewhere now id j reason db h = elim (Option-cases (get_experiment db id)) [
  | inl e ↦ rw (unknown now id reason db e) refl
  | inr (x, e) ↦
      rw (requested now id reason db x e) (elsewhere_by_status now id j reason db x.status h)
]

-- The operations by which the API and the worker cancel.
pub data Cancellation : Type 0 where
  requests marks marks_run : ℕ → String → String → Cancellation

pub step : Database → Cancellation → Database
step db (requests now id reason) = (request_cancel now id reason db).1
step db (marks now id reason) = mark_cancelled now id reason db
step db (marks_run now id reason) = mark_run_cancelled now id reason db

pub run : Database → List Cancellation → Database
run db [] = db
run db (c ∷ cs) = run (step db c) cs

cancel_keeps_terminal :
    (now : ℕ) (id j reason : String) (db : Database) (e x : ExperimentRecord) (s : Status)
    → get_experiment db j ≡ some e
    → is_terminal e.status ≡ true
    → get_experiment db id ≡ some x
    → x.status ≡ s
    → get_experiment (cancel_by_status s now id reason db).1 j ≡ some e
unfolding cancel_by_status
cancel_keeps_terminal now id j reason db e x created h t g k =
    ground (arith, eq_iff id j, get-set id j (cancel_now now reason) db)
cancel_keeps_terminal now id j reason db e x queued h t g k =
    ground (arith, eq_iff id j, get-set id j (cancel_now now reason) db)
cancel_keeps_terminal now id j reason db e x running h t g k =
    ground (arith, eq_iff id j, get-set id j (ask_to_cancel now reason) db)
cancel_keeps_terminal now id j reason db e x _ h t g k = h

run-of_experiments :
    (id j : String) (f : RunRecord → RunRecord) (db : Database)
    → get_experiment (set_run id f db) j ≡ get_experiment db j
unfolding get_experiment
run-of_experiments id j f db = refl

step-terminal :
    (db : Database) (c : Cancellation) (j : String) (e : ExperimentRecord)
    → get_experiment db j ≡ some e
    → is_terminal e.status ≡ true
    → get_experiment (step db c) j ≡ some e
unfolding step
step-terminal db (requests now id reason) j e h t = elim (Option-cases (get_experiment db id)) [
  | inl n ↦ rw (unknown now id reason db n, step) h
  | inr (x, g) ↦
      rw (requested now id reason db x g, step)
        (cancel_keeps_terminal now id j reason db e x x.status h t g refl)
]
step-terminal db (marks now id reason) j e h t =
    unfold mark_cancelled in
    ground (arith, eq_iff id j, get-set id j (mark_experiment now reason) db)
step-terminal db (marks_run now id reason) j e h t =
    unfold mark_run_cancelled in ground (arith, h, run-of_experiments id j (mark_run now reason) db)

-- No sequence of `request_cancel`, `mark_cancelled` and `mark_run_cancelled` changes anything of
-- an experiment that is completed, failed or cancelled.
pub terminal_stable :
    (db : Database) (cs : List Cancellation) (j : String) (e : ExperimentRecord)
    → get_experiment db j ≡ some e
    → is_terminal e.status ≡ true
    → get_experiment (run db cs) j ≡ some e
unfolding run
terminal_stable db [] j e h t = h
terminal_stable db (c ∷ cs) j e h t =
    terminal_stable (step db c) cs j e (step-terminal db c j e h t) t

refused_by_status :
    (s : Status) (now : ℕ) (id reason : String) (db : Database)
    → can_move (some s) ≡ false
    → ((cancel_by_status s now id reason db).0.0 ≡ false)
      × ((cancel_by_status s now id reason db).1 ≡ db)
unfolding cancel_by_status
refused_by_status created now id reason db h = cc
refused_by_status _ now id reason db h = ground arith

refused :
    (now : ℕ) (id reason : String) (db : Database)
    → can_move (status_of (get_experiment db id)) ≡ false
    → ((request_cancel now id reason db).0.0 ≡ false) × ((request_cancel now id reason db).1 ≡ db)
refused now id reason db h = elim (Option-cases (get_experiment db id)) [
  | inl e ↦ rw (unknown now id reason db e) (refl, refl)
  | inr (x, e) ↦
      rw (requested now id reason db x e) (refused_by_status x.status now id reason db (rw e at h))
]

moved_once : (o : Option Status) → can_move (moved o) ≡ false
moved_once none = refl
moved_once (some created) = refl
moved_once (some _) = refl

-- A second request to cancel the same experiment is refused and changes nothing, whatever the
-- first one did.
request_cancel-twice :
    (now later : ℕ) (id reason again : String) (db : Database)
    → let db' = (request_cancel now id reason db).1 in
      let (answer, db'') = request_cancel later id again db' in (answer.0 ≡ false) × (db'' ≡ db')
request_cancel-twice now later id reason again db =
    refused later id again (request_cancel now id reason db).1 (
      ground (
        arith,
        request_cancel_lem now id id reason db,
        eq_refl id,
        moved_once (status_of (get_experiment db id)),
      ))
