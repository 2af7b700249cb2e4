-- ===== src/ControlPlane/Worker/Rows.antt =====
-- resiliencelab/controlplane/worker.py: what each transaction of a job does to the rows of its run and its experiment.
use resilience_lab.Common.{
  ◌⊎◌, ℕ, Bool, String, ◌≡◌, refl, true, Option, none, some, inl, inr, arith, if◌then◌else◌,
  Option-cases,
}
use text.Mathlib.Text.{◌==◌}
use text.Mathlib.TextEquality.{eq_iff}
use resilience_lab.Common.Table
use resilience_lab.ControlPlane.Records.{
  Status, running, completed, failed, cancelled, cancel_requested, ExperimentRecord, RunRecord,
  Database, is_terminal, run_key,
}
use resilience_lab.ControlPlane.Repositories.{
  get_experiment, get_run, set_run, update_experiment_status, mark_cancelled, mark_run_cancelled,
  mark_run,
}
use resilience_lab.ControlPlane.Redis.{JobPayload}
use resilience_lab.ControlPlane.Worker.{
  RunOutcome, finished, stopped, cancelled_error, raised_error, begin_job, start_run, close_run,
  end_job, job_status, complete_experiment, completed_run, stopped_run, cancelled_run, failed_run,
  restart, new_run, is_cancelled_before_start,
}

abbrev pub run_status : Option RunRecord → Option Status
run_status none = none
run_status (some r) = some r.status

abbrev pub experiment_status : Option ExperimentRecord → Option Status
experiment_status none = none
experiment_status (some e) = some e.status

get_run-set :
    (id j : String) (f : RunRecord → RunRecord) (db : Database)
    → ((r : RunRecord) → (f r).run_id ≡ r.run_id)
    → get_run (set_run id f db) j
      ≡ (if id == j then Table.change run_key f (get_run db j) else get_run db j)
unfolding get_run
get_run-set id j f db same = Table.find-modify run_key id j f db.runs same

begin_known :
    (now : ℕ) (p : JobPayload) (j : String) (db : Database) (r : RunRecord)
    → get_run db p.run_id ≡ some r
    → run_status (get_run (start_run now p db) j)
      ≡ (if p.run_id == j then some running else run_status (get_run db j))
unfolding start_run
begin_known now p j db r e =
    rw (e, start_run)
      (ground (arith, e, eq_iff p.run_id j, get_run-set p.run_id j (restart now) db))

begin_new :
    (now : ℕ) (p : JobPayload) (j : String) (db : Database)
    → get_run db p.run_id ≡ none
    → run_status (get_run (start_run now p db) j)
      ≡ (if p.run_id == j then some running else run_status (get_run db j))
unfolding start_run get_run
begin_new now p j db e =
    rw (e, start_run)
      (elim (Option-cases (get_run db j)) [
        | inl none_there ↦ ground (
          arith,
          e,
          eq_iff p.run_id j,
          Table.find-snoc run_key j db.runs (new_run now p) none_there,
        )
        | inr (y, there) ↦ ground (
          arith,
          e,
          there,
          eq_iff p.run_id j,
          Table.find-snoc_old run_key j db.runs (new_run now p) y there,
        )
      ])

-- A run is running once its job has begun, and no other run is touched.
pub begin_run :
    (now : ℕ) (p : JobPayload) (j : String) (db : Database)
    → run_status (get_run (begin_job now p db) j)
      ≡ (if p.run_id == j then some running else run_status (get_run db j))
unfolding begin_job update_experiment_status get_run
begin_run now p j db =
    let db' = update_experiment_status now p.experiment_id running none none db in
    elim (Option-cases (get_run db' p.run_id)) [
      | inl e ↦ begin_new now p j db' e
      | inr (r, e) ↦ begin_known now p j db' r e
    ]

-- The status that the second transaction gives a run.
abbrev pub closing : Status → Option RunRecord → Option Status
closing s none = none
closing s (some r) = if is_terminal r.status then some r.status else some s

pub close-status :
    (id : String) (f : RunRecord → RunRecord) (s : Status) (db : Database)
    → ((r : RunRecord) → (f r).run_id ≡ r.run_id)
    → ((r : RunRecord) → (f r).status ≡ s)
    → run_status (get_run (close_run (get_run db id) id f db) id) ≡ closing s (get_run db id)
unfolding close_run
close-status id f s db same to = elim (Option-cases (get_run db id)) [
  | inl e ↦ rw (e, close_run) (ground (arith, e))
  | inr (r, e) ↦
      rw (e, close_run) (ground (arith, e, eq_iff id id, get_run-set id id f db same, to r))
]

runs-mark_cancelled :
    (now : ℕ) (id reason : String) (db : Database)
    → (mark_cancelled now id reason db).runs ≡ db.runs
unfolding mark_cancelled
runs-mark_cancelled now id reason db = elim (Option-cases (get_experiment db id)) [
  | inl e ↦ rw (e, mark_cancelled) refl
  | inr (x, e) ↦ rw (e, mark_cancelled) (ground arith)
]

runs-complete_experiment :
    (now : ℕ) (dir id : String) (db : Database) → (complete_experiment now dir id db).runs ≡ db.runs
unfolding complete_experiment update_experiment_status
runs-complete_experiment now dir id db = ground arith

get_run-runs :
    (db db' : Database) (id : String) → db'.runs ≡ db.runs → get_run db' id ≡ get_run db id
unfolding get_run
get_run-runs db db' id e = rw e refl

-- Where the session sees a running row, the run in the database, if it is there, is closed.
closed-status :
    (seen : Option RunRecord) (id : String) (f : RunRecord → RunRecord) (s : Status) (db : Database)
    → ((r : RunRecord) → (f r).run_id ≡ r.run_id)
    → ((r : RunRecord) → (f r).status ≡ s)
    → run_status seen ≡ some running
    → run_status (get_run db id) ≡ some running
    → run_status (get_run (close_run seen id f db) id) ≡ some s
unfolding close_run
closed-status none id f s db same to sees there = cc
closed-status (some r) id f s db same to sees there = elim (Option-cases (get_run db id)) [
  | inl e ↦ cc (rw e at there)
  | inr (x, e) ↦ ground (arith, e, eq_iff id id, get_run-set id id f db same, to x)
]

pub end_job-status :
    (now : ℕ) (dir : String) (forgotten : Bool) (held : Option RunRecord) (o : RunOutcome)
    (p : JobPayload) (db : Database)
    → run_status held ≡ some running
    → run_status (get_run db p.run_id) ≡ some running
    → run_status (get_run (end_job now dir forgotten held o p db) p.run_id) ≡ some (job_status o)
unfolding end_job
end_job-status now dir forgotten held finished p db holds there =
    let db' = close_run held p.run_id (completed_run now dir) db in
    rw
      (get_run-runs db' (complete_experiment now dir p.experiment_id db') p.run_id
        (runs-complete_experiment now dir p.experiment_id db'))
      (closed-status held p.run_id (completed_run now dir) completed db (λ r. refl) (λ r. refl)
        holds there)
end_job-status now dir forgotten held (stopped reason) p db holds there =
    let db' = close_run held p.run_id (stopped_run now dir reason) db in
    rw
      (get_run-runs db' (mark_cancelled now p.experiment_id reason db') p.run_id
        (runs-mark_cancelled now p.experiment_id reason db'))
      (closed-status held p.run_id (stopped_run now dir reason) cancelled db (λ r. refl) (λ r. refl)
        holds there)
end_job-status now dir forgotten held (cancelled_error text) p db holds there =
    let seen = if forgotten then get_run db p.run_id else held in
    let db' = close_run seen p.run_id (cancelled_run now text) db in
    let sees : run_status seen ≡ some running = ground (arith, holds, there) in
    rw
      (get_run-runs db' (mark_cancelled now p.experiment_id text db') p.run_id
        (runs-mark_cancelled now p.experiment_id text db'))
      (closed-status seen p.run_id (cancelled_run now text) cancelled db (λ r. refl) (λ r. refl)
        sees there)
end_job-status now dir forgotten held (raised_error text) p db holds there =
    let seen = if forgotten then get_run db p.run_id else held in
    let sees : run_status seen ≡ some running = ground (arith, holds, there) in
    closed-status seen p.run_id (failed_run now text) failed db (λ r. refl) (λ r. refl) sees there

pub experiments-close_run :
    (seen : Option RunRecord) (id : String) (f : RunRecord → RunRecord) (db : Database)
    → (close_run seen id f db).experiments ≡ db.experiments
unfolding close_run
experiments-close_run none id f db = refl
experiments-close_run (some r) id f db = ground arith

pub get_experiment-experiments :
    (db db' : Database) (id : String)
    → db'.experiments ≡ db.experiments
    → get_experiment db' id ≡ get_experiment db id
unfolding get_experiment
get_experiment-experiments db db' id e = rw e refl

-- The test-and-set of `mark_run_cancelled` is the one of the worker.
pub mark-close :
    (now : ℕ) (id reason : String) (db : Database)
    → mark_run_cancelled now id reason db ≡ close_run (get_run db id) id (mark_run now reason) db
unfolding mark_run_cancelled close_run
mark-close now id reason db = elim (Option-cases (get_run db id)) [
  | inl e ↦ rw (e, mark_run_cancelled) refl
  | inr (x, e) ↦ rw (e, mark_run_cancelled) refl
]

pub stops :
    (p : JobPayload) (db : Database) (e : ExperimentRecord)
    → get_experiment db p.experiment_id ≡ some e
    → (e.status ≡ cancelled) ⊎ (e.status ≡ cancel_requested)
    → is_cancelled_before_start p.experiment_id p.run_id db ≡ true
unfolding is_cancelled_before_start
stops p db e known (inl s) = rw (known, s) refl
stops p db e known (inr s) = rw (known, s) refl
