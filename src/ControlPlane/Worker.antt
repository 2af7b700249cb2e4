-- ===== src/ControlPlane/Worker.antt =====
-- resiliencelab/controlplane/worker.py: what a worker does with one job, over the database and the
-- queue. The environment says how the run ends and what other sessions commit while it goes on; an
-- exception out of parsing the configuration or writing the artifacts ends it as one of the run does.
-- An exception of the database or of Redis itself is not modelled.
pub mod Rows
pub mod Outcomes
use resilience_lab.Common.{
  ℕ, String, Bool, true, false, Option, none, some, List, [], ◌∷◌, ◌++◌, ◌||◌, if◌then◌else◌,
}
use text.Mathlib.Text.{◌==◌}
use resilience_lab.ControlPlane.Records.{
  Status, running, completed, failed, cancelled, cancel_requested, ExperimentRecord, RunRecord,
  Database, is_terminal, is_completed,
}
use resilience_lab.ControlPlane.Repositories.{
  get_experiment, get_run, set_run, update_experiment_status, or_text, mark_cancelled,
  mark_run_cancelled,
}
use resilience_lab.ControlPlane.Redis.{Redis, JobPayload}
use resilience_lab.ControlPlane.Queue.{claim_job, complete_job, requeue_stuck_jobs}

pub record World (S : Type 0) : Type 0 where
  pub db : Database
  pub server : S

-- How `runner.run` ends: with a result, a result that says it was cancelled, or an exception with its
-- text, cut to 2000 characters where the code cuts it.
pub data RunOutcome : Type 0 where
  finished : RunOutcome
  stopped cancelled_error raised_error : String → RunOutcome

-- `forgotten`: a transaction of the session, which the polling thread shares, was open at the rollback
-- of an exception, so that the session forgets the row of the run that it holds.
pub record Environment (S : Type 0) : Type 0 where
  pub began : ℕ
  pub ended : ℕ
  pub artifact_dir : String
  pub outcome : RunOutcome
  pub forgotten : Bool
  pub others : World S → World S

abbrev is_cancelled_status : Status → Bool
is_cancelled_status cancelled = true
is_cancelled_status _ = false

abbrev stops_start : Status → Bool
stops_start cancelled = true
stops_start cancel_requested = true
stops_start _ = false

abbrev experiment_stops : Option ExperimentRecord → Bool
experiment_stops none = false
experiment_stops (some e) = stops_start e.status

abbrev run_stops : Option RunRecord → Bool
run_stops none = false
run_stops (some r) = is_cancelled_status r.status

unfoldable pub is_cancelled_before_start : String → String → Database → Bool
is_cancelled_before_start experiment_id run_id db =
    if experiment_stops (get_experiment db experiment_id)
    then true
    else run_stops (get_run db run_id)

-- The row of a run that the worker has not seen before.
abbrev pub new_run : ℕ → JobPayload → RunRecord
new_run now p = record {
  run_id = p.run_id;
  experiment_id = p.experiment_id;
  run_index = p.run_index;
  seed = p.seed;
  status = running;
  artifact_path = none;
  error_message = none;
  cancellation_reason = none;
  cancelled_at = none;
  started_at = some now;
  completed_at = none;
}

abbrev pub restart : ℕ → RunRecord → RunRecord
restart now r = record r { status = running; started_at = some now }

abbrev add_run : RunRecord → Database → Database
add_run r db = record db { runs = db.runs ++ r ∷ [] }

unfoldable pub start_run : ℕ → JobPayload → Database → Database
start_run now p db = elim (get_run db p.run_id) [
  | none ↦ add_run (new_run now p) db
  | some r ↦ set_run p.run_id (restart now) db
]

-- The first transaction.
unfoldable pub begin_job : ℕ → JobPayload → Database → Database
begin_job now p db =
    start_run now p (update_experiment_status now p.experiment_id running none none db)

-- A change of the run's row, if the row that the session sees is not terminal.
unfoldable pub close_run : Option RunRecord → String → (RunRecord → RunRecord) → Database → Database
close_run none id f db = db
close_run (some r) id f db = if is_terminal r.status then db else set_run id f db

abbrev pub completed_run : ℕ → String → RunRecord → RunRecord
completed_run now dir r = record r {
  status = completed;
  completed_at = some now;
  artifact_path = some dir;
}

abbrev pub stopped_run : ℕ → String → String → RunRecord → RunRecord
stopped_run now dir reason r = record r {
  status = cancelled;
  completed_at = some now;
  artifact_path = some dir;
  cancellation_reason = some (or_text reason "worker cancelled");
  cancelled_at = some now;
}

abbrev pub cancelled_run : ℕ → String → RunRecord → RunRecord
cancelled_run now text r = record r {
  status = cancelled;
  completed_at = some now;
  cancellation_reason = some text;
  cancelled_at = some now;
}

abbrev pub failed_run : ℕ → String → RunRecord → RunRecord
failed_run now text r = record r {
  status = failed;
  error_message = some text;
  completed_at = some now;
}

-- `all(r.status == "COMPLETED" for r in all_runs)`
unfoldable pub all_completed : String → List RunRecord → Bool
all_completed id [] = true
all_completed id (r ∷ rest) =
    let others = all_completed id rest in
    if r.experiment_id == id then (if is_completed r.status then others else false) else others

unfoldable pub complete_experiment : ℕ → String → String → Database → Database
complete_experiment now dir id db =
    if all_completed id db.runs
    then update_experiment_status now id completed (some dir) none db
    else db

-- The second transaction, by the end of the run. The session does not expire its rows on a commit:
-- `held` is the row that it has held since the first, which `session.get` returns as it was then.
unfoldable pub end_job :
    ℕ → String → Bool → Option RunRecord → RunOutcome → JobPayload → Database → Database
end_job now dir forgotten held finished p db =
    complete_experiment now dir p.experiment_id (close_run held p.run_id (completed_run now dir) db)
end_job now dir forgotten held (stopped reason) p db =
    mark_cancelled now p.experiment_id reason
      (close_run held p.run_id (stopped_run now dir reason) db)
end_job now dir forgotten held (cancelled_error text) p db =
    let seen = if forgotten then get_run db p.run_id else held in
    mark_cancelled now p.experiment_id text (close_run seen p.run_id (cancelled_run now text) db)
end_job now dir forgotten held (raised_error text) p db =
    let seen = if forgotten then get_run db p.run_id else held in
    close_run seen p.run_id (failed_run now text) db

abbrev pub job_status : RunOutcome → Status
job_status finished = completed
job_status (stopped reason) = cancelled
job_status (cancelled_error text) = cancelled
job_status (raised_error text) = failed

abbrev job_artifact : String → RunOutcome → Option String
job_artifact dir finished = some dir
job_artifact dir (stopped reason) = some dir
job_artifact dir _ = none

module _ {S : Type 0} (r : Redis S) where
  unfoldable pub process_job : Environment S → JobPayload → World S → World S
  process_job env p w =
      let begun = begin_job env.began p w.db in
      let seen = env.others (record w { db = begun }) in
      record {
        db =
            end_job env.ended env.artifact_dir env.forgotten (get_run begun p.run_id) env.outcome p
              seen.db;
        server =
            complete_job r p.run_id (job_status env.outcome)
              (job_artifact env.artifact_dir env.outcome) seen.server;
      }

  unfoldable pub skip_cancelled_job : ℕ → JobPayload → World S → World S
  skip_cancelled_job now p w = record {
    db = mark_run_cancelled now p.run_id "cancelled before execution" w.db;
    server = complete_job r p.run_id cancelled none w.server;
  }

  -- The job that a pass claimed.
  unfoldable pub handle : Environment S → JobPayload → World S → World S
  handle env p w =
      if is_cancelled_before_start p.experiment_id p.run_id w.db
      then skip_cancelled_job env.began p w
      else process_job env p w

  -- One pass of `run_worker`, and whether it handled a job. Stuck jobs are ten minutes old.
  unfoldable worker_pass : String → (ℕ → ℕ) → ℕ → Environment S → World S → Bool × World S
  worker_pass worker clock claimed_at env w =
      let (answer, server) =
        claim_job r worker claimed_at (requeue_stuck_jobs r clock 600 w.server).1 in
      let w' = record w { server = server } in
      elim answer [ none ↦ (false, w') | some p ↦ (true, handle env p w') ]
