-- ===== src/Examples/Work.antt =====
-- resiliencelab/controlplane/worker.py: one job with a server held in memory.
use resilience_lab.Common.{◌≡◌, refl, false, none, some, [], ◌∷◌}
use resilience_lab.Common.Table.{find}
use resilience_lab.ControlPlane.Records.{Status, running, completed, cancelled, ExperimentRecord}
use resilience_lab.ControlPlane.Repositories.{get_run, update_experiment_status}
use resilience_lab.ControlPlane.Worker.{
  World, Environment, RunOutcome, finished, process_job, begin_job, start_run, end_job, close_run,
  complete_experiment, all_completed,
}
use resilience_lab.ControlPlane.Worker.Rows.{run_status}
use resilience_lab.Examples.Jobs.{Server, in_memory, waiting, first}

abbrev experiment : Status → ExperimentRecord
experiment s = record {
  experiment_id = "a";
  config_yaml = "";
  config_hash = "";
  status = s;
  artifact_path = none;
  error_message = none;
  owner_id = none;
  cancellation_reason = none;
  cancelled_at = none;
  created_at = 0;
  updated_at = 0;
}

abbrev before : Status → World Server
before s = record { db = record { experiments = experiment s ∷ []; runs = [] }; server = waiting }

abbrev alone : RunOutcome → Environment Server
alone o = record {
  began = 10;
  ended = 20;
  artifact_dir = "out";
  outcome = o;
  forgotten = false;
  others = λ x. x;
}

abbrev taken_over : Environment Server
taken_over = record (alone finished) {
  others = λ x. record x {
    db = record x.db {
      runs =
          record {
            run_id = "a/run-0";
            experiment_id = "a";
            run_index = 0;
            seed = 0;
            status = cancelled;
            artifact_path = none;
            error_message = none;
            cancellation_reason = none;
            cancelled_at = none;
            started_at = none;
            completed_at = none;
          }
          ∷ [];
    };
  };
}

-- The session's row is still running, so the status that another session wrote is overwritten.
overwritten :
    run_status (get_run (process_job in_memory taken_over first (before running)).db "a/run-0")
    ≡ some completed
unfolding get_run find process_job begin_job start_run update_experiment_status end_job close_run
    complete_experiment all_completed resilience_lab.Common.Table.modify
overwritten = refl
