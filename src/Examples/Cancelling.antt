-- ===== src/Examples/Cancelling.antt =====
-- resiliencelab/controlplane/repositories.py on a concrete database.
use resilience_lab.Common.{String, ◌≡◌, refl, none, some, [], ◌∷◌}
use resilience_lab.Common.Table.{find}
use resilience_lab.ControlPlane.Records.{Status, running, completed, ExperimentRecord, Database}
use resilience_lab.ControlPlane.Repositories.{get_experiment}
use resilience_lab.ControlPlane.Repositories.Transitions.{requests, marks, run, terminal_stable}

abbrev experiment : String → Status → ExperimentRecord
experiment id s = record {
  experiment_id = id;
  config_yaml = "";
  config_hash = "";
  status = s;
  artifact_path = none;
  error_message = none;
  owner_id = none;
  cancellation_reason = none;
  cancelled_at = none;
  created_at = 0;
  updated_at = 0;
}

abbrev db : Database
db = record { experiments = experiment "a" running ∷ experiment "b" completed ∷ []; runs = [] }

terminal_stable_example :
    get_experiment (run db (requests 7 "b" "stop" ∷ marks 8 "b" "" ∷ [])) "b"
    ≡ some (experiment "b" completed)
unfolding get_experiment find
terminal_stable_example =
    terminal_stable db (requests 7 "b" "stop" ∷ marks 8 "b" "" ∷ []) "b" (experiment "b" completed)
      refl refl
