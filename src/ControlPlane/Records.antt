-- ===== src/ControlPlane/Records.antt =====
-- resiliencelab/controlplane/models.py: the two tables that the state machine lives in. The status
-- column is a text; the texts that the code uses are constructors. Times are in ticks. Columns that no
-- operation here reads are left out.
use resilience_lab.Common.{ℕ, String, Bool, true, false, Option, List}

pub data Status : Type 0 where
  created queued running cancel_requested completed failed cancelled : Status
  other_status : String → Status

pub record ExperimentRecord : Type 0 where
  pub experiment_id : String
  pub config_yaml : String
  pub config_hash : String
  pub status : Status
  pub artifact_path : Option String
  pub error_message : Option String
  pub owner_id : Option String
  pub cancellation_reason : Option String
  pub cancelled_at : Option ℕ
  pub created_at : ℕ
  pub updated_at : ℕ

pub record RunRecord : Type 0 where
  pub run_id : String
  pub experiment_id : String
  pub run_index : ℕ
  pub seed : ℕ
  pub status : Status
  pub artifact_path : Option String
  pub error_message : Option String
  pub cancellation_reason : Option String
  pub cancelled_at : Option ℕ
  pub started_at : Option ℕ
  pub completed_at : Option ℕ

pub record Database : Type 0 where
  pub experiments : List ExperimentRecord
  pub runs : List RunRecord

abbrev pub experiment_key : ExperimentRecord → String
experiment_key e = e.experiment_id

abbrev pub run_key : RunRecord → String
run_key r = r.run_id

-- `_is_terminal`
abbrev pub is_terminal : Status → Bool
is_terminal completed = true
is_terminal failed = true
is_terminal cancelled = true
is_terminal _ = false

abbrev pub is_completed : Status → Bool
is_completed completed = true
is_completed _ = false
