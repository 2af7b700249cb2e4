-- ===== src/ControlPlane/Repositories.antt =====
-- resiliencelab/controlplane/repositories.py. A function takes the session's view of the database and
-- returns it changed; `now` is its reading of the clock. Messages are constructors for the texts.
pub mod Transitions
pub mod Queries
use text.Mathlib.Text.{◌==◌}
use resilience_lab.Common.{
  ℕ, String, Bool, true, false, Option, none, some, List, [], ◌∷◌, ◌++◌, if◌then◌else◌, leb,
}
use resilience_lab.Common.Table
use resilience_lab.ControlPlane.Records.{
  Status, created, queued, running, cancel_requested, completed, failed, cancelled, other_status,
  ExperimentRecord, RunRecord, Database, experiment_key, run_key, is_terminal,
}

unfoldable pub get_experiment : Database → String → Option ExperimentRecord
get_experiment db id = Table.find experiment_key id db.experiments

unfoldable pub get_run : Database → String → Option RunRecord
get_run db id = Table.find run_key id db.runs

abbrev pub set_experiment : String → (ExperimentRecord → ExperimentRecord) → Database → Database
set_experiment id f db = record db { experiments = Table.modify experiment_key id f db.experiments }

abbrev pub set_run : String → (RunRecord → RunRecord) → Database → Database
set_run id f db = record db { runs = Table.modify run_key id f db.runs }

abbrev pub new_experiment : ℕ → String → String → String → Option String → ExperimentRecord
new_experiment now id yaml hash owner = record {
  experiment_id = id;
  config_yaml = yaml;
  config_hash = hash;
  status = created;
  artifact_path = none;
  error_message = none;
  owner_id = owner;
  cancellation_reason = none;
  cancelled_at = none;
  created_at = now;
  updated_at = now;
}

-- `session.add` and `flush`; `none` is the database's refusal of a second row under the key.
unfoldable pub create_experiment :
    ℕ → String → String → String → Option String → Database → Option Database
create_experiment now id yaml hash owner db = elim (get_experiment db id) [
  | some e ↦ none
  | none ↦
      some
        (record db { experiments = db.experiments ++ new_experiment now id yaml hash owner ∷ [] })
]

-- `if value is not None: values[key] = value`
abbrev pub given {ℓ} : {A : Type ℓ} → Option A → Option A → Option A
given none old = old
given (some a) old = some a

unfoldable pub update_experiment_status :
    ℕ → String → Status → Option String → Option String → Database → Database
update_experiment_status now id status artifact error = set_experiment id λ e. record e {
  status = status;
  artifact_path = given artifact e.artifact_path;
  error_message = given error e.error_message;
  updated_at = now;
}

-- `a or b` on texts: the empty text counts as absent.
abbrev pub or_text : String → String → String
or_text a b = if a == "" then b else a

abbrev text_of : Option String → String
text_of none = ""
text_of (some s) = s

pub data Message : Type 0 where
  not_found already_cancel_requested said_cancelled said_cancel_requested : Message
  already : Status → Message
  unexpected_status : Status → Message

-- What a request does to a record of this status, and what it answers.
abbrev pub cancel_now : ℕ → String → ExperimentRecord → ExperimentRecord
cancel_now now reason e = record e {
  status = cancelled;
  cancellation_reason = some (or_text reason "user requested");
  cancelled_at = some now;
  updated_at = now;
}

abbrev pub ask_to_cancel : ℕ → String → ExperimentRecord → ExperimentRecord
ask_to_cancel now reason e = record e {
  status = cancel_requested;
  cancellation_reason = some (or_text reason "user requested");
  updated_at = now;
}

cancel_by_status : Status → ℕ → String → String → Database → (Bool × Message) × Database
cancel_by_status completed now id reason db = ((false, already completed), db)
cancel_by_status failed now id reason db = ((false, already failed), db)
cancel_by_status cancelled now id reason db = ((false, already cancelled), db)
cancel_by_status cancel_requested now id reason db = ((false, already_cancel_requested), db)
cancel_by_status created now id reason db =
    ((true, said_cancelled), set_experiment id (cancel_now now reason) db)
cancel_by_status queued now id reason db =
    ((true, said_cancelled), set_experiment id (cancel_now now reason) db)
cancel_by_status running now id reason db =
    ((true, said_cancel_requested), set_experiment id (ask_to_cancel now reason) db)
cancel_by_status (other_status s) now id reason db =
    ((false, unexpected_status (other_status s)), db)

unfoldable pub request_cancel : ℕ → String → String → Database → (Bool × Message) × Database
unfolding cancel_by_status
request_cancel now id reason db = elim (get_experiment db id) [
  | none ↦ ((false, not_found), db)
  | some e ↦ cancel_by_status e.status now id reason db
]

abbrev pub mark_experiment : ℕ → String → ExperimentRecord → ExperimentRecord
mark_experiment now reason e = record e {
  status = cancelled;
  cancellation_reason =
      some (or_text reason (or_text (text_of e.cancellation_reason) "worker cancelled"));
  cancelled_at = some now;
  updated_at = now;
}

unfoldable pub mark_cancelled : ℕ → String → String → Database → Database
mark_cancelled now id reason db = elim (get_experiment db id) [
  | none ↦ db
  | some e ↦ if is_terminal e.status then db else set_experiment id (mark_experiment now reason) db
]

abbrev pub mark_run : ℕ → String → RunRecord → RunRecord
mark_run now reason r = record r {
  status = cancelled;
  cancellation_reason = some (or_text reason "worker cancelled");
  cancelled_at = some now;
  completed_at = some now;
}

unfoldable pub mark_run_cancelled : ℕ → String → String → Database → Database
mark_run_cancelled now id reason db = elim (get_run db id) [
  | none ↦ db
  | some r ↦ if is_terminal r.status then db else set_run id (mark_run now reason) db
]

abbrev is_cancel_requested : Status → Bool
is_cancel_requested cancel_requested = true
is_cancel_requested _ = false

unfoldable check_cancel_requested : String → Database → Bool
check_cancel_requested id db = elim (get_experiment db id) [
  | none ↦ false
  | some e ↦ is_cancel_requested e.status
]

-- Insertion into a list in the order of the run index; equal ones keep their order.
abbrev by_index : RunRecord → List RunRecord → List RunRecord
by_index r [] = r ∷ []
by_index r (s ∷ rest) =
    let later = by_index r rest in if leb r.run_index s.run_index then r ∷ s ∷ rest else s ∷ later

-- `select … where experiment_id … order_by(run_index)`
unfoldable pub get_runs : String → List RunRecord → List RunRecord
get_runs id [] = []
get_runs id (r ∷ rest) =
    let others = get_runs id rest in if r.experiment_id == id then by_index r others else others

unfoldable cancel_experiment : ℕ → String → Database → Bool × Database
unfolding request_cancel
cancel_experiment now id db = let (answer, db') = request_cancel now id "" db in (answer.0, db')
