-- ===== src/Api/Server/Lifecycle.antt =====
-- resiliencelab/api/app.py: what a request does to the status of an experiment.
use text.Mathlib.Text.{◌==◌}
use text.Mathlib.TextEquality.{eq_iff}
use resilience_lab.Common.{
  ℕ, String, ◌≡◌, inl, inr, refl, ◌∙◌, ap, true, false, Option, none, some, if◌then◌else◌, arith,
  Bool-cases, if_both,
}
use resilience_lab.Common.Table
use resilience_lab.ControlPlane.Records.{
  Status, ExperimentRecord, Database, experiment_key, created, queued, completed, failed, cancelled,
  running, cancel_requested, other_status, is_terminal,
}
use resilience_lab.ControlPlane.Repositories.{
  get_experiment, update_experiment_status, request_cancel, given,
}
use resilience_lab.ControlPlane.Repositories.Transitions.{
  get-set, status_of, target, moved, request_cancel_lem,
}
use resilience_lab.ControlPlane.Redis.{Redis}
use resilience_lab.Api.Auth.{Identity}
use resilience_lab.Api.Server.{
  HttpResult, Reply, Server, Moment, is_committed, can_run, rerun, Request, creates, runs_again,
  cancels, handle,
}
use resilience_lab.Api.Server.Ownership.{create_route-Keeps}
use resilience_lab.Api.Server.Routes.{require-answers, run_route-cases, cancel_route-cases}

abbrev pub updated_row : ℕ → Status → ExperimentRecord → ExperimentRecord
updated_row now s e = record e {
  status = s;
  artifact_path = given none e.artifact_path;
  error_message = given none e.error_message;
  updated_at = now;
}

get-update :
    (now : ℕ) (id j : String) (s : Status) (db : Database)
    → get_experiment (update_experiment_status now id s none none db) j ≡ (
        if id == j
        then Table.change experiment_key (updated_row now s) (get_experiment db j)
        else get_experiment db j)
unfolding update_experiment_status
get-update now id j s db = get-set id j (updated_row now s) db (λ x. refl)

-- What one request can do to the status of an experiment that is not over.
pub data Moves : Status → Status → Type 0 where
  stays : (s : Status) → Moves s s
  queues : Moves created queued
  cancels_to : (s t : Status) → target s ≡ some t → Moves s t

can_run-Moves : (s : Status) → is_terminal s ≡ false → can_run s ≡ true → Moves s queued
can_run-Moves created over h = queues
can_run-Moves completed over h = ground arith
can_run-Moves cancelled over h = ground arith
can_run-Moves failed over h = ground arith
can_run-Moves queued over h = ground arith
can_run-Moves running over h = ground arith
can_run-Moves cancel_requested over h = ground arith
can_run-Moves (other_status s) over h = ground arith

abbrev pub HasMoved : Status → Option Status → Type 0
HasMoved before after = (t : Status) × (after ≡ some t) × Moves before t

moved-Moves : (s : Status) → HasMoved s (moved (some s))
moved-Moves s = go (target s) refl
  where
    go :
        (o : Option Status) → target s ≡ o → HasMoved s (elim o [ none ↦ some s | some t ↦ some t ])
    go none e = (s, refl, stays s)
    go (some t) e = (t, refl, cancels_to s t e)

module _ {S : Type 0} (r : Redis S) where
  rerun_moves :
      (m : Moment) (id j : String) (db : Database) (e x : ExperimentRecord)
      → get_experiment db j ≡ some e
      → is_terminal e.status ≡ false
      → get_experiment db id ≡ some x
      → can_run x.status ≡ true
      → HasMoved e.status
          (status_of (get_experiment (update_experiment_status m.now id queued none none db) j))
  rerun_moves m id j db e x h live k runnable = elim (Bool-cases (id == j)) [
    | inl same ↦
        let now_queued : status_of
              (get_experiment (update_experiment_status m.now id queued none none db) j)
            ≡ some queued =
          ground (arith, get-update m.now id j queued db) in
        (queued, now_queued, can_run-Moves e.status live (ground (arith, eq_iff id j)))
    | inr other ↦
        let as_before : status_of
              (get_experiment (update_experiment_status m.now id queued none none db) j)
            ≡ some e.status =
          ground (arith, get-update m.now id j queued db) in
        (e.status, as_before, stays e.status)
  ]

  handle-Moves_rerun :
      (m : Moment) (i : Identity) (n : Option ℕ) (x : ExperimentRecord) (id j : String)
      (server : Server S) (e : ExperimentRecord)
      → get_experiment server.db j ≡ some e
      → is_terminal e.status ≡ false
      → get_experiment server.db id ≡ some x
      → can_run x.status ≡ true
      → HasMoved e.status (status_of (get_experiment (rerun r m n x id server).1.db j))
  handle-Moves_rerun m i none x id j server e h live k runnable =
      (e.status, ap status_of h, stays e.status)
  handle-Moves_rerun m i (some n) x id j server e h live k runnable =
      let Moved : HttpResult Reply × Server S → Type 0 =
        λ y. HasMoved e.status (status_of (get_experiment y.1.db j)) in
      if_both Moved (is_committed m n) (rerun_moves m id j server.db e x h live k runnable)
        (e.status, ap status_of h, stays e.status)

  cancelled-Moves :
      (now : ℕ) (id j reason : String) (db : Database) (e : ExperimentRecord)
      → get_experiment db j ≡ some e
      → HasMoved e.status (status_of (get_experiment (request_cancel now id reason db).1 j))
  cancelled-Moves now id j reason db e h = elim (Bool-cases (id == j)) [
    | inl same ↦
        let (t, to, move) = moved-Moves e.status in
        (t, (request_cancel_lem now id j reason db).1 ∙ rw (same, h) to, move)
    | inr other ↦
        (e.status, (request_cancel_lem now id j reason db).1 ∙ rw (other, h) refl, stays e.status)
  ]

  -- No request removes an experiment whose status is not terminal, and each leaves that status as
  -- it is, moves it to queued from created, or moves it as a cancellation does from created, queued
  -- or running.
  pub handle-Moves :
      (m : Moment) (i : Identity) (request : Request) (server : Server S) (j : String)
      (e : ExperimentRecord)
      → get_experiment server.db j ≡ some e
      → is_terminal e.status ≡ false
      → HasMoved e.status (status_of (get_experiment (handle r m i request server).1.db j))
  unfolding handle
  handle-Moves m i (creates spec) server j e h live =
      (e.status, ap status_of (create_route-Keeps r m i spec server j e h), stays e.status)
  handle-Moves m i (runs_again repetitions id) server j e h live =
      run_route-cases r (λ x. HasMoved e.status (status_of (get_experiment x.1.db j))) m i
        repetitions id server
        (λ x passed runnable.
          handle-Moves_rerun m i (repetitions x.config_yaml) x id j server e h live
            (require-answers id i server.db x passed).1 runnable)
        (λ code. (e.status, ap status_of h, stays e.status))
        (e.status, ap status_of h, stays e.status)
  handle-Moves m i (cancels id reason) server j e h live =
      cancel_route-cases r (λ x. HasMoved e.status (status_of (get_experiment x.1.db j))) m i id
        reason server (λ x message passed. cancelled-Moves m.now id j reason server.db e h)
        (λ reply. (e.status, ap status_of h, stays e.status))
  handle-Moves m i _ server j e h live = (e.status, ap status_of h, stays e.status)
