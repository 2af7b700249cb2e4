-- ===== src/Api/Server.antt =====
-- resiliencelab/api/app.py, the routes of the server mode over experiments. A request runs as one step on
-- the database and the Redis server. Redis can raise while jobs are put and a commit can fail: a
-- session that is not committed leaves the database as it was, and the jobs that were put stay. What `parse_experiment`, `dump_yaml` and `hash_config` make of a configuration, the
-- names of jobs and the readings of the clock come with the request.
pub mod Routes
pub mod Ownership
pub mod Refusals
pub mod Lifecycle
pub mod Pages
pub mod Bundles
use Prim.Native.String
use text.Mathlib.Text.{◌==◌, find?}
use resilience_lab.Common.{
  ℕ, ◌+◌, String, Bool, true, false, not, ◌||◌, ◌&&◌, Option, none, some, List, [], ◌∷◌, map, ltb,
  leb, if◌then◌else◌,
}
use resilience_lab.ControlPlane.Records.{
  Status, created, queued, running, cancel_requested, completed, failed, cancelled, other_status,
  ExperimentRecord, RunRecord, Database, is_terminal,
}
use resilience_lab.ControlPlane.Repositories.{
  get_experiment, get_runs, create_experiment, update_experiment_status, request_cancel, Message,
  not_found,
}
use resilience_lab.ControlPlane.Repositories.Queries.{list_experiments, count_experiments}
use resilience_lab.ControlPlane.Repositories.Transitions.{status_of}
use resilience_lab.ControlPlane.Redis.{Redis}
use resilience_lab.ControlPlane.Queue.{enqueue_experiment, new_payload, put_payload}
use resilience_lab.Api.Auth.{Identity, is_authenticated}

abbrev max_experiment_id_length : ℕ
max_experiment_id_length = 256

abbrev pub max_experiment_repetitions : ℕ
max_experiment_repetitions = 10000

-- An answer, an `HTTPException` with its status code, or another exception.
pub data HttpResult (A : Type 0) : Type 0 where
  answers : A → HttpResult A
  http_exception : ℕ → HttpResult A
  internal_error : HttpResult A

abbrev has_text : String → String → Bool
has_text whole part = elim (find? whole part) [ none ↦ false | some _ ↦ true ]

-- `_validate_experiment_id` raises nothing.
unfoldable pub is_valid_id : String → Bool
is_valid_id id =
    not (id == "" || ltb max_experiment_id_length (String.count id))
    && not (has_text id "/" || has_text id "\0")

-- `_check_ownership` raises nothing.
unfoldable pub may_access : ExperimentRecord → Identity → Bool
may_access e i =
    if is_authenticated i
    then elim e.owner_id [ none ↦ true | some owner ↦ owner == i.user_id ]
    else true

-- What the routes read of a parsed configuration.
pub record Submission : Type 0 where
  pub id : String
  pub repetitions : ℕ
  pub config_yaml : String
  pub config_hash : String

pub record Server (S : Type 0) : Type 0 where
  pub db : Database
  pub redis : S

-- `identity.user_id if is_authenticated(identity) else None`
abbrev pub owner_of : Identity → Option String
owner_of i = if is_authenticated i then some i.user_id else none

-- The names of new jobs and the readings of the clock, how many jobs Redis takes before a call of it
-- raises, whether the job at which it raises was written already, and whether a commit succeeds.
pub record Moment : Type 0 where
  pub now : ℕ
  pub clock : ℕ → ℕ
  pub name : ℕ → String
  pub accepted : ℕ
  pub half_written : Bool
  pub commits : Bool

-- The start of every route on one experiment, and of a database session.
unfoldable pub require : String → Identity → Database → HttpResult ExperimentRecord
require id i db = if not (is_valid_id id) then http_exception 422 else elim (get_experiment db id) [
  | none ↦ http_exception 404
  | some e ↦ if may_access e i then answers e else http_exception 403
]

pub data Reply : Type 0 where
  said_created said_queued : String → Reply
  said_cancel : Message → Reply
  detail : ExperimentRecord → Reply
  runs : List RunRecord → Reply
  status_of_runs : ExperimentRecord → List (String × Status) → Reply
  page : List ExperimentRecord → ℕ → Bool → Reply

pub data Request : Type 0 where
  creates : Option Submission → Request
  runs_again : (String → Option ℕ) → String → Request
  cancels : String → String → Request
  gets get_runs_of get_status : String → Request
  lists : Option (Status → Bool) → ℕ → ℕ → Request

abbrev pub can_run : Status → Bool
can_run created = true
can_run completed = true
can_run cancelled = true
can_run failed = true
can_run _ = false

abbrev pub is_not_found : Message → Bool
is_not_found not_found = true
is_not_found _ = false

-- Redis takes the jobs, and the commit succeeds.
abbrev pub is_committed : Moment → ℕ → Bool
is_committed m n = leb n m.accepted && m.commits

-- The routes that read one experiment.
abbrev viewed : (ExperimentRecord → Reply) → HttpResult ExperimentRecord → HttpResult Reply
viewed view (answers e) = answers (view e)
viewed view (http_exception code) = http_exception code
viewed view internal_error = internal_error

module _ {S : Type 0} where
  -- The answer of `request_cancel` with the session's database: committed only on success.
  abbrev pub commit_cancel :
      Moment → (Bool × Message) × Database → Server S → HttpResult Reply × Server S
  commit_cancel m ((success, message), db) server =
      if success
      then (if m.commits
          then (answers (said_cancel message), record server { db = db })
          else (internal_error, server))
      else if is_not_found message
      then (http_exception 404, server)
      else (answers (said_cancel message), server)

  -- `POST /experiments/{id}/cancel`
  unfoldable pub cancel_route :
      Moment → Identity → String → String → Server S → HttpResult Reply × Server S
  cancel_route m i id reason server = elim (require id i server.db) [
    | answers e ↦ commit_cancel m (request_cancel m.now id reason server.db) server
    | http_exception code ↦ (http_exception code, server)
    | internal_error ↦ (internal_error, server)
  ]

  unfoldable pub get_route : Identity → String → Server S → HttpResult Reply
  get_route i id server = viewed detail (require id i server.db)

  unfoldable pub runs_route : Identity → String → Server S → HttpResult Reply
  runs_route i id server = viewed (λ e. runs (get_runs id server.db.runs)) (require id i server.db)

  unfoldable pub status_route : Identity → String → Server S → HttpResult Reply
  status_route i id server =
      viewed (λ e. status_of_runs e (map (λ x. (x.run_id, x.status)) (get_runs id server.db.runs)))
        (require id i server.db)

  -- `GET /experiments`, of a limit and an offset within their declared bounds.
  unfoldable pub list_route :
      Identity → Option (Status → Bool) → ℕ → ℕ → Server S → HttpResult Reply
  list_route i status offset limit server =
      let total = count_experiments status (owner_of i) server.db in
      answers (
        page (list_experiments status (owner_of i) offset limit server.db) total
          (ltb (offset + limit) total))

module _ {S : Type 0} (r : Redis S) where
  -- Redis after the jobs of an experiment.
  abbrev pub put_jobs : Moment → String → String → String → ℕ → S → S
  put_jobs m id yaml hash n s =
      if leb n m.accepted
      then (enqueue_experiment r id yaml hash m.name m.clock n s).1
      else let k = m.accepted in
        let s' = (enqueue_experiment r id yaml hash m.name m.clock k s).1 in
        if m.half_written
        then r.hset (m.name k) (put_payload (new_payload id yaml hash k (m.name k) (m.clock k))) s'
        else s'

  -- The jobs of an experiment of the session's database, its move to the queue and the commit.
  abbrev pub enqueue_and_commit :
      Moment → String → String → String → ℕ → Database → Server S → HttpResult Reply × Server S
  enqueue_and_commit m id yaml hash n db server =
      if is_committed m n
      then (
        answers (said_queued id),
        record {
          db = update_experiment_status m.now id queued none none db;
          redis = put_jobs m id yaml hash n server.redis;
        },
      )
      else (internal_error, record server { redis = put_jobs m id yaml hash n server.redis })

  -- The new row, its jobs and its move to the queue.
  abbrev pub enqueue_new : Moment → Identity → Submission → Server S → HttpResult Reply × Server S
  enqueue_new m i spec server =
      elim (create_experiment m.now spec.id spec.config_yaml spec.config_hash (owner_of i)
        server.db) [
          | none ↦ (internal_error, server)
          | some db ↦
              enqueue_and_commit m spec.id spec.config_yaml spec.config_hash spec.repetitions db
                server
        ]

  -- By the status of the row that is there, if any.
  abbrev pub create_by_status :
      Option Status → Moment → Identity → Submission → Server S → HttpResult Reply × Server S
  create_by_status (some created) m i spec server = (answers (said_created spec.id), server)
  create_by_status (some queued) m i spec server = (answers (said_created spec.id), server)
  create_by_status (some completed) m i spec server = (http_exception 409, server)
  create_by_status (some failed) m i spec server = (http_exception 409, server)
  create_by_status (some cancelled) m i spec server = (http_exception 409, server)
  create_by_status _ m i spec server = enqueue_new m i spec server

  -- `POST /experiments`, of what the parser makes of the payload.
  unfoldable pub create_route :
      Moment → Identity → Option Submission → Server S → HttpResult Reply × Server S
  create_route m i none server = (http_exception 422, server)
  create_route m i (some spec) server =
      if not (is_valid_id spec.id)
      then (http_exception 422, server)
      else if ltb max_experiment_repetitions spec.repetitions
      then (http_exception 422, server)
      else create_by_status (status_of (get_experiment server.db spec.id)) m i spec server

  -- `repetitions` is what the stored configuration says, if it can be parsed.
  abbrev pub rerun :
      Moment → Option ℕ → ExperimentRecord → String → Server S → HttpResult Reply × Server S
  rerun m none e id server = (internal_error, server)
  rerun m (some repetitions) e id server =
      enqueue_and_commit m id e.config_yaml e.config_hash repetitions server.db server

  -- `POST /experiments/{id}/run`
  unfoldable pub run_route :
      Moment → Identity → (String → Option ℕ) → String → Server S → HttpResult Reply × Server S
  run_route m i repetitions id server = elim (require id i server.db) [
    | answers e ↦
        if can_run e.status
        then rerun m (repetitions e.config_yaml) e id server
        else (http_exception 409, server)
    | http_exception code ↦ (http_exception code, server)
    | internal_error ↦ (internal_error, server)
  ]

  unfoldable pub handle : Moment → Identity → Request → Server S → HttpResult Reply × Server S
  handle m i (creates spec) server = create_route m i spec server
  handle m i (runs_again repetitions id) server = run_route m i repetitions id server
  handle m i (cancels id reason) server = cancel_route m i id reason server
  handle m i (gets id) server = (get_route i id server, server)
  handle m i (get_runs_of id) server = (runs_route i id server, server)
  handle m i (get_status id) server = (status_route i id server, server)
  handle m i (lists status offset limit) server = (list_route i status offset limit server, server)

  -- Requests one after another, with their callers and times.
  unfoldable pub serve : List (Moment × Identity × Request) → Server S → Server S
  serve [] server = server
  serve ((m, i, request) ∷ later) server = serve later (handle m i request server).1

-- The experiment that a route's path names.
abbrev pub subject : Request → Option String
subject (creates spec) = none
subject (runs_again repetitions id) = some id
subject (cancels id reason) = some id
subject (gets id) = some id
subject (get_runs_of id) = some id
subject (get_status id) = some id
subject (lists status offset limit) = none
