-- ===== src/Api/Server/Refusals.antt =====
-- resiliencelab/api/app.py: what a refused request leaves.
use resilience_lab.Common.{
  if◌then◌else◌, ℕ, String, ◌≡◌, ◌⊎◌, inl, inr, refl, Bool, true, false, not, Option, none, some,
  if_both, ltb,
}
use resilience_lab.ControlPlane.Records.{
  Status, ExperimentRecord, Database, created, queued, completed, failed, cancelled, running,
  cancel_requested, other_status,
}
use resilience_lab.ControlPlane.Repositories.{
  get_experiment, create_experiment, update_experiment_status,
}
use resilience_lab.ControlPlane.Repositories.Transitions.{status_of}
use resilience_lab.ControlPlane.Redis.{Redis}
use resilience_lab.Api.Auth.{Identity}
use resilience_lab.Api.Server.{
  HttpResult, answers, internal_error, is_valid_id, Submission, Server, owner_of, Moment, Reply,
  said_queued, is_committed, put_jobs, enqueue_and_commit, create_by_status, create_route, rerun,
  Request, creates, runs_again, cancels, handle, max_experiment_repetitions, http_exception,
  runs_again,
}
use resilience_lab.Api.Server.Routes.{require-answers, run_route-cases, cancel_route-cases}

abbrev pub is_answer : HttpResult Reply → Bool
is_answer (answers reply) = true
is_answer _ = false

-- How many jobs a request is to put into the queue, if it gets so far.
abbrev pub jobs_of : Request → Database → Option ℕ
jobs_of (creates (some spec)) db = some spec.repetitions
jobs_of (runs_again repetitions id) db = elim (get_experiment db id) [
  | none ↦ none
  | some e ↦ repetitions e.config_yaml
]
jobs_of _ db = none

module _ {S : Type 0} (r : Redis S) where
  -- Nothing of the request is left.
  abbrev pub LeavesNothing : Server S → HttpResult Reply × Server S → Type 0
  LeavesNothing server (reply, server') = server' ≡ server

  -- Redis or the commit failed after jobs may have been put.
  abbrev pub Interrupted : Moment → Option ℕ → HttpResult Reply × Server S → Type 0
  Interrupted m o (reply, server') =
      (reply ≡ internal_error) × ((n : ℕ) × (o ≡ some n) × (is_committed m n ≡ false))

  abbrev Refuses : Moment → Option ℕ → Server S → HttpResult Reply × Server S → Type 0
  Refuses m o server x =
      is_answer x.0 ≡ false → (x.1.db ≡ server.db) × (LeavesNothing server x ⊎ Interrupted m o x)

  unchanged :
      (m : Moment) (o : Option ℕ) (reply : HttpResult Reply) (server : Server S)
      → Refuses m o server (reply, server)
  unchanged m o reply server h = (refl, inl refl)

  enqueue_and_commit-Refuses :
      (m : Moment) (id yaml hash : String) (n : ℕ) (db : Database) (server : Server S)
      → Refuses m (some n) server (enqueue_and_commit r m id yaml hash n db server)
  enqueue_and_commit-Refuses m id yaml hash n db server = go (is_committed m n) refl
    where
      go :
          (b : Bool)
          → is_committed m n ≡ b
          → Refuses m (some n) server (
              if b
              then (
                answers (said_queued id),
                record {
                  db = update_experiment_status m.now id queued none none db;
                  redis = put_jobs r m id yaml hash n server.redis;
                },
              )
              else (
                internal_error,
                record server { redis = put_jobs r m id yaml hash n server.redis },
              ))
      go true e = λ h. cc
      go false e = λ h. (refl, inr (refl, (n, refl, e)))

  create_route-Refuses :
      (m : Moment) (i : Identity) (spec : Option Submission) (server : Server S)
      → Refuses m (jobs_of (creates spec) server.db) server (create_route r m i spec server)
  unfolding create_route
  create_route-Refuses m i none server = unchanged m none (http_exception 422) server
  create_route-Refuses m i (some spec) server =
      if_both Left (not (is_valid_id spec.id)) (as_it_was 422) (
        if_both Left (ltb max_experiment_repetitions spec.repetitions) (as_it_was 422)
          (by_status (status_of (get_experiment server.db spec.id))))
    where
      Left : HttpResult Reply × Server S → Type 0
      Left = Refuses m (some spec.repetitions) server

      as_it_was : (code : ℕ) → Left (http_exception code, server)
      as_it_was code = unchanged m (some spec.repetitions) (http_exception code) server

      answered : (reply : Reply) → Left (answers reply, server)
      answered reply = unchanged m (some spec.repetitions) (answers reply) server

      by_creation :
          (o : Option Database)
          → Left (elim o [
            | none ↦ (internal_error, server)
            | some db ↦
                enqueue_and_commit r m spec.id spec.config_yaml spec.config_hash spec.repetitions db
                  server
          ])
      by_creation none = unchanged m (some spec.repetitions) internal_error server
      by_creation (some db) =
          enqueue_and_commit-Refuses m spec.id spec.config_yaml spec.config_hash spec.repetitions db
            server

      create : Option Database
      create =
          create_experiment m.now spec.id spec.config_yaml spec.config_hash (owner_of i) server.db

      by_status : (o : Option Status) → Left (create_by_status r o m i spec server)
      by_status (some created) = answered _
      by_status (some queued) = answered _
      by_status (some completed) = as_it_was 409
      by_status (some failed) = as_it_was 409
      by_status (some cancelled) = as_it_was 409
      by_status (some running) = by_creation create
      by_status (some cancel_requested) = by_creation create
      by_status (some (other_status s)) = by_creation create
      by_status none = by_creation create

  rerun-Refuses :
      (m : Moment) (n : Option ℕ) (x : ExperimentRecord) (id : String) (server : Server S)
      → Refuses m n server (rerun r m n x id server)
  rerun-Refuses m none x id server = unchanged m none internal_error server
  rerun-Refuses m (some n) x id server =
      enqueue_and_commit-Refuses m id x.config_yaml x.config_hash n server.db server

  -- A request that ends in an exception, of HTTP or another, leaves the database as it was; it
  -- leaves the queue as it was, too, unless Redis did not take all of the request's jobs or the
  -- commit after them failed, when the exception is none of HTTP.
  pub handle-refused :
      (m : Moment) (i : Identity) (request : Request) (server : Server S)
      → is_answer (handle r m i request server).0 ≡ false
      → ((handle r m i request server).1.db ≡ server.db)
        × (LeavesNothing server (handle r m i request server)
            ⊎ Interrupted m (jobs_of request server.db) (handle r m i request server))
  unfolding handle
  handle-refused m i (creates spec) server = create_route-Refuses m i spec server
  handle-refused m i (runs_again repetitions id) server =
      let o = jobs_of (runs_again repetitions id) server.db in
      run_route-cases r (Refuses m o server) m i repetitions id server
        (λ x passed runnable.
          let found : get_experiment server.db id ≡ some x =
            (require-answers id i server.db x passed).1 in
          rw (found, jobs_of) (rerun-Refuses m (repetitions x.config_yaml) x id server))
        (λ code. unchanged m o (http_exception code) server) (unchanged m o internal_error server)
  handle-refused m i (cancels id reason) server =
      cancel_route-cases r (Refuses m none server) m i id reason server (λ x message passed h. cc)
        (λ reply. unchanged m none reply server)
  handle-refused m i _ server = λ h. (refl, inl refl)
