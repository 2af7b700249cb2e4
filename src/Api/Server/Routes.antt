-- ===== src/Api/Server/Routes.antt =====
-- resiliencelab/api/app.py: what a request has passed when the run and cancel routes go on.
use resilience_lab.Common.{
  ℕ, String, ◌≡◌, refl, Bool, true, false, Option, some, if◌then◌else◌, arith, if_both,
}
use resilience_lab.ControlPlane.Records.{ExperimentRecord, Database}
use resilience_lab.ControlPlane.Repositories.{get_experiment, request_cancel, Message}
use resilience_lab.ControlPlane.Redis.{Redis}
use resilience_lab.Api.Auth.{Identity}
use resilience_lab.Api.Server.{
  HttpResult, answers, http_exception, internal_error, is_valid_id, may_access, Server, Moment,
  require, Reply, can_run, rerun, run_route, commit_cancel, said_cancel, cancel_route, is_not_found,
}

-- What a request on an experiment has passed when its route goes on.
pub require-answers :
    (id : String) (i : Identity) (db : Database) (e : ExperimentRecord)
    → require id i db ≡ answers e
    → (is_valid_id id ≡ true) × (get_experiment db id ≡ some e) × (may_access e i ≡ true)
unfolding require
require-answers id i db e h = ground arith

module _ {S : Type 0} (r : Redis S) where
  -- What holds of every outcome of a route holds of the route.
  pub run_route-cases :
      (Holds : HttpResult Reply × Server S → Type 0) (m : Moment) (i : Identity)
      (repetitions : String → Option ℕ) (id : String) (server : Server S)
      → ((x : ExperimentRecord)
          → require id i server.db ≡ answers x
          → can_run x.status ≡ true
          → Holds (rerun r m (repetitions x.config_yaml) x id server))
      → ((code : ℕ) → Holds (http_exception code, server))
      → Holds (internal_error, server)
      → Holds (run_route r m i repetitions id server)
  unfolding run_route
  run_route-cases Holds m i repetitions id server goes refuses fails =
      by_result (require id i server.db) refl
    where
      by_status :
          (x : ExperimentRecord) (b : Bool)
          → require id i server.db ≡ answers x
          → can_run x.status ≡ b
          → Holds (
              if b
              then rerun r m (repetitions x.config_yaml) x id server
              else (http_exception 409, server))
      by_status x true passed e = goes x passed e
      by_status x false passed e = refuses 409

      by_result :
          (w : HttpResult ExperimentRecord)
          → require id i server.db ≡ w
          → Holds (elim w [
            | answers x ↦
                if can_run x.status
                then rerun r m (repetitions x.config_yaml) x id server
                else (http_exception 409, server)
            | http_exception code ↦ (http_exception code, server)
            | internal_error ↦ (internal_error, server)
          ])
      by_result (answers x) passed = by_status x (can_run x.status) passed refl
      by_result (http_exception code) passed = refuses code
      by_result internal_error passed = fails

  pub cancel_route-cases :
      (Holds : HttpResult Reply × Server S → Type 0) (m : Moment) (i : Identity)
      (id reason : String) (server : Server S)
      → ((x : ExperimentRecord) (message : Message)
          → require id i server.db ≡ answers x
          → Holds (
            answers (said_cancel message),
            record server { db = (request_cancel m.now id reason server.db).1 },
          ))
      → ((reply : HttpResult Reply) → Holds (reply, server))
      → Holds (cancel_route m i id reason server)
  unfolding cancel_route
  cancel_route-cases Holds m i id reason server goes stays = by_result (require id i server.db) refl
    where
      by_answer :
          (x : ExperimentRecord) (success : Bool) (message : Message)
          → require id i server.db ≡ answers x
          → Holds (
              commit_cancel m
                ((success, message), (request_cancel m.now id reason server.db).1)
                server)
      by_answer x true message passed = if_both Holds m.commits (goes x message passed) (stays _)
      by_answer x false message passed = if_both Holds (is_not_found message) (stays _) (stays _)

      by_result :
          (w : HttpResult ExperimentRecord)
          → require id i server.db ≡ w
          → Holds (elim w [
            | answers x ↦ commit_cancel m (request_cancel m.now id reason server.db) server
            | http_exception code ↦ (http_exception code, server)
            | internal_error ↦ (internal_error, server)
          ])
      by_result (answers x) passed =
          let (success, message) = (request_cancel m.now id reason server.db).0 in
          by_answer x success message passed
      by_result (http_exception code) passed = stays _
      by_result internal_error passed = stays _
