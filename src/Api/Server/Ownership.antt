-- ===== src/Api/Server/Ownership.antt =====
-- resiliencelab/api/app.py: what a caller can do to the experiments of another.
use text.Mathlib.Text.{◌==◌}
use text.Mathlib.TextEquality.{eq_iff}
use resilience_lab.Common.{
  ℕ, String, ◌≡◌, inl, inr, refl, ◌∙◌, true, false, not, Option, none, some, List, [], ◌∷◌, ◌++◌,
  arith, Option-cases, if_both, ltb, All,
}
use resilience_lab.Common.Table
use resilience_lab.ControlPlane.Records.{
  Status, ExperimentRecord, Database, experiment_key, created, queued, completed, failed, cancelled,
  running, cancel_requested, other_status,
}
use resilience_lab.ControlPlane.Repositories.{
  get_experiment, create_experiment, new_experiment, update_experiment_status, given,
}
use resilience_lab.ControlPlane.Repositories.Transitions.{
  get-set, status_of, request_cancel_elsewhere,
}
use resilience_lab.ControlPlane.Redis.{Redis}
use resilience_lab.Api.Auth.{Identity, is_authenticated}
use resilience_lab.Api.Server.{
  HttpResult, answers, http_exception, is_valid_id, may_access, Submission, Server, owner_of,
  Moment, require, Reply, enqueue_new, create_by_status, create_route, rerun, run_route,
  is_committed, cancel_route, get_route, runs_route, status_route, serve, subject, Request, creates,
  runs_again, cancels, gets, get_runs_of, get_status, lists, handle, max_experiment_repetitions,
}
use resilience_lab.Api.Server.Routes.{require-answers, run_route-cases, cancel_route-cases}

-- The caller owns some experiment of the database; `_check_ownership` is documented to let a caller who
-- owns nothing access every experiment.
abbrev pub OwnsOne : Database → Identity → Type 0
OwnsOne db i =
    (id : String) × (x : ExperimentRecord) × (get_experiment db id ≡ some x)
    × (x.owner_id ≡ some i.user_id)

-- An authenticated caller of a record that another owns.
pub record IsForeign (e : ExperimentRecord) (i : Identity) : Type 0 where
  pub owner : String
  pub owned : e.owner_id ≡ some owner
  pub known : is_authenticated i ≡ true
  pub other : (owner == i.user_id) ≡ false

IsForeign-denied : (e : ExperimentRecord) (i : Identity) → IsForeign e i → may_access e i ≡ false
unfolding may_access
IsForeign-denied e i f = rw (f.known, may_access) (rw f.owned f.other)

-- Where a foreign caller's request goes on, it is about another experiment.
elsewhere :
    (id j : String) (i : Identity) (db : Database) (e x : ExperimentRecord)
    → get_experiment db j ≡ some e
    → IsForeign e i
    → require id i db ≡ answers x
    → (id == j) ≡ false
elsewhere id j i db e x h f passed =
    ground (arith, eq_iff id j, require-answers id i db x passed, IsForeign-denied e i f)

update_elsewhere :
    (now : ℕ) (id j : String) (s : Status) (db : Database)
    → (id == j) ≡ false
    → get_experiment (update_experiment_status now id s none none db) j ≡ get_experiment db j
unfolding update_experiment_status
update_elsewhere now id j s db other =
    let f : ExperimentRecord → ExperimentRecord = λ x. record x {
      status = s;
      artifact_path = given none x.artifact_path;
      error_message = given none x.error_message;
      updated_at = now;
    } in
    get-set id j f db (λ x. refl) ∙ rw other refl

different :
    (id j : String) (db : Database) (e : ExperimentRecord)
    → get_experiment db id ≡ none
    → get_experiment db j ≡ some e
    → (id == j) ≡ false
different id j db e h k = ground (arith, eq_iff id j)

-- A row that is created is a new one, added to those that are there.
created_of :
    (now : ℕ) (id yaml hash : String) (owner : Option String) (db db' : Database)
    → create_experiment now id yaml hash owner db ≡ some db'
    → (get_experiment db id ≡ none)
      × (db'.experiments ≡ db.experiments ++ new_experiment now id yaml hash owner ∷ [])
unfolding create_experiment
created_of now id yaml hash owner db db' h = elim (Option-cases (get_experiment db id)) [
  | inl absent ↦ (absent, ground (arith, absent))
  | inr (e, there) ↦ cc (rw (there, create_experiment) at h)
]

create-keeps :
    (now : ℕ) (id yaml hash j : String) (owner : Option String) (db db' : Database)
    (e : ExperimentRecord)
    → create_experiment now id yaml hash owner db ≡ some db'
    → get_experiment db j ≡ some e
    → (get_experiment db id ≡ none) × (get_experiment db' j ≡ some e)
unfolding get_experiment
create-keeps now id yaml hash j owner db db' e h k =
    let (absent, rows) = created_of now id yaml hash owner db db' h in
    (
      absent,
      rw rows (
          Table.find-snoc_old experiment_key j db.experiments
            (new_experiment now id yaml hash owner) e k),
    )

module _ {S : Type 0} (r : Redis S) where
  -- The row under a key after a request.
  abbrev Keeps : String → ExperimentRecord → HttpResult Reply × Server S → Type 0
  Keeps j e (reply, server) = get_experiment server.db j ≡ some e

  -- A creation leaves every row that is there as it is.
  enqueue_new-keeps :
      (m : Moment) (i : Identity) (spec : Submission) (server : Server S) (j : String)
      (e : ExperimentRecord)
      → get_experiment server.db j ≡ some e
      → get_experiment (enqueue_new r m i spec server).1.db j ≡ some e
  enqueue_new-keeps m i spec server j e h =
      elim (Option-cases (
        create_experiment m.now spec.id spec.config_yaml spec.config_hash (owner_of i) server.db)) [
          | inl refused ↦ rw (refused, enqueue_new) h
          | inr (db, made) ↦
              let (absent, kept) =
                create-keeps m.now spec.id spec.config_yaml spec.config_hash j (owner_of i)
                  server.db db e made h in
              rw (made, enqueue_new)
                (if_both (Keeps j e) (is_committed m spec.repetitions)
                  (update_elsewhere m.now spec.id j queued db
                      (different spec.id j server.db e absent h)
                    ∙ kept)
                  h)
        ]

  pub create_route-Keeps :
      (m : Moment) (i : Identity) (spec : Option Submission) (server : Server S) (j : String)
      (e : ExperimentRecord)
      → get_experiment server.db j ≡ some e
      → Keeps j e (create_route r m i spec server)
  unfolding create_route
  create_route-Keeps m i none server j e h = h
  create_route-Keeps m i (some spec) server j e h =
      if_both (Keeps j e) (not (is_valid_id spec.id)) h (
        if_both (Keeps j e) (ltb max_experiment_repetitions spec.repetitions) h
          (by_status (status_of (get_experiment server.db spec.id))))
    where
      by_status : (o : Option Status) → Keeps j e (create_by_status r o m i spec server)
      by_status (some created) = h
      by_status (some queued) = h
      by_status (some completed) = h
      by_status (some failed) = h
      by_status (some cancelled) = h
      by_status (some running) = enqueue_new-keeps m i spec server j e h
      by_status (some cancel_requested) = enqueue_new-keeps m i spec server j e h
      by_status (some (other_status s)) = enqueue_new-keeps m i spec server j e h
      by_status none = enqueue_new-keeps m i spec server j e h

  rerun-Keeps :
      (m : Moment) (repetitions : Option ℕ) (x : ExperimentRecord) (id : String) (server : Server S)
      (j : String) (e : ExperimentRecord)
      → (id == j) ≡ false
      → get_experiment server.db j ≡ some e
      → Keeps j e (rerun r m repetitions x id server)
  rerun-Keeps m none x id server j e other h = h
  rerun-Keeps m (some n) x id server j e other h =
      if_both (Keeps j e) (is_committed m n)
        (update_elsewhere m.now id j queued server.db other ∙ h) h

  run_route-Keeps :
      (m : Moment) (i : Identity) (repetitions : String → Option ℕ) (id : String)
      (server : Server S) (j : String) (e : ExperimentRecord)
      → IsForeign e i
      → get_experiment server.db j ≡ some e
      → Keeps j e (run_route r m i repetitions id server)
  run_route-Keeps m i repetitions id server j e f h =
      run_route-cases r (Keeps j e) m i repetitions id server
        (λ x passed runnable.
          rerun-Keeps m (repetitions x.config_yaml) x id server j e
            (elsewhere id j i server.db e x h f passed) h)
        (λ code. h) h

  cancel_route-Keeps :
      (m : Moment) (i : Identity) (id reason : String) (server : Server S) (j : String)
      (e : ExperimentRecord)
      → IsForeign e i
      → get_experiment server.db j ≡ some e
      → Keeps j e (cancel_route m i id reason server)
  cancel_route-Keeps m i id reason server j e f h =
      cancel_route-cases r (Keeps j e) m i id reason server
        (λ x message passed.
          request_cancel_elsewhere m.now id j reason server.db
            (elsewhere id j i server.db e x h f passed)
          ∙ h)
        (λ reply. h)

  handle-Keeps :
      (m : Moment) (i : Identity) (request : Request) (server : Server S) (j : String)
      (e : ExperimentRecord)
      → IsForeign e i
      → get_experiment server.db j ≡ some e
      → Keeps j e (handle r m i request server)
  unfolding handle
  handle-Keeps m i (creates spec) server j e f h = create_route-Keeps m i spec server j e h
  handle-Keeps m i (runs_again repetitions id) server j e f h =
      run_route-Keeps m i repetitions id server j e f h
  handle-Keeps m i (cancels id reason) server j e f h =
      cancel_route-Keeps m i id reason server j e f h
  handle-Keeps m i _ server j e f h = h

  -- When an experiment belongs to an owner, whatever sequence of requests authenticated callers
  -- send that are not that owner and own some experiment of the database themselves, among them
  -- creations under its name, runs and cancellations, the experiment's row is afterwards exactly as
  -- it was.
  pub serve-keeps :
      (requests : List (Moment × Identity × Request)) (server : Server S) (j : String)
      (e : ExperimentRecord)
      → All (λ x. IsForeign e x.1 × OwnsOne server.db x.1) requests
      → get_experiment server.db j ≡ some e
      → get_experiment (serve r requests server).db j ≡ some e
  unfolding serve
  serve-keeps requests server j e foreign h = go requests server foreign h
    where
      go :
          (requests : List (Moment × Identity × Request)) (now : Server S)
          → All (λ x. IsForeign e x.1 × OwnsOne server.db x.1) requests
          → get_experiment now.db j ≡ some e
          → get_experiment (serve r requests now).db j ≡ some e
      go [] now foreign h = h
      go ((m, i, request) ∷ later) now ((f, own), fs) h =
          go later (handle r m i request now).1 fs (handle-Keeps m i request now j e f h)

  require_denied :
      (j : String) (i : Identity) (db : Database) (e : ExperimentRecord)
      → is_valid_id j ≡ true
      → get_experiment db j ≡ some e
      → IsForeign e i
      → require j i db ≡ http_exception 403
  unfolding require
  require_denied j i db e fit there f =
      rw (fit, require) (rw there (rw (IsForeign-denied e i f) refl))

  -- When an existing experiment belongs to an owner, a request to run, cancel or read it, to list
  -- its runs or to ask for its status, under a valid identifier, by an authenticated caller that is
  -- not that owner and owns some experiment of the database itself, is answered with status 403 and
  -- changes neither the database nor the queue.
  pub handle-denied :
      (m : Moment) (i : Identity) (request : Request) (server : Server S) (j : String)
      (e : ExperimentRecord)
      → subject request ≡ some j
      → is_valid_id j ≡ true
      → get_experiment server.db j ≡ some e
      → IsForeign e i
      → OwnsOne server.db i
      → handle r m i request server ≡ (http_exception 403, server)
  unfolding handle run_route cancel_route get_route runs_route status_route
  handle-denied m i request server j e about fit there f own = by_request request about
    where
      same :
          (id : String)
          → ◌≡◌ {A = Option String} (some id) (some j)
          → require id i server.db ≡ http_exception 403
      same id h = rw (named id h) (require_denied j i server.db e fit there f)
        where
          named : (id : String) → ◌≡◌ {A = Option String} (some id) (some j) → id ≡ j
          named id h = cc

      by_request :
          (q : Request) → subject q ≡ some j → handle r m i q server ≡ (http_exception 403, server)
      by_request (creates spec) h = cc
      by_request (runs_again repetitions id) h = rw (same id h, run_route) refl
      by_request (cancels id reason) h = rw (same id h, cancel_route) refl
      by_request (gets id) h = rw (same id h, get_route) refl
      by_request (get_runs_of id) h = rw (same id h, runs_route) refl
      by_request (get_status id) h = rw (same id h, status_route) refl
      by_request (lists status offset limit) h = cc
