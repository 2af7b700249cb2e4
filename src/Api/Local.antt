-- ===== src/Api/Local.antt =====
-- resiliencelab/api/app.py, the local mode: the runtime that keeps experiments in memory, with the registry of
-- resiliencelab/experiments/registry.py without a directory, and the routes that change it or answer from
-- it. A token is shared between the runtime and a running task: both hold its address in `heap`. Each
-- function runs as one step; the end of a task is a step of its own.
pub mod Cancelling
use resilience_lab.Common.{
  ℕ, zero, suc, ◌+◌, String, Bool, true, false, not, Option, none, some, List, [], ◌∷◌, ◌++◌, ltb,
  length, map, if◌then◌else◌,
}
use resilience_lab.Common.Dict.{lookup, store}
use text.Mathlib.Text.{◌==◌}
use resilience_lab.Core.Cancellation
use resilience_lab.Core.Cancellation.{CancellationToken}
use resilience_lab.Api.Server.{HttpResult, answers, http_exception, internal_error, is_valid_id}

pub data JobStatus : Type 0 where
  running failed cancelled completed cancel_requested unknown : JobStatus

pub record Job (R : Type 0) : Type 0 where
  pub status : JobStatus
  pub result : Option R
  pub error : Option String

-- What the runtime reads of a specification and of a result.
pub record Spec : Type 0 where
  pub id : String
  pub name : String

pub record Result : Type 0 where
  pub experiment : Spec
  pub is_cancelled : Bool
  pub cancellation_reason : Option String

pub record LocalRuntime : Type 0 where
  pub specs : List (String × Spec)
  pub results : List (String × Result)
  pub jobs : List (String × Job Result)
  pub tokens : List (String × ℕ)
  pub heap : List CancellationToken

abbrev register_spec : Spec → LocalRuntime → LocalRuntime
register_spec spec runtime = record runtime { specs = store spec.id spec runtime.specs }

abbrev register_result : Result → LocalRuntime → LocalRuntime
register_result x runtime = record runtime { results = store x.experiment.id x runtime.results }

abbrev pub job_with : JobStatus → Option Result → Option String → Job Result
job_with status x error = record { status = status; result = x; error = error }

-- A job that runs, with a new token under its key; the task that is started holds the token's address.
unfoldable pub start : String → Spec → LocalRuntime → ℕ × LocalRuntime
start key spec runtime =
    let address = length runtime.heap in
    let known : LocalRuntime = register_spec spec runtime in
    (
      address,
      record known {
        jobs = store key (job_with running none none) runtime.jobs;
        tokens = store key address runtime.tokens;
        heap = runtime.heap ++ Cancellation.new ∷ [];
      },
    )

-- `submit`
abbrev submit : Spec → LocalRuntime → ℕ × LocalRuntime
submit spec runtime = start spec.id spec runtime

-- How the runner ends.
pub data Ended : Type 0 where
  returned : Result → Ended
  raised : String → Ended

-- The end of `execute_and_store`.
unfoldable execute_and_store : Spec → Ended → LocalRuntime → LocalRuntime
execute_and_store spec (raised text) runtime = record runtime {
  jobs = store spec.id (job_with failed none (some text)) runtime.jobs;
}
execute_and_store spec (returned x) runtime =
    if x.is_cancelled
    then record runtime {
      jobs = store spec.id (job_with cancelled (some x) x.cancellation_reason) runtime.jobs;
    }
    else record (register_result x runtime) {
      jobs = store spec.id (job_with completed (some x) none) runtime.jobs;
    }

pub data Message : Type 0 where
  not_started not_found said_cancel_requested already_cancel_requested : Message
  already : JobStatus → Message

-- `reason or "user requested"`
abbrev pub reason_or : String → String
reason_or reason = if reason == "" then "user requested" else reason

abbrev pub request_at : ℕ → String → List CancellationToken → List CancellationToken
request_at a why [] = []
request_at zero why (t ∷ ts) = Cancellation.request why t ∷ ts
request_at (suc a) why (t ∷ ts) = t ∷ request_at a why ts

abbrev pub request_token : Option ℕ → String → List CancellationToken → List CancellationToken
request_token none why heap = heap
request_token (some a) why heap = request_at a why heap

abbrev pub ask : String → String → Job Result → LocalRuntime → (Bool × Message) × LocalRuntime
ask id reason job runtime = (
  (true, said_cancel_requested),
  record runtime {
    heap = request_token (lookup id runtime.tokens) (reason_or reason) runtime.heap;
    jobs = store id (record job { status = cancel_requested }) runtime.jobs;
  },
)

abbrev pub ask_by_status :
    JobStatus → String → String → Job Result → LocalRuntime → (Bool × Message) × LocalRuntime
ask_by_status completed id reason job runtime = ((false, already completed), runtime)
ask_by_status failed id reason job runtime = ((false, already failed), runtime)
ask_by_status cancelled id reason job runtime = ((false, already cancelled), runtime)
ask_by_status cancel_requested id reason job runtime = ((false, already_cancel_requested), runtime)
ask_by_status running id reason job runtime = ask id reason job runtime
ask_by_status unknown id reason job runtime = ask id reason job runtime

unfoldable pub request_cancel : String → String → LocalRuntime → (Bool × Message) × LocalRuntime
request_cancel id reason runtime = elim (lookup id runtime.jobs) [
  | none ↦ elim (lookup id runtime.specs) [
    | some spec ↦ ((false, not_started), runtime)
    | none ↦ ((false, not_found), runtime)
  ]
  | some job ↦ ask_by_status job.status id reason job runtime
]

-- `job`
unfoldable pub job_of : String → LocalRuntime → Job Result
job_of id runtime = elim (lookup id runtime.jobs) [
  | none ↦ job_with unknown none none
  | some job ↦ job
]

-- `_result_or_404`
unfoldable result_or_404 : String → LocalRuntime → HttpResult Result
result_or_404 id runtime = elim (lookup id runtime.results) [
  | none ↦ http_exception 404
  | some x ↦ answers x
]

-- The specification of an experiment, or that of its result.
abbrev pub known_spec : String → LocalRuntime → Option Spec
known_spec id runtime = elim (lookup id runtime.specs) [
  | some spec ↦ some spec
  | none ↦ elim (lookup id runtime.results) [ none ↦ none | some x ↦ some x.experiment ]
]

-- `POST /experiments`, of what the parser makes of the payload.
unfoldable pub create_route : Option Spec → LocalRuntime → HttpResult Spec × LocalRuntime
create_route none runtime = (http_exception 422, runtime)
create_route (some spec) runtime =
    if not (is_valid_id spec.id)
    then (http_exception 422, runtime)
    else (answers spec, register_spec spec runtime)

-- `GET /experiments/{id}`
unfoldable pub get_route : String → LocalRuntime → HttpResult Spec
get_route id runtime =
    if not (is_valid_id id)
    then http_exception 422
    else elim (known_spec id runtime) [ none ↦ http_exception 404 | some spec ↦ answers spec ]

-- `POST /experiments/{id}/run`; the answer has the address of the task's token.
unfoldable pub run_route : String → LocalRuntime → HttpResult ℕ × LocalRuntime
run_route id runtime =
    if not (is_valid_id id) then (http_exception 422, runtime) else elim (known_spec id runtime) [
      | none ↦ (http_exception 404, runtime)
      | some spec ↦ let (address, runtime') = start id spec runtime in (answers address, runtime')
    ]

abbrev pub is_not_found : Message → Bool
is_not_found not_found = true
is_not_found _ = false

abbrev cancel_answer : Bool × Message → HttpResult Message
cancel_answer (success, message) =
    if success
    then answers message
    else if is_not_found message
    then http_exception 404
    else answers message

-- `POST /experiments/{id}/cancel`
unfoldable pub cancel_route : String → String → LocalRuntime → HttpResult Message × LocalRuntime
cancel_route id reason runtime =
    if not (is_valid_id id)
    then (http_exception 422, runtime)
    else let (answer, runtime') = request_cancel id reason runtime in
      (cancel_answer answer, runtime')

-- `GET /experiments/{id}/status`
unfoldable pub status_route : String → LocalRuntime → HttpResult (JobStatus × Option String)
status_route id runtime =
    if not (is_valid_id id)
    then http_exception 422
    else let job = job_of id runtime in answers (job.status, job.error)

-- The routes over a result: its metrics, timeline, events, report and analysis.
unfoldable result_route : String → LocalRuntime → HttpResult Result
result_route id runtime =
    if not (is_valid_id id) then http_exception 422 else result_or_404 id runtime
