-- ===== src/Api/Local/Cancelling.antt =====
-- resiliencelab/api/app.py, the local mode: what a request to cancel reaches.
use resilience_lab.Common.{
  ℕ, zero, suc, ◌≡◌, ◌<◌, refl, ◌∙◌, ap, String, Bool, true, false, Option, none, some, List, [],
  ◌∷◌, ◌++◌, length, if◌then◌else◌, arith, length-append,
}
use resilience_lab.Common.Dict.{lookup, store, lookup-store}
use text.Mathlib.Text.{◌==◌}
use text.Mathlib.TextPositions.{eq_refl}
use resilience_lab.Core.Cancellation
use resilience_lab.Core.Cancellation.{CancellationToken}
use resilience_lab.Api.Server.{answers, is_valid_id}
use resilience_lab.Api.Local.{
  JobStatus, running, failed, cancelled, completed, cancel_requested, unknown, Job, Spec, Result,
  LocalRuntime, start, known_spec, run_route, ask_by_status, request_cancel, request_at,
  request_token, reason_or, job_with,
}

abbrev pub token_at : ℕ → List CancellationToken → Option CancellationToken
token_at a [] = none
token_at zero (t ∷ ts) = some t
token_at (suc a) (t ∷ ts) = token_at a ts

abbrev can_ask : JobStatus → Bool
can_ask running = true
can_ask unknown = true
can_ask _ = false

ask-status :
    (s : JobStatus) (id j reason : String) (job : Job Result) (runtime : LocalRuntime)
    → let (answer, runtime') = ask_by_status s id reason job runtime in
      (answer.0 ≡ can_ask s)
      × (lookup j runtime'.jobs ≡ (
          if can_ask s
          then (if id == j
              then some (record job { status = cancel_requested })
              else lookup j runtime.jobs)
          else lookup j runtime.jobs))
      × (runtime'.heap ≡ (
          if can_ask s
          then request_token (lookup id runtime.tokens) (reason_or reason) runtime.heap
          else runtime.heap))
ask-status running id j reason job runtime =
    (refl, lookup-store j id (record job { status = cancel_requested }) runtime.jobs, refl)
ask-status unknown id j reason job runtime =
    (refl, lookup-store j id (record job { status = cancel_requested }) runtime.jobs, refl)
ask-status failed id j reason job runtime = (refl, refl, refl)
ask-status cancelled id j reason job runtime = (refl, refl, refl)
ask-status completed id j reason job runtime = (refl, refl, refl)
ask-status cancel_requested id j reason job runtime = (refl, refl, refl)

-- A request to cancel a stored job stops that job, and leaves every other as it was.
pub request_cancel_lem :
    (id j reason : String) (job : Job Result) (runtime : LocalRuntime)
    → lookup id runtime.jobs ≡ some job
    → let (answer, runtime') = request_cancel id reason runtime in
      (answer.0 ≡ can_ask job.status)
      × (lookup j runtime'.jobs ≡ (
          if can_ask job.status
          then (if id == j
              then some (record job { status = cancel_requested })
              else lookup j runtime.jobs)
          else lookup j runtime.jobs))
      × (runtime'.heap ≡ (
          if can_ask job.status
          then request_token (lookup id runtime.tokens) (reason_or reason) runtime.heap
          else runtime.heap))
unfolding request_cancel
request_cancel_lem id j reason job runtime there =
    rw (there, request_cancel) (ask-status job.status id j reason job runtime)

token-append :
    (ts : List CancellationToken) (t : CancellationToken)
    → token_at (length ts) (ts ++ t ∷ []) ≡ some t
token-append [] t = refl
token-append (u ∷ ts) t = token-append ts t

token_below :
    (a : ℕ) (ts us : List CancellationToken) → a < length ts → token_at a (ts ++ us) ≡ token_at a ts
token_below a [] us h = absurd (omega (arith, h))
token_below zero (t ∷ ts) us h = refl
token_below (suc a) (t ∷ ts) us h = token_below a ts us (omega (arith, h))

request_elsewhere :
    (a b : ℕ) (why : String) (ts : List CancellationToken)
    → a < b
    → token_at a (request_at b why ts) ≡ token_at a ts
request_elsewhere a b why [] h = refl
request_elsewhere zero zero why (t ∷ ts) h = absurd (omega (arith, h))
request_elsewhere zero (suc b) why (t ∷ ts) h = refl
request_elsewhere (suc a) zero why (t ∷ ts) h = refl
request_elsewhere (suc a) (suc b) why (t ∷ ts) h = request_elsewhere a b why ts (omega (arith, h))

restarted :
    (id : String) (spec : Spec) (runtime : LocalRuntime)
    → is_valid_id id ≡ true
    → known_spec id runtime ≡ some spec
    → spec.id ≡ id
    → (run_route id runtime ≡ (answers (length runtime.heap), (start id spec runtime).1))
      × (known_spec id (start id spec runtime).1 ≡ some spec)
unfolding run_route start
restarted id spec runtime fit known same = (
  rw (fit, run_route) (rw known refl),
  found (lookup-store id spec.id spec runtime.specs ∙ rw same (rw (eq_refl id) refl)),
)
  where
    found :
        lookup id (store spec.id spec runtime.specs) ≡ some spec
        → known_spec id (start id spec runtime).1 ≡ some spec
    found e = rw (e, known_spec) refl

-- When an experiment is run twice in the local mode and then cancelled, the cancellation
-- succeeds, and the token of the first task stays uncancelled.
pub run_route_twice :
    (id reason : String) (spec : Spec) (runtime : LocalRuntime)
    → is_valid_id id ≡ true
    → known_spec id runtime ≡ some spec
    → spec.id ≡ id
    → let (first, once) = run_route id runtime in
      let (second, twice) = run_route id once in
      let (answer, after) = request_cancel id reason twice in
      (first ≡ answers (length runtime.heap))
      × (answer.0 ≡ true)
      × (token_at (length runtime.heap) after.heap ≡ some Cancellation.new)
unfolding start
run_route_twice id reason spec runtime fit known same =
    let once = (start id spec runtime).1 in
    let (r1, k1) = restarted id spec runtime fit known same in
    let (r2, k2) = restarted id spec once fit k1 same in
    let twice = (start id spec once).1 in
    let b = length (runtime.heap ++ Cancellation.new ∷ []) in
    let job : Job Result = job_with running none none in
    let there : lookup id twice.jobs ≡ some job =
      lookup-store id id job once.jobs ∙ rw (eq_refl id) refl in
    let token : lookup id twice.tokens ≡ some b =
      lookup-store id id b once.tokens ∙ rw (eq_refl id) refl in
    let (asked, jobs, heap) = request_cancel_lem id id reason job twice there in
    let before : length runtime.heap < b =
      omega (arith, length-append runtime.heap (Cancellation.new ∷ [])) in
    rw r1 (
      rw r2 (
        refl,
        asked,
        ap (token_at (length runtime.heap)) (heap ∙ rw token refl)
            ∙ request_elsewhere (length runtime.heap) b (reason_or reason) twice.heap before
            ∙ token_below (length runtime.heap) once.heap (Cancellation.new ∷ []) before
            ∙ token-append runtime.heap Cancellation.new,
      ))
