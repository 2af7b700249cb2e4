-- ===== src/Resilience/Policy.antt =====
-- resiliencelab/resilience/policy.py: the executor that composes the mechanisms around one call.
-- The breaker, the retry budget and the limiter are shared with other calls, which run while this one
-- awaits: what they do then is a function of the environment on the shared objects. The environment
-- also gives every reading of a clock, what the operation does, and what the random source draws. The
-- durations that events carry are left out.
pub mod Termination
pub mod Accounting
pub mod Slots
pub mod Probes
use resilience_lab.Common.{
  ℕ, zero, suc, ◌+◌, ◌-◌, Bool, true, false, Option, none, some, List, [], ◌∷◌, ◌++◌, ltb, leb,
  if◌then◌else◌, min, ◌&&◌,
}
use resilience_lab.Resilience.Errors.{
  timeout_error, FailureClass, deadline_exceeded, CallFailure, call_failure, circuit_open,
  concurrency_exceeded, deadline,
}
use resilience_lab.Resilience.Timeout.{Timeout}
use resilience_lab.Resilience.Retry.Budget.{RetryBudget}
use resilience_lab.Resilience.Retry.{
  RetryConfig, Retry, Decision, returns, raises, should_retry, delay_before,
}
use resilience_lab.Resilience.CircuitBreaker
use resilience_lab.Resilience.CircuitBreaker.{CircuitBreaker, allow, record_success, record_failure}
use resilience_lab.Resilience.Concurrency
use resilience_lab.Resilience.Concurrency.{ConcurrencyLimiter}

-- `ResiliencePolicy`, the parts that do not change …
pub record Policy : Type 0 where
  pub retry : Option RetryConfig
  pub timeout : Option Timeout

-- … and those that do, which all calls of the policy share.
pub record Shared : Type 0 where
  pub breaker : Option CircuitBreaker
  pub budget : Option RetryBudget
  pub limiter : Option ConcurrencyLimiter

pub data Reason : Type 0 where
  for_concurrency for_circuit_open for_deadline for_read_timeout : Reason

pub record Attempt : Type 0 where
  pub attempt : ℕ
  pub success : Bool
  pub timeout : Bool
  pub status : Option ℕ

pub data PolicyEvent : Type 0 where
  rejected_event timeout_event : Reason → PolicyEvent
  attempt_event : Attempt → PolicyEvent
  retry_event : ℕ → ℕ → Option ℕ → PolicyEvent

-- `PolicyExecutor`, one for each call.
pub record PolicyExecutor : Type 0 where
  pub calls : ℕ
  pub retries : ℕ
  pub rejected_circuit : ℕ
  pub rejected_concurrency : ℕ
  pub timeouts : ℕ
  pub backoff_seconds : ℕ
  pub events : List PolicyEvent

abbrev pub fresh : PolicyExecutor
fresh = record {
  calls = 0;
  retries = 0;
  rejected_circuit = 0;
  rejected_concurrency = 0;
  timeouts = 0;
  backoff_seconds = 0;
  events = [];
}

abbrev pub emit : PolicyEvent → PolicyExecutor → PolicyExecutor
emit event x = record x { events = x.events ++ event ∷ [] }

-- What the operation does by itself: it returns, or raises a `CallFailure`, a `TimeoutError`, or
-- another exception (cancellation included), after a time.
pub data Behaviour : Type 0 where
  value : ℕ → Behaviour
  failure : CallFailure → Behaviour
  timeout_raised other_raised : Behaviour

-- The environment of one pass of the loop.
pub record Round : Type 0 where
  pub top : ℕ  -- perf_counter() at the deadline's test
  pub at_call : ℕ  -- perf_counter() in `_call`
  pub duration : ℕ  -- how long the operation would take
  pub behaviour : Behaviour
  pub during_call : Shared → Shared
  pub recorded : ℕ  -- monotonic() of the recorded outcome
  pub opened : ℕ  -- monotonic() of `_open`
  pub budgeted : ℕ  -- monotonic() of the retry budget
  pub after_failure : ℕ  -- perf_counter() before a retry
  pub uniform : ℕ → ℕ → ℕ
  pub during_sleep : Shared → Shared
  pub sleep_cut : Bool  -- a cancellation ends the sleep before a retry

-- How the call ends: with a value, a `CallFailure`, or another exception, out of the operation or out
-- of the sleep before a retry.
pub data Result : Type 0 where
  returned : ℕ → Result
  raised : CallFailure → Result
  escaped interrupted : Result

-- `min(read, remaining)` where either may be absent.
abbrev read_limit : Option ℕ → Option ℕ → ℕ → Option ℕ
read_limit read none now = read
read_limit none (some d) now = some (d - now)
read_limit (some r) (some d) now = some (min r (d - now))

abbrev policy_read : Policy → Option ℕ
policy_read p = elim p.timeout [ none ↦ none | some t ↦ t.read ]

abbrev pub passed : Option ℕ → ℕ → Bool
passed none now = false
passed (some d) now = leb d now

abbrev timed_out : CallFailure
timed_out = call_failure none (some timeout_error)

abbrev unlimited : Behaviour → Result
unlimited (value v) = returned v
unlimited (failure f) = raised f
unlimited timeout_raised = escaped
unlimited other_raised = escaped

-- Under `asyncio.timeout`, for an operation that ended in time.
abbrev limited : Behaviour → PolicyExecutor → Result × PolicyExecutor
limited (value v) x = (returned v, x)
limited (failure f) x = (raised f, x)
limited timeout_raised x = (raised timed_out, emit (timeout_event for_read_timeout) x)
limited other_raised x = (escaped, x)

-- `_call`, as far as this executor sees it. An operation that ends when the limit does is cut off.
unfoldable pub call : Policy → Option ℕ → Round → PolicyExecutor → Result × PolicyExecutor
call p d r x =
    if passed d r.at_call
    then (raised deadline, x)
    else elim (read_limit (policy_read p) d r.at_call) [
      | none ↦ (unlimited r.behaviour, x)
      | some limit ↦
          if ltb r.duration limit
          then limited r.behaviour x
          else (raised timed_out, emit (timeout_event for_read_timeout) x)
    ]

abbrev pub note_success : ℕ → Shared → Shared
note_success now s = elim s.breaker [
  | none ↦ s
  | some b ↦ record s { breaker = some (record_success now b) }
]

abbrev pub note_failure : ℕ → ℕ → Shared → Shared
note_failure now later s = elim s.breaker [
  | none ↦ s
  | some b ↦ record s { breaker = some (record_failure now later b) }
]

pub record State : Type 0 where
  pub executor : PolicyExecutor
  pub shared : Shared

-- What a pass of the loop comes to.
pub data Next : Type 0 where
  finish : Result → Next
  again : Next

abbrev pub is_deadline : FailureClass → Bool
is_deadline deadline_exceeded = true
is_deadline _ = false

-- The wait before a retry, cut to what the deadline leaves.
abbrev pub cut_delay : Option ℕ → ℕ → ℕ → ℕ
cut_delay none now delay = delay
cut_delay (some d) now delay = min delay (d - now)

abbrev pub end_by_deadline : State → Next × State
end_by_deadline s =
    let x = s.executor in
    (
      finish (raised deadline),
      record s {
        executor = emit (timeout_event for_deadline) (record x { timeouts = x.timeouts + 1 });
      },
    )

-- The retry itself: count it, report it, sleep, where a cancellation raises.
abbrev sleep_and_retry : Round → ℕ → ℕ → CallFailure → State → Next × State
sleep_and_retry r attempts delay f s =
    let x = s.executor in
    (
      if ltb 0 delay && r.sleep_cut then finish interrupted else again,
      record {
        executor =
            emit (retry_event (attempts + 1) delay f.status)
              (record x { retries = x.retries + 1; backoff_seconds = x.backoff_seconds + delay });
        shared = if ltb 0 delay then r.during_sleep s.shared else s.shared;
      },
    )

before_retry : Option ℕ → Round → ℕ → CallFailure → Retry → State → Next × State
before_retry d r attempts f retry s =
    if passed d r.after_failure
    then end_by_deadline s
    else sleep_and_retry r attempts
        (cut_delay d r.after_failure (delay_before retry (attempts - 1) r.uniform)) f s

-- What follows the answer of `should_retry`.
obey : Option ℕ → Round → ℕ → CallFailure → Retry → Decision → State → Next × State
unfolding before_retry
obey d r attempts f retry (returns true) s = before_retry d r attempts f retry s
obey d r attempts f retry (returns false) s = (finish (raised f), s)
obey d r attempts f retry (raises g) s = (finish (raised g), s)

-- `if self.retry is not None and self.retry.should_retry(...)`
decide : Option RetryConfig → Option ℕ → Round → ℕ → CallFailure → State → Next × State
unfolding obey
decide none d r attempts f s = (finish (raised f), s)
decide (some config) d r attempts f s =
    let retry : Retry = record { config = config; budget = s.shared.budget } in
    let (decision, retry') = should_retry r.budgeted attempts f retry in
    obey d r attempts f retry' decision
      (record s { shared = record s.shared { budget = retry'.budget } })

abbrev pub attempt_of : ℕ → Bool → Bool → Option ℕ → PolicyEvent
attempt_of n success timeout status =
    attempt_event (record { attempt = n; success = success; timeout = timeout; status = status })

abbrev pub reported : ℕ → Bool → Bool → Option ℕ → PolicyExecutor → PolicyExecutor
reported n success timeout status = emit (attempt_of n success timeout status)

-- The `except` and `else` clauses around `_call`.
settle : Policy → Option ℕ → Round → ℕ → Result → State → Next × State
unfolding decide
settle p d r attempts_done (returned v) s = (
  finish (returned v),
  record {
    executor = reported (attempts_done + 1) true false none s.executor;
    shared = note_success r.recorded s.shared;
  },
)
settle p d r attempts_done (raised f) s =
    let x = s.executor in
    let noted = note_failure r.recorded r.opened s.shared in
    if is_deadline f.class
    then (
      finish (raised f),
      record {
        executor =
            reported (attempts_done + 1) false true none (record x { timeouts = x.timeouts + 1 });
        shared = noted;
      },
    )
    else decide p.retry d r (attempts_done + 1) f
        (record { executor = reported (attempts_done + 1) false false f.status x; shared = noted })
settle p d r attempts_done _ s = (finish escaped, s)

-- One pass of `while True`.
unfoldable pub round : Policy → Option ℕ → ℕ → Round → State → Next × State
unfolding settle call
round p d attempts_done r s =
    if passed d r.top
    then end_by_deadline s
    else (let x = s.executor in
        let (result, x') = call p d r (record x { calls = x.calls + 1 }) in
        settle p d r attempts_done result (record {
          executor = x';
          shared = if passed d r.at_call then s.shared else r.during_call s.shared;
        }))

-- The loop, on fuel; `none` means that the fuel ran out.
unfoldable pub loop : ℕ → Policy → Option ℕ → ℕ → (ℕ → Round) → State → Option (Result × State)
loop zero p d attempts_done env s = none
loop (suc fuel) p d attempts_done env s =
    let (next, s') = round p d attempts_done (env attempts_done) s in
    elim next [
      | finish result ↦ some (result, s')
      | again ↦ loop fuel p d (suc attempts_done) env s'
    ]

-- As many passes as the policy can ask for.
abbrev pub max_passes : Policy → ℕ
max_passes p = elim p.retry [ none ↦ 1 | some config ↦ suc config.max_attempts ]

-- The environment of a call before its loop: its start, its wait for a slot, the breaker's clock.
pub record Entry : Type 0 where
  pub task : ℕ
  pub start : ℕ
  pub wakeups : List (Shared → Shared)
  pub allowed_at : ℕ

-- `start + timeout.total if timeout and timeout.total else None`
abbrev pub deadline_of : Policy → ℕ → Option ℕ
deadline_of p start = elim p.timeout [
  | none ↦ none
  | some t ↦ elim t.total [
    | none ↦ none
    | some total ↦ if leb total 0 then none else some (start + total)
  ]
]

pub data Admission : Type 0 where
  admitted refused : Admission

-- The waits of `concurrency.acquire()`; `none` means that the call still waits.
unfoldable wait_for_slot : ℕ → List (Shared → Shared) → Shared → Option (Admission × Shared)
wait_for_slot task [] s = none
wait_for_slot task (others ∷ more) s =
    let s' = others s in
    let later = wait_for_slot task more s' in
    elim s'.limiter [
      | none ↦ later
      | some l ↦ elim (Concurrency.resume task l) [
        | none ↦ later
        | some (Concurrency.acquired, l') ↦ some (admitted, record s' { limiter = some l' })
        | some (Concurrency.rejected, l') ↦ some (refused, record s' { limiter = some l' })
        | some (Concurrency.waits, l') ↦ wait_for_slot task more (record s' { limiter = some l' })
      ]
    ]

unfoldable pub enter : Entry → Shared → Option (Admission × Shared)
unfolding wait_for_slot
enter e s = elim s.limiter [
  | none ↦ some (admitted, s)
  | some l ↦
      let (outcome, l') = Concurrency.attempt e.task l in
      let s' = record s { limiter = some l' } in
      elim outcome [
        | Concurrency.acquired ↦ some (admitted, s')
        | Concurrency.rejected ↦ some (refused, s')
        | Concurrency.waits ↦ wait_for_slot e.task e.wakeups s'
      ]
]

-- `if cb is not None and not cb.allow()`
unfoldable pub ask_breaker : ℕ → Shared → Bool × Shared
ask_breaker now s = elim s.breaker [
  | none ↦ (true, s)
  | some b ↦ let (ok, b') = allow now b in (ok, record s { breaker = some b' })
]

-- The `finally` clause.
abbrev pub leave : Shared → Shared
leave s = elim s.limiter [ none ↦ s | some l ↦ record s { limiter = some (Concurrency.release l) } ]

abbrev pub leave_with : Option (Result × State) → Option (Result × State)
leave_with none = none
leave_with (some (r, s)) = some (r, record s { shared = leave s.shared })

-- The two rejections before the loop.
abbrev pub refused_by_breaker : PolicyExecutor → Shared → Result × State
refused_by_breaker x s = (
  raised circuit_open,
  record {
    executor =
        emit (rejected_event for_circuit_open)
          (record x { rejected_circuit = x.rejected_circuit + 1 });
    shared = s;
  },
)

abbrev pub refused_by_limiter : PolicyExecutor → Shared → Result × State
refused_by_limiter x s = (
  raised concurrency_exceeded,
  record {
    executor =
        emit (rejected_event for_concurrency)
          (record x { rejected_concurrency = x.rejected_concurrency + 1 });
    shared = s;
  },
)

-- The body of the `try` statement.
unfoldable pub guarded : Policy → Entry → (ℕ → Round) → State → Option (Result × State)
unfolding ask_breaker
guarded p e env s =
    let (allowed, shared) = ask_breaker e.allowed_at s.shared in
    if allowed
    then loop (max_passes p) p (deadline_of p e.start) 0 env (record s { shared = shared })
    else some (refused_by_breaker s.executor shared)

unfoldable pub execute :
    Policy → Entry → (ℕ → Round) → PolicyExecutor → Shared → Option (Result × State)
unfolding enter guarded
execute p e env x s = elim (enter e s) [
  | none ↦ none
  | some (refused, s') ↦ some (refused_by_limiter x s')
  | some (admitted, s') ↦ leave_with (guarded p e env (record { executor = x; shared = s' }))
]
