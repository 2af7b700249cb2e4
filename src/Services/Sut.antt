-- ===== src/Services/Sut.antt =====
-- resiliencelab/services/sut.py: how the system under test answers a request, by the end of its call
-- downstream. The web routes are left out; any other exception passes through.
use resilience_lab.Common.{ℕ, Option, none, some}
use resilience_lab.Resilience.Errors.{
  plain_failure, circuit_open_error, concurrency_limit_exceeded, retry_budget_exhausted,
  deadline_exceeded, service_saturated, CallFailure,
}
use resilience_lab.Resilience.Policy.{Result, returned, raised, escaped, interrupted}

pub data Body : Type 0 where
  all_well circuit_is_open deadline_passed overloaded dependency_failed : Body

pub record ServiceResponse : Type 0 where
  pub status_code : ℕ
  pub body : Body

abbrev pub response : ℕ → Body → ServiceResponse
response code body = record { status_code = code; body = body }

abbrev status_or : ℕ → Option ℕ → ℕ
status_or other none = other
status_or other (some status) = status

-- The `except` clauses in their order.
abbrev answer_failure : CallFailure → ServiceResponse
answer_failure f = elim f.class [
  | circuit_open_error ↦ response 503 circuit_is_open
  | deadline_exceeded ↦ response 504 deadline_passed
  | concurrency_limit_exceeded ↦ response 429 overloaded
  | plain_failure ↦ response (status_or 502 f.status) dependency_failed
  | retry_budget_exhausted ↦ response (status_or 502 f.status) dependency_failed
  | service_saturated ↦ response (status_or 502 f.status) dependency_failed
]

-- `none`: the exception passes through `handle`.
unfoldable pub handle : Result → Option ServiceResponse
handle (returned value) = some (response 200 all_well)
handle (raised f) = some (answer_failure f)
handle escaped = none
handle interrupted = none
