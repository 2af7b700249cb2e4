-- ===== src/Resilience/Retry.antt =====
-- resiliencelab/resilience/retry.py: whether to retry a failure, and after what delay.
pub mod Budget
pub mod SlidingWindow
pub mod Decisions
use resilience_lab.Common.{
  ℕ, ◌≡◌, Bool, true, false, not, ◌||◌, Option, none, some, List, [], ◌∷◌, ltb, leb, ◌==◌,
  if◌then◌else◌,
}
use resilience_lab.Common.Checked.{Checked, ok, ◌>>=◌, ◌>>◌, raise_if}
use resilience_lab.Resilience.Errors.{
  ExceptionClass, connection_error, timeout_error, is_instance, CallFailure, budget_exhausted,
}
use resilience_lab.Resilience.Backoff
use resilience_lab.Resilience.Backoff.{Backoff}
use resilience_lab.Resilience.Jitter
use resilience_lab.Resilience.Jitter.{Jitter}
use Budget.{RetryBudget, acquire}

abbrev pub default_retryable_statuses : List ℕ
default_retryable_statuses = 429 ∷ 500 ∷ 502 ∷ 503 ∷ 504 ∷ []

abbrev pub default_retryable_exceptions : List ExceptionClass
default_retryable_exceptions = connection_error ∷ timeout_error ∷ []

pub record RetryConfig : Type 0 where
  pub max_attempts : ℕ
  pub retryable_statuses : List ℕ
  pub retryable_exceptions : List ExceptionClass
  pub backoff : Backoff
  pub jitter : Jitter

-- `__post_init__`
unfoldable pub check_config : RetryConfig → Checked RetryConfig
check_config c = do raise_if (ltb c.max_attempts 1) "max_attempts must be >= 1"; ok c

pub record Retry : Type 0 where
  pub config : RetryConfig
  pub open config use *
  pub budget : Option RetryBudget

-- `status in statuses`
abbrev pub contains : List ℕ → ℕ → Bool
contains [] status = false
contains (s ∷ rest) status = s == status || contains rest status

-- `any(isinstance(cause, exc) for exc in classes)`
abbrev any_instance : ExceptionClass → List ExceptionClass → Bool
any_instance cause [] = false
any_instance cause (class ∷ rest) = is_instance cause class || any_instance cause rest

abbrev pub status_refused : Retry → CallFailure → Bool
status_refused r failure = elim failure.status [
  | none ↦ false
  | some status ↦ not (contains r.retryable_statuses status)
]

abbrev pub cause_refused : Retry → CallFailure → Bool
cause_refused r failure = elim failure.cause [
  | none ↦ false
  | some cause ↦ not (any_instance cause r.retryable_exceptions)
]

-- `should_retry` returns a Boolean, or raises.
pub data Decision : Type 0 where
  returns : Bool → Decision
  raises : CallFailure → Decision

ask_budget : ℕ → Retry → Decision × Retry
ask_budget now r = elim r.budget [
  | none ↦ (returns true, r)
  | some budget ↦
      let (granted, budget') = acquire now budget in
      let r' = record r { budget = some budget' } in
      if granted then (returns true, r') else (raises budget_exhausted, r')
]

-- `now` is the budget's reading of the monotonic clock.
unfoldable pub should_retry : ℕ → ℕ → CallFailure → Retry → Decision × Retry
unfolding ask_budget
should_retry now attempts_done failure r =
    if leb r.max_attempts attempts_done
    then (returns false, r)
    else if not failure.retryable
    then (returns false, r)
    else if status_refused r failure
    then (returns false, r)
    else if cause_refused r failure
    then (returns false, r)
    else ask_budget now r

unfoldable pub delay_before : Retry → ℕ → (ℕ → ℕ → ℕ) → ℕ
delay_before r retries_done uniform =
    Jitter.apply r.jitter (Backoff.delay r.backoff retries_done) uniform
