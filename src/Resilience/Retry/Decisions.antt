-- ===== src/Resilience/Retry/Decisions.antt =====
-- What a decision to retry says of the failure, of the attempts and of the budget.
use resilience_lab.Common.{ℕ, ◌*◌, ◌≤◌, ◌<◌, ◌≡◌, ◌↔◌, Bool, true, false, none, some, arith}
use resilience_lab.Resilience.Errors.{CallFailure, budget_exhausted}
use resilience_lab.Resilience.Backoff
use resilience_lab.Resilience.Jitter
use resilience_lab.Resilience.Retry.Budget.{acquire}
use resilience_lab.Resilience.Retry.{
  Retry, status_refused, cause_refused, returns, raises, should_retry, delay_before,
}

-- The failure may be retried, budget aside.
pub record IsEligible (attempts_done : ℕ) (failure : CallFailure) (r : Retry) : Type 0 where
  pub attempts_left : attempts_done < r.max_attempts
  pub retryable : failure.retryable ≡ true
  pub status_allowed : status_refused r failure ≡ false
  pub cause_allowed : cause_refused r failure ≡ false

-- Whether the budget would grant a retry at this time; no budget grants every one.
abbrev pub budget_grants : ℕ → Retry → Bool
budget_grants now r = elim r.budget [ none ↦ true | some budget ↦ (acquire now budget).0 ]

-- `should_retry` says yes exactly for an eligible failure that the budget grants, raises the
-- exhausted budget exactly for an eligible failure that the budget refuses, and changes nothing
-- when it says no. Eligible is a failure with attempts left, marked retryable, whose status and
-- cause, if any, are listed.
pub should_retry_lem :
    (now attempts_done : ℕ) (failure : CallFailure) (r : Retry)
    → (((should_retry now attempts_done failure r).0 ≡ returns true)
        ↔ (IsEligible attempts_done failure r × (budget_grants now r ≡ true)))
      × (((should_retry now attempts_done failure r).0 ≡ raises budget_exhausted)
          ↔ (IsEligible attempts_done failure r × (budget_grants now r ≡ false)))
      × ((should_retry now attempts_done failure r).0 ≡ returns false
          → (should_retry now attempts_done failure r).1 ≡ r)
unfolding should_retry
should_retry_lem now attempts_done failure r = ground arith

-- No decision touches the configuration.
config-should_retry :
    (now attempts_done : ℕ) (failure : CallFailure) (r : Retry)
    → (should_retry now attempts_done failure r).1.config ≡ r.config
unfolding should_retry
config-should_retry now attempts_done failure r = ground arith

-- For a valid jitter and a random source that draws within its bounds, the wait before a retry is
-- at most twice the maximal delay.
delay_before-le :
    (r : Retry) (retries_done : ℕ) (uniform : ℕ → ℕ → ℕ)
    → Jitter.IsValid r.jitter
    → Jitter.IsUniform uniform
    → delay_before r retries_done uniform ≤ 2 * r.backoff.max_delay
unfolding delay_before
delay_before-le r retries_done uniform v u = omega (
  arith,
  Jitter.apply-le-twice r.jitter (Backoff.delay r.backoff retries_done) uniform v u,
  Backoff.delay-le-max_delay r.backoff retries_done,
)
