-- ===== src/Core/Schema/Policies.antt =====
-- resiliencelab/core/schema.py: the specification of a policy. Durations are in ticks and a factor is
-- a fraction, as in the mechanisms. What pydantic checks field by field is `has_valid_fields`.
use resilience_lab.Common.{ℕ, Bool, true, ◌&&◌, Option, none, some, List, ltb, leb, if◌then◌else◌}
use resilience_lab.Resilience.Backoff.{BackoffKind}
use resilience_lab.Resilience.Jitter.{JitterKind}

pub record RetrySpec : Type 0 where
  pub enabled : Bool
  pub max_attempts : ℕ
  pub retryable_statuses : List ℕ
  pub budget_max_retries : Option ℕ
  pub budget_window : ℕ

pub record BackoffSpec : Type 0 where
  pub kind : BackoffKind
  pub base : ℕ
  pub maximum : ℕ
  pub factor_num : ℕ
  pub factor_den : ℕ
  pub jitter : JitterKind
  pub jitter_num : ℕ
  pub jitter_den : ℕ

pub record CircuitBreakerSpec : Type 0 where
  pub enabled : Bool
  pub threshold : ℕ
  pub recovery_window : ℕ
  pub half_open_probes : ℕ
  pub rolling_window : Option ℕ
  pub minimum_throughput : ℕ

pub record TimeoutSpec : Type 0 where
  pub connect : Option ℕ
  pub read : Option ℕ
  pub total : Option ℕ

pub record ConcurrencySpec : Type 0 where
  pub enabled : Bool
  pub limit : ℕ
  pub queue_limit : Option ℕ

pub record PolicySpec : Type 0 where
  pub retry : Option RetrySpec
  pub backoff : BackoffSpec
  pub circuit_breaker : Option CircuitBreakerSpec
  pub timeout : Option TimeoutSpec
  pub concurrency : Option ConcurrencySpec

-- `gt=0` of a field that may be absent
abbrev is_positive : Option ℕ → Bool
is_positive none = true
is_positive (some n) = ltb 0 n

abbrev pub retry_fields : Option RetrySpec → Bool
retry_fields none = true
retry_fields (some r) = leb 1 r.max_attempts && ltb 0 r.budget_window

abbrev pub backoff_fields : BackoffSpec → Bool
backoff_fields b = leb b.factor_den b.factor_num && leb b.jitter_num b.jitter_den

abbrev pub circuit_breaker_fields : Option CircuitBreakerSpec → Bool
circuit_breaker_fields none = true
circuit_breaker_fields (some c) =
    leb 1 c.threshold
    && (leb 1 c.half_open_probes && (is_positive c.rolling_window && leb 1 c.minimum_throughput))

abbrev pub timeout_fields : Option TimeoutSpec → Bool
timeout_fields none = true
timeout_fields (some t) = is_positive t.connect && (is_positive t.read && is_positive t.total)

abbrev pub concurrency_fields : Option ConcurrencySpec → Bool
concurrency_fields none = true
concurrency_fields (some c) = leb 1 c.limit

unfoldable pub has_valid_fields : PolicySpec → Bool
has_valid_fields p =
    retry_fields p.retry
    && (backoff_fields p.backoff
        && (circuit_breaker_fields p.circuit_breaker
            && (timeout_fields p.timeout && concurrency_fields p.concurrency)))

-- The result of `PolicySpec.model_validate`.
pub data Validated : Type 0 where
  valid : PolicySpec → Validated
  invalid_field base_over_maximum : Validated

-- `self.retry = None` for a retry that is not enabled.
abbrev pub enabled_retry : Option RetrySpec → Option RetrySpec
enabled_retry none = none
enabled_retry (some r) = if r.enabled then some r else none

-- `_check_consistency`
unfoldable pub check_consistency : PolicySpec → Validated
check_consistency p =
    if ltb p.backoff.maximum p.backoff.base
    then base_over_maximum
    else valid (record p { retry = enabled_retry p.retry })

unfoldable pub validate : PolicySpec → Validated
validate p = if has_valid_fields p then check_consistency p else invalid_field
