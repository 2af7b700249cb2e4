-- ===== src/Core/Builders/Total.antt =====
-- resiliencelab/core/builders.py: what a validated specification builds.
use resilience_lab.Common.{◌≤◌, ◌≡◌, refl, true, Option, none, some, arith}
use resilience_lab.Common.Checked.{ok}
use resilience_lab.Core.Schema.Policies.{
  RetrySpec, PolicySpec, retry_fields, has_valid_fields, check_consistency, validate, valid,
  enabled_retry,
}
use resilience_lab.Core.Builders.{ResiliencePolicy, build_policy, policy_name, mechanisms}
use resilience_lab.Core.Builders.Parts.{
  Fits, RetryOf, BreakerOf, TimeoutFits, LimiterOf, build_retry-Builds,
  build_circuit_breaker-Builds, build_timeout-Builds, build_concurrency-Builds,
}

-- The factors are fractions: their denominators are positive.
pub record HasFractions (p : PolicySpec) : Type 0 where
  pub factor : 1 ≤ p.backoff.factor_den
  pub jitter : 1 ≤ p.backoff.jitter_den

-- The parts of a policy against those of its specification.
pub record PolicyOf (p : PolicySpec) (built : ResiliencePolicy) : Type 0 where
  pub retry : Fits (RetryOf p.backoff) (enabled_retry p.retry) built.retry
  pub breaker : Fits BreakerOf p.circuit_breaker built.circuit_breaker
  pub timeout : TimeoutFits p.timeout built.timeout
  pub limiter : Fits LimiterOf p.concurrency built.concurrency

enabled_retry-fields :
    (r : Option RetrySpec) → retry_fields r ≡ true → retry_fields (enabled_retry r) ≡ true
enabled_retry-fields none h = refl
enabled_retry-fields (some r) h = ground arith

-- What the fields of an accepted specification satisfy.
accepted :
    (p q : PolicySpec)
    → validate p ≡ valid q
    → (has_valid_fields p ≡ true)
      × (p.backoff.base ≤ p.backoff.maximum)
      × (record p { retry = enabled_retry p.retry } ≡ q)
unfolding validate check_consistency
accepted p q e = (ground arith, ground arith, ground arith)

-- Of a specification that validation accepts, with factors that are fractions, every part is
-- built without an exception: a valid backoff and jitter with an empty budget for a retry that is
-- enabled, a valid closed breaker and an idle limiter whenever one is specified, and a valid
-- timeout when a limit is given.
pub build_policy-validate :
    (p q : PolicySpec)
    → HasFractions p
    → validate p ≡ valid q
    → (built : ResiliencePolicy) × (build_policy q ≡ ok built) × PolicyOf p built
unfolding build_policy has_valid_fields
build_policy-validate p q f e =
    let (fields, ordered, same) = accepted p q e in
    let (retry, e1, of_retry) =
      build_retry-Builds (enabled_retry p.retry) p.backoff f.factor f.jitter ordered
        (enabled_retry-fields p.retry (ground arith)) (ground arith) in
    let (timeout, e2, of_timeout) = build_timeout-Builds p.timeout (ground arith) in
    let (breaker, e3, of_breaker) = build_circuit_breaker-Builds p.circuit_breaker (ground arith) in
    let (limiter, e4, of_limiter) = build_concurrency-Builds p.concurrency (ground arith) in
    let built : ResiliencePolicy = record {
      retry = retry;
      timeout = timeout;
      circuit_breaker = breaker;
      concurrency = limiter;
      name = policy_name (mechanisms retry timeout p);
    } in
    rw⁻¹ same (
      built,
      rw (e1, build_policy) (rw e2 (rw e3 (rw e4 refl))),
      record { retry = of_retry; breaker = of_breaker; timeout = of_timeout; limiter = of_limiter },
    )
