-- ===== src/Core/Builders.antt =====
-- resiliencelab/core/builders.py: the runtime objects of a specification. A constructor may raise, so
-- each builder may.
pub mod Parts
pub mod Total
use Prim.Native.String.{◌++◌}
use resilience_lab.Common.{
  ℕ, String, Bool, true, false, Option, none, some, List, [], ◌∷◌, if◌then◌else◌,
}
use resilience_lab.Common.Checked.{Checked, ok, ◌>>=◌, ◌>>◌}
use resilience_lab.Core.Schema.Policies.{
  RetrySpec, BackoffSpec, CircuitBreakerSpec, TimeoutSpec, ConcurrencySpec, PolicySpec,
}
use resilience_lab.Resilience.Backoff
use resilience_lab.Resilience.Backoff.{Backoff, fixed}
use resilience_lab.Resilience.Jitter
use resilience_lab.Resilience.Jitter.{Jitter}
use resilience_lab.Resilience.Retry
use resilience_lab.Resilience.Retry.{Retry, default_retryable_exceptions}
use resilience_lab.Resilience.Retry.Budget
use resilience_lab.Resilience.Retry.Budget.{RetryBudget}
use resilience_lab.Resilience.CircuitBreaker
use resilience_lab.Resilience.CircuitBreaker.{CircuitBreaker}
use resilience_lab.Resilience.Timeout
use resilience_lab.Resilience.Timeout.{Timeout}
use resilience_lab.Resilience.Concurrency
use resilience_lab.Resilience.Concurrency.{ConcurrencyLimiter}

pub record ResiliencePolicy : Type 0 where
  pub retry : Option Retry
  pub timeout : Option Timeout
  pub circuit_breaker : Option CircuitBreaker
  pub concurrency : Option ConcurrencyLimiter
  pub name : String

unfoldable pub build_backoff : BackoffSpec → Checked Backoff
build_backoff spec = Backoff.make spec.kind spec.base spec.maximum spec.factor_num spec.factor_den

unfoldable pub build_jitter : BackoffSpec → Checked Jitter
build_jitter spec = Jitter.make spec.jitter spec.jitter_num spec.jitter_den

unfoldable pub build_budget : Option ℕ → ℕ → Checked (Option RetryBudget)
build_budget none window = ok none
build_budget (some max_retries) window = do
  budget ← Budget.make max_retries window
  ok (some budget)

unfoldable pub build_retry : Option RetrySpec → BackoffSpec → Checked (Option Retry)
build_retry none backoff_spec = ok none
build_retry (some spec) backoff_spec = do
  budget ← build_budget spec.budget_max_retries spec.budget_window
  backoff ← build_backoff backoff_spec
  jitter ← build_jitter backoff_spec
  config ← Retry.check_config (record {
    max_attempts = spec.max_attempts;
    retryable_statuses = spec.retryable_statuses;
    retryable_exceptions = default_retryable_exceptions;
    backoff = backoff;
    jitter = jitter;
  })
  ok (some (record { config = config; budget = budget }))

unfoldable pub build_circuit_breaker : Option CircuitBreakerSpec → Checked (Option CircuitBreaker)
build_circuit_breaker none = ok none
build_circuit_breaker (some spec) = do
  breaker ← CircuitBreaker.make (record {
    failure_threshold = spec.threshold;
    recovery_window = spec.recovery_window;
    half_open_probes = spec.half_open_probes;
    rolling_window = spec.rolling_window;
    minimum_throughput = spec.minimum_throughput;
  })
  ok (some breaker)

abbrev pub made_timeout : TimeoutSpec → Checked (Option Timeout)
made_timeout spec = do timeout ← Timeout.make spec.connect spec.read spec.total; ok (some timeout)

unfoldable pub build_timeout : Option TimeoutSpec → Checked (Option Timeout)
build_timeout none = ok none
build_timeout (some spec) = elim spec.connect [
  | some _ ↦ made_timeout spec
  | none ↦ elim spec.read [
    | some _ ↦ made_timeout spec
    | none ↦ elim spec.total [ some _ ↦ made_timeout spec | none ↦ ok none ]
  ]
]

unfoldable pub build_concurrency : Option ConcurrencySpec → Checked (Option ConcurrencyLimiter)
build_concurrency none = ok none
build_concurrency (some spec) = do
  config ← Concurrency.check_config (record { limit = spec.limit; queue_limit = spec.queue_limit })
  ok (some (Concurrency.idle config))

-- `"+".join(names)`
abbrev join : List String → String
join [] = ""
join (name ∷ []) = name
join (name ∷ next ∷ rest) = (name ++ "+") ++ join (next ∷ rest)

abbrev pub named : {A : Type 0} → String → Option A → List String → List String
named name none rest = rest
named name (some _) rest = name ∷ rest

abbrev backoff_name : Option Retry → BackoffSpec → List String → List String
backoff_name none spec rest = rest
backoff_name (some _) spec rest = elim spec.kind [ fixed ↦ rest | _ ↦ "backoff" ∷ rest ]

abbrev pub mechanisms : Option Retry → Option Timeout → PolicySpec → List String
mechanisms retry timeout spec = named "retry" retry (
    backoff_name retry spec.backoff (
      named "circuit_breaker" spec.circuit_breaker
        (named "timeout" timeout (named "concurrency" spec.concurrency []))))

-- `… or "baseline"`
abbrev pub policy_name : List String → String
policy_name [] = "baseline"
policy_name names = join names

unfoldable pub build_policy : PolicySpec → Checked ResiliencePolicy
build_policy spec = do
  retry ← build_retry spec.retry spec.backoff
  timeout ← build_timeout spec.timeout
  circuit_breaker ← build_circuit_breaker spec.circuit_breaker
  concurrency ← build_concurrency spec.concurrency
  ok (record {
    retry = retry;
    timeout = timeout;
    circuit_breaker = circuit_breaker;
    concurrency = concurrency;
    name = policy_name (mechanisms retry timeout spec);
  })
