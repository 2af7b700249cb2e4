-- ===== src/Core/Builders/Parts.antt =====
-- resiliencelab/core/builders.py: what each part of a validated specification builds.
use resilience_lab.Common.{ℕ, ◌≤◌, ◌≡◌, refl, true, Option, none, some, [], arith, inl, inr, ◌⊎◌}
use resilience_lab.Common.Checked.{Checked, ok, ◌>>=◌}
use resilience_lab.Core.Schema.Policies.{
  RetrySpec, BackoffSpec, CircuitBreakerSpec, TimeoutSpec, ConcurrencySpec, retry_fields,
  backoff_fields, circuit_breaker_fields, timeout_fields, concurrency_fields,
}
use resilience_lab.Core.Builders.{
  build_backoff, build_jitter, build_budget, build_retry, build_circuit_breaker, made_timeout,
  build_timeout, build_concurrency,
}
use resilience_lab.Resilience.Backoff
use resilience_lab.Resilience.Backoff.{Backoff}
use resilience_lab.Resilience.Jitter
use resilience_lab.Resilience.Jitter.{Jitter}
use resilience_lab.Resilience.Retry
use resilience_lab.Resilience.Retry.{Retry, RetryConfig, default_retryable_exceptions}
use resilience_lab.Resilience.Retry.Budget
use resilience_lab.Resilience.Retry.Budget.{RetryBudget}
use resilience_lab.Resilience.CircuitBreaker
use resilience_lab.Resilience.CircuitBreaker.{CircuitBreaker, CircuitBreakerConfig, closed}
use resilience_lab.Resilience.CircuitBreaker.Invariant
use resilience_lab.Resilience.Timeout
use resilience_lab.Resilience.Timeout.{Timeout}
use resilience_lab.Resilience.Concurrency
use resilience_lab.Resilience.Concurrency.{ConcurrencyLimiter, ConcurrencyLimitConfig}

-- A builder returns, and what it returns is good.
abbrev Builds : {A : Type 0} → Checked A → (A → Type 0) → Type 0
Builds {A} m Good = (a : A) × (m ≡ ok a) × Good a

Builds-bind :
    {A B : Type 0} (m : Checked A) (f : A → Checked B) {GoodA : A → Type 0} {GoodB : B → Type 0}
    → Builds m GoodA
    → ((a : A) → GoodA a → Builds (f a) GoodB)
    → Builds (m >>= f) GoodB
Builds-bind m f (a, e, good) next = rw e (next a good)

-- What is built of an optional part: something of each part that is given, and nothing of others.
abbrev pub Fits : {S A : Type 0} → (S → A → Type 0) → Option S → Option A → Type 0
Fits Good none none = Unit
Fits Good (some s) (some a) = Good s a
Fits Good none (some a) = ⊥
Fits Good (some s) none = ⊥

build_backoff-Builds :
    (b : BackoffSpec)
    → 1 ≤ b.factor_den
    → b.base ≤ b.maximum
    → backoff_fields b ≡ true
    → Builds (build_backoff b) Backoff.IsValid
unfolding build_backoff Backoff.make
build_backoff-Builds b den ordered h =
    let built : Backoff = record {
      kind = b.kind;
      base = b.base;
      max_delay = b.maximum;
      factor_num = b.factor_num;
      factor_den = b.factor_den;
    } in
    (
      built,
      ground arith,
      record { den_positive = den; grows = ground arith; base_le_max = ordered },
    )

build_jitter-Builds :
    (b : BackoffSpec)
    → 1 ≤ b.jitter_den
    → backoff_fields b ≡ true
    → Builds (build_jitter b) Jitter.IsValid
unfolding build_jitter Jitter.make
build_jitter-Builds b den h =
    let built : Jitter = record {
      kind = b.jitter;
      factor_num = b.jitter_num;
      factor_den = b.jitter_den;
    } in
    (built, ground arith, record { den_positive = den; at_most_one = ground arith })

-- An empty budget with the limit and window of the specification, if it has a limit.
abbrev BudgetOf : ℕ → Option ℕ → Option RetryBudget → Type 0
BudgetOf window = Fits (λ limit budget.
    (budget.max_retries ≡ limit) × (budget.window ≡ window) × (budget.timestamps ≡ []))

build_budget-Builds :
    (limit : Option ℕ) (window : ℕ)
    → 1 ≤ window
    → Builds (build_budget limit window) (BudgetOf window limit)
unfolding build_budget Budget.make
build_budget-Builds none window positive = (none, refl, tt)
build_budget-Builds (some n) window positive =
    let budget : RetryBudget = record { max_retries = n; window = window; timestamps = [] } in
    (some budget, ground arith, (refl, refl, refl))

pub record RetryOf (b : BackoffSpec) (s : RetrySpec) (r : Retry) : Type 0 where
  pub attempts : r.max_attempts ≡ s.max_attempts
  pub attempts_positive : 1 ≤ r.max_attempts
  pub statuses : r.retryable_statuses ≡ s.retryable_statuses
  pub valid_backoff : Backoff.IsValid r.backoff
  pub valid_jitter : Jitter.IsValid r.jitter
  pub budgeted : BudgetOf s.budget_window s.budget_max_retries r.budget

pub build_retry-Builds :
    (spec : Option RetrySpec) (b : BackoffSpec)
    → 1 ≤ b.factor_den
    → 1 ≤ b.jitter_den
    → b.base ≤ b.maximum
    → retry_fields spec ≡ true
    → backoff_fields b ≡ true
    → Builds (build_retry spec b) (Fits (RetryOf b) spec)
unfolding build_retry Retry.check_config
build_retry-Builds none b df dj ordered hr hb = (none, refl, tt)
build_retry-Builds (some s) b df dj ordered hr hb =
    let (budget, e1, of_budget) =
      build_budget-Builds s.budget_max_retries s.budget_window (ground arith) in
    let (backoff, e2, of_backoff) = build_backoff-Builds b df ordered hb in
    let (jitter, e3, of_jitter) = build_jitter-Builds b dj hb in
    let config : RetryConfig = record {
      max_attempts = s.max_attempts;
      retryable_statuses = s.retryable_statuses;
      retryable_exceptions = default_retryable_exceptions;
      backoff = backoff;
      jitter = jitter;
    } in
    let built : Retry = record { config = config; budget = budget } in
    let accepted : Retry.check_config config ≡ ok config = ground arith in
    (
      some built,
      rw e1 (rw e2 (rw e3 (rw (accepted, Retry.check_config) refl))),
      record {
        attempts = refl;
        attempts_positive = ground arith;
        statuses = refl;
        valid_backoff = of_backoff;
        valid_jitter = of_jitter;
        budgeted = of_budget;
      },
    )

-- A breaker of the given configuration, closed, whatever the flag `enabled` says.
pub record BreakerOf (s : CircuitBreakerSpec) (b : CircuitBreaker) : Type 0 where
  pub threshold : b.failure_threshold ≡ s.threshold
  pub probes : b.half_open_probes ≡ s.half_open_probes
  pub starts_closed : b.state ≡ closed
  pub breaker_valid : Invariant.IsValid b

pub build_circuit_breaker-Builds :
    (spec : Option CircuitBreakerSpec)
    → circuit_breaker_fields spec ≡ true
    → Builds (build_circuit_breaker spec) (Fits BreakerOf spec)
unfolding build_circuit_breaker CircuitBreaker.make CircuitBreaker.run
build_circuit_breaker-Builds none h = (none, refl, tt)
build_circuit_breaker-Builds (some s) h =
    let config : CircuitBreakerConfig = record {
      failure_threshold = s.threshold;
      recovery_window = s.recovery_window;
      half_open_probes = s.half_open_probes;
      rolling_window = s.rolling_window;
      minimum_throughput = s.minimum_throughput;
    } in
    let built : CircuitBreaker = record {
      config = config;
      state = closed;
      consecutive_failures = 0;
      opened_at = 0;
      half_open_inflight = 0;
      recent = [];
      listeners = [];
    } in
    let made : CircuitBreaker.make config ≡ ok built = ground arith in
    (
      some built,
      rw (made, CircuitBreaker.make) refl,
      record {
        threshold = refl;
        probes = refl;
        starts_closed = refl;
        breaker_valid = Invariant.run-make-IsValid config built [] made;
      },
    )

pub record TimeoutOf (s : TimeoutSpec) (t : Timeout) : Type 0 where
  pub limits : (t.connect ≡ s.connect) × (t.read ≡ s.read) × (t.total ≡ s.total)
  pub accepted : Timeout.Valid t

abbrev pub TimeoutFits : Option TimeoutSpec → Option Timeout → Type 0
TimeoutFits none built = built ≡ none
TimeoutFits (some s) none = (s.connect ≡ none) × (s.read ≡ none) × (s.total ≡ none)
TimeoutFits (some s) (some t) = TimeoutOf s t

made_timeout-Builds :
    (s : TimeoutSpec)
    → timeout_fields (some s) ≡ true
    → Builds (made_timeout s) (TimeoutFits (some s))
unfolding Timeout.make
made_timeout-Builds s h =
    let built : Timeout = record { connect = s.connect; read = s.read; total = s.total } in
    let made : Timeout.make s.connect s.read s.total ≡ ok built = ground arith in
    (
      some built,
      rw (made, Timeout.make) refl,
      record { limits = (refl, refl, refl); accepted = (ground arith, ground arith, ground arith) },
    )

build_timeout-cases :
    (connect read total : Option ℕ)
    → let s : TimeoutSpec = record { connect = connect; read = read; total = total } in
      (build_timeout (some s) ≡ made_timeout s)
      ⊎ (((connect ≡ none) × (read ≡ none) × (total ≡ none)) × (build_timeout (some s) ≡ ok none))
unfolding build_timeout
build_timeout-cases (some c) read total = inl refl
build_timeout-cases none (some r) total = inl refl
build_timeout-cases none none (some t) = inl refl
build_timeout-cases none none none = inr ((refl, refl, refl), refl)

pub build_timeout-Builds :
    (spec : Option TimeoutSpec)
    → timeout_fields spec ≡ true
    → Builds (build_timeout spec) (TimeoutFits spec)
unfolding build_timeout
build_timeout-Builds none h = (none, refl, refl)
build_timeout-Builds (some s) h = elim (build_timeout-cases s.connect s.read s.total) [
  | inl made ↦ rw made (made_timeout-Builds s h)
  | inr (absent, nothing) ↦ (none, nothing, absent)
]

pub record LimiterOf (s : ConcurrencySpec) (l : ConcurrencyLimiter) : Type 0 where
  pub limits : (l.limit ≡ s.limit) × (l.queue_limit ≡ s.queue_limit)
  pub positive : 1 ≤ l.limit
  pub is_idle : (l.active ≡ 0) × (l.waiting ≡ 0)

pub build_concurrency-Builds :
    (spec : Option ConcurrencySpec)
    → concurrency_fields spec ≡ true
    → Builds (build_concurrency spec) (Fits LimiterOf spec)
unfolding build_concurrency Concurrency.check_config
build_concurrency-Builds none h = (none, refl, tt)
build_concurrency-Builds (some s) h =
    let config : ConcurrencyLimitConfig = record { limit = s.limit; queue_limit = s.queue_limit } in
    let made : Concurrency.check_config config ≡ ok config = ground arith in
    (
      some (Concurrency.idle config),
      rw (made, Concurrency.check_config) refl,
      record { limits = (refl, refl); positive = ground arith; is_idle = (refl, refl) },
    )
