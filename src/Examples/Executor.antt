-- ===== src/Examples/Executor.antt =====
-- resiliencelab/resilience/policy.py and resiliencelab/services/client.py: one call on concrete inputs.
use resilience_lab.Common.{
  ℕ, zero, suc, ◌+◌, ◌-◌, ◌≤◌, ◌≡◌, refl, String, Bool, if◌then◌else◌, true, false, none, some,
  List, [], ◌∷◌, arith,
}
use resilience_lab.Resilience.Errors.{call_failure, deadline}
use resilience_lab.Resilience.Backoff.{BackoffKind, delay}
use resilience_lab.Resilience.Jitter.{JitterKind, apply}
use resilience_lab.Resilience.Retry.{
  should_retry, delay_before, default_retryable_statuses, default_retryable_exceptions,
}
use resilience_lab.Resilience.CircuitBreaker.{CircuitBreaker, open_state, half_open}
use resilience_lab.Resilience.CircuitBreaker.Window.{admitted}
use resilience_lab.Resilience.Concurrency
use resilience_lab.Resilience.Concurrency.{ConcurrencyLimiter}
use resilience_lab.Resilience.Policy
use resilience_lab.Resilience.Policy.{
  Policy, Shared, PolicyExecutor, fresh, Behaviour, Round, Result, returned, raised, State, loop,
  round, max_passes, Entry, execute, enter,
}
use resilience_lab.Resilience.Policy.Termination.{execute_total}
use resilience_lab.Resilience.Policy.Accounting.{attempts, execute-counts}
use resilience_lab.Resilience.Policy.Slots.{LeavesLimiter, execute-gives_back}
use resilience_lab.Metrics.Collector
use resilience_lab.Metrics.Collector.{MetricsCollector}
use resilience_lab.Services.Client.{Reading, Signal, starts, tells, Client, operations}
use resilience_lab.Services.Client.Rows.{rows, events, execute-rows}
use resilience_lab.Resilience.Policy.Probes.{deadline_leaks_probe}

-- Two attempts at most, and ten ticks for all of it.
abbrev patient : Policy
patient = record {
  retry = some (record {
    max_attempts = 2;
    retryable_statuses = default_retryable_statuses;
    retryable_exceptions = default_retryable_exceptions;
    backoff = record {
      kind = BackoffKind.fixed;
      base = 1;
      max_delay = 4;
      factor_num = 2;
      factor_den = 1;
    };
    jitter = record { kind = JitterKind.none; factor_num = 1; factor_den = 2 };
  });
  timeout = some (record { connect = none; read = none; total = some 10 });
}

abbrev idle_limiter : ConcurrencyLimiter
idle_limiter = record {
  config = record { limit = 1; queue_limit = none };
  active = 0;
  waiting = 0;
  cond = record { parked = []; woken = [] };
  rejected_count = 0;
}

abbrev old_trip : CircuitBreaker
old_trip = record {
  config = record {
    failure_threshold = 1;
    recovery_window = 5;
    half_open_probes = 1;
    rolling_window = none;
    minimum_throughput = 0;
  };
  state = open_state;
  consecutive_failures = 1;
  opened_at = 0;
  half_open_inflight = 0;
  recent = [];
  listeners = [];
}

abbrev limiter_only : Shared
limiter_only = record { breaker = none; budget = none; limiter = some idle_limiter }

abbrev breaker_only : Shared
breaker_only = record { breaker = some old_trip; budget = none; limiter = none }

abbrev quiet : ℕ → Behaviour → Round
quiet at b = record {
  top = at;
  at_call = at;
  duration = 1;
  behaviour = b;
  during_call = λ t. t;
  recorded = at;
  opened = at;
  budgeted = at;
  after_failure = at;
  uniform = λ low high. low;
  during_sleep = λ t. t;
  sleep_cut = false;
}

-- The operation fails once and then answers.
abbrev flaky : ℕ → Round
flaky zero = quiet 20 (Behaviour.failure (call_failure (some 503) none))
flaky (suc n) = quiet 22 (Behaviour.value 7)

alone : (k : ℕ) → LeavesLimiter (flaky k)
alone zero = record { calling = λ t. refl; sleeping = λ t. refl }
alone (suc k) = record { calling = λ t. refl; sleeping = λ t. refl }

abbrev late : ℕ → Round
late n = quiet 40 (Behaviour.value 7)

abbrev at_twenty : Entry
at_twenty = record { task = 1; start = 20; wakeups = []; allowed_at = 20 }

abbrev start : State
start = record { executor = fresh; shared = limiter_only }

at_entry :
    enter at_twenty limiter_only
    ≡ some (
      Policy.admitted,
      record limiter_only { limiter = some (record idle_limiter { active = 1 }) },
    )
unfolding enter Concurrency.attempt
at_entry = refl

execute_total_example :
    (out : Result × State) × (execute patient at_twenty flaky fresh limiter_only ≡ some out)
execute_total_example =
    execute_total patient at_twenty flaky fresh limiter_only
      (Policy.admitted, record limiter_only { limiter = some (record idle_limiter { active = 1 }) })
      at_entry

-- The counters and the events after the second attempt has answered.
abbrev served : State
served = record {
  executor = record fresh {
    calls = 2;
    retries = 1;
    backoff_seconds = 1;
    events =
        Policy.attempt_of 1 false false (some 503)
        ∷ Policy.retry_event 2 1 (some 503)
        ∷ Policy.attempt_of 2 true false none
        ∷ [];
  };
  shared = limiter_only;
}

executed : execute patient at_twenty flaky fresh limiter_only ≡ some (returned 7, served)
unfolding execute Concurrency.attempt loop round should_retry delay_before apply delay
    Concurrency.release
executed = refl

execute-counts_example : (1 ≤ 3 - 2) × (2 ≤ 1 + 1) × (1 ≤ 2) × (2 ≡ attempts served.executor + 0)
execute-counts_example =
    execute-counts patient at_twenty flaky limiter_only (returned 7) served executed

-- The signals of that call, and a collector that records.
abbrev reading : Reading
reading = record {
  now = 1;
  elapsed = 2;
  timestamp = 3;
  duration = 1;
  source_service = none;
  network_latency = none;
  processing_latency = none;
  queue_wait = none;
  service_rejected = false;
}

abbrev signals : List Signal
signals =
    starts reading
    ∷ tells (Policy.attempt_of 1 false false (some 503)) reading
    ∷ tells (Policy.retry_event 2 1 (some 503)) reading
    ∷ starts reading
    ∷ tells (Policy.attempt_of 2 true false none) reading
    ∷ []

abbrev client : Client
client = record { policy_name = "patient"; request_id = 4; dependency = some "db" }

abbrev text : ℕ → String
text n = "n"

abbrev yes_or_no : Bool → String
yes_or_no b = if b then "yes" else "no"

abbrev event_name : String → String → ℕ → String
event_name experiment run n = "event"

abbrev collector : MetricsCollector
collector = Collector.new "e" "r" none

abbrev observed : MetricsCollector
observed = Collector.run event_name collector (operations text yes_or_no "none" client 0 signals)

execute-rows_example :
    (rows "downstream" observed + 0 ≡ 0 + 2)
    × (events "RetryExecuted" observed ≡ 0 + (2 - 1))
    × (events "RetryExecuted" observed ≤ 0 + (3 - 2))
execute-rows_example =
    execute-rows text yes_or_no "none" client event_name patient at_twenty flaky limiter_only
      (returned 7) served signals collector executed refl (omega arith) refl refl

execute-gives_back_example :
    (execute-gives_back patient at_twenty flaky fresh limiter_only idle_limiter
      (returned 7)
      served
      alone
      refl
      (omega arith)
      executed).0.active
    ≡ 0
execute-gives_back_example =
    (execute-gives_back patient at_twenty flaky fresh limiter_only idle_limiter (returned 7) served
      alone refl (omega arith) executed).2

deadline_leaks_probe_example :
    (s' : State) × (b' : CircuitBreaker) × (execute patient at_twenty late fresh breaker_only
      ≡ some (raised deadline, s'))
    × (s'.shared.breaker ≡ some b')
    × (s'.executor.calls ≡ 0)
    × (b'.state ≡ half_open)
    × ((times : List ℕ) → admitted b' times ≡ 0)
unfolding enter
deadline_leaks_probe_example =
    deadline_leaks_probe patient at_twenty late fresh breaker_only breaker_only old_trip 30 refl
      refl refl refl (omega arith) refl (omega arith)
