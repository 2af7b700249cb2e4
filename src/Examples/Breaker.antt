-- ===== src/Examples/Breaker.antt =====
-- resiliencelab/resilience/circuit_breaker.py on concrete inputs.
use resilience_lab.Common.{◌≡◌, refl, none, List, [], ◌∷◌}
use resilience_lab.Resilience.CircuitBreaker
use resilience_lab.Resilience.CircuitBreaker.{
  CircuitBreaker, CircuitBreakerConfig, CircuitState, closed, open_state, half_open, Call, allows,
  successes, failures, resets, run, step, allow, is_stale,
}
use resilience_lab.Resilience.CircuitBreaker.Invariant.{IsValid, run-make-IsValid}

abbrev plain : CircuitBreakerConfig
plain = record {
  failure_threshold = 2;
  recovery_window = 30;
  half_open_probes = 2;
  rolling_window = none;
  minimum_throughput = 0;
}

abbrev new : CircuitBreakerConfig → CircuitBreaker
new c = record {
  config = c;
  state = closed;
  consecutive_failures = 0;
  opened_at = 0;
  half_open_inflight = 0;
  recent = [];
  listeners = [];
}

abbrev history : List Call
history = failures 3 3 ∷ failures 4 4 ∷ allows 5 ∷ allows 40 ∷ successes 41 ∷ []

-- Two failures open the breaker, it refuses until the window is over, and a probe that succeeds
-- closes it.
states :
    ((run (new plain) (failures 3 3 ∷ failures 4 4 ∷ allows 5 ∷ [])).state ≡ open_state)
    × ((run (new plain) (failures 3 3 ∷ failures 4 4 ∷ allows 5 ∷ allows 40 ∷ [])).state
        ≡ half_open)
    × ((run (new plain) history).state ≡ closed)
unfolding run step
states = (refl, refl, refl)

run-make-IsValid_example : IsValid (run (new plain) history)
unfolding CircuitBreaker.make
run-make-IsValid_example = run-make-IsValid plain (new plain) history refl
