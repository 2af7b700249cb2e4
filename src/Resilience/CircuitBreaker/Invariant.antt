-- ===== src/Resilience/CircuitBreaker/Invariant.antt =====
-- What every history of calls keeps true of a breaker, and which transitions a call can make.
use resilience_lab.Common.{ℕ, ◌≤◌, ◌<◌, ◌≡◌, none, List, [], ◌∷◌, arith}
use resilience_lab.Common.Checked.{ok}
use resilience_lab.Resilience.CircuitBreaker.{
  closed, half_open, CircuitBreakerConfig, CircuitBreaker, make, allow, record_success,
  record_failure, Call, allows, successes, failures, resets, step, run,
}

pub record IsValid (b : CircuitBreaker) : Type 0 where
  pub probes_positive : 1 ≤ b.half_open_probes
  pub threshold_positive : 1 ≤ b.failure_threshold
  -- Never more probes in flight than the configuration allows.
  pub probes_bounded : b.half_open_inflight ≤ b.half_open_probes
  pub closed_idle : b.state ≡ closed → b.half_open_inflight ≡ 0
  pub half_open_busy : b.state ≡ half_open → 1 ≤ b.half_open_inflight
  -- Without a rolling window the streak of failures stays below the threshold.
  pub below_threshold : b.rolling_window ≡ none → b.consecutive_failures < b.failure_threshold

allow-IsValid : (now : ℕ) (b : CircuitBreaker) → IsValid b → IsValid (allow now b).1
unfolding allow
allow-IsValid now b v = ground arith

success-IsValid : (now : ℕ) (b : CircuitBreaker) → IsValid b → IsValid (record_success now b)
unfolding record_success
success-IsValid now b v = ground arith

failure-IsValid :
    (now later : ℕ) (b : CircuitBreaker) → IsValid b → IsValid (record_failure now later b)
unfolding record_failure
failure-IsValid now later b v = ground arith

step-IsValid : (b : CircuitBreaker) (c : Call) → IsValid b → IsValid (step b c)
unfolding step
step-IsValid b (allows now) v = allow-IsValid now b v
step-IsValid b (successes now) v = success-IsValid now b v
step-IsValid b (failures now later) v = failure-IsValid now later b v
step-IsValid b resets v = ground arith

run-IsValid : (b : CircuitBreaker) (cs : List Call) → IsValid b → IsValid (run b cs)
unfolding run
run-IsValid b [] v = v
run-IsValid b (c ∷ cs) v = run-IsValid (step b c) cs (step-IsValid b c v)

-- After any history of calls, a breaker that its constructor accepts has at most its configured
-- number of probes in flight, none while closed, at least one while half-open, and without a
-- rolling window fewer consecutive failures than the threshold.
pub run-make-IsValid :
    (c : CircuitBreakerConfig) (b : CircuitBreaker) (cs : List Call)
    → make c ≡ ok b
    → IsValid (run b cs)
unfolding make
run-make-IsValid c b cs h = run-IsValid b cs (ground arith)
