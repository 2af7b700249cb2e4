-- ===== src/Resilience/CircuitBreaker.antt =====
-- resiliencelab/resilience/circuit_breaker.py. Each method is atomic under its lock; each reading of
-- the monotonic clock is an argument of the method, in ticks. A listener is the list of the calls
-- that it has received. `now - t >= w` is written `t + w ≤ now`.
pub mod Invariant
pub mod Window
pub mod Rolling
pub mod Listeners
use resilience_lab.Common.{
  ℕ, zero, suc, ◌+◌, ◌-◌, ◌≡◌, Bool, true, false, not, ◌&&◌, Option, none, some, List, [], ◌∷◌,
  ◌++◌, map, ltb, leb, if◌then◌else◌, length, count,
}
use resilience_lab.Common.Deque.{popleft_while}
use resilience_lab.Common.Checked.{Checked, ok, value_error, ◌>>=◌, ◌>>◌, raise_if}

pub data CircuitState : Type 0 where
  closed open_state half_open : CircuitState

pub record CircuitBreakerConfig : Type 0 where
  pub failure_threshold : ℕ
  pub recovery_window : ℕ
  pub half_open_probes : ℕ
  pub rolling_window : Option ℕ
  pub minimum_throughput : ℕ

pub record CircuitBreaker : Type 0 where
  pub config : CircuitBreakerConfig
  pub open config use *
  pub state : CircuitState
  pub consecutive_failures : ℕ
  pub opened_at : ℕ
  pub half_open_inflight : ℕ
  pub recent : List (ℕ × Bool)
  pub listeners : List (List (CircuitState × CircuitState))

abbrev same_state : CircuitState → CircuitState → Bool
same_state closed closed = true
same_state open_state open_state = true
same_state half_open half_open = true
same_state _ _ = false

-- The dataclass with its defaults, after `__post_init__`.
unfoldable pub make : CircuitBreakerConfig → Checked CircuitBreaker
make c = do
  raise_if (ltb c.failure_threshold 1) "failure_threshold must be >= 1"
  raise_if (ltb c.half_open_probes 1) "half_open_probes must be >= 1"
  ok (record {
    config = c;
    state = closed;
    consecutive_failures = 0;
    opened_at = 0;
    half_open_inflight = 0;
    recent = [];
    listeners = [];
  })

on_transition : CircuitBreaker → CircuitBreaker
on_transition b = record b { listeners = b.listeners ++ [] ∷ [] }

transition : CircuitState → CircuitBreaker → CircuitBreaker
transition new_state b = if same_state new_state b.state then b else record b {
  state = new_state;
  listeners = map (λ calls. calls ++ (b.state, new_state) ∷ []) b.listeners;
}

transition_to_half_open : CircuitBreaker → CircuitBreaker
unfolding transition
transition_to_half_open b = record (transition half_open b) { half_open_inflight = 0 }

-- `_open`; `later` is its own reading of the clock.
trip : ℕ → CircuitBreaker → CircuitBreaker
unfolding transition
trip later b = transition open_state (record b { opened_at = later; consecutive_failures = 0 })

take_probe : CircuitBreaker → CircuitBreaker
take_probe b = record b { half_open_inflight = b.half_open_inflight + 1 }

allow_open : ℕ → CircuitBreaker → Bool × CircuitBreaker
unfolding transition_to_half_open take_probe
allow_open now b =
    if leb (b.opened_at + b.recovery_window) now
    then (true, take_probe (transition_to_half_open b))
    else (false, b)

allow_half_open : CircuitBreaker → Bool × CircuitBreaker
unfolding take_probe
allow_half_open b =
    if leb b.half_open_probes b.half_open_inflight then (false, b) else (true, take_probe b)

unfoldable pub allow : ℕ → CircuitBreaker → Bool × CircuitBreaker
unfolding allow_open allow_half_open
allow now b = elim b.state [
  | open_state ↦ allow_open now b
  | half_open ↦ allow_half_open b
  | closed ↦ (true, b)
]

-- The test of the loop that drops old outcomes, `recent[0][0] < now - window`.
abbrev pub is_stale : ℕ → ℕ → ℕ × Bool → Bool
is_stale now window entry = ltb (entry.0 + window) now

record_recent : ℕ → Bool → CircuitBreaker → CircuitBreaker
record_recent now success b = elim b.rolling_window [
  | none ↦ b
  | some window ↦ record b {
    recent = popleft_while (is_stale now window) b.recent ++ (now, success) ∷ [];
  }
]

threshold_met : CircuitBreaker → Bool
threshold_met b = elim b.rolling_window [
  | none ↦ leb b.failure_threshold b.consecutive_failures
  | some window ↦
      if ltb (length b.recent) b.minimum_throughput
      then false
      else leb b.failure_threshold (count (λ entry. not entry.1) b.recent)
]

-- `max(0, inflight - 1)` is the subtraction of ℕ.
give_back : CircuitBreaker → CircuitBreaker
give_back b = record b { half_open_inflight = b.half_open_inflight - 1 }

close_if_drained : CircuitBreaker → CircuitBreaker
unfolding transition
close_if_drained b = if leb b.half_open_inflight 0 then transition closed b else b

unfoldable pub record_success : ℕ → CircuitBreaker → CircuitBreaker
unfolding record_recent give_back close_if_drained
record_success now b =
    let b' = record (record_recent now true b) { consecutive_failures = 0 } in
    if same_state b'.state half_open then close_if_drained (give_back b') else b'

unfoldable pub record_failure : ℕ → ℕ → CircuitBreaker → CircuitBreaker
unfolding record_recent give_back trip threshold_met
record_failure now later b =
    let c = record_recent now false b in
    let b' = record c { consecutive_failures = c.consecutive_failures + 1 } in
    if same_state b'.state half_open
    then trip later (give_back b')
    else if leb b'.failure_threshold b'.consecutive_failures && threshold_met b'
    then trip later b'
    else b'

unfoldable reset : CircuitBreaker → CircuitBreaker
reset b = record b { state = closed; consecutive_failures = 0; half_open_inflight = 0; recent = [] }

-- One call on a breaker, with the clock readings that it makes.
pub data Call : Type 0 where
  allows : ℕ → Call
  successes : ℕ → Call
  failures : ℕ → ℕ → Call
  resets : Call

unfoldable pub step : CircuitBreaker → Call → CircuitBreaker
unfolding allow record_success record_failure reset
step b (allows now) = (allow now b).1
step b (successes now) = record_success now b
step b (failures now later) = record_failure now later b
step b resets = reset b

unfoldable pub run : CircuitBreaker → List Call → CircuitBreaker
run b [] = b
run b (c ∷ cs) = run (step b c) cs
