-- ===== src/Resilience/CircuitBreaker/Window.antt =====
-- When a breaker opens, how long it refuses, and how many probes it lets through.
use resilience_lab.Common.{
  if◌then◌else◌, ℕ, ◌+◌, ◌-◌, ◌≤◌, ◌<◌, ◌≡◌, refl, false, none, List, [], ◌∷◌, map, arith, length,
  All, min,
}
use resilience_lab.Resilience.CircuitBreaker.{
  closed, open_state, half_open, CircuitBreaker, allow, record_failure, allows, failures, step, run,
}

-- An open breaker refuses every call that comes before its recovery window is over, and these
-- calls do not change it.
open_until_window :
    (b : CircuitBreaker) (times : List ℕ)
    → b.state ≡ open_state
    → All (λ now. now < b.opened_at + b.recovery_window) times
    → (run b (map allows times) ≡ b) × All (λ now. (allow now b).0 ≡ false) times
unfolding run step allow
open_until_window b [] o early = (refl, tt)
open_until_window b (now ∷ times) o early = ground (arith, open_until_window b times o early.1)

-- How many of the calls at these times the breaker lets through.
abbrev pub admitted : CircuitBreaker → List ℕ → ℕ
admitted b [] = 0
admitted b (now ∷ times) = (if (allow now b).0 then 1 else 0) + admitted (allow now b).1 times

-- While no outcome is reported, a half-open breaker lets through as many of the calls that ask it
-- as it has free probes.
pub admitted_half_open :
    (b : CircuitBreaker) (times : List ℕ)
    → b.state ≡ half_open
    → b.half_open_inflight ≤ b.half_open_probes
    → admitted b times ≡ min (length times) (b.half_open_probes - b.half_open_inflight)
unfolding allow
admitted_half_open b [] s v = omega arith
admitted_half_open b (now ∷ times) s v = ground (
  arith,
  admitted_half_open b times s,
  admitted_half_open (record b { half_open_inflight = b.half_open_inflight + 1 }) times s,
)

-- A closed breaker without a rolling window stays closed over failures in a row that are one
-- short of the threshold, and the next failure opens it at that failure's time.
failures_in_a_row :
    (b : CircuitBreaker) (ts : List (ℕ × ℕ)) (last : ℕ × ℕ)
    → b.state ≡ closed
    → b.rolling_window ≡ none
    → b.consecutive_failures + length ts + 1 ≡ b.failure_threshold
    → let before = run b (map (λ t. failures t.0 t.1) ts) in
      (before.state ≡ closed)
      × ((step before (failures last.0 last.1)).state ≡ open_state)
      × ((step before (failures last.0 last.1)).opened_at ≡ last.1)
unfolding run step record_failure
failures_in_a_row b [] last s r e = ground arith
failures_in_a_row b (t ∷ ts) last s r e =
    ground (arith, failures_in_a_row (record_failure t.0 t.1 b) ts last)
