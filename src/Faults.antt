-- ===== src/Faults.antt =====
-- resiliencelab/faults/model.py: when a fault is active, how likely it strikes, and what it does. A
-- probability and a draw are fractions; the sample of a latency, which numpy draws, is a parameter.
pub mod Windows
use resilience_lab.Common.{
  ℕ, ◌+◌, ◌-◌, ◌*◌, ◌%◌, Bool, true, false, Option, none, some, ltb, leb, if◌then◌else◌, ◌||◌, ◌&&◌,
  ◌==◌,
}
use resilience_lab.Common.Checked.{Checked, ok, raise_if, ◌>>◌, ◌>>=◌}

pub data FailureKind : Type 0 where
  http_500 http_502 http_503 http_429 http_error connection_reset connection_refused : FailureKind
  timeout latency latency_spike dependency_unavailable saturation partial : FailureKind

abbrev http_status_by_kind : FailureKind → Option ℕ
http_status_by_kind http_500 = some 500
http_status_by_kind http_502 = some 502
http_status_by_kind http_503 = some 503
http_status_by_kind http_429 = some 429
http_status_by_kind http_error = some 500
http_status_by_kind dependency_unavailable = some 503
http_status_by_kind _ = none

pub data TemporalMode : Type 0 where
  constant random burst periodic step ramp : TemporalMode

pub record Fraction : Type 0 where
  pub num : ℕ
  pub den : ℕ

pub record FaultSpec : Type 0 where
  pub kind : FailureKind
  pub mode : TemporalMode
  pub probability : Fraction
  pub start : ℕ
  pub duration : ℕ
  pub period : ℕ
  pub status_code : Option ℕ

-- `__post_init__`, for a fraction with a positive denominator.
unfoldable check_spec : FaultSpec → Checked FaultSpec
check_spec s = do
  raise_if (ltb s.probability.den s.probability.num) "fault probability must be within [0, 1]"
  ok s

pub record FaultEvent : Type 0 where
  pub kind : FailureKind
  pub latency : ℕ
  pub status_code : Option ℕ

-- Bursts: once without a period, else in each.
abbrev pub repeats : FaultSpec → ℕ → Bool
repeats s t =
    if leb s.period 0
    then (if leb s.duration 0 then true else ltb t s.duration)
    else ltb (t % s.period) s.duration

-- Whether the fault is active at a time since its start.
abbrev pub in_window : FaultSpec → ℕ → Bool
in_window s t = elim s.mode [
  | constant ↦ true
  | random ↦ true
  | step ↦ if leb s.duration 0 then true else ltb t s.duration
  | burst ↦ repeats s t
  | periodic ↦ repeats s t
  | ramp ↦ true
]

unfoldable pub is_active : FaultSpec → ℕ → Bool
is_active s now = if ltb now s.start then false else in_window s (now - s.start)

unfoldable pub failure_probability : FaultSpec → ℕ → Fraction
failure_probability s now = elim s.mode [
  | ramp ↦
      if leb now s.start
      then record { num = 0; den = 1 }
      else if ltb 0 s.duration && ltb (now - s.start) s.duration
      then record {
        num = s.probability.num * (now - s.start);
        den = s.probability.den * s.duration;
      }
      else s.probability
  | _ ↦ s.probability
]

-- `rng.random() > probability`
abbrev misses : Fraction → Fraction → Bool
misses draw p = ltb (p.num * draw.den) (draw.num * p.den)

abbrev has_latency : FailureKind → Bool
has_latency latency = true
has_latency latency_spike = true
has_latency _ = false

-- `status_code or HTTP_STATUS_BY_KIND.get(kind)`
abbrev pub status_of : FaultSpec → Option ℕ
status_of s = elim s.status_code [
  | none ↦ http_status_by_kind s.kind
  | some code ↦ if code == 0 then http_status_by_kind s.kind else some code
]

unfoldable pub evaluate : FaultSpec → ℕ → Fraction → ℕ → Option FaultEvent
evaluate s now draw sample_latency =
    if is_active s now
    then if misses draw (failure_probability s now)
      then none
      else some (record {
        kind = s.kind;
        latency = if has_latency s.kind then sample_latency else 0;
        status_code = status_of s;
      })
    else none
