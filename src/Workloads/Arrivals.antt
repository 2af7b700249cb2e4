-- ===== src/Workloads/Arrivals.antt =====
-- resiliencelab/workloads/arrivals.py: the gap before the next arrival, in ticks. `spacing` is the
-- reciprocal of the arrival rate and `slowest` that of the least rate. What numpy draws, and the gap of a
-- periodic process, which is computed from a floating-point sine, come with each call.
use resilience_lab.Common.{
  ℕ, zero, suc, ◌+◌, ◌-◌, ◌*◌, ◌/◌, ◌≤◌, ◌≡◌, refl, ◌∙◌, ap, ltb, if◌then◌else◌, arith, min, max,
  lt→ltb,
}
use resilience_lab.Common.Checked.{Checked, ok, value_error}
use native.Mathlib.Nat.{le-div_iff_mul-le, div-mul-le_self}

pub data WorkloadType : Type 0 where
  closed_loop open_loop constant_rate burst ramp periodic random : WorkloadType

pub data ArrivalDistribution : Type 0 where
  poisson constant exponential : ArrivalDistribution

pub record WorkloadSpec : Type 0 where
  pub kind : WorkloadType
  pub spacing : ℕ
  pub slowest : ℕ
  pub duration : ℕ
  pub distribution : ArrivalDistribution
  pub burst_size : ℕ
  pub burst_interval : ℕ

pub record ArrivalModel : Type 0 where
  pub spec : WorkloadSpec
  pub open spec use *
  pub burst_remaining : ℕ

-- `__init__`
abbrev pub new : WorkloadSpec → ArrivalModel
new spec = record { spec = spec; burst_remaining = spec.burst_size - 1 }

-- What the random source draws for one gap, and the gap of a periodic process.
pub record Draw : Type 0 where
  pub exponential : ℕ → ℕ
  pub uniform : ℕ → ℕ → ℕ
  pub periodic_gap : ℕ → ℕ

abbrev distributed_gap : Draw → ArrivalDistribution → ℕ → ℕ
distributed_gap draw constant spacing = spacing
distributed_gap draw poisson spacing = draw.exponential spacing
distributed_gap draw exponential spacing = draw.exponential spacing

-- `_burst_gap`
unfoldable pub burst_gap : ArrivalModel → ℕ × ArrivalModel
burst_gap m =
    if ltb 0 m.burst_remaining
    then (m.spacing, record m { burst_remaining = m.burst_remaining - 1 })
    else (m.burst_interval, record m { burst_remaining = m.burst_size - 1 })

-- `_ramp_gap`: the rate grows from a tenth to the whole over the duration.
unfoldable pub ramp_gap : WorkloadSpec → ℕ → ℕ
ramp_gap s elapsed =
    let duration = max s.duration 1 in
    min (10 * s.spacing * duration / (duration + 9 * min elapsed duration)) s.slowest

unfoldable pub gap : Draw → ℕ → ArrivalModel → Checked (ℕ × ArrivalModel)
gap draw elapsed m = elim m.kind [
  | closed_loop ↦ value_error "closed_loop is client-driven and has no arrival model"
  | constant_rate ↦ ok (m.spacing, m)
  | open_loop ↦ ok (distributed_gap draw m.distribution m.spacing, m)
  | random ↦ ok (draw.uniform 0 (2 * m.spacing), m)
  | burst ↦ ok (burst_gap m)
  | periodic ↦ ok (draw.periodic_gap elapsed, m)
  | ramp ↦ ok (ramp_gap m.spec elapsed, m)
]

-- The time that `n` gaps of bursts take.
unfoldable bursts : ℕ → ArrivalModel → ℕ × ArrivalModel
bursts zero m = (0, m)
bursts (suc n) m =
    let (first, m') = burst_gap m in let (rest, m'') = bursts n m' in (first + rest, m'')

abbrev model : WorkloadSpec → ℕ → ArrivalModel
model s k = record { spec = s; burst_remaining = k }

-- Gaps one after another.
bursts-add :
    (a b c : ℕ) (m : ArrivalModel)
    → c ≡ a + b
    → ((bursts c m).0 ≡ (bursts a m).0 + (bursts b (bursts a m).1).0)
      × ((bursts c m).1 ≡ (bursts b (bursts a m).1).1)
unfolding bursts
bursts-add zero b c m e = rw (e ∙ added b) (omega arith, refl)
  where
    added : (b : ℕ) → 0 + b ≡ b
    added b = omega arith
bursts-add (suc a) b zero m e = absurd (none_left e)
  where
    none_left : 0 ≡ suc a + b → ⊥
    none_left e = omega (arith, e)
bursts-add (suc a) b (suc c) m e =
    let (total, last) = bursts-add a b c (burst_gap m).1 (omega (arith, e)) in
    (omega (arith, total), last)

-- Inside a burst the gaps are those of the rate.
inside :
    (s : WorkloadSpec) (n k : ℕ)
    → n ≤ k
    → ((bursts n (model s k)).0 ≡ n * s.spacing) × ((bursts n (model s k)).1 ≡ model s (k - n))
unfolding bursts burst_gap
inside s zero k h = (grind arith, ap (model s) (omega arith))
inside s (suc n) k h =
    let (total, last) = inside s n (k - 1) (omega arith) in
    rw (lt→ltb 0 k (omega arith))
      (spaced (bursts n (model s (k - 1))).0 total, last ∙ ap (model s) (omega arith))
  where
    spaced : (t : ℕ) → t ≡ n * s.spacing → s.spacing + t ≡ suc n * s.spacing
    spaced t e = grind arith

-- The gap after a burst is the interval, and the next burst is a whole one.
after : (s : WorkloadSpec) → bursts 1 (model s 0) ≡ (s.burst_interval + 0, new s)
unfolding bursts burst_gap
after s = refl

one_burst :
    (s : WorkloadSpec)
    → 1 ≤ s.burst_size
    → ((bursts s.burst_size (new s)).0 ≡ (s.burst_size - 1) * s.spacing + s.burst_interval)
      × ((bursts s.burst_size (new s)).1 ≡ new s)
one_burst s h =
    let k = s.burst_size - 1 in
    let (total, last) = bursts-add k 1 s.burst_size (new s) (omega arith) in
    let (within, ending) = inside s k k (omega arith) in
    let over : (bursts k (new s)).1 ≡ model s 0 = ending ∙ ap (model s) (omega arith) in
    (total ∙ rw (over, within, after s) (omega arith), last ∙ rw (over, after s) refl)

-- For bursts of at least one request, any number of whole bursts from a new model takes as many
-- times the spacings within one burst and one interval, and leaves the model as new.
bursts-cycles :
    (s : WorkloadSpec) (n total : ℕ)
    → 1 ≤ s.burst_size
    → total ≡ n * s.burst_size
    → ((bursts total (new s)).0 ≡ n * ((s.burst_size - 1) * s.spacing + s.burst_interval))
      × ((bursts total (new s)).1 ≡ new s)
unfolding bursts
bursts-cycles s zero total h e = rw (e ∙ none_yet) (grind arith, refl)
  where
    none_yet : 0 * s.burst_size ≡ 0
    none_yet = grind arith
bursts-cycles s (suc n) total h e =
    let (sum, last) = bursts-add s.burst_size (n * s.burst_size) total (new s) (grind arith) in
    let (first, whole) = one_burst s h in
    let (others, again) = bursts-cycles s n (n * s.burst_size) h refl in
    (
      sum
          ∙ rw (whole, first, others)
              (distribute n ((s.burst_size - 1) * s.spacing + s.burst_interval)),
      last ∙ rw whole again,
    )
  where
    distribute : (n c : ℕ) → c + n * c ≡ suc n * c
    distribute n c = grind arith

ramp_mono_step : (c a b : ℕ) → 1 ≤ a → a ≤ b → c / b ≤ c / a
ramp_mono_step c a b h k =
    (le-div_iff_mul-le h).1 (omega (arith, below (c / b) a b k, div-mul-le_self c b))
  where
    below : (q a b : ℕ) → a ≤ b → q * a ≤ q * b
    below q a b k = grind arith

-- The gap of a ramp never grows as the run goes on.
ramp_gap_mono : (s : WorkloadSpec) (t u : ℕ) → t ≤ u → ramp_gap s u ≤ ramp_gap s t
unfolding ramp_gap
ramp_gap_mono s t u h =
    let duration = max s.duration 1 in
    omega (
      arith,
      ramp_mono_step (10 * s.spacing * duration) (duration + 9 * min t duration)
          (duration + 9 * min u duration) (omega arith) (omega (arith, h)),
    )
