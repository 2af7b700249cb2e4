-- ===== src/Faults/Windows.antt =====
-- When a fault strikes.
use resilience_lab.Common.{ℕ, ◌+◌, ◌-◌, ◌*◌, ◌≤◌, ◌<◌, ◌≡◌, ◌⊎◌, inl, inr, none, arith}
use native.Mathlib.Nat.{add-mul-mod_self_right}
use resilience_lab.Faults.{
  FaultSpec, Fraction, burst, periodic, ramp, repeats, is_active, failure_probability, evaluate,
}

-- Before its start a fault of any mode does nothing, whatever is drawn.
evaluate_early :
    (s : FaultSpec) (now : ℕ) (draw : Fraction) (sample : ℕ)
    → now < s.start
    → evaluate s now draw sample ≡ none
unfolding evaluate is_active
evaluate_early s now draw sample h = ground arith

abbrev IsBelow : Fraction → Fraction → Type 0
IsBelow p q = p.num * q.den ≤ q.num * p.den

scaled_mono : (a t u c : ℕ) → t ≤ u → a * t * c ≤ a * u * c
scaled_mono a t u c h = grind arith

below_full : (a t d c : ℕ) → t ≤ d → a * t * c ≤ a * (c * d)
below_full a t d c h = grind arith

-- The failure probability of a ramp never falls as time goes on, and never exceeds the configured
-- probability.
probability_mono :
    (s : FaultSpec) (now later : ℕ)
    → s.mode ≡ ramp
    → now ≤ later
    → IsBelow (failure_probability s now) (failure_probability s later)
      × IsBelow (failure_probability s later) s.probability
unfolding failure_probability
probability_mono s now later m h = rw m (
    ground (
      arith,
      scaled_mono s.probability.num (now - s.start) (later - s.start)
          (s.probability.den * s.duration),
      below_full s.probability.num (now - s.start) s.duration s.probability.den,
      below_full s.probability.num (later - s.start) s.duration s.probability.den,
    ))

repeats_periodic :
    (s : FaultSpec) (t k : ℕ) → 0 < s.period → repeats s (t + k * s.period) ≡ repeats s t
repeats_periodic s t k h = rw (add-mul-mod_self_right t k s.period) (ground arith)

shift : (now start n : ℕ) → start ≤ now → now + n - start ≡ (now - start) + n
shift now start n h = omega arith

-- A periodic or bursting fault with a positive period is, from its start on, active at a time
-- exactly when it is active any number of periods later.
is_active_periodic :
    (s : FaultSpec) (now k : ℕ)
    → (s.mode ≡ periodic) ⊎ (s.mode ≡ burst)
    → 0 < s.period
    → s.start ≤ now
    → is_active s (now + k * s.period) ≡ is_active s now
unfolding is_active
is_active_periodic s now k (inl m) h after =
    rw (m, shift now s.start (k * s.period) after)
      (ground (arith, repeats_periodic s (now - s.start) k h))
is_active_periodic s now k (inr m) h after =
    rw (m, shift now s.start (k * s.period) after)
      (ground (arith, repeats_periodic s (now - s.start) k h))
