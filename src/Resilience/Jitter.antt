-- ===== src/Resilience/Jitter.antt =====
-- resiliencelab/resilience/jitter.py. Delays are in ticks; the factor is the fraction
-- `factor_num / factor_den`. The random source is numpy's: `uniform low high` is the value that it
-- draws for one call.
use native.Mathlib.Nat.{div-le_of_le-mul, le-div_iff_mul-le, div-mul-le_self}
use resilience_lab.Common.{ℕ, ◌+◌, ◌-◌, ◌*◌, ◌/◌, ◌≤◌, ◌≡◌, refl, arith, ltb, leb, if◌then◌else◌}
use resilience_lab.Common.Checked.{Checked, ok, ◌>>◌, raise_if}

pub data JitterKind : Type 0 where
  none full equal range : JitterKind

pub record Jitter : Type 0 where
  pub kind : JitterKind
  pub factor_num : ℕ
  pub factor_den : ℕ

-- `__post_init__`, of a factor with a positive denominator.
unfoldable pub make : JitterKind → ℕ → ℕ → Checked Jitter
make kind num den = do
  raise_if (ltb den num) "jitter factor must be within [0, 1]"
  ok (record { kind = kind; factor_num = num; factor_den = den })

jittered : JitterKind → Jitter → ℕ → (ℕ → ℕ → ℕ) → ℕ
jittered none j delay uniform = delay
jittered full j delay uniform = uniform 0 delay
jittered equal j delay uniform = uniform (delay / 2) delay
jittered range j delay uniform =
    uniform (delay * (j.factor_den - j.factor_num) / j.factor_den)
      (delay * (j.factor_den + j.factor_num) / j.factor_den)

unfoldable pub apply : Jitter → ℕ → (ℕ → ℕ → ℕ) → ℕ
unfolding jittered
apply j delay uniform = if leb delay 0 then delay else jittered j.kind j delay uniform

-- numpy documents that `uniform(low, high)` draws from [low, high).
abbrev pub IsUniform : (ℕ → ℕ → ℕ) → Type 0
IsUniform uniform =
    (low high : ℕ) → low ≤ high → (low ≤ uniform low high) × (uniform low high ≤ high)

-- The range from which each kind draws.
abbrev pub lowest : Jitter → ℕ → ℕ
lowest j delay = elim j.kind [
  | none ↦ delay
  | full ↦ 0
  | equal ↦ delay / 2
  | range ↦ delay * (j.factor_den - j.factor_num) / j.factor_den
]

abbrev pub highest : Jitter → ℕ → ℕ
highest j delay = elim j.kind [
  | range ↦ delay * (j.factor_den + j.factor_num) / j.factor_den
  | _ ↦ delay
]

-- What `make` accepts.
pub record IsValid (j : Jitter) : Type 0 where
  pub den_positive : 1 ≤ j.factor_den
  pub at_most_one : j.factor_num ≤ j.factor_den

div_mono : (a b d : ℕ) → 1 ≤ d → a ≤ b → a / d ≤ b / d
div_mono a b d hd h = (le-div_iff_mul-le hd).1 (omega (arith, div-mul-le_self a d))

range_ordered :
    (delay num den : ℕ) → 1 ≤ den → delay * (den - num) / den ≤ delay * (den + num) / den
range_ordered delay num den h =
    div_mono (delay * (den - num)) (delay * (den + num)) den h
      (mul_mono delay (den - num) (den + num) (omega arith))
  where
    mul_mono : (c a b : ℕ) → a ≤ b → c * a ≤ c * b
    mul_mono c a b p = grind arith

kinds_in_range :
    (k : JitterKind) (j : Jitter) (delay : ℕ) (uniform : ℕ → ℕ → ℕ)
    → IsValid j
    → IsUniform uniform
    → j.kind ≡ k
    → (lowest j delay ≤ jittered k j delay uniform) × (jittered k j delay uniform ≤ highest j delay)
unfolding jittered
kinds_in_range none j delay uniform v u e = rw e (omega arith)
kinds_in_range full j delay uniform v u e = rw e (u 0 delay (omega arith))
kinds_in_range equal j delay uniform v u e = rw e (u (delay / 2) delay (omega arith))
kinds_in_range range j delay uniform v u e =
    rw e (u _ _ (range_ordered delay j.factor_num j.factor_den v.den_positive))

lowest-zero : (k : JitterKind) (j : Jitter) → j.kind ≡ k → lowest j 0 ≤ 0
lowest-zero none j e = rw e (omega arith)
lowest-zero full j e = rw e (omega arith)
lowest-zero equal j e = rw e (omega arith)
lowest-zero range j e = rw e (omega arith)

-- For a factor of at most one and a random source that draws within its bounds, every jittered
-- delay lies in the range of its kind, and a delay of zero stays zero.
pub apply-in_range :
    (j : Jitter) (delay : ℕ) (uniform : ℕ → ℕ → ℕ)
    → IsValid j
    → IsUniform uniform
    → (lowest j delay ≤ apply j delay uniform)
      × (apply j delay uniform ≤ highest j delay)
      × (delay ≡ 0 → apply j delay uniform ≡ 0)
unfolding apply
apply-in_range j delay uniform v u =
    ground (arith, kinds_in_range j.kind j delay uniform v u refl, lowest-zero j.kind j refl)

highest-le-twice :
    (k : JitterKind) (j : Jitter) (delay : ℕ) → IsValid j → j.kind ≡ k → highest j delay ≤ 2 * delay
highest-le-twice none j delay v e = rw e (omega arith)
highest-le-twice full j delay v e = rw e (omega arith)
highest-le-twice equal j delay v e = rw e (omega arith)
highest-le-twice range j delay v e = rw e (div-le_of_le-mul j.factor_den (grind arith))

-- No jitter lengthens a delay to more than twice itself.
pub apply-le-twice :
    (j : Jitter) (delay : ℕ) (uniform : ℕ → ℕ → ℕ)
    → IsValid j
    → IsUniform uniform
    → apply j delay uniform ≤ 2 * delay
apply-le-twice j delay uniform v u =
    omega (arith, apply-in_range j delay uniform v u, highest-le-twice j.kind j delay v refl)
