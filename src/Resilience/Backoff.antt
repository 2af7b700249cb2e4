-- ===== src/Resilience/Backoff.antt =====
-- resiliencelab/resilience/backoff.py. Delays are in ticks, rounded down; the growth factor is the
-- fraction `factor_num / factor_den`. The retry index is a natural number.
use native.Mathlib.Nat.{le-div_iff_mul-le, div-mul-le_self, pow-suc, pow-zero}
use resilience_lab.Common.{ℕ, zero, suc, ◌+◌, ◌*◌, ◌/◌, ◌^◌, ◌≤◌, ◌≡◌, arith, min, ltb}
use resilience_lab.Common.Checked.{Checked, ok, ◌>>◌, raise_if}

pub data BackoffKind : Type 0 where
  fixed linear exponential capped_exponential : BackoffKind

pub record Backoff : Type 0 where
  pub kind : BackoffKind
  pub base : ℕ
  pub max_delay : ℕ
  pub factor_num : ℕ
  pub factor_den : ℕ

-- `__post_init__`, of a factor with a positive denominator.
unfoldable pub make : BackoffKind → ℕ → ℕ → ℕ → ℕ → Checked Backoff
make kind base max_delay num den = do
  raise_if (ltb num den) "backoff factor must be >= 1"
  raise_if (ltb max_delay base) "backoff max_delay must be >= base"
  ok (record {
    kind = kind;
    base = base;
    max_delay = max_delay;
    factor_num = num;
    factor_den = den;
  })

raw_delay : BackoffKind → Backoff → ℕ → ℕ
raw_delay fixed b retry = b.base
raw_delay linear b retry = b.base * (retry + 1)
raw_delay exponential b retry = b.base * b.factor_num ^ retry / b.factor_den ^ retry
raw_delay capped_exponential b retry = b.base * b.factor_num ^ retry / b.factor_den ^ retry

unfoldable pub delay : Backoff → ℕ → ℕ
unfolding raw_delay
delay b retry = min (raw_delay b.kind b retry) b.max_delay

pub delay-le-max_delay : (b : Backoff) (retry : ℕ) → delay b retry ≤ b.max_delay
unfolding delay
delay-le-max_delay b retry = omega arith

-- What `make` accepts.
pub record IsValid (b : Backoff) : Type 0 where
  pub den_positive : 1 ≤ b.factor_den
  pub grows : b.factor_den ≤ b.factor_num
  pub base_le_max : b.base ≤ b.max_delay

pow_pos : (d k : ℕ) → 1 ≤ d → 1 ≤ d ^ k
pow_pos d zero h = rw (pow-zero d) (omega arith)
pow_pos d (suc k) h = rw (pow-suc d k) (grind (arith, pow_pos d k h))

-- Products are monotone in both factors.
mul_mono : (a b c d : ℕ) → a ≤ b → c ≤ d → a * c ≤ b * d
mul_mono a b c d h k = grind arith

-- One more factor that is at least 1 does not shorten the delay.
scaled_mono : (a p q n d : ℕ) → 1 ≤ q → 1 ≤ d → d ≤ n → a * p / q ≤ a * (p * n) / (q * d)
scaled_mono a p q n d hq hd h =
    (le-div_iff_mul-le (mul_mono 1 q 1 d hq hd)).1
      (omega (arith, mul_mono (a * p / q * q) (a * p) d n (div-mul-le_self (a * p) q) h))

power_mono : (a n d r : ℕ) → 1 ≤ d → d ≤ n → a * n ^ r / d ^ r ≤ a * n ^ suc r / d ^ suc r
power_mono a n d r hd h =
    rw (pow-suc n r, pow-suc d r) (scaled_mono a (n ^ r) (d ^ r) n d (pow_pos d r hd) hd h)

base-le-power : (a n d r : ℕ) → 1 ≤ d → d ≤ n → a ≤ a * n ^ r / d ^ r
base-le-power a n d zero hd h = rw (pow-zero n, pow-zero d) (omega arith)
base-le-power a n d (suc r) hd h =
    omega (arith, power_mono a n d r hd h, base-le-power a n d r hd h)

raw_mono :
    (k : BackoffKind) (b : Backoff) (r : ℕ)
    → IsValid b
    → (b.base ≤ raw_delay k b r) × (raw_delay k b r ≤ raw_delay k b (suc r))
unfolding raw_delay
raw_mono fixed b r v = omega arith
raw_mono linear b r v = omega arith
raw_mono exponential b r v = (
  base-le-power b.base b.factor_num b.factor_den r v.den_positive v.grows,
  power_mono b.base b.factor_num b.factor_den r v.den_positive v.grows,
)
raw_mono capped_exponential b r v = (
  base-le-power b.base b.factor_num b.factor_den r v.den_positive v.grows,
  power_mono b.base b.factor_num b.factor_den r v.den_positive v.grows,
)

-- For valid settings (a factor of at least one, a base of at most the maximum) each delay is at
-- least the base, at most the next delay, and the next is at most the maximum.
pub delay_mono :
    (b : Backoff) (retry : ℕ)
    → IsValid b
    → (b.base ≤ delay b retry)
      × (delay b retry ≤ delay b (suc retry))
      × (delay b (suc retry) ≤ b.max_delay)
unfolding delay
delay_mono b retry v = omega (arith, raw_mono b.kind b retry v, v.base_le_max)

-- What the constructor accepts is valid, if the factor has a positive denominator.
make-IsValid :
    (k : BackoffKind) (base top num den : ℕ) (b : Backoff)
    → 1 ≤ den
    → make k base top num den ≡ ok b
    → IsValid b
unfolding make
make-IsValid k base top num den b h e = ground arith
