-- ===== src/Resilience/Timeout.antt =====
-- resiliencelab/resilience/timeout.py, in ticks.
use resilience_lab.Common.{ℕ, ◌≤◌, ◌≡◌, Bool, false, Option, none, some, arith, min, leb}
use resilience_lab.Common.Checked.{Checked, ok, ◌>>◌, raise_if}

pub record Timeout : Type 0 where
  pub connect : Option ℕ
  pub read : Option ℕ
  pub total : Option ℕ

-- `value is not None and value <= 0`
abbrev not_positive : Option ℕ → Bool
not_positive none = false
not_positive (some value) = leb value 0

unfoldable pub make : Option ℕ → Option ℕ → Option ℕ → Checked Timeout
make connect read total = do
  raise_if (not_positive connect) "timeout connect must be positive or None"
  raise_if (not_positive read) "timeout read must be positive or None"
  raise_if (not_positive total) "timeout total must be positive or None"
  ok (record { connect = connect; read = read; total = total })

abbrev merge : Option ℕ → Option ℕ → Option ℕ
merge none b = b
merge (some a) none = some a
merge (some a) (some b) = some (min a b)

unfoldable combined : Timeout → Timeout → Checked Timeout
unfolding make
combined self other =
    make (merge self.connect other.connect) (merge self.read other.read)
      (merge self.total other.total)

-- The two limits at once: a duration is within both exactly when it is within the merged one.
abbrev pub Within : ℕ → Option ℕ → Type 0
Within d none = Unit {0}
Within d (some limit) = d ≤ limit

merge-Within :
    (d : ℕ) (a b : Option ℕ)
    → (Within d a × Within d b → Within d (merge a b))
      × (Within d (merge a b) → Within d a × Within d b)
merge-Within d none b = (λ h. h.1, λ h. (tt, h))
merge-Within d (some a) none = (λ h. h.0, λ h. (h, tt))
merge-Within d (some a) (some b) = (λ h. omega arith, λ h. omega arith)

abbrev pub Valid : Timeout → Type 0
Valid t =
    (not_positive t.connect ≡ false)
    × (not_positive t.read ≡ false)
    × (not_positive t.total ≡ false)

-- Two accepted timeouts combine to an accepted one, and a duration meets the read limit, or the
-- total limit, of the result exactly when it meets that limit of both.
combined_lem :
    (s t : Timeout)
    → Valid s
    → Valid t
    → (c : Timeout) × (combined s t ≡ ok c)
      × Valid c
      × ((d : ℕ)
          → (Within d s.read × Within d t.read → Within d c.read)
            × (Within d c.read → Within d s.read × Within d t.read))
      × ((d : ℕ)
          → (Within d s.total × Within d t.total → Within d c.total)
            × (Within d c.total → Within d s.total × Within d t.total))
unfolding combined
combined_lem s t vs vt = (
  record {
    connect = merge s.connect t.connect;
    read = merge s.read t.read;
    total = merge s.total t.total;
  },
  ground arith,
  (ground arith, ground arith, ground arith),
  λ d. merge-Within d s.read t.read,
  λ d. merge-Within d s.total t.total,
)
