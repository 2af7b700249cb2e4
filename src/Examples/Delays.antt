-- ===== src/Examples/Delays.antt =====
-- resiliencelab/resilience/backoff.py and retry.py on concrete inputs.
use resilience_lab.Common.{◌≤◌, ◌≡◌, refl, [], ◌∷◌, arith, count}
use resilience_lab.Resilience.Backoff.{Backoff, BackoffKind, delay}
use resilience_lab.Resilience.Retry.Budget.{RetryBudget, acquire}
use resilience_lab.Common.Deque.{popleft_while}
use resilience_lab.Resilience.Retry.SlidingWindow.{grants, in_window, grants-in_window}

abbrev doubling : Backoff
doubling = record {
  kind = BackoffKind.exponential;
  base = 100;
  max_delay = 500;
  factor_num = 2;
  factor_den = 1;
}

-- 100, 200, 400, and then the maximum.
delays : (delay doubling 0 ≡ 100) × (delay doubling 2 ≡ 400) × (delay doubling 3 ≡ 500)
unfolding delay
delays = (refl, refl, refl)

abbrev two_per_ten : RetryBudget
two_per_ten = record { max_retries = 2; window = 10; timestamps = [] }

grants_of : grants two_per_ten (0 ∷ 4 ∷ 7 ∷ 12 ∷ []) ≡ 0 ∷ 4 ∷ 12 ∷ []
unfolding acquire popleft_while
grants_of = refl

grants-in_window_example : count (in_window 3 10) (grants two_per_ten (0 ∷ 4 ∷ 7 ∷ 12 ∷ [])) ≤ 2
grants-in_window_example =
    grants-in_window two_per_ten (0 ∷ 4 ∷ 7 ∷ 12 ∷ []) 3 refl
      (omega arith, (omega arith, (omega arith, (omega arith, tt))))
