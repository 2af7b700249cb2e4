-- ===== src/Resilience/Retry/Budget.antt =====
-- `RetryBudget` of resiliencelab/resilience/retry.py: a sliding window of granted retries. Each
-- method is atomic under its lock and reads the clock once, its argument.
use resilience_lab.Common.{
  ℕ, ◌+◌, ◌-◌, Bool, true, false, List, [], ◌∷◌, ◌++◌, ltb, leb, if◌then◌else◌, length,
}
use resilience_lab.Common.Checked.{Checked, ok, ◌>>◌, raise_if}
use resilience_lab.Common.Deque.{popleft_while}

pub record RetryBudget : Type 0 where
  pub max_retries : ℕ
  pub window : ℕ
  pub timestamps : List ℕ

unfoldable pub make : ℕ → ℕ → Checked RetryBudget
make max_retries window = do
  raise_if (leb window 0) "window must be positive"
  ok (record { max_retries = max_retries; window = window; timestamps = [] })

-- `timestamps[0] < now - window`
abbrev pub expired : ℕ → ℕ → ℕ → Bool
expired now window t = ltb (t + window) now

prune : ℕ → RetryBudget → RetryBudget
prune now b = record b { timestamps = popleft_while (expired now b.window) b.timestamps }

grant : ℕ → RetryBudget → Bool × RetryBudget
grant now b =
    if ltb (length b.timestamps) b.max_retries
    then (true, record b { timestamps = b.timestamps ++ now ∷ [] })
    else (false, b)

unfoldable pub acquire : ℕ → RetryBudget → Bool × RetryBudget
unfolding prune grant
acquire now b = grant now (prune now b)

unfoldable pub remaining : ℕ → RetryBudget → ℕ × RetryBudget
unfolding prune
remaining now b = let b' = prune now b in (b'.max_retries - length b'.timestamps, b')
