-- ===== src/Resilience/Concurrency.antt =====
-- resiliencelab/resilience/concurrency.py. A coroutine runs undisturbed between two awaits, so the
-- events of the limiter are: a task enters `acquire`, a notified task goes round the loop again, a
-- task in the queue is cancelled, `release`. Tasks are numbered.
pub mod Invariant
use resilience_lab.Common.{
  ℕ, ◌+◌, ◌-◌, Bool, true, false, Option, none, some, List, [], ◌∷◌, ltb, leb, ◌==◌, if◌then◌else◌,
}
use resilience_lab.Common.Checked.{Checked, ok, ◌>>=◌, ◌>>◌, raise_if}
use resilience_lab.Common.Waiters.{Condition, nobody, park, notify, pick}

pub record ConcurrencyLimitConfig : Type 0 where
  pub limit : ℕ
  pub queue_limit : Option ℕ

-- `__post_init__`
unfoldable pub check_config : ConcurrencyLimitConfig → Checked ConcurrencyLimitConfig
check_config c = do raise_if (ltb c.limit 1) "concurrency limit must be >= 1"; ok c

pub record ConcurrencyLimiter : Type 0 where
  pub config : ConcurrencyLimitConfig
  pub open config use *
  pub active : ℕ
  pub waiting : ℕ
  pub cond : Condition ℕ
  pub rejected_count : ℕ

abbrev pub idle : ConcurrencyLimitConfig → ConcurrencyLimiter
idle c = record { config = c; active = 0; waiting = 0; cond = nobody; rejected_count = 0 }

-- How a pass of the loop in `acquire` ends.
pub data Outcome : Type 0 where
  acquired rejected waits : Outcome

abbrev pub queue_full : Option ℕ → ℕ → Bool
queue_full none waiting = false
queue_full (some qlimit) waiting = leb qlimit waiting

-- One pass of `while True`, up to `return`, `raise` or `wait()`.
unfoldable pub attempt : ℕ → ConcurrencyLimiter → Outcome × ConcurrencyLimiter
attempt task l =
    if ltb l.active l.limit
    then (acquired, record l { active = l.active + 1 })
    else if queue_full l.queue_limit l.waiting
    then (rejected, record l { rejected_count = l.rejected_count + 1 })
    else (waits, record l { waiting = l.waiting + 1; cond = park task l.cond })

-- `finally: self._waiting -= 1`, after the task has left the queue of notified ones.
abbrev pub left_woken : List ℕ → ConcurrencyLimiter → ConcurrencyLimiter
left_woken rest l = record l { waiting = l.waiting - 1; cond = record l.cond { woken = rest } }

-- A notified task has the lock again.
unfoldable pub resume : ℕ → ConcurrencyLimiter → Option (Outcome × ConcurrencyLimiter)
unfolding attempt
resume task l = elim (pick (λ t. t == task) l.cond.woken) [
  | none ↦ none
  | some (t, rest) ↦ some (attempt task (left_woken rest l))
]

-- `CancelledError` in `wait()`. Of a task that was notified already, Python 3.11 and 3.12 pass the
-- notification on to nobody.
unfoldable pub cancel : ℕ → ConcurrencyLimiter → ConcurrencyLimiter
cancel task l = elim (pick (λ t. t == task) l.cond.parked) [
  | none ↦ elim (pick (λ t. t == task) l.cond.woken) [
    | none ↦ l
    | some (t, rest) ↦ left_woken rest l
  ]
  | some (t, rest) ↦ record l { waiting = l.waiting - 1; cond = record l.cond { parked = rest } }
]

unfoldable pub release : ConcurrencyLimiter → ConcurrencyLimiter
release l =
    let l' = if ltb 0 l.active then record l { active = l.active - 1 } else l in
    record l' { cond = notify l'.cond }

pub data Event : Type 0 where
  acquires resumes cancels : ℕ → Event
  releases : Event

abbrev pub after_resume :
    ConcurrencyLimiter → Option (Outcome × ConcurrencyLimiter) → ConcurrencyLimiter
after_resume l none = l
after_resume l (some (o, l')) = l'

-- An event that is not possible changes nothing.
unfoldable pub step : ConcurrencyLimiter → Event → ConcurrencyLimiter
unfolding attempt resume cancel release
step l (acquires task) = (attempt task l).1
step l (resumes task) = after_resume l (resume task l)
step l (cancels task) = cancel task l
step l releases = release l

unfoldable pub run : ConcurrencyLimiter → List Event → ConcurrencyLimiter
run l [] = l
run l (e ∷ es) = run (step l e) es
