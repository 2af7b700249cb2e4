-- ===== src/Services/Capacity.antt =====
-- resiliencelab/services/capacity.py: slots of a simulated service. The events are those of the
-- limiter; a task in the queue is a pair of its number and the time at which it began to wait
-- (`queued_at`, a local variable of its `acquire`). Each reading of the clock is an argument.
pub mod Refinement
use resilience_lab.Common.{
  ℕ, ◌+◌, ◌-◌, Bool, true, false, Option, none, some, List, [], ◌∷◌, ltb, leb, ◌==◌, if◌then◌else◌,
  max,
}
use resilience_lab.Common.Waiters.{Condition, nobody, park, notify, pick}
use resilience_lab.Resilience.Concurrency.{queue_full}

pub record ServiceCapacity : Type 0 where
  pub max_concurrency : ℕ
  pub queue_limit : Option ℕ
  pub active : ℕ
  pub waiting : ℕ
  pub cond : Condition (ℕ × ℕ)
  pub rejected_count : ℕ
  pub peak_queue_depth : ℕ

abbrev pub idle : ℕ → Option ℕ → ServiceCapacity
idle max_concurrency queue_limit = record {
  max_concurrency = max_concurrency;
  queue_limit = queue_limit;
  active = 0;
  waiting = 0;
  cond = nobody;
  rejected_count = 0;
  peak_queue_depth = 0;
}

-- `acquired` carries the wait that is returned; `rejected` is `ServiceSaturated`.
pub data Outcome : Type 0 where
  acquired : ℕ → Outcome
  rejected waits : Outcome

abbrev pub waited : Option ℕ → ℕ → ℕ
waited none now = 0
waited (some queued_at) now = now - queued_at

abbrev first_queued : Option ℕ → ℕ → ℕ
first_queued none now = now
first_queued (some queued_at) now = queued_at

-- One pass of `while True`; `queued_at` is the task's local variable, `now` its clock reading.
unfoldable pub attempt : ℕ → Option ℕ → ℕ → ServiceCapacity → Outcome × ServiceCapacity
attempt task queued_at now s =
    if ltb s.active s.max_concurrency
    then (acquired (waited queued_at now), record s { active = s.active + 1 })
    else if queue_full s.queue_limit s.waiting
    then (rejected, record s { rejected_count = s.rejected_count + 1 })
    else (
      waits,
      record s {
        waiting = s.waiting + 1;
        peak_queue_depth = max s.peak_queue_depth (s.waiting + 1);
        cond = park (task, first_queued queued_at now) s.cond;
      },
    )

abbrev pub is_task : ℕ → ℕ × ℕ → Bool
is_task task entry = entry.0 == task

abbrev pub left_woken : List (ℕ × ℕ) → ServiceCapacity → ServiceCapacity
left_woken rest s = record s { waiting = s.waiting - 1; cond = record s.cond { woken = rest } }

unfoldable pub resume : ℕ → ℕ → ServiceCapacity → Option (Outcome × ServiceCapacity)
unfolding attempt
resume task now s = elim (pick (is_task task) s.cond.woken) [
  | none ↦ none
  | some (entry, rest) ↦ some (attempt task (some entry.1) now (left_woken rest s))
]

unfoldable pub cancel : ℕ → ServiceCapacity → ServiceCapacity
cancel task s = elim (pick (is_task task) s.cond.parked) [
  | none ↦ elim (pick (is_task task) s.cond.woken) [
    | none ↦ s
    | some (entry, rest) ↦ left_woken rest s
  ]
  | some (entry, rest) ↦ record s {
    waiting = s.waiting - 1;
    cond = record s.cond { parked = rest };
  }
]

unfoldable pub release : ServiceCapacity → ServiceCapacity
release s =
    let s' = if ltb 0 s.active then record s { active = s.active - 1 } else s in
    record s' { cond = notify s'.cond }

pub data Event : Type 0 where
  acquires resumes : ℕ → ℕ → Event
  cancels : ℕ → Event
  releases : Event

abbrev pub after_resume : ServiceCapacity → Option (Outcome × ServiceCapacity) → ServiceCapacity
after_resume s none = s
after_resume s (some (o, s')) = s'

unfoldable pub step : ServiceCapacity → Event → ServiceCapacity
unfolding attempt resume cancel release
step s (acquires task now) = (attempt task none now s).1
step s (resumes task now) = after_resume s (resume task now s)
step s (cancels task) = cancel task s
step s releases = release s

unfoldable pub run : ServiceCapacity → List Event → ServiceCapacity
run s [] = s
run s (e ∷ es) = run (step s e) es
