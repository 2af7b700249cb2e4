-- ===== src/Examples/Slots.antt =====
-- resiliencelab/resilience/concurrency.py, and resiliencelab/services/capacity.py and dependency.py, on
-- concrete inputs.
use resilience_lab.Common.{◌≡◌, ◌⊎◌, refl, false, none, some, List, [], ◌∷◌, map}
use resilience_lab.Resilience.Concurrency
use resilience_lab.Resilience.Concurrency.{
  ConcurrencyLimiter, ConcurrencyLimitConfig, Outcome, acquired, rejected, Event, acquires, resumes,
  cancels, releases,
}
use resilience_lab.Resilience.Concurrency.Invariant
use resilience_lab.Resilience.Concurrency.Invariant.{
  run-idle-IsValid, resume-ne-rejected, release_serves_oldest,
}
use resilience_lab.Services.Capacity
use resilience_lab.Services.Capacity.Refinement.{forget, forget_event, run-forget}
use resilience_lab.Services.Dependency.Invoke.{
  DependencyService, Course, saturated_error, pending, invoke, in_flight,
}
use resilience_lab.Services.Dependency.Invoke.Slots.{HasFlag, invoke-gives_back}

abbrev one_of_two : ConcurrencyLimitConfig
one_of_two = record { limit = 1; queue_limit = some 1 }

-- One call runs, one waits, one is turned away, and the first leaves.
abbrev visits : List Event
visits = acquires 1 ∷ acquires 2 ∷ acquires 3 ∷ releases ∷ []

after_visits : (Concurrency.run (Concurrency.idle one_of_two) visits).rejected_count ≡ 1
unfolding Concurrency.run Concurrency.step Concurrency.attempt Concurrency.release
after_visits = refl

-- The one that waited is cancelled after it was notified.
abbrev cut_visits : List Event
cut_visits = acquires 1 ∷ acquires 2 ∷ acquires 3 ∷ releases ∷ cancels 2 ∷ []

run-idle-IsValid_example :
    Invariant.IsValid
      (Invariant.lost (Concurrency.idle one_of_two) cut_visits 0)
      (Concurrency.run (Concurrency.idle one_of_two) cut_visits)
run-idle-IsValid_example = run-idle-IsValid one_of_two cut_visits

one_lost : Invariant.lost (Concurrency.idle one_of_two) cut_visits 0 ≡ 1
unfolding Concurrency.step Concurrency.attempt Concurrency.release
    resilience_lab.Common.Waiters.pick
one_lost = refl

abbrev full : ConcurrencyLimiter
full = record {
  config = one_of_two;
  active = 1;
  waiting = 1;
  cond = record { parked = 2 ∷ []; woken = [] };
  rejected_count = 0;
}

abbrev requests : List Capacity.Event
requests = Capacity.acquires 1 5 ∷ Capacity.acquires 2 6 ∷ []

run-forget_example :
    forget (Capacity.run (Capacity.idle 1 none) requests)
    ≡ Concurrency.run (forget (Capacity.idle 1 none)) (map forget_event requests)
run-forget_example = run-forget (Capacity.idle 1 none) requests

-- A service with one slot, taken by another request until it is given back.
abbrev service : DependencyService
service = record {
  injectors = [];
  hang_duration = 30;
  saturation_delay = 1;
  capacity = some (Capacity.idle 1 none);
  saturated = false;
  fault_active = false;
}

abbrev course : Course
course = record {
  draw = λ n. (record { num = 0; den = 1 }, 0);
  struck_at = 5;
  window_at = 5;
  while_processing = λ d. d;
  while_delayed = λ d. d;
  cut_processing = false;
  cut_delay = false;
}

invoke-gives_back_example :
    let d' = (invoke course 7 3 service).1 in
    (in_flight d' ≡ in_flight service)
    × (((invoke course 7 3 service).0 ≡ saturated_error)
        ⊎ (((invoke course 7 3 service).0 ≡ pending) ⊎ HasFlag d'))
invoke-gives_back_example = invoke-gives_back course 7 3 service (λ d. refl) (λ d. refl)
