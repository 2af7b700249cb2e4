-- ===== src/Services/Dependency/Invoke.antt =====
-- resiliencelab/services/dependency.py: `invoke`, split where it awaits. What other requests do to the
-- service meanwhile are functions on it; whether the sleep is cut off by a cancellation comes with the
-- request, as do its draws and the readings of the clock.
pub mod Slots
use resilience_lab.Common.{
  ℕ, ◌+◌, ◌-◌, ◌≡◌, refl, ap, sym, ◌∙◌, Bool, true, false, not, ◌&&◌, ◌||◌, Option, none, some,
  List, [], ◌∷◌, ◌++◌, map, ltb, leb, if◌then◌else◌, arith, if_both, Bool-cases, inl, inr,
}
use resilience_lab.Services.Capacity
use resilience_lab.Services.Capacity.{
  ServiceCapacity, Outcome, acquired, rejected, waits, attempt, resume, release,
}
use resilience_lab.Services.Dependency.{
  Report, Effect, passes, delayed, connection_error, fails, update_saturation, first_fault, effect,
}
use resilience_lab.Faults.{FaultSpec, FaultEvent, Fraction, is_active}

pub record DependencyService : Type 0 where
  pub injectors : List FaultSpec
  pub hang_duration : ℕ
  pub saturation_delay : ℕ
  pub capacity : Option ServiceCapacity
  pub saturated : Bool
  pub fault_active : Bool

-- What `_emit` reports: an edge of the saturation, or an event of the request.
pub data Notice : Type 0 where
  edge : Report → Notice
  request_rejected fault_recovered : Notice
  request_queued : ℕ → Notice
  fault_injected : FaultEvent → Notice

abbrev noticed : Option Report → List Notice
noticed none = []
noticed (some report) = edge report ∷ []

-- `_update_saturation`
saturate : DependencyService → DependencyService × List Notice
saturate d =
    let (flag, report) = update_saturation d.capacity d.saturated in
    (record d { saturated = flag }, noticed report)

-- How `acquire` goes for a request.
pub data Arrival : Type 0 where
  admitted refused parked : Arrival

abbrev arrive : Outcome → DependencyService → Arrival × DependencyService × List Notice
arrive (acquired queue_wait) d =
    let (d', edges) = saturate d in
    (admitted, d', (if ltb 0 queue_wait then request_queued queue_wait ∷ [] else []) ++ edges)
arrive rejected d = (refused, d, request_rejected ∷ [])
arrive waits d = (parked, d, [])

-- `acquire` on arrival, and after a notification.
unfoldable enter : ℕ → ℕ → DependencyService → Arrival × DependencyService × List Notice
enter task now d = elim d.capacity [
  | none ↦ (admitted, d, [])
  | some cap ↦
      let (outcome, cap') = attempt task none now cap in
      arrive outcome (record d { capacity = some cap' })
]

wake : ℕ → ℕ → DependencyService → Arrival × DependencyService × List Notice
wake task now d = elim d.capacity [
  | none ↦ (parked, d, [])
  | some cap ↦ elim (resume task now cap) [
    | none ↦ (parked, d, [])
    | some (outcome, cap') ↦ arrive outcome (record d { capacity = some cap' })
  ]
]

-- `_fault_window_active`
abbrev any_active : List FaultSpec → ℕ → Bool
any_active [] now = false
any_active (spec ∷ rest) now = is_active spec now || any_active rest now

abbrev with_draws : List FaultSpec → (ℕ → Fraction × ℕ) → List (FaultSpec × (Fraction × ℕ))
with_draws [] draw = []
with_draws (spec ∷ rest) draw = (spec, draw 0) ∷ with_draws rest (λ n. draw (n + 1))

-- A request's draws, the readings of the clock, what others do, and the cancellations.
pub record Course : Type 0 where
  pub draw : ℕ → Fraction × ℕ
  pub struck_at : ℕ
  pub window_at : ℕ
  pub while_processing : DependencyService → DependencyService
  pub while_delayed : DependencyService → DependencyService
  pub cut_processing : Bool
  pub cut_delay : Bool

pub data Ending : Type 0 where
  saturated_error interrupted pending : Ending
  ended : Effect → Ending

abbrev strikes : Option FaultEvent → List Notice
strikes none = []
strikes (some event) = fault_injected event ∷ []

-- The choice of the fault, and the flag of the fault windows.
strike : Course → DependencyService → Option FaultEvent × DependencyService × List Notice
strike course d =
    let event = first_fault course.struck_at (with_draws d.injectors course.draw) in
    let now_active = any_active d.injectors course.window_at in
    (
      event,
      record d { fault_active = now_active },
      strikes event ++ (if d.fault_active && not now_active then fault_recovered ∷ [] else []),
    )

-- The `finally` block.
leave : DependencyService → DependencyService × List Notice
leave d = elim d.capacity [
  | none ↦ (d, [])
  | some cap ↦ saturate (record d { capacity = some (release cap) })
]

abbrev is_delayed : Effect → Bool
is_delayed (delayed duration) = true
is_delayed _ = false

abbrev ending_of : Course → Effect → Ending
ending_of course e = if course.cut_delay && is_delayed e then interrupted else ended e

-- The `try` block of an admitted request, and its `finally`.
process : Course → DependencyService → Ending × DependencyService × List Notice
process course d =
    let d1 = course.while_processing d in
    if course.cut_processing
    then (let (d', notices) = leave d1 in (interrupted, d', notices))
    else (let (event, d2, before) = strike course d1 in
        let (d', after) = leave (course.while_delayed d2) in
        (ending_of course (effect d1.hang_duration d1.saturation_delay event), d', before ++ after))

abbrev continue :
    Course → Arrival × DependencyService × List Notice → Ending × DependencyService × List Notice
continue course (admitted, d, before) =
    let (ending, d', after) = process course d in (ending, d', before ++ after)
continue course (refused, d, before) = (saturated_error, d, before)
continue course (parked, d, before) = (pending, d, before)

pub invoke : Course → ℕ → ℕ → DependencyService → Ending × DependencyService × List Notice
invoke course task now d = continue course (enter task now d)

-- The requests that hold a slot.
abbrev pub in_flight : DependencyService → Option ℕ
in_flight d = elim d.capacity [ none ↦ none | some cap ↦ some cap.active ]

abbrev one_less : Option ℕ → Option ℕ
one_less none = none
one_less (some n) = some (n - 1)

abbrev one_more : Option ℕ → Option ℕ
one_more none = none
one_more (some n) = some (n + 1)
