-- ===== src/Services/Dependency.antt =====
-- resiliencelab/services/dependency.py: the saturation flag of a dependency, the fault that strikes a
-- request, and what the fault does to it. `Invoke` is the handler around them.
pub mod Invoke
use resilience_lab.Common.{
  ℕ, ◌≡◌, refl, Bool, true, false, Option, none, some, List, [], ◌∷◌, leb, ◌==◌, if◌then◌else◌,
  arith,
}
use resilience_lab.Resilience.Errors.{
  ExceptionClass, connection_reset_error, connection_refused_error, CallFailure, call_failure,
}
use resilience_lab.Services.Capacity.{ServiceCapacity}
use resilience_lab.Faults
use resilience_lab.Faults.{FaultSpec, FaultEvent, FailureKind, Fraction, evaluate}

data Report : Type 0 where
  service_saturated service_recovered : Report

-- `_update_saturation`: the new flag, and the event if the flag changed.
update_saturation : Option ServiceCapacity → Bool → Bool × Option Report
update_saturation none flag = (flag, none)
update_saturation (some cap) flag =
    let now_full = leb cap.max_concurrency cap.active in
    if now_full
    then (if flag then (true, none) else (true, some service_saturated))
    else if flag
    then (false, some service_recovered)
    else (false, none)

-- An event is reported exactly when the flag changes.
update_saturation_edge :
    (cap : Option ServiceCapacity) (flag : Bool)
    → (update_saturation cap flag).1 ≡ none
    → (update_saturation cap flag).0 ≡ flag
unfolding update_saturation
update_saturation_edge none flag e = refl
update_saturation_edge (some cap) flag e = ground arith

-- `_evaluate`: the first injector that strikes; each draws for itself, so long as it is active.
first_fault : ℕ → List (FaultSpec × (Fraction × ℕ)) → Option FaultEvent
first_fault now [] = none
first_fault now ((spec, (draw, latency)) ∷ rest) =
    let later = first_fault now rest in
    elim (evaluate spec now draw latency) [ none ↦ later | some event ↦ some event ]

-- What happens to the request: it goes on after a delay, or an exception is raised.
data Effect : Type 0 where
  passes : Effect
  delayed : ℕ → Effect
  connection_error : ExceptionClass → Effect
  fails : CallFailure → Effect

-- `event.status_code or 503`
abbrev status_or_503 : Option ℕ → ℕ
status_or_503 none = 503
status_or_503 (some code) = if code == 0 then 503 else code

effect : ℕ → ℕ → Option FaultEvent → Effect
effect hang_duration saturation_delay none = passes
effect hang_duration saturation_delay (some event) =
    let failure = fails (call_failure (some (status_or_503 event.status_code)) none) in
    elim event.kind [
      | Faults.latency ↦ delayed event.latency
      | Faults.latency_spike ↦ delayed event.latency
      | Faults.timeout ↦ delayed hang_duration
      | Faults.connection_reset ↦ connection_error connection_reset_error
      | Faults.connection_refused ↦ connection_error connection_refused_error
      | Faults.saturation ↦ delayed saturation_delay
      | _ ↦ failure
    ]
