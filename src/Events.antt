-- ===== src/Events.antt =====
-- resiliencelab/events.py: the emitter of a run's events. The free metadata of an event is left out;
-- the formatting of an event's identifier is a parameter.
use resilience_lab.Common.{
  ℕ, zero, suc, ◌+◌, String, ◌≡◌, refl, sym, ap, ◌∙◌, inl, inr, Bool-cases, Bool, true, false,
  Option, none, some, List, [], ◌∷◌, ◌++◌, map, length, if◌then◌else◌,
}
use mathlib.Core.List.{append_assoc, append-nil}

-- What the caller of `emit` says of an event.
pub record Report : Type 0 where
  pub event_type : String
  pub request_id : Option ℕ
  pub parent_request_id : Option ℕ
  pub attempt : Option ℕ
  pub service : Option String
  pub source_service : Option String
  pub target_service : Option String
  pub operation : Option String
  pub status : Option ℕ
  pub reason : Option String

pub record Event : Type 0 where
  pub report : Report
  pub sequence : ℕ
  pub elapsed : ℕ
  pub timestamp : ℕ
  pub experiment_id : String
  pub run_id : String
  pub event_id : String

pub record EventEmitter : Type 0 where
  pub experiment_id : String
  pub run_id : String
  pub next : ℕ
  pub events : List Event
  pub recording : Bool

abbrev pub new : String → String → EventEmitter
new experiment_id run_id = record {
  experiment_id = experiment_id;
  run_id = run_id;
  next = 0;
  events = [];
  recording = true;
}

-- What happens to an emitter: an event, or a change of the gate.
pub data Use : Type 0 where
  emits : ℕ → ℕ → Report → Use
  gates : Bool → Use

-- The numbers from one on.
abbrev pub numbers : ℕ → ℕ → List ℕ
numbers from zero = []
numbers from (suc n) = from ∷ numbers (from + 1) n

module _ (event_name : String → String → ℕ → String) where
  abbrev event_of : ℕ → ℕ → Report → EventEmitter → Event
  event_of elapsed timestamp report e = record {
    report = report;
    sequence = e.next;
    elapsed = elapsed;
    timestamp = timestamp;
    experiment_id = e.experiment_id;
    run_id = e.run_id;
    event_id = event_name e.experiment_id e.run_id e.next;
  }

  unfoldable pub emit : ℕ → ℕ → Report → EventEmitter → Option Event × EventEmitter
  emit elapsed timestamp report e =
      let event = event_of elapsed timestamp report e in
      if e.recording
      then (some event, record e { next = e.next + 1; events = e.events ++ event ∷ [] })
      else (none, e)

  unfoldable pub step : EventEmitter → Use → EventEmitter
  step e (emits elapsed timestamp report) = (emit elapsed timestamp report e).1
  step e (gates on) = record e { recording = on }

  unfoldable pub run : EventEmitter → List Use → EventEmitter
  run e [] = e
  run e (u ∷ us) = run (step e u) us

  -- What the emitter returned.
  unfoldable pub returned : EventEmitter → List Use → List Event
  returned e [] = []
  returned e (gates on ∷ us) = returned (step e (gates on)) us
  returned e (emits elapsed timestamp report ∷ us) =
      let later = returned (step e (emits elapsed timestamp report)) us in
      elim (emit elapsed timestamp report e).0 [ none ↦ later | some event ↦ event ∷ later ]

  run-events : (e : EventEmitter) (us : List Use) → (run e us).events ≡ e.events ++ returned e us
  unfolding run returned step emit
  run-events e [] = sym (append-nil e.events)
  run-events e (gates on ∷ us) = run-events (record e { recording = on }) us
  run-events e (emits elapsed timestamp report ∷ us) =
      let event = event_of elapsed timestamp report e in
      let e' : EventEmitter = record e {
        next = e.next + 1;
        events = e.events ++ event ∷ [];
        recording = true;
      } in
      elim (Bool-cases e.recording) [
        | inl on ↦ rw on (run-events e' us ∙ append_assoc e.events (event ∷ []) (returned e' us))
        | inr off ↦ rw off (run-events (record e { recording = false }) us)
      ]

  returned-numbers :
      (e : EventEmitter) (us : List Use)
      → map (λ x. x.sequence) (returned e us) ≡ numbers e.next (length (returned e us))
  unfolding returned step emit
  returned-numbers e [] = refl
  returned-numbers e (gates on ∷ us) = returned-numbers (record e { recording = on }) us
  returned-numbers e (emits elapsed timestamp report ∷ us) =
      let event = event_of elapsed timestamp report e in
      let e' : EventEmitter = record e {
        next = e.next + 1;
        events = e.events ++ event ∷ [];
        recording = true;
      } in
      elim (Bool-cases e.recording) [
        | inl on ↦ rw on (ap (λ l. e.next ∷ l) (returned-numbers e' us))
        | inr off ↦ rw off (returned-numbers (record e { recording = false }) us)
      ]

  -- After any history of a new emitter its events are those that `emit` returned, in order, and
  -- their sequence numbers count from zero without a gap, also when recording is switched off and
  -- on.
  run-new :
      (experiment_id run_id : String) (us : List Use)
      → let e = new experiment_id run_id in
        ((run e us).events ≡ returned e us)
        × (map (λ x. x.sequence) (run e us).events ≡ numbers 0 (length (run e us).events))
  run-new experiment_id run_id us =
      let e = new experiment_id run_id in
      let same = run-events e us in (same, rw same (returned-numbers e us))
