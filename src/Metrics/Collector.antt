-- ===== src/Metrics/Collector.antt =====
-- resiliencelab/metrics/collector.py: the rows and the events of a run behind one gate. The fields of
-- a row are a list of names and texts.
use resilience_lab.Common.{
  ℕ, String, ◌≡◌, refl, Bool, true, Option, List, [], ◌∷◌, ◌++◌, ◌∙◌, if◌then◌else◌, arith,
}
use resilience_lab.Events
use resilience_lab.Events.{EventEmitter, Event, Report}

pub record Record : Type 0 where
  pub kind : String
  pub t : ℕ
  pub experiment_id : String
  pub run_id : String
  pub seed : Option ℕ
  pub fields : List (String × String)

pub record MetricsCollector : Type 0 where
  pub experiment_id : String
  pub run_id : String
  pub seed : Option ℕ
  pub records : List Record
  pub recording : Bool
  pub emitter : EventEmitter

abbrev pub new : String → String → Option ℕ → MetricsCollector
new experiment_id run_id seed = record {
  experiment_id = experiment_id;
  run_id = run_id;
  seed = seed;
  records = [];
  recording = true;
  emitter = Events.new experiment_id run_id;
}

unfoldable pub set_recording : Bool → MetricsCollector → MetricsCollector
set_recording value c = record c {
  recording = value;
  emitter = record c.emitter { recording = value };
}

unfoldable pub set_context : String → String → Option ℕ → MetricsCollector → MetricsCollector
set_context experiment_id run_id seed c = record c {
  experiment_id = experiment_id;
  run_id = run_id;
  seed = seed;
}

unfoldable pub record_row :
    String → ℕ → List (String × String) → MetricsCollector → MetricsCollector
record_row kind now fields c =
    let row : Record = record {
      kind = kind;
      t = now;
      experiment_id = c.experiment_id;
      run_id = c.run_id;
      seed = c.seed;
      fields = fields;
    } in
    if c.recording then record c { records = c.records ++ row ∷ [] } else c

unfoldable extend : List Record → MetricsCollector → MetricsCollector
extend rows c = record c { records = c.records ++ rows }

unfoldable pub clear : MetricsCollector → MetricsCollector
clear c = record c { records = [] }

-- What happens to a collector.
pub data Operation : Type 0 where
  records_row : String → ℕ → List (String × String) → Operation
  emits : ℕ → ℕ → Report → Operation
  sets_recording : Bool → Operation
  sets_context : String → String → Option ℕ → Operation
  clears : Operation

module _ (event_name : String → String → ℕ → String) where
  unfoldable pub emit : ℕ → ℕ → Report → MetricsCollector → Option Event × MetricsCollector
  emit elapsed timestamp report c =
      let (event, emitter) = Events.emit event_name elapsed timestamp report c.emitter in
      (event, record c { emitter = emitter })

  unfoldable pub step : MetricsCollector → Operation → MetricsCollector
  step c (records_row kind now fields) = record_row kind now fields c
  step c (emits elapsed timestamp report) = (emit elapsed timestamp report c).1
  step c (sets_recording value) = set_recording value c
  step c (sets_context experiment_id run_id seed) = set_context experiment_id run_id seed c
  step c clears = clear c

  unfoldable pub run : MetricsCollector → List Operation → MetricsCollector
  run c [] = c
  run c (o ∷ os) = run (step c o) os

  abbrev OneGate : MetricsCollector → MetricsCollector → Type 0
  OneGate c d =
      (d.recording ≡ d.emitter.recording)
      × (d.emitter.experiment_id ≡ c.emitter.experiment_id)
      × (d.emitter.run_id ≡ c.emitter.run_id)

  step-gate :
      (c : MetricsCollector) (o : Operation)
      → c.recording ≡ c.emitter.recording
      → OneGate c (step c o)
  unfolding step record_row emit set_recording set_context clear Events.emit
  step-gate c (records_row kind now fields) h = ground arith
  step-gate c (emits elapsed timestamp report) h = ground arith
  step-gate c (sets_recording value) h = (refl, refl, refl)
  step-gate c (sets_context experiment_id run_id seed) h = (h, refl, refl)
  step-gate c clears h = (h, refl, refl)

  -- From a collector whose gate and whose emitter's gate agree, no sequence of rows, events,
  -- switches, changes of context and clearings parts the two gates, and none changes the emitter's
  -- identifiers.
  run-gate :
      (c : MetricsCollector) (os : List Operation)
      → c.recording ≡ c.emitter.recording
      → OneGate c (run c os)
  unfolding run
  run-gate c [] h = (h, refl, refl)
  run-gate c (o ∷ os) h =
      let first = step-gate c o h in
      let rest = run-gate (step c o) os first.0 in (rest.0, rest.1 ∙ first.1, rest.2 ∙ first.2)
