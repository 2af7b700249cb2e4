-- ===== src/Services/Client/Rows.antt =====
-- resiliencelab/services/client.py: how many rows and events a call leaves in the collector, for the
-- signals of an execution of resiliencelab/resilience/policy.py.
use text.Mathlib.Text.{◌==◌}
use resilience_lab.Common.{
  ℕ, ◌+◌, ◌-◌, ◌≤◌, String, ◌≡◌, refl, ap, Bool, true, false, some, if◌then◌else◌, List, [], ◌∷◌,
  count, count-append, All, All-append, if_both, ◌==◌ as ◌==ℕ◌, arith,
}
use resilience_lab.Events
use resilience_lab.Events.{Event}
use resilience_lab.Metrics.Collector
use resilience_lab.Metrics.Collector.{
  Record, MetricsCollector, Operation, records_row, emits, sets_recording, sets_context, clears,
}
use resilience_lab.Resilience.Policy.{
  Policy, Entry, Round, Shared, State, Result, PolicyEvent, rejected_event, timeout_event,
  attempt_event, retry_event, Attempt, execute, fresh, max_passes,
}
use resilience_lab.Resilience.Policy.Accounting.{is_attempt, unreported, execute-counts}
use resilience_lab.Services.Client.{
  Client, Reading, Signal, starts, tells, attempt_ended, on_event, started, operations,
}

-- The rows of a kind, and the events of a type, in a collector.
abbrev pub rows : String → MetricsCollector → ℕ
rows kind c = count (λ (r : Record). r.kind == kind) c.records

abbrev pub events : String → MetricsCollector → ℕ
events event_type c = count (λ (e : Event). e.report.event_type == event_type) c.emitter.events

abbrev is_row : String → Operation → Bool
is_row kind (records_row k now fields) = k == kind
is_row kind _ = false

abbrev is_emission : String → Operation → Bool
is_emission event_type (emits elapsed timestamp report) = report.event_type == event_type
is_emission event_type _ = false

-- The operations of a call record rows and emit events, and nothing else.
abbrev IsReport : Operation → Type 0
IsReport (records_row kind now fields) = Unit
IsReport (emits elapsed timestamp report) = Unit
IsReport _ = ⊥

-- The events that an executor told, and the starts of the operation.
abbrev told : List Signal → List PolicyEvent
told [] = []
told (starts r ∷ rest) = told rest
told (tells event r ∷ rest) = event ∷ told rest

abbrev is_start : Signal → Bool
is_start (starts r) = true
is_start (tells event r) = false

module _ (event_name : String → String → ℕ → String) where
  -- What a collector that records gains.
  record Gains (c c' : MetricsCollector) (os : List Operation) : Type 0 where
    of_rows : (kind : String) → rows kind c' ≡ rows kind c + count (is_row kind) os
    of_events : (t : String) → events t c' ≡ events t c + count (is_emission t) os

  step-Gains :
      (c : MetricsCollector) (o : Operation)
      → c.recording ≡ true
      → c.emitter.recording ≡ true
      → IsReport o
      → let c' = Collector.step event_name c o in
        (c'.recording ≡ true)
        × (c'.emitter.recording ≡ true)
        × ((kind : String) → rows kind c' ≡ rows kind c + (if is_row kind o then 1 else 0))
        × ((t : String) → events t c' ≡ events t c + (if is_emission t o then 1 else 0))
  unfolding Collector.step Collector.record_row Collector.emit Events.emit
  step-Gains c (records_row k now fields) h e q = (
    ground arith,
    ground arith,
    λ kind. ground (
      arith,
      count-append (λ (r : Record). r.kind == kind) c.records
          (record {
            kind = k;
            t = now;
            experiment_id = c.experiment_id;
            run_id = c.run_id;
            seed = c.seed;
            fields = fields;
          }
            ∷ []),
    ),
    λ t. ground arith,
  )
  step-Gains c (emits elapsed timestamp report) h e q = (
    ground arith,
    ground arith,
    λ kind. ground arith,
    λ t. ground (
      arith,
      count-append (λ (x : Event). x.report.event_type == t) c.emitter.events
          (record {
            report = report;
            sequence = c.emitter.next;
            elapsed = elapsed;
            timestamp = timestamp;
            experiment_id = c.emitter.experiment_id;
            run_id = c.emitter.run_id;
            event_id = event_name c.emitter.experiment_id c.emitter.run_id c.emitter.next;
          }
            ∷ []),
    ),
  )
  step-Gains c (sets_recording value) h e q = absurd q
  step-Gains c (sets_context i r s) h e q = absurd q
  step-Gains c clears h e q = absurd q

  run-Gains :
      (c : MetricsCollector) (os : List Operation)
      → c.recording ≡ true
      → c.emitter.recording ≡ true
      → All IsReport os
      → Gains c (Collector.run event_name c os) os
  unfolding Collector.run
  run-Gains c [] h e q = record { of_rows = λ kind. omega arith; of_events = λ t. omega arith }
  run-Gains c (o ∷ os) h e (q, qs) =
      let (h', e', of_rows, of_events) = step-Gains c o h e q in
      let later = run-Gains (Collector.step event_name c o) os h' e' qs in
      record {
        of_rows = λ kind. omega (arith, later.of_rows kind, of_rows kind);
        of_events = λ t. omega (arith, later.of_events t, of_events t);
      }

module _ (number : ℕ → String) (flag : Bool → String) (nothing : String) (client : Client) where
  attempt_ended-IsReport :
      (a : Attempt) (r : Reading) → All IsReport (attempt_ended number flag nothing client a r)
  attempt_ended-IsReport a r =
      if_both (All IsReport) a.success (tt, tt)
        (if_both (All IsReport) a.timeout (tt, (tt, tt)) (tt, tt))

  on_event-IsReport :
      (event : PolicyEvent) (r : Reading)
      → All IsReport (on_event number flag nothing client event r)
  unfolding on_event
  on_event-IsReport (attempt_event a) r = (tt, attempt_ended-IsReport a r)
  on_event-IsReport (retry_event n delay status) r = (tt, (tt, tt))
  on_event-IsReport (timeout_event reason) r = (tt, (tt, tt))
  on_event-IsReport (rejected_event reason) r = (tt, tt)

  started-IsReport : (n : ℕ) (r : Reading) → All IsReport (started number flag nothing client n r)
  unfolding started
  started-IsReport n r = if_both (All IsReport) (n ==ℕ 1) (tt, tt) (tt, tt)

  operations-IsReport :
      (k : ℕ) (signals : List Signal)
      → All IsReport (operations number flag nothing client k signals)
  unfolding operations
  operations-IsReport k [] = tt
  operations-IsReport k (starts r ∷ rest) =
      All-append IsReport (started number flag nothing client (k + 1) r) _
        (started-IsReport (k + 1) r) (operations-IsReport (k + 1) rest)
  operations-IsReport k (tells event r ∷ rest) =
      All-append IsReport (on_event number flag nothing client event r) _
        (on_event-IsReport event r) (operations-IsReport k rest)

  on_event-counts :
      (event : PolicyEvent) (r : Reading)
      → let os = on_event number flag nothing client event r in
        (count (is_row "downstream") os ≡ (if is_attempt event then 1 else 0))
        × (count (is_emission "RetryExecuted") os ≡ 0)
  unfolding on_event
  on_event-counts (attempt_event a) r = ground arith
  on_event-counts (retry_event n delay status) r = (refl, refl)
  on_event-counts (timeout_event reason) r = (refl, refl)
  on_event-counts (rejected_event reason) r = (refl, refl)

  started-counts :
      (n : ℕ) (r : Reading)
      → let os = started number flag nothing client n r in
        (count (is_row "downstream") os ≡ 0)
        × (count (is_emission "RetryExecuted") os ≡ (if n ==ℕ 1 then 0 else 1))
  unfolding started
  started-counts n r = ground arith

  -- One row of a downstream call for each attempt that the executor told, and a retry for each start
  -- of the operation but the first.
  operations-counts :
      (k : ℕ) (signals : List Signal)
      → let os = operations number flag nothing client k signals in
        (count (is_row "downstream") os ≡ count is_attempt (told signals))
        × (count (is_emission "RetryExecuted") os
            ≡ (if k ==ℕ 0 then count is_start signals - 1 else count is_start signals))
  unfolding operations
  operations-counts k [] = ground arith
  operations-counts k (starts r ∷ rest) =
      let os = started number flag nothing client (k + 1) r in
      let later = operations number flag nothing client (k + 1) rest in
      ground (
        arith,
        operations-counts (k + 1) rest,
        started-counts (k + 1) r,
        count-append (is_row "downstream") os later,
        count-append (is_emission "RetryExecuted") os later,
      )
  operations-counts k (tells event r ∷ rest) =
      let os = on_event number flag nothing client event r in
      let later = operations number flag nothing client k rest in
      ground (
        arith,
        operations-counts k rest,
        on_event-counts event r,
        count-append (is_row "downstream") os later,
        count-append (is_emission "RetryExecuted") os later,
      )

  module _ (event_name : String → String → ℕ → String) where
    -- For the signals of an execution that ended, of which at most as many start the operation as it
    -- was called, a collector that records gains as many rows of downstream calls as the operation
    -- was called, less the call out of which an exception escaped that is no `CallFailure`, and an
    -- executed retry for each start of the operation but the first, of which there are at most two
    -- fewer than the policy's passes.
    pub execute-rows :
        (p : Policy) (e : Entry) (env : ℕ → Round) (s : Shared) (r : Result) (s' : State)
        (signals : List Signal) (c : MetricsCollector)
        → execute p e env fresh s ≡ some (r, s')
        → told signals ≡ s'.executor.events
        → count is_start signals ≤ s'.executor.calls
        → c.recording ≡ true
        → c.emitter.recording ≡ true
        → let c' = Collector.run event_name c (operations number flag nothing client 0 signals) in
          (rows "downstream" c' + unreported r ≡ rows "downstream" c + s'.executor.calls)
          × (events "RetryExecuted" c' ≡ events "RetryExecuted" c + (count is_start signals - 1))
          × (events "RetryExecuted" c' ≤ events "RetryExecuted" c + (max_passes p - 2))
    execute-rows p e env s r s' signals c ended told_all started_all on emitting =
        let os = operations number flag nothing client 0 signals in
        let gains = run-Gains event_name c os on emitting (operations-IsReport 0 signals) in
        let (attempts, retries) = operations-counts 0 signals in
        let (few, calls, more, balance) = execute-counts p e env s r s' ended in
        let same = ap (λ es. count is_attempt es) told_all in
        (
          omega (arith, gains.of_rows "downstream", attempts, balance, same),
          omega (arith, gains.of_events "RetryExecuted", retries, started_all),
          omega (arith, gains.of_events "RetryExecuted", retries, started_all, few, calls),
        )
