-- ===== src/Services/Client.antt =====
-- resiliencelab/services/client.py: what a client's collector gets of a call under a policy. The
-- executor's events and the starts of the operation come as a list of signals, each with what is read
-- then of the clocks and of `attempt_context`. How a value is shown in a row is a parameter. The
-- `metadata` of an event is left out.
pub mod Rows
use resilience_lab.Common.{
  ℕ, suc, ◌+◌, String, Bool, true, false, Option, none, some, if◌then◌else◌, List, [], ◌∷◌, ◌++◌,
  ◌==◌,
}
use resilience_lab.Events.{Report}
use resilience_lab.Metrics.Collector
use resilience_lab.Metrics.Collector.{MetricsCollector, Operation, records_row, emits}
use resilience_lab.Resilience.Policy.{
  PolicyEvent, rejected_event, timeout_event, attempt_event, retry_event, Attempt, Reason,
  for_concurrency, for_circuit_open, for_deadline, for_read_timeout,
}

-- What is read when a signal comes.
pub record Reading : Type 0 where
  pub now : ℕ
  pub elapsed : ℕ
  pub timestamp : ℕ
  pub duration : ℕ
  pub source_service : Option String
  pub network_latency : Option ℕ
  pub processing_latency : Option ℕ
  pub queue_wait : Option ℕ
  pub service_rejected : Bool

-- `wrapped` starts the operation, or the executor tells an event.
pub data Signal : Type 0 where
  starts : Reading → Signal
  tells : PolicyEvent → Reading → Signal

pub record Client : Type 0 where
  pub policy_name : String
  pub request_id : ℕ
  pub dependency : Option String

abbrev reason_text : Reason → String
reason_text for_concurrency = "concurrency"
reason_text for_circuit_open = "circuit_open"
reason_text for_deadline = "deadline"
reason_text for_read_timeout = "read_timeout"

-- `self.metrics.emit` of an event with the client's correlation.
abbrev emission :
    Client
    → Reading
    → String
    → Option ℕ
    → (status : Option ℕ) → (reason : Option String) → Operation
emission client r event_type attempt status reason = emits r.elapsed r.timestamp (record {
  event_type = event_type;
  request_id = some client.request_id;
  parent_request_id = none;
  attempt = attempt;
  service = none;
  source_service = r.source_service;
  target_service = client.dependency;
  operation = none;
  status = status;
  reason = reason;
})

module _ (number : ℕ → String) (flag : Bool → String) (nothing : String) where
  abbrev optional : Option ℕ → String
  optional none = nothing
  optional (some n) = number n

  abbrev correlated : Client → List (String × String) → List (String × String)
  correlated client fields =
      ("request_id", number client.request_id)
      ∷ ("dependency", elim client.dependency [ none ↦ nothing | some name ↦ name ])
      ∷ ("policy", client.policy_name)
      ∷ fields

  abbrev downstream_row : Client → Attempt → Reading → Operation
  downstream_row client a r = records_row "downstream" r.now (
      correlated client (
        ("attempt", number a.attempt)
        ∷ ("success", flag a.success)
        ∷ ("timeout", flag a.timeout)
        ∷ ("status", optional a.status)
        ∷ ("latency", number r.duration)
        ∷ ("network_latency", optional r.network_latency)
        ∷ ("processing_latency", optional r.processing_latency)
        ∷ ("queue_wait", optional r.queue_wait)
        ∷ ("service_rejected", flag r.service_rejected)
        ∷ []))

  -- The row of any other event, with the event's own fields.
  abbrev event_row : Client → String → List (String × String) → Reading → Operation
  event_row client event fields r =
      records_row "event" r.now (correlated client (("event", event) ∷ fields))

  abbrev attempt_failed : Client → Attempt → Reading → List Operation
  attempt_failed client a r =
      let failed =
        emission client r "DependencyFailed" (some a.attempt) a.status
          (some (if a.timeout then "timeout" else "failed")) in
      if a.timeout
      then emission client r "TimeoutTriggered" (some a.attempt) none (some "deadline")
        ∷ failed
        ∷ []
      else failed ∷ []

  abbrev attempt_ended : Client → Attempt → Reading → List Operation
  attempt_ended client a r =
      if a.success
      then emission client r "DependencyCompleted" (some a.attempt) a.status none ∷ []
      else attempt_failed client a r

  -- `on_event`
  on_event : Client → PolicyEvent → Reading → List Operation
  on_event client (attempt_event a) r = downstream_row client a r ∷ attempt_ended client a r
  on_event client (retry_event attempt delay status) r =
      emission client r "RetryScheduled" (some attempt) status none
      ∷ event_row client "retry"
          (("attempt", number attempt) ∷ ("delay", number delay) ∷ ("status", optional status) ∷ [])
          r
      ∷ []
  on_event client (timeout_event reason) r =
      emission client r "TimeoutTriggered" none none (some (reason_text reason))
      ∷ event_row client "timeout" (("reason", reason_text reason) ∷ []) r
      ∷ []
  on_event client (rejected_event reason) r =
      event_row client "rejected" (("reason", reason_text reason) ∷ []) r ∷ []

  -- The beginning of `wrapped`, with the attempt counter already raised.
  started : Client → ℕ → Reading → List Operation
  started client attempt r =
      if attempt == 1
      then emission client r "DependencyCalled" (some attempt) none none ∷ []
      else emission client r "RetryExecuted" (some attempt) none none ∷ []

  -- What the signals of one call do to the collector, from the attempt counter so far.
  pub operations : Client → ℕ → List Signal → List Operation
  operations client counter [] = []
  operations client counter (starts r ∷ rest) =
      started client (counter + 1) r ++ operations client (counter + 1) rest
  operations client counter (tells event r ∷ rest) =
      on_event client event r ++ operations client counter rest

  module _ (event_name : String → String → ℕ → String) where
    -- `execute`, with the signals that its executor gives; without metrics nothing is kept.
    abbrev observe : Client → List Signal → Option MetricsCollector → Option MetricsCollector
    observe client signals none = none
    observe client signals (some c) =
        some (Collector.run event_name c (operations client 0 signals))
