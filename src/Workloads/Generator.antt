-- ===== src/Workloads/Generator.antt =====
-- resiliencelab/workloads/generator.py: the loops that issue requests until a deadline. What the clock and
-- the token say at each pass of a loop is a list of passes; a request is issued to the system under test,
-- which answers, and is recorded by the collector.
pub mod Drives
use resilience_lab.Common.{
  ℕ, zero, suc, ◌+◌, ◌≤◌, ◌<◌, String, ◌≡◌, refl, ◌∙◌, ap, Bool, true, false, not, Option, none,
  some, List, [], ◌∷◌, ◌++◌, ltb, if◌then◌else◌, arith, length,
}
use resilience_lab.Core.Cancellation.{CancellationToken, CancelledError, raise_if_cancelled}
use resilience_lab.Workloads.Arrivals.{WorkloadType, closed_loop}

-- How a request ended: the status of an answer, or an exception, which may be a timeout.
pub data Sent : Type 0 where
  answered : ℕ → Sent
  raised : Bool → Sent

-- The row that `_issue` records, with the type of the event that follows it.
pub record Row : Type 0 where
  pub request_id : ℕ
  pub status : Option ℕ
  pub success : Bool
  pub timeout : Bool

pub data Closing : Type 0 where
  request_completed request_failed : Closing

abbrev row_of : ℕ → Sent → Row
row_of id (answered status) = record {
  request_id = id;
  status = some status;
  success = ltb status 400;
  timeout = false;
}
row_of id (raised timeout) = record {
  request_id = id;
  status = none;
  success = false;
  timeout = timeout;
}

-- What `_issue` leaves behind while the collector records.
pub data Trace : Type 0 where
  request_started : ℕ → Trace
  recorded : Row → Trace
  closing : Closing → ℕ → Trace

abbrev pub issued : ℕ → Sent → List Trace
issued id sent =
    let row : Row = row_of id sent in
    request_started id
    ∷ recorded row
    ∷ closing (if row.success then request_completed else request_failed) id
    ∷ []

-- A pass of a loop: whether the deadline lies ahead, the token, and how the request ends.
pub record Pass : Type 0 where
  pub ahead : Bool
  pub token : CancellationToken
  pub sent : Sent

-- How a drive ends: at its deadline, by a cancellation, or, in this model only, because the list of
-- passes ends first.
pub data Ending : Type 0 where
  at_deadline : Ending
  cancelled_by : CancelledError → Ending
  unfinished : Ending

pub record Log : Type 0 where
  pub recording : Bool
  pub traces : List Trace

-- The gate of the collector.
abbrev pub note : List Trace → Log → Log
note new log = if log.recording then record log { traces = log.traces ++ new } else log

-- `_arrival_loop`, from the request number `id` on.
unfoldable pub arrival_loop : ℕ → List Pass → Log → Ending × Log
arrival_loop id [] log = (unfinished, log)
arrival_loop id (p ∷ ps) log =
    let log' = note (issued id p.sent) log in
    let rest = arrival_loop (suc id) ps log' in
    if not p.ahead
    then (at_deadline, log)
    else elim (raise_if_cancelled p.token) [ some e ↦ (cancelled_by e, log) | none ↦ rest ]

-- A turn of a client of `_closed_loop`, a whole request; requests that the end of the drive cuts off are
-- left out, and what several clients leave behind stands in the order of their turns. `counter` numbers the requests of all clients; a client whose
-- check raised is finished, and `gather` keeps its exception to itself.
pub record Turn : Type 0 where
  pub client : ℕ
  pub token : CancellationToken
  pub sent : Sent

abbrev pub is_done : ℕ → List ℕ → Bool
is_done c [] = false
is_done c (d ∷ ds) =
    if not (ltb c d) then (if not (ltb d c) then true else is_done c ds) else is_done c ds

unfoldable pub client_turns : ℕ → List ℕ → List Turn → Log → Log
client_turns id finished [] log = log
client_turns id finished (t ∷ ts) log =
    let idle = client_turns id finished ts log in
    let stopped = client_turns id (t.client ∷ finished) ts log in
    let working = client_turns (suc id) finished ts (note (issued id t.sent) log) in
    if is_done t.client finished
    then idle
    else elim (raise_if_cancelled t.token) [ some e ↦ stopped | none ↦ working ]

-- `_closed_loop` sleeps for the duration, stops its clients and gathers them.
unfoldable pub closed_loop_drive : List Turn → Log → Ending × Log
closed_loop_drive turns log = (at_deadline, client_turns 0 [] turns log)

-- What happens during one `_drive`.
pub record Environment : Type 0 where
  pub at_start : CancellationToken
  pub turns : List Turn
  pub passes : List Pass

abbrev pub is_closed_loop : WorkloadType → Bool
is_closed_loop closed_loop = true
is_closed_loop _ = false

unfoldable pub drive : WorkloadType → Environment → Log → Ending × Log
drive kind env log = elim (raise_if_cancelled env.at_start) [
  | some e ↦ (cancelled_by e, log)
  | none ↦
      if is_closed_loop kind then closed_loop_drive env.turns log else arrival_loop 0 env.passes log
]

abbrev pub after_warmup : (Log → Ending × Log) → Ending × Log → Ending × Log
after_warmup measured (at_deadline, log) = measured (record log { recording = true })
after_warmup measured (ending, log) = (ending, record log { recording = true })

-- `run`: the warm-up, unrecorded, and the measured part.
unfoldable pub run : WorkloadType → ℕ → Environment → Environment → Log → Ending × Log
run kind warmup warm measured log =
    if ltb 0 warmup
    then after_warmup (drive kind measured) (drive kind warm (record log { recording = false }))
    else drive kind measured log
