-- ===== src/Analysis/Events.antt =====
-- resiliencelab/analysis/events.py: filters, counts and traces of a run's events. How numbers are
-- written is a parameter.
pub mod Trace
pub mod Summary
use Prim.Native.String.{◌++◌ as ◌<>◌}
use text.Mathlib.Text.{◌==◌}
use resilience_lab.Common.{
  ℕ, zero, suc, ◌+◌, ◌-◌, String, Bool, true, false, not, ◌&&◌, ◌||◌, ltb, leb, if◌then◌else◌,
  ◌==◌ as ◌==ℕ◌, Option, none, some, List, [], ◌∷◌, ◌++◌, length, map,
}
use resilience_lab.Common.Dict.{lookup, store}
use resilience_lab.Events.{Event}

-- The keyword arguments of `filter_events`.
record Filter : Type 0 where
  pub event_type : Option String
  pub service : Option String
  pub request_id : Option ℕ
  pub source_service : Option String
  pub target_service : Option String
  pub start : Option ℕ
  pub end_at : Option ℕ

abbrev is_text : String → Option String → Bool
is_text wanted none = false
is_text wanted (some text) = text == wanted

abbrev is_number : ℕ → Option ℕ → Bool
is_number wanted none = false
is_number wanted (some n) = n ==ℕ wanted

-- A test that is made only for an argument that is given.
abbrev when_given : {A : Type 0} → Option A → (A → Bool) → Bool
when_given none test = true
when_given (some wanted) test = test wanted

matches : Filter → Event → Bool
matches f event =
    when_given f.event_type (λ wanted. event.report.event_type == wanted)
    && (when_given f.service (λ wanted.
          is_text wanted event.report.service || is_text wanted event.report.target_service)
        && (when_given f.request_id (λ wanted. is_number wanted event.report.request_id)
            && (when_given f.source_service (λ wanted. is_text wanted event.report.source_service)
                && (when_given f.target_service
                      (λ wanted. is_text wanted event.report.target_service)
                    && (when_given f.start (λ start. not (ltb event.elapsed start))
                        && when_given f.end_at (λ end_at. not (ltb end_at event.elapsed)))))))

filter_events : Filter → List Event → List Event
filter_events f [] = []
filter_events f (event ∷ rest) =
    let result = filter_events f rest in if matches f event then event ∷ result else result

-- `Counter`, from the counts so far.
abbrev counted : String → List (String × ℕ) → ℕ
counted k counts = elim (lookup k counts) [ none ↦ 0 | some n ↦ n ]

counter : List (String × ℕ) → List String → List (String × ℕ)
counter counts [] = counts
counter counts (k ∷ rest) = counter (store k (counted k counts + 1) counts) rest

abbrev event_types : List Event → List String
event_types events = map (λ (e : Event). e.report.event_type) events

abbrev event_summary : List Event → List (String × ℕ)
event_summary events = counter [] (event_types events)

-- The comparison of `(e.elapsed, e.sequence)`.
pub precedes : Event → Event → Bool
precedes a b = ltb a.elapsed b.elapsed || (a.elapsed ==ℕ b.elapsed && leb a.sequence b.sequence)

abbrev insert : Event → List Event → List Event
insert event [] = event ∷ []
insert event (first ∷ rest) =
    let later = insert event rest in
    if precedes event first then event ∷ first ∷ rest else first ∷ later

-- `sorted`, which keeps the order of equals.
pub ordered : List Event → List Event
ordered [] = []
ordered (event ∷ rest) = insert event (ordered rest)

module _ (seconds number : ℕ → String) where
  abbrev optional_bit : String → Option ℕ → List String
  optional_bit name none = []
  optional_bit name (some n) = (name <> ("=" <> number n)) ∷ []

  -- A text that is not None and not empty, between two others.
  abbrev framed_bit : String → Option String → String → List String
  framed_bit before none after = []
  framed_bit before (some text) after = if text == "" then [] else (before <> (text <> after)) ∷ []

  abbrev bits : Event → List String
  bits event =
      (seconds event.elapsed ∷ event.report.event_type ∷ [])
      ++ optional_bit "req" event.report.request_id
      ++ optional_bit "attempt" event.report.attempt
      ++ framed_bit "→ " event.report.target_service ""
      ++ framed_bit "(" event.report.reason ")"

  abbrev joined : String → List String → String
  joined between [] = ""
  joined between (text ∷ []) = text
  joined between (text ∷ other ∷ rest) = text <> (between <> joined between (other ∷ rest))

  -- The lines of the first events.
  abbrev pub lines_of : ℕ → List Event → List String
  lines_of zero events = []
  lines_of (suc limit) [] = []
  lines_of (suc limit) (event ∷ rest) = joined "  " (bits event) ∷ lines_of limit rest

  pub trace_lines : ℕ → List Event → List String
  trace_lines limit events =
      let all = ordered events in
      lines_of limit all
      ++ (if ltb limit (length all)
          then ("  ... (" <> (number (length all - limit) <> " more events)")) ∷ []
          else [])

  abbrev causal_trace : ℕ → List Event → String
  causal_trace limit events = joined "\n" (trace_lines limit events)
