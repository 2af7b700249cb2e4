-- ===== src/Experiments/Runner.antt =====
-- resiliencelab/experiments/runner.py: the repetitions of an experiment, and the faults of each service.
-- One repetition is a function of the environment on its index and seed, and so is the token at each
-- check. The random seeds are numpy's draws.
pub mod Repetitions
pub mod Routing
use text.Mathlib.Text.{◌==◌}
use resilience_lab.Common.{
  ℕ, zero, suc, ◌+◌, String, Bool, true, false, Option, none, some, List, [], ◌∷◌, ◌++◌, length,
  if◌then◌else◌,
}
use resilience_lab.Core.Cancellation.{CancellationToken, CancelledError, raise_if_cancelled}
use resilience_lab.Faults.{FailureKind, TemporalMode, Fraction, FaultSpec}

pub data SeedStrategy : Type 0 where
  deterministic random explicit : SeedStrategy

pub record RepetitionsSpec : Type 0 where
  pub count : ℕ
  pub seed_strategy : SeedStrategy
  pub base_seed : ℕ

-- `[base + i for i in range(count)]`, from `i` on.
abbrev counted_seeds : ℕ → ℕ → ℕ → List ℕ
counted_seeds base i zero = []
counted_seeds base i (suc n) = (base + i) ∷ counted_seeds base (suc i) n

abbrev drawn_seeds : (ℕ → ℕ) → ℕ → ℕ → List ℕ
drawn_seeds draw i zero = []
drawn_seeds draw i (suc n) = draw i ∷ drawn_seeds draw (suc i) n

-- `_seeds`
unfoldable pub seeds : (ℕ → ℕ) → RepetitionsSpec → List ℕ
seeds draw r = elim r.seed_strategy [
  | random ↦ drawn_seeds draw 0 r.count
  | _ ↦ counted_seeds r.base_seed 0 r.count
]

-- How one repetition ends: with its result, with `CancelledError`, or with another exception.
pub data Once (R : Type 0) : Type 0 where
  returns : R → Once R
  is_cancelled : Once R
  fails : String → Once R

pub data Lifecycle : Type 0 where
  started : ℕ → Lifecycle
  cancelled : ℕ → ℕ → Lifecycle
  failed : String → Lifecycle
  completed : ℕ → Lifecycle

pub record ExperimentResult (R : Type 0) : Type 0 where
  pub runs : List R
  pub is_partial : Bool
  pub events : List Lifecycle

-- The result, or the exception that `run_async` raises again after its event.
pub data Outcome (R : Type 0) : Type 0 where
  result : ExperimentResult R → Outcome R
  raises : String → List Lifecycle → Outcome R

-- How the loop over the seeds ends, with the runs so far.
pub data Loop (R : Type 0) : Type 0 where
  all_done cut_off : List R → Loop R
  broken : String → Loop R

module _ {R : Type 0} (run_once : ℕ → ℕ → Once R) (token : ℕ → Option CancellationToken) where
  -- The check before the repetition with an index; 0 is the one before the first.
  abbrev pub check : ℕ → Option CancelledError
  check i = elim (token i) [ none ↦ none | some t ↦ raise_if_cancelled t ]

  unfoldable pub loop : ℕ → List ℕ → List R → Loop R
  loop i [] runs = all_done runs
  loop i (seed ∷ rest) runs = elim (check (suc i)) [
    | some e ↦ cut_off runs
    | none ↦ elim (run_once i seed) [
      | returns r ↦ loop (suc i) rest (runs ++ r ∷ [])
      | is_cancelled ↦ cut_off runs
      | fails text ↦ broken text
    ]
  ]

  abbrev pub from_start : List ℕ → Loop R
  from_start all_seeds = elim (check 0) [ some e ↦ cut_off [] | none ↦ loop 0 all_seeds [] ]

  abbrev pub closed : ℕ → Loop R → Outcome R
  closed total (all_done runs) = result (record {
    runs = runs;
    is_partial = false;
    events = started total ∷ completed (length runs) ∷ [];
  })
  closed total (cut_off runs) = result (record {
    runs = runs;
    is_partial = true;
    events = started total ∷ cancelled (length runs) total ∷ [];
  })
  closed total (broken text) = raises text (started total ∷ failed text ∷ [])

  unfoldable pub run_async : List ℕ → Outcome R
  run_async all_seeds = closed (length all_seeds) (from_start all_seeds)

-- The failure specification, of which the fields of a fault are read.
pub record FailureSpec : Type 0 where
  pub target : String
  pub kind : FailureKind
  pub mode : TemporalMode
  pub probability : Fraction
  pub start : ℕ
  pub duration : ℕ
  pub period : ℕ
  pub status_code : Option ℕ

-- `build_fault_spec` of core/builders.py
abbrev build_fault_spec : FailureSpec → FaultSpec
build_fault_spec s = record {
  kind = s.kind;
  mode = s.mode;
  probability = s.probability;
  start = s.start;
  duration = s.duration;
  period = s.period;
  status_code = s.status_code;
}

abbrev pub Routed : Type 0
Routed = List (String × List FaultSpec)

-- `routed.setdefault(name, []).append(fault)`
unfoldable pub append_to : String → FaultSpec → Routed → Routed
append_to name fault [] = (name, fault ∷ []) ∷ []
append_to name fault ((other, faults) ∷ rest) =
    let later = append_to name fault rest in
    if other == name then (other, faults ++ fault ∷ []) ∷ rest else (other, faults) ∷ later

-- `routed.get(name, [])`
unfoldable pub faults_of : String → Routed → List FaultSpec
faults_of name [] = []
faults_of name ((other, faults) ∷ rest) = if other == name then faults else faults_of name rest

abbrev pub after_warmup : ℕ → FailureSpec → FaultSpec
after_warmup warmup failure =
    let fault : FaultSpec = build_fault_spec failure in
    record fault { start = failure.start + warmup }

-- The loop of `_injectors_by_service`; `has_services` says that the system declares some.
unfoldable pub injectors_by_service : Bool → ℕ → List FailureSpec → Routed → Routed
injectors_by_service has_services warmup [] routed = routed
injectors_by_service has_services warmup (failure ∷ rest) routed =
    injectors_by_service has_services warmup rest (
      append_to (if has_services then failure.target else "payment_service")
        (after_warmup warmup failure) routed)
