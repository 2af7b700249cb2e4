-- ===== src/Examples/Comparing.antt =====
-- resiliencelab/analysis/comparison.py and events.py, and the matrix of resiliencelab/cli/app.py, on
-- concrete inputs.
use resilience_lab.Common.{
  ℕ, ◌+◌, ◌==◌, if◌then◌else◌, String, ◌≡◌, refl, Bool, true, false, Option, none, some, List, [],
  ◌∷◌, ◌++◌, length, count,
}
use resilience_lab.Events.{Event}
use resilience_lab.Analysis.Comparison.{Metrics, Experiment, Statistics, Effects, build_comparison}
use resilience_lab.Analysis.Comparison.Sizes.{ReportsAll, build_comparison-ReportsAll}
use resilience_lab.Experiments.Matrix.{Environment, gives, raises, matrix}
use resilience_lab.Experiments.Matrix.Totals.{Ends, matrix_lem}
use resilience_lab.Analysis.Events.{lines_of, trace_lines}
use resilience_lab.Analysis.Events.Trace.{InOrder, overflow, trace_lines_lem}

-- A float is a number or infinite, and the tables are numbers of values.
abbrev Float : Type 0
Float = Option ℕ

abbrev is_finite : Float → Bool
is_finite none = false
is_finite (some n) = true

abbrev stats : Statistics Float ℕ
stats = record {
  is_finite = is_finite;
  summarize = λ vs. length vs;
  summarize_censored = λ vs. count is_finite vs;
  bootstrap = λ vs. length vs;
  cohens_d = λ a b. some 1;
  paired_difference_summary = λ a b. length a + length b;
}

abbrev recovery : Float → Metrics Float
recovery time = ("recovery_time", some time) ∷ []

abbrev steady : Experiment Float
steady = record {
  id = some "a";
  name = some "steady";
  metrics_per_run = recovery (some 2) ∷ recovery (some 3) ∷ [];
  seeds = some (1 ∷ 2 ∷ []);
}

abbrev shaky : Experiment Float
shaky = record {
  id = some "b";
  name = none;
  metrics_per_run = recovery (some 4) ∷ recovery none ∷ [];
  seeds = some (1 ∷ 2 ∷ []);
}

abbrev wanted : List String
wanted = "recovery_time" ∷ []

build_comparison-ReportsAll_example :
    (effects : List (Effects Float)) × ((build_comparison stats wanted
        (steady ∷ shaky ∷ [])).effects
      ≡ some effects)
    × ReportsAll stats steady.metrics_per_run wanted (shaky ∷ []) effects
build_comparison-ReportsAll_example = build_comparison-ReportsAll stats wanted steady shaky []

abbrev event : ℕ → ℕ → Event
event elapsed sequence = record {
  report = record {
    event_type = "RetryScheduled";
    request_id = some 1;
    parent_request_id = none;
    attempt = none;
    service = none;
    source_service = none;
    target_service = some "db";
    operation = none;
    status = none;
    reason = none;
  };
  sequence = sequence;
  elapsed = elapsed;
  timestamp = 0;
  experiment_id = "e";
  run_id = "r";
  event_id = "id";
}

abbrev mixed : List Event
mixed = event 5 0 ∷ event 2 1 ∷ event 2 0 ∷ []

abbrev digits : ℕ → String
digits n = "0"

trace_lines_lem_example :
    (all : List Event) × InOrder all
    × ((p : Event → Bool) → count p all ≡ count p mixed)
    × (trace_lines digits digits 2 mixed
        ≡ lines_of digits digits 2 all ++ overflow digits digits 2 3)
    × (length (trace_lines digits digits 2 mixed) ≡ 2 + 1)
trace_lines_lem_example = trace_lines_lem digits digits 2 mixed

-- The run of the first condition raises, and the second's is kept.
abbrev environment : Environment Float ℕ ℕ
environment = record {
  condition_id = λ n. if n == 0 then "first" else "second";
  condition_spec_for = λ n. gives n;
  spec_id = λ n. "spec";
  run_spec = λ n.
      if n == 0 then raises else gives (record { cancelled = false; comparison_entry = steady });
  write_bundle = λ n result. gives tt;
  interrupted_at = λ n. false;
  interrupted_after = λ n. false;
  interrupted_at_start = false;
  interrupted_at_end = false;
  reports = λ entries observations. gives tt;
  prints = gives tt;
}

matrix_lem_example :
    Ends stats wanted environment (0 ∷ 1 ∷ []) (matrix stats wanted environment (0 ∷ 1 ∷ []))
matrix_lem_example = matrix_lem stats wanted environment 0 (1 ∷ []) ((refl, tt), (tt, tt))
