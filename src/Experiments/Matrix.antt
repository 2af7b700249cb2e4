-- ===== src/Experiments/Matrix.antt =====
-- resiliencelab/cli/app.py: the loop of `matrix` over the conditions of a design, and its manifest. The
-- conditions are those of `build_design`; what runs them, when an interrupt comes, the disk, and the
-- statistics of the report are parameters.

pub mod Covered
pub mod Totals
use resilience_lab.Common.{
  ℕ, String, Bool, true, false, not, ◌&&◌, if◌then◌else◌, ltb, Option, none, some, List, [], ◌∷◌,
  ◌++◌, length, count,
}
use resilience_lab.Common.Dict.{lookup, store}
use resilience_lab.Analysis.Comparison.{
  Metrics, Experiment, Statistics, Comparison, build_comparison, values,
}

pub data ConditionStatus : Type 0 where
  ok failed cancelled : ConditionStatus

-- An entry of `condition_manifests`; the manifest of its bundle and the error's text are left out.
pub record ConditionManifest : Type 0 where
  pub status : ConditionStatus
  pub condition_id : String
  pub spec_id : Option String

-- How a step of a condition ends: with a value, with an `Exception`, or with another exception, such
-- as an interrupt from the keyboard.
pub data Step (A : Type 0) : Type 0 where
  gives : A → Step A
  raises interrupts : Step A

-- What is read of a result.
pub record ConditionResult (F : Type 0) : Type 0 where
  pub cancelled : Bool
  pub comparison_entry : Experiment F

-- `interrupted_at` and `interrupted_after`: an interrupt comes at the start of a round, or when the entry
-- of a condition is made; the other two, before the first round and after the last. `reports` is what
-- `_finalize_matrix` does up to the manifest, which is written last, and `prints` what it prints then.
pub record Environment (F Spec Condition : Type 0) : Type 0 where
  pub condition_id : Condition → String
  pub condition_spec_for : Condition → Step Spec
  pub spec_id : Spec → String
  pub run_spec : Spec → Step (ConditionResult F)
  pub write_bundle : Condition → ConditionResult F → Step (Unit {0})
  pub interrupted_at : Condition → Bool
  pub interrupted_after : Condition → Bool
  pub interrupted_at_start : Bool
  pub interrupted_at_end : Bool
  pub reports : List (Experiment F) → List (String × List (String × List F)) → Step (Unit {0})
  pub prints : Step (Unit {0})

-- The observations by metric and condition.
abbrev Observations : Type 0 → Type 0
Observations F = List (String × List (String × List F))

pub record MatrixState (F : Type 0) : Type 0 where
  pub entries : List (Experiment F)
  pub observations : Observations F
  pub condition_manifests : List (String × ConditionManifest)

abbrev or_empty : {A : Type 0} → Option (List A) → List A
or_empty none = []
or_empty (some xs) = xs

module _ {F : Type 0} where
  -- `observations.setdefault(metric, {}).setdefault(id, []).append(value)`; a value that is None is not
  -- a float, and does not occur in the metrics of a run.
  abbrev observe : String → String → Option F → Observations F → Observations F
  observe id metric none observations = observations
  observe id metric (some value) observations =
      let of_metric = or_empty (lookup metric observations) in
      let of_condition = or_empty (lookup id of_metric) in
      store metric (store id (of_condition ++ value ∷ []) of_metric) observations

  abbrev observe_row : String → Metrics F → Observations F → Observations F
  observe_row id [] observations = observations
  observe_row id ((metric, value) ∷ rest) observations =
      observe_row id rest (observe id metric value observations)

  abbrev observe_rows : String → List (Metrics F) → Observations F → Observations F
  observe_rows id [] observations = observations
  observe_rows id (row ∷ rest) observations = observe_rows id rest (observe_row id row observations)

  abbrev with_manifest : ConditionStatus → String → Option String → MatrixState F → MatrixState F
  with_manifest status id spec_id s = record s {
    condition_manifests =
        store id (record { status = status; condition_id = id; spec_id = spec_id })
          s.condition_manifests;
  }

  abbrev kept : String → String → ConditionResult F → MatrixState F → MatrixState F
  kept id spec_id result s =
      let entry = result.comparison_entry in
      record (with_manifest (if result.cancelled then cancelled else ok) id (some spec_id) s) {
        entries = s.entries ++ entry ∷ [];
        observations = observe_rows id entry.metrics_per_run s.observations;
      }

  module _ {Spec Condition : Type 0} (env : Environment F Spec Condition) where
    -- A round that goes on, or is broken off, with the state that it leaves.
    abbrev entered :
        Condition → ConditionStatus → Option String → MatrixState F → Bool × MatrixState F
    entered condition status spec_id s = (
      not (env.interrupted_after condition),
      with_manifest status (env.condition_id condition) spec_id s,
    )

    abbrev keep : Condition → String → ConditionResult F → MatrixState F → Bool × MatrixState F
    keep condition spec_id result s =
        if env.interrupted_after condition
        then entered condition (if result.cancelled then cancelled else ok) (some spec_id) s
        else (true, kept (env.condition_id condition) spec_id result s)

    abbrev after_write :
        Condition
        → String
        → ConditionResult F
        → Step (Unit {0})
        → MatrixState F
        → Bool × MatrixState F
    after_write condition spec_id result (gives u) s = keep condition spec_id result s
    after_write condition spec_id result raises s = entered condition failed (some spec_id) s
    after_write condition spec_id result interrupts s = (false, s)

    abbrev after_run :
        Condition → String → Step (ConditionResult F) → MatrixState F → Bool × MatrixState F
    after_run condition spec_id (gives result) s =
        after_write condition spec_id result (env.write_bundle condition result) s
    after_run condition spec_id raises s = entered condition failed (some spec_id) s
    after_run condition spec_id interrupts s = (false, s)

    abbrev after_spec : Condition → Step Spec → MatrixState F → Bool × MatrixState F
    after_spec condition (gives spec) s =
        after_run condition (env.spec_id spec) (env.run_spec spec) s
    after_spec condition raises s = entered condition failed none s
    after_spec condition interrupts s = (false, s)

    -- One round of the loop.
    run_condition : Condition → MatrixState F → Bool × MatrixState F
    run_condition condition s =
        if env.interrupted_at condition
        then (false, s)
        else after_spec condition (env.condition_spec_for condition) s

    -- The loop: whether it came to its end, and the state that it left.
    pub run_conditions : List Condition → MatrixState F → Bool × MatrixState F
    run_conditions [] s = (true, s)
    run_conditions (condition ∷ rest) s =
        let (goes_on, s') = run_condition condition s in
        let later = run_conditions rest s' in if goes_on then later else (false, s')

abbrev same_status : ConditionStatus → ConditionStatus → Bool
same_status ok ok = true
same_status failed failed = true
same_status cancelled cancelled = true
same_status _ _ = false

-- `v.get("status") == status`
abbrev has_status : ConditionStatus → ConditionManifest → Bool
has_status status m = same_status status m.status

-- What is written at the end, without the design and the effects.
pub record MatrixManifest (F S : Type 0) : Type 0 where
  pub comparison : Comparison F S
  pub condition_count : ℕ
  pub succeeded : ℕ
  pub failed : ℕ
  pub cancelled : ℕ
  pub conditions : List (String × ConditionManifest)

pub data Exit : Type 0 where
  exit_code : ℕ → Exit
  reraised : Exit

module _ {F S Spec Condition : Type 0} (stats : Statistics F S) (metrics : List String)
    (env : Environment F Spec Condition) where
  -- The manifest that `_finalize_matrix` writes.
  abbrev manifest_of : List Condition → MatrixState F → MatrixManifest F S
  manifest_of conditions s =
      let manifests = values s.condition_manifests in
      record {
        comparison = build_comparison stats metrics s.entries;
        condition_count = length conditions;
        succeeded = count (has_status ok) manifests;
        failed = count (has_status failed) manifests;
        cancelled = count (has_status cancelled) manifests;
        conditions = s.condition_manifests;
      }

  -- `_finalize_matrix`: the manifest, if it is written, and how it ends.
  finalize_matrix : List Condition → MatrixState F → Option (MatrixManifest F S) × Step (Unit {0})
  finalize_matrix conditions s = elim (env.reports s.entries s.observations) [
    | gives u ↦ (some (manifest_of conditions s), env.prints)
    | raises ↦ (none, raises)
    | interrupts ↦ (none, interrupts)
  ]

  -- After the loop; an exception of a finalization that follows a broken loop is suppressed or takes the
  -- place of the one that broke it, and an exception leaves the command in each case.
  abbrev exit_of : Bool → ℕ → Step (Unit {0}) → Exit
  exit_of true failures (gives u) = exit_code (if ltb 0 failures then 1 else 0)
  exit_of _ failures _ = reraised

  abbrev finish : List Condition → Bool → MatrixState F → Option (MatrixManifest F S) × Exit
  finish conditions whole s =
      let (written, how) = finalize_matrix conditions s in
      (written, exit_of whole (manifest_of conditions s).failed how)

  -- `matrix`, from the design on; without a condition nothing is written.
  pub matrix : List Condition → Option (MatrixManifest F S) × Exit
  matrix [] = (none, if env.interrupted_at_start then reraised else exit_code 0)
  matrix (condition ∷ rest) =
      let start : MatrixState F = record {
        entries = [];
        observations = [];
        condition_manifests = [];
      } in
      let (whole, s) = run_conditions env (condition ∷ rest) start in
      if env.interrupted_at_start
      then (none, reraised)
      else if whole && env.interrupted_at_end
      then (none, reraised)
      else finish (condition ∷ rest) whole s
