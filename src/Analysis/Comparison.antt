-- ===== src/Analysis/Comparison.antt =====
-- resiliencelab/analysis/comparison.py: experiments set side by side. A float is of any type with a test
-- for being finite; what numpy and resiliencelab/analysis/statistics.py compute of values is a
-- parameter. A run's metrics are a dictionary in which a value may be None.

pub mod Pairs
pub mod Sizes
use text.Mathlib.Text.{◌==◌}
use resilience_lab.Common.{
  ℕ, zero, suc, ◌+◌, String, Bool, true, false, not, ◌&&◌, ◌||◌, min, ltb, leb, if◌then◌else◌,
  ◌==◌ as ◌==ℕ◌, Option, none, some, List, [], ◌∷◌, ◌++◌, length, count,
}
use resilience_lab.Common.Dict.{lookup, store}

abbrev take {ℓ} : {A : Type ℓ} → ℕ → List A → List A
take zero xs = []
take (suc n) [] = []
take (suc n) (x ∷ xs) = x ∷ take n xs

abbrev pub Metrics : Type 0 → Type 0
Metrics F = List (String × Option F)

-- What an entry of a comparison is made of.
pub record Experiment (F : Type 0) : Type 0 where
  pub id : Option String
  pub name : Option String
  pub metrics_per_run : List (Metrics F)
  pub seeds : Option (List ℕ)

-- The statistics of values that are in floating point, in tables of any type.
pub record Statistics (F S : Type 0) : Type 0 where
  pub is_finite : F → Bool
  pub summarize : List F → S
  pub summarize_censored : List F → S
  pub bootstrap : List F → S
  pub cohens_d : List F → List F → F
  pub paired_difference_summary : List F → List F → S

-- `m[name]`, where it is there and not None.
abbrev value_at : {F : Type 0} → String → Metrics F → Option F
value_at name m = elim (lookup name m) [ none ↦ none | some value ↦ value ]

-- `[m[name] for m in runs if name in m and m[name] is not None]`
abbrev values_of : {F : Type 0} → String → List (Metrics F) → List F
values_of name [] = []
values_of name (m ∷ rest) =
    let later = values_of name rest in
    elim (value_at name m) [ none ↦ later | some value ↦ value ∷ later ]

pub data Aggregate (S : Type 0) : Type 0 where
  no_data : Aggregate S
  censored_t_mean_ci bootstrapped t_mean_ci : S → Aggregate S

-- The effect of one metric between two experiments; the censored one has the numbers of recovered
-- values and of all, of both sides.
pub data EffectSize (F : Type 0) : Type 0 where
  censored : (ℕ × ℕ) → (ℕ × ℕ) → EffectSize F
  undefined_effect too_few : EffectSize F
  size : F → EffectSize F

pub record MetricEffect (F : Type 0) : Type 0 where
  pub metric : String
  pub effect_size : EffectSize F
  pub n : ℕ

pub record Row (S : Type 0) : Type 0 where
  pub name : String
  pub id : Option String
  pub aggregates : List (String × Aggregate S)

pub record Effects (F : Type 0) : Type 0 where
  pub versus : Option String
  pub of_metrics : List (MetricEffect F)

pub record Comparison (F S : Type 0) : Type 0 where
  pub experiments : List (Row S)
  pub effects : Option (List (Effects F))

pub data Warning : Type 0 where
  unbalanced : ℕ → ℕ → ℕ → Warning
  seeds_differ : Warning

record PairedComparison (S : Type 0) : Type 0 where
  pub reference : Option String
  pub versus : Option String
  pub n_a : ℕ
  pub n_b : ℕ
  pub n_matched : ℕ
  pub metrics : List (String × S)
  pub warnings : List Warning

-- `experiment.get("name", experiment.get("id"))`
abbrev name_or_id : {F : Type 0} → Experiment F → Option String
name_or_id e = elim e.name [ none ↦ e.id | some name ↦ some name ]

abbrev row_name : {F : Type 0} → Experiment F → String
row_name e = elim (name_or_id e) [ none ↦ "unknown" | some name ↦ name ]

-- `dict.values()`
abbrev pub values : {A : Type 0} → List (String × A) → List A
values [] = []
values ((k, a) ∷ rest) = a ∷ values rest

-- `list(a) != list(b)`
abbrev differ : List ℕ → List ℕ → Bool
differ [] [] = false
differ (x ∷ xs) (y ∷ ys) = not (x ==ℕ y) || differ xs ys
differ _ _ = true

abbrev is_some_seed : List ℕ → Bool
is_some_seed [] = false
is_some_seed (x ∷ xs) = true

abbrev seeds_warning : ℕ → Option (List ℕ) → Option (List ℕ) → List Warning
seeds_warning n (some a) (some b) =
    if is_some_seed a && (is_some_seed b && differ (take n a) (take n b))
    then seeds_differ ∷ []
    else []
seeds_warning n _ _ = []

module _ {F S : Type 0} (stats : Statistics F S) where
  -- `_has_censored`, of floats.
  abbrev has_censored : List F → Bool
  has_censored [] = false
  has_censored (v ∷ vs) = not (stats.is_finite v) || has_censored vs

  -- The counts of `_recovery_rates`; the rate is their quotient.
  abbrev recovery_rates : List F → ℕ × ℕ
  recovery_rates vs = (count stats.is_finite vs, length vs)

  abbrev aggregate_values : String → Bool → List F → Aggregate S
  aggregate_values name use_bootstrap [] = no_data
  aggregate_values name use_bootstrap (v ∷ vs) =
      if name == "recovery_time" && has_censored (v ∷ vs)
      then censored_t_mean_ci (stats.summarize_censored (v ∷ vs))
      else if use_bootstrap && leb 3 (length (v ∷ vs))
      then bootstrapped (stats.bootstrap (v ∷ vs))
      else t_mean_ci (stats.summarize (v ∷ vs))

  aggregate_metric : List (Metrics F) → String → Bool → Aggregate S
  aggregate_metric metrics_per_run name use_bootstrap =
      aggregate_values name use_bootstrap (values_of name metrics_per_run)

  -- The effect over as many values as both sides have.
  effect_size_of : String → List F → List F → EffectSize F
  effect_size_of metric a b =
      if metric == "recovery_time" && (has_censored a || has_censored b)
      then censored (recovery_rates a) (recovery_rates b)
      else if leb 2 (min (length a) (length b))
      then (let d = stats.cohens_d a b in if stats.is_finite d then size d else undefined_effect)
      else too_few

  effect_of : List (Metrics F) → List (Metrics F) → String → MetricEffect F
  effect_of ref_runs other_runs metric =
      let a = values_of metric ref_runs in
      let b = values_of metric other_runs in
      let n = min (length a) (length b) in
      record { metric = metric; effect_size = effect_size_of metric (take n a) (take n b); n = n }

  abbrev each_effect : List (Metrics F) → List (Metrics F) → List String → List (MetricEffect F)
  each_effect ref_runs other_runs [] = []
  each_effect ref_runs other_runs (metric ∷ rest) =
      effect_of ref_runs other_runs metric ∷ each_effect ref_runs other_runs rest

  abbrev effects_against : List (Metrics F) → List String → List (Experiment F) → List (Effects F)
  effects_against ref_runs metrics [] = []
  effects_against ref_runs metrics (other ∷ rest) =
      record {
        versus = name_or_id other;
        of_metrics = each_effect ref_runs other.metrics_per_run metrics;
      }
      ∷ effects_against ref_runs metrics rest

  abbrev aggregates_of :
      List (Metrics F) → List String → List (String × Aggregate S) → List (String × Aggregate S)
  aggregates_of per_run [] row = row
  aggregates_of per_run (metric ∷ rest) row =
      aggregates_of per_run rest (store metric (aggregate_metric per_run metric false) row)

  abbrev rows_of : List String → List (Experiment F) → List (String × Row S) → List (String × Row S)
  rows_of metrics [] rows = rows
  rows_of metrics (e ∷ rest) rows = rows_of metrics rest (
      store (row_name e)
        (record {
          name = row_name e;
          id = e.id;
          aggregates = aggregates_of e.metrics_per_run metrics [];
        })
        rows)

  -- For metrics that are given.
  pub build_comparison : List String → List (Experiment F) → Comparison F S
  build_comparison metrics experiments = record {
    experiments = values (rows_of metrics experiments []);
    effects = elim experiments [
      | reference ∷ other ∷ rest ↦
          some (effects_against reference.metrics_per_run metrics (other ∷ rest))
      | _ ↦ none
    ];
  }

  -- `_pair_metric`
  pair_metric : List (Metrics F) → List (Metrics F) → String → S
  pair_metric a_runs b_runs metric =
      let n = min (length a_runs) (length b_runs) in
      let avals = values_of metric (take n a_runs) in
      let bvals = values_of metric (take n b_runs) in stats.paired_difference_summary avals bvals

  abbrev paired_metrics :
      List (Metrics F) → List (Metrics F) → List String → List (String × S) → List (String × S)
  paired_metrics a_runs b_runs [] found = found
  paired_metrics a_runs b_runs (metric ∷ rest) found =
      paired_metrics a_runs b_runs rest (store metric (pair_metric a_runs b_runs metric) found)

  build_paired_comparison : List String → Experiment F → Experiment F → PairedComparison S
  build_paired_comparison metrics a b =
      let n_a = length a.metrics_per_run in
      let n_b = length b.metrics_per_run in
      let n = min n_a n_b in
      record {
        reference = name_or_id a;
        versus = name_or_id b;
        n_a = n_a;
        n_b = n_b;
        n_matched = n;
        metrics = paired_metrics a.metrics_per_run b.metrics_per_run metrics [];
        warnings =
            ((if n_a ==ℕ n_b then [] else unbalanced n_a n_b n ∷ [])
              ++ seeds_warning n a.seeds b.seeds);
      }
