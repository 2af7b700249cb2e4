-- ===== src/Analysis/Comparison/Pairs.antt =====
-- resiliencelab/analysis/comparison.py: which replicates `build_paired_comparison` pairs.
use text.Mathlib.TextEquality.{eq_iff}
use resilience_lab.Common.{
  ℕ, zero, suc, min, String, ◌≡◌, refl, ap, ◌∙◌, true, if◌then◌else◌, none, some, List, [], ◌∷◌,
  length, arith,
}
use resilience_lab.Common.Dict.{lookup, store, lookup-store}
use resilience_lab.Core.Schema.Graph.{contains}
use resilience_lab.Analysis.Comparison.{
  take, Metrics, Experiment, Statistics, value_at, values_of, pair_metric, paired_metrics,
  build_paired_comparison,
}

module _ {F : Type 0} where
  -- Every run has the metric, with these values.
  abbrev HasValues : String → List (Metrics F) → List F → Type 0
  HasValues metric [] [] = Unit
  HasValues metric (m ∷ runs) (v ∷ vs) = (value_at metric m ≡ some v) × HasValues metric runs vs
  HasValues metric _ _ = ⊥

  length-HasValues :
      (metric : String) (runs : List (Metrics F)) (vs : List F)
      → HasValues metric runs vs
      → length runs ≡ length vs
  length-HasValues metric [] [] h = refl
  length-HasValues metric [] (v ∷ vs) h = absurd h
  length-HasValues metric (m ∷ runs) [] h = absurd h
  length-HasValues metric (m ∷ runs) (v ∷ vs) (first, h) =
      ap suc (length-HasValues metric runs vs h)

  values_of-take :
      (metric : String) (n : ℕ) (runs : List (Metrics F)) (vs : List F)
      → HasValues metric runs vs
      → values_of metric (take n runs) ≡ take n vs
  values_of-take metric zero runs vs h = refl
  values_of-take metric (suc n) [] [] h = refl
  values_of-take metric (suc n) [] (v ∷ vs) h = absurd h
  values_of-take metric (suc n) (m ∷ runs) [] h = absurd h
  values_of-take metric (suc n) (m ∷ runs) (v ∷ vs) (first, h) =
      rw (first, values_of) (ap (λ rest. v ∷ rest) (values_of-take metric n runs vs h))

module _ {F S : Type 0} (stats : Statistics F S) where
  lookup-paired_metrics :
      (a_runs b_runs : List (Metrics F)) (metrics : List String) (found : List (String × S))
      (k : String)
      → lookup k (paired_metrics stats a_runs b_runs metrics found)
        ≡ (if contains k metrics then some (pair_metric stats a_runs b_runs k) else lookup k found)
  lookup-paired_metrics a_runs b_runs [] found k = refl
  lookup-paired_metrics a_runs b_runs (metric ∷ rest) found k =
      let found' = store metric (pair_metric stats a_runs b_runs metric) found in
      ground (
        arith,
        lookup-paired_metrics a_runs b_runs rest found' k,
        lookup-store k metric (pair_metric stats a_runs b_runs metric) found,
        eq_iff metric k,
        eq_iff k metric,
      )

  pair_metric-HasValues :
      (metric : String) (a_runs b_runs : List (Metrics F)) (xs ys : List F)
      → HasValues metric a_runs xs
      → HasValues metric b_runs ys
      → let n = min (length a_runs) (length b_runs) in
        pair_metric stats a_runs b_runs metric
        ≡ stats.paired_difference_summary (take n xs) (take n ys)
  unfolding pair_metric
  pair_metric-HasValues metric a_runs b_runs xs ys of_a of_b =
      let n = min (length a_runs) (length b_runs) in
      rw (values_of-take metric n a_runs xs of_a, pair_metric)
        (rw (values_of-take metric n b_runs ys of_b) refl)

  -- When every run of both experiments has a metric that is asked for, a paired comparison
  -- summarises its values by replicate, the first of one side with the first of the other and so
  -- on, as many as both sides have.
  build_paired_comparison_complete :
      (metrics : List String) (metric : String) (a b : Experiment F) (xs ys : List F)
      → contains metric metrics ≡ true
      → HasValues metric a.metrics_per_run xs
      → HasValues metric b.metrics_per_run ys
      → let c = build_paired_comparison stats metrics a b in
        (c.n_matched ≡ min (length xs) (length ys))
        × (lookup metric c.metrics
            ≡ some (stats.paired_difference_summary (take c.n_matched xs) (take c.n_matched ys)))
  unfolding build_paired_comparison
  build_paired_comparison_complete metrics metric a b xs ys wanted of_a of_b = (
    ground (
      arith,
      length-HasValues metric a.metrics_per_run xs of_a,
      length-HasValues metric b.metrics_per_run ys of_b,
    ),
    lookup-paired_metrics a.metrics_per_run b.metrics_per_run metrics [] metric
        ∙ rw wanted (
            ap some
              (pair_metric-HasValues metric a.metrics_per_run b.metrics_per_run xs ys of_a of_b)),
  )

  -- When only the first run of one side lacks the metric, its second run is paired with the first of
  -- the other side, and so on.
  pair_metric_gap :
      (metric : String) (gap : Metrics F) (a_runs b_runs : List (Metrics F)) (xs ys : List F)
      → value_at metric gap ≡ none
      → HasValues metric a_runs xs
      → HasValues metric b_runs ys
      → length b_runs ≡ suc (length a_runs)
      → pair_metric stats (gap ∷ a_runs) b_runs metric
        ≡ stats.paired_difference_summary (take (length a_runs) xs) (take (suc (length a_runs)) ys)
  unfolding pair_metric
  pair_metric_gap metric gap a_runs b_runs xs ys missing of_a of_b same =
      let n : min (suc (length a_runs)) (length b_runs) ≡ suc (length a_runs) =
        omega (arith, same) in
      rw (n, pair_metric)
        (rw (missing, values_of)
          (rw (values_of-take metric (length a_runs) a_runs xs of_a)
            (rw (values_of-take metric (suc (length a_runs)) b_runs ys of_b) refl)))
