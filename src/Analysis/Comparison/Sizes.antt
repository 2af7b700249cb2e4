-- ===== src/Analysis/Comparison/Sizes.antt =====
-- resiliencelab/analysis/comparison.py: what `build_comparison` says of effects.
use text.Mathlib.TextEquality.{eq_iff}
use resilience_lab.Common.{
  ℕ, zero, suc, ◌+◌, ◌<◌, ◌≤◌, min, String, ◌≡◌, refl, ap, true, false, some, List, [], ◌∷◌, length,
  count, count-le-length, arith,
}
use resilience_lab.Analysis.Comparison.{
  take, Metrics, Experiment, Statistics, values_of, censored, size, MetricEffect, Effects,
  name_or_id, has_censored, effect_size_of, effect_of, each_effect, effects_against,
  build_comparison,
}

length-take : {A : Type 0} (n : ℕ) (xs : List A) → n ≤ length xs → length (take n xs) ≡ n
length-take zero xs h = refl
length-take (suc n) [] h = absurd (omega arith)
length-take (suc n) (x ∷ xs) h = ap suc (length-take n xs (omega arith))

module _ {F S : Type 0} (stats : Statistics F S) where
  has_censored-count :
      (vs : List F) → has_censored stats vs ≡ true → count stats.is_finite vs < length vs
  has_censored-count [] h = cc
  has_censored-count (v ∷ vs) h =
      ground (arith, has_censored-count vs, count-le-length stats.is_finite vs)

  -- The values of a metric on one side, as many as both sides have.
  abbrev side : String → List (Metrics F) → ℕ → List F
  side metric runs n = take n (values_of metric runs)

  -- What an effect between two experiments says.
  pub record Reports (a_runs b_runs : List (Metrics F)) (metric : String) (e : MetricEffect F)
      : Type 0 where
    pub named : e.metric ≡ metric
    pub counted : e.n ≡ min (length (values_of metric a_runs)) (length (values_of metric b_runs))
    pub finite : (d : F) → e.effect_size ≡ size d → stats.is_finite d ≡ true
    pub recovered :
        metric ≡ "recovery_time"
        → (d : F) → e.effect_size ≡ size d
        → (has_censored stats (side metric a_runs e.n) ≡ false)
          × (has_censored stats (side metric b_runs e.n) ≡ false)
    pub unrecovered :
        (a b : ℕ × ℕ)
        → e.effect_size ≡ censored a b
        → (a.1 ≡ e.n) × (b.1 ≡ e.n) × (a.0 + b.0 < e.n + e.n)

  effect_size_of-finite :
      (metric : String) (a b : List F) (d : F)
      → effect_size_of stats metric a b ≡ size d
      → (stats.is_finite d ≡ true)
        × (metric ≡ "recovery_time"
            → (has_censored stats a ≡ false) × (has_censored stats b ≡ false))
  unfolding effect_size_of
  effect_size_of-finite metric a b d h = ground (arith, h, eq_iff metric "recovery_time")

  effect_size_of-counts :
      (metric : String) (a b : List F) (x y : ℕ × ℕ)
      → effect_size_of stats metric a b ≡ censored x y
      → (x.1 ≡ length a) × (y.1 ≡ length b) × (x.0 + y.0 < length a + length b)
  unfolding effect_size_of
  effect_size_of-counts metric a b x y h = ground (
    arith,
    h,
    has_censored-count a,
    has_censored-count b,
    count-le-length stats.is_finite a,
    count-le-length stats.is_finite b,
  )

  effect_of-Reports :
      (a_runs b_runs : List (Metrics F)) (metric : String)
      → Reports a_runs b_runs metric (effect_of stats a_runs b_runs metric)
  unfolding effect_of
  effect_of-Reports a_runs b_runs metric =
      let a = values_of metric a_runs in
      let b = values_of metric b_runs in
      let n = min (length a) (length b) in
      let of_a = length-take n a (omega arith) in
      let of_b = length-take n b (omega arith) in
      record {
        named = refl;
        counted = refl;
        finite = λ d h. (effect_size_of-finite metric (take n a) (take n b) d h).0;
        recovered =
            λ is_time d h. (effect_size_of-finite metric (take n a) (take n b) d h).1 is_time;
        unrecovered = λ x y h.
            let (all_a, all_b, fewer) = effect_size_of-counts metric (take n a) (take n b) x y h in
            (
              omega (arith, all_a, of_a),
              omega (arith, all_b, of_b),
              omega (arith, fewer, of_a, of_b),
            );
      }

  -- The effects of the metrics in their order.
  abbrev ReportsEach :
      List (Metrics F) → List (Metrics F) → List String → List (MetricEffect F) → Type 0
  ReportsEach a_runs b_runs [] [] = Unit
  ReportsEach a_runs b_runs (metric ∷ metrics) (e ∷ es) =
      Reports a_runs b_runs metric e × ReportsEach a_runs b_runs metrics es
  ReportsEach a_runs b_runs _ _ = ⊥

  each_effect-ReportsEach :
      (a_runs b_runs : List (Metrics F)) (metrics : List String)
      → ReportsEach a_runs b_runs metrics (each_effect stats a_runs b_runs metrics)
  each_effect-ReportsEach a_runs b_runs [] = tt
  each_effect-ReportsEach a_runs b_runs (metric ∷ metrics) =
      (effect_of-Reports a_runs b_runs metric, each_effect-ReportsEach a_runs b_runs metrics)

  -- The effects against the other experiments in their order.
  abbrev pub ReportsAll :
      List (Metrics F) → List String → List (Experiment F) → List (Effects F) → Type 0
  ReportsAll ref_runs metrics [] [] = Unit
  ReportsAll ref_runs metrics (other ∷ others) (e ∷ es) =
      (e.versus ≡ name_or_id other)
      × ReportsEach ref_runs other.metrics_per_run metrics e.of_metrics
      × ReportsAll ref_runs metrics others es
  ReportsAll ref_runs metrics _ _ = ⊥

  effects_against-ReportsAll :
      (ref_runs : List (Metrics F)) (metrics : List String) (others : List (Experiment F))
      → ReportsAll ref_runs metrics others (effects_against stats ref_runs metrics others)
  effects_against-ReportsAll ref_runs metrics [] = tt
  effects_against-ReportsAll ref_runs metrics (other ∷ others) = (
    refl,
    each_effect-ReportsEach ref_runs other.metrics_per_run metrics,
    effects_against-ReportsAll ref_runs metrics others,
  )

  -- A comparison of two experiments or more has, against each experiment but the first and for each
  -- metric, in order, an effect over as many values as both sides have: a size that is given is
  -- finite, that of a recovery time is computed of recovered values alone, and a censored one
  -- counts all the values of both sides and fewer recovered ones.
  pub build_comparison-ReportsAll :
      (metrics : List String) (reference other : Experiment F) (rest : List (Experiment F))
      → (effects : List (Effects F)) × ((build_comparison stats metrics
            (reference ∷ other ∷ rest)).effects
          ≡ some effects)
        × ReportsAll reference.metrics_per_run metrics (other ∷ rest) effects
  unfolding build_comparison
  build_comparison-ReportsAll metrics reference other rest = (
    effects_against stats reference.metrics_per_run metrics (other ∷ rest),
    refl,
    effects_against-ReportsAll reference.metrics_per_run metrics (other ∷ rest),
  )
