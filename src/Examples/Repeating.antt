-- ===== src/Examples/Repeating.antt =====
-- resiliencelab/experiments/runner.py, metrics/timeline.py and analysis/statistics.py on concrete inputs.
use resilience_lab.Common.{
  ℕ, ◌*◌, ◌≡◌, ◌⊎◌, refl, true, false, some, List, [], ◌∷◌, ltb, if◌then◌else◌, arith,
}
use resilience_lab.Core.Cancellation
use resilience_lab.Core.Cancellation.{CancellationToken, raise_if_cancelled, for_reason}
use resilience_lab.Metrics.Timeline.{RequestRow, DownstreamRow, Bucket, fill}
use resilience_lab.Metrics.Timeline.Counts.{Conserves, fill-found}
use resilience_lab.Experiments.Runner.{Once, returns, is_cancelled, run_async}
use resilience_lab.Experiments.Runner.Repetitions.{Promised, run_async-Promised}
use resilience_lab.Analysis.Pareto.{Point, dominates, pareto_frontier}
use resilience_lab.Analysis.Pareto.Cover.{at, member, pareto_frontier_lem}

abbrev request : ℕ → RequestRow
request t = record { t = t; success = true; timeout = false }

abbrev downstream : ℕ → DownstreamRow
downstream t = record { t = t; success = false; attempt = 2 }

fill-found_example :
    (bs : List Bucket) × (fill 10 (request 15) (request 37 ∷ []) (downstream 2 ∷ downstream 22 ∷ [])
      ≡ some bs)
    × Conserves (request 15 ∷ request 37 ∷ []) (downstream 2 ∷ downstream 22 ∷ []) bs
fill-found_example =
    fill-found 10 (request 15) (request 37 ∷ []) (downstream 2 ∷ downstream 22 ∷ []) (omega arith)
      (omega arith, (omega arith, tt))

-- The second repetition is cut off.
abbrev once : ℕ → ℕ → Once ℕ
once index seed = if ltb 0 index then is_cancelled else returns (seed * 10)

run_async-Promised_example :
    Promised once
      (λ i. some Cancellation.new)
      (4 ∷ 5 ∷ 6 ∷ [])
      (run_async once (λ i. some Cancellation.new) (4 ∷ 5 ∷ 6 ∷ []))
run_async-Promised_example = run_async-Promised once (λ i. some Cancellation.new) 4 (5 ∷ 6 ∷ [])

abbrev points : List Point
points = (3 ∷ 7 ∷ []) ∷ (2 ∷ 9 ∷ []) ∷ (4 ∷ 7 ∷ []) ∷ []

pareto_frontier_lem_example :
    let frontier = pareto_frontier points (true ∷ false ∷ []) in
    ((i : ℕ)
      → member i frontier ≡ true
      → (p : Point) × (at i points ≡ some p)
        × ((j : ℕ) (q : Point) → at j points ≡ some q → dominates (true ∷ false ∷ []) q p ≡ false))
    × ((k : ℕ) (p : Point)
        → at k points ≡ some p
        → (i : ℕ) × (r : Point) × (member i frontier ≡ true)
          × (at i points ≡ some r)
          × ((i ≡ k) ⊎ (dominates (true ∷ false ∷ []) r p ≡ true)))
pareto_frontier_lem_example =
    pareto_frontier_lem true (false ∷ []) points (refl, (refl, (refl, tt)))
