-- ===== src/Analysis/Pareto.antt =====
-- resiliencelab/analysis/statistics.py, `pareto_frontier`. The values of a point stand in the order of the
-- objectives' keys; they are numbers on a common scale.
pub mod Domination
pub mod Cover
use resilience_lab.Common.{
  ℕ, zero, suc, Bool, true, false, not, ◌&&◌, ◌||◌, List, [], ◌∷◌, ltb, ◌==◌, if◌then◌else◌,
}

abbrev pub Point : Type 0
Point = List ℕ

-- The value of `a` is worse, or better, than that of `b` on an objective.
abbrev pub is_worse : Bool → ℕ → ℕ → Bool
is_worse true a b = ltb a b
is_worse false a b = ltb b a

-- The loop of `dominates`, with `strictly` so far.
unfoldable pub dominates_from : Bool → List Bool → Point → Point → Bool
dominates_from strictly (higher ∷ objectives) (a ∷ p) (b ∷ q) =
    let rest = dominates_from (is_worse higher b a || strictly) objectives p q in
    if is_worse higher a b then false else rest
dominates_from strictly _ _ _ = strictly

unfoldable pub dominates : List Bool → Point → Point → Bool
dominates objectives p q = dominates_from false objectives p q

-- `any(j != i and dominates(j, i) for j in range(len(points)))`, from the index `j` on.
unfoldable pub is_dominated : List Bool → ℕ → Point → ℕ → List Point → Bool
is_dominated objectives i p j [] = false
is_dominated objectives i p j (q ∷ qs) =
    not (j == i) && dominates objectives q p || is_dominated objectives i p (suc j) qs

-- The indices of the list comprehension, from `i` on.
unfoldable pub undominated : List Bool → List Point → ℕ → List Point → List ℕ
undominated objectives points i [] = []
undominated objectives points i (p ∷ ps) =
    let rest = undominated objectives points (suc i) ps in
    if is_dominated objectives i p 0 points then rest else i ∷ rest

unfoldable pub pareto_frontier : List Point → List Bool → List ℕ
pareto_frontier points [] = []
pareto_frontier points (objective ∷ objectives) =
    undominated (objective ∷ objectives) points 0 points
