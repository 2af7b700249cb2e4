-- ===== src/Analysis/Pareto/Cover.antt =====
-- resiliencelab/analysis/statistics.py: the frontier is not dominated, and every other point is dominated by
-- a point of the frontier.
use resilience_lab.Common.{
  ℕ, zero, suc, ◌+◌, ◌≤◌, ◌<◌, ◌≡◌, ◌⊎◌, inl, inr, refl, sym, ap, ◌∙◌, Bool, true, false, not, ◌&&◌,
  ◌||◌, Option, none, some, List, [], ◌∷◌, ◌==◌, arith, Bool-cases, count, All,
}
use resilience_lab.Analysis.Pareto.{Point, dominates, is_dominated, undominated, pareto_frontier}
use resilience_lab.Analysis.Pareto.Domination.{IsPoint, dominates_irreflexive, dominates_trans}

abbrev pub at : ℕ → List Point → Option Point
at k [] = none
at zero (p ∷ ps) = some p
at (suc k) (p ∷ ps) = at k ps

abbrev pub member : ℕ → List ℕ → Bool
member k [] = false
member k (i ∷ is) = i == k || member k is

some_injective : (p q : Point) → ◌≡◌ {A = Option Point} (some p) (some q) → p ≡ q
some_injective p q e = cc

dominator :
    (hs : List Bool) (i : ℕ) (p : Point) (j : ℕ) (qs : List Point)
    → is_dominated hs i p j qs ≡ true
    → (k : ℕ) × (q : Point) × (at k qs ≡ some q) × (dominates hs q p ≡ true)
unfolding is_dominated
dominator hs i p j [] h = cc
dominator hs i p j (q ∷ qs) h = elim (Bool-cases (not (j == i) && dominates hs q p)) [
  | inl here ↦ (0, q, refl, ground arith)
  | inr further ↦
      let (k, r, there, dom) = dominator hs i p (suc j) qs (rw further at h) in
      (suc k, r, there, dom)
]

no_dominator :
    (hs : List Bool) (i : ℕ) (p : Point) (j : ℕ) (qs : List Point) (k : ℕ) (q : Point)
    → is_dominated hs i p j qs ≡ false
    → at k qs ≡ some q
    → (j + k ≡ i → q ≡ p)
    → dominates hs q p ≡ false
unfolding is_dominated
no_dominator hs i p j [] k q h there same = cc
no_dominator hs i p j (r ∷ qs) zero q h there same =
    let e : r ≡ q = some_injective r q there in
    elim (Bool-cases (j == i)) [
      | inl itself ↦ rw (same (ground arith)) (dominates_irreflexive hs p)
      | inr other ↦ rw⁻¹ e (ground arith)
    ]
no_dominator hs i p j (r ∷ qs) (suc k) q h there same =
    no_dominator hs i p (suc j) qs k q (ground arith) there (λ e. same (omega (arith, e)))

chosen :
    (hs : List Bool) (points : List Point) (i : ℕ) (ps : List Point) (m k : ℕ) (p : Point)
    → at m ps ≡ some p
    → k ≡ i + m
    → is_dominated hs k p 0 points ≡ false
    → member k (undominated hs points i ps) ≡ true
unfolding undominated
chosen hs points i [] m k p there e free = cc
chosen hs points i (q ∷ ps) zero k p there e free =
    let same : i ≡ k = omega (arith, e) in
    let point : q ≡ p = some_injective q p there in
    let shown : is_dominated hs i q 0 points ≡ false = rw same (rw point free) in
    rw shown (ground (arith, same))
chosen hs points i (q ∷ ps) (suc m) k p there e free =
    let later = chosen hs points (suc i) ps m k p there (omega (arith, e)) free in
    ground (arith, later)

choice :
    (hs : List Bool) (points : List Point) (i : ℕ) (ps : List Point) (k : ℕ)
    → member k (undominated hs points i ps) ≡ true
    → (m : ℕ) × (p : Point) × (at m ps ≡ some p)
      × (k ≡ i + m)
      × (is_dominated hs k p 0 points ≡ false)
unfolding undominated
choice hs points i [] k h = cc
choice hs points i (q ∷ ps) k h = elim (Bool-cases (is_dominated hs i q 0 points)) [
  | inl dominated ↦
      let (m, p, there, e, free) = choice hs points (suc i) ps k (rw dominated at h) in
      (suc m, p, there, omega (arith, e), free)
  | inr free ↦ elim (Bool-cases (i == k)) [
    | inl same ↦ let e : i ≡ k = ground arith in (0, q, refl, omega (arith, e), rw⁻¹ e free)
    | inr other ↦
        let (m, p, there, e, free') = choice hs points (suc i) ps k (ground (arith, free)) in
        (suc m, p, there, omega (arith, e), free')
  ]
]

count_strict :
    (f g : Point → Bool) (ps : List Point) (k : ℕ) (q : Point)
    → at k ps ≡ some q
    → f q ≡ false
    → g q ≡ true
    → ((p : Point) → f p ≡ true → g p ≡ true)
    → count f ps < count g ps
count_strict f g [] k q there no_f yes_g h = cc
count_strict f g (p ∷ ps) zero q there no_f yes_g h =
    ground (arith, some_injective p q there, count_mono f g ps h)
  where
    count_mono :
        (f g : Point → Bool) (ps : List Point)
        → ((p : Point) → f p ≡ true → g p ≡ true)
        → count f ps ≤ count g ps
    count_mono f g [] h = omega arith
    count_mono f g (p ∷ ps) h = ground (arith, h p, count_mono f g ps h)
count_strict f g (p ∷ ps) (suc k) q there no_f yes_g h =
    ground (arith, h p, count_strict f g ps k q there no_f yes_g h)

at-All :
    (hs : List Bool) (ps : List Point) (k : ℕ) (p : Point)
    → All (IsPoint hs) ps
    → at k ps ≡ some p
    → IsPoint hs p
at-All hs [] k p h there = cc
at-All hs (q ∷ ps) zero p (size, h) there = rw⁻¹ (some_injective q p there) size
at-All hs (q ∷ ps) (suc k) p (size, h) there = at-All hs ps k p h there

-- A point of the frontier that is the one at an index or dominates it.
abbrev Covers : List Bool → List Point → ℕ → Point → Type 0
Covers hs points k p =
    (i : ℕ) × (r : Point) × (member i (undominated hs points 0 points) ≡ true)
    × (at i points ≡ some r)
    × ((i ≡ k) ⊎ (dominates hs r p ≡ true))

fewer :
    (hs : List Bool) (points : List Point) (p : Point) (j : ℕ) (q : Point)
    → at j points ≡ some q
    → dominates hs q p ≡ true
    → All (IsPoint hs) points
    → IsPoint hs p
    → count (λ x. dominates hs x q) points < count (λ x. dominates hs x p) points
fewer hs points p j q found dom sizes size =
    count_strict (λ x. dominates hs x q) (λ x. dominates hs x p) points j q found
      (dominates_irreflexive hs q) dom
      (λ x over. dominates_trans hs x q p (at-All hs points j q sizes found) size over dom)

cover :
    (hs : List Bool) (points : List Point) (n k : ℕ) (p : Point)
    → All (IsPoint hs) points
    → at k points ≡ some p
    → count (λ q. dominates hs q p) points ≤ n
    → Covers hs points k p
cover hs points zero k p sizes there few = elim (Bool-cases (is_dominated hs k p 0 points)) [
  | inr free ↦ (k, p, chosen hs points 0 points k k p there (omega arith) free, there, inl refl)
  | inl dominated ↦
      let (j, q, found, dom) = dominator hs k p 0 points dominated in
      absurd (
        omega
          (arith, few, fewer hs points p j q found dom sizes (at-All hs points k p sizes there)))
]
cover hs points (suc n) k p sizes there few = elim (Bool-cases (is_dominated hs k p 0 points)) [
  | inr free ↦ (k, p, chosen hs points 0 points k k p there (omega arith) free, there, inl refl)
  | inl dominated ↦
      let (j, q, found, dom) = dominator hs k p 0 points dominated in
      let size = at-All hs points k p sizes there in
      let less = fewer hs points p j q found dom sizes size in
      let (i, r, chosen_one, place, how) =
        cover hs points n j q sizes found (omega (arith, few, less)) in
      (
        i,
        r,
        chosen_one,
        place,
        inr (onwards i r q j (at-All hs points j q sizes found) size found place how dom),
      )
]
  where
    onwards :
        (i : ℕ) (r q : Point) (j : ℕ)
        → IsPoint hs q
        → IsPoint hs p
        → at j points ≡ some q
        → at i points ≡ some r
        → (i ≡ j) ⊎ (dominates hs r q ≡ true)
        → dominates hs q p ≡ true
        → dominates hs r p ≡ true
    onwards i r q j sq sp found place (inl e) dom =
        let same : r ≡ q = some_injective r q (rw (sym place) (rw e found)) in rw same dom
    onwards i r q j sq sp found place (inr over) dom = dominates_trans hs r q p sq sp over dom

-- For points with a value for each of at least one objective, every index in the frontier is that
-- of a point that no point dominates, and every point has its index in the frontier or is
-- dominated by a point of the frontier.
pub pareto_frontier_lem :
    (h : Bool) (hs : List Bool) (points : List Point)
    → All (IsPoint (h ∷ hs)) points
    → let objectives = h ∷ hs in
      let frontier = pareto_frontier points objectives in
      ((i : ℕ)
        → member i frontier ≡ true
        → (p : Point) × (at i points ≡ some p)
          × ((j : ℕ) (q : Point) → at j points ≡ some q → dominates objectives q p ≡ false))
      × ((k : ℕ) (p : Point)
          → at k points ≡ some p
          → (i : ℕ) × (r : Point) × (member i frontier ≡ true)
            × (at i points ≡ some r)
            × ((i ≡ k) ⊎ (dominates objectives r p ≡ true)))
unfolding pareto_frontier
pareto_frontier_lem h hs points sizes = (
  (λ i chosen_one.
      let (m, p, there, e, free) = choice (h ∷ hs) points 0 points i chosen_one in
      let same : m ≡ i = omega (arith, e) in
      (
        p,
        rw⁻¹ same there,
        λ j q found. no_dominator (h ∷ hs) i p 0 points j q free found (λ at_i.
            some_injective q p
              (sym found ∙ ap (λ x. at x points) (omega (arith, at_i, same)) ∙ there)),
      )),
  λ k p there.
      cover (h ∷ hs) points (count (λ q. dominates (h ∷ hs) q p) points) k p sizes there
        (omega arith),
)
