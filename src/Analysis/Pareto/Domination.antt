-- ===== src/Analysis/Pareto/Domination.antt =====
-- resiliencelab/analysis/statistics.py: domination is a strict order.
use resilience_lab.Common.{
  ◌≡◌, refl, Bool, true, false, ◌&&◌, ◌||◌, List, [], ◌∷◌, ltb, if◌then◌else◌, arith, length,
}
use resilience_lab.Analysis.Pareto.{Point, is_worse, dominates_from, dominates}

-- Points with a value for each objective.
abbrev pub IsPoint : List Bool → Point → Type 0
IsPoint objectives p = length p ≡ length objectives

-- No worse on any objective.
unfoldable no_worse : List Bool → Point → Point → Bool
no_worse (h ∷ hs) (a ∷ p) (b ∷ q) =
    let rest = no_worse hs p q in if is_worse h a b then false else rest
no_worse _ _ _ = true

unfoldable some_better : List Bool → Point → Point → Bool
some_better (h ∷ hs) (a ∷ p) (b ∷ q) = let rest = some_better hs p q in is_worse h b a || rest
some_better _ _ _ = false

dominates_from-parts :
    (s : Bool) (hs : List Bool) (p q : Point)
    → dominates_from s hs p q ≡ ((no_worse hs p q && (s || some_better hs p q)))
unfolding dominates_from no_worse some_better
dominates_from-parts s [] p q = ground arith
dominates_from-parts s (h ∷ hs) [] q = ground arith
dominates_from-parts s (h ∷ hs) (a ∷ p) [] = ground arith
dominates_from-parts s (true ∷ hs) (a ∷ p) (b ∷ q) =
    ground (arith, dominates_from-parts (ltb b a || s) hs p q)
dominates_from-parts s (false ∷ hs) (a ∷ p) (b ∷ q) =
    ground (arith, dominates_from-parts (ltb a b || s) hs p q)

irreflexive : (hs : List Bool) (p : Point) → some_better hs p p ≡ false
unfolding some_better
irreflexive [] p = refl
irreflexive (h ∷ hs) [] = refl
irreflexive (true ∷ hs) (a ∷ p) = ground (arith, irreflexive hs p)
irreflexive (false ∷ hs) (a ∷ p) = ground (arith, irreflexive hs p)

no_worse_trans :
    (hs : List Bool) (p q r : Point)
    → IsPoint hs q
    → no_worse hs p q ≡ true
    → no_worse hs q r ≡ true
    → no_worse hs p r ≡ true
unfolding no_worse
no_worse_trans [] p q r size h k = refl
no_worse_trans (x ∷ hs) [] q r size h k = refl
no_worse_trans (x ∷ hs) (a ∷ p) [] r size h k = absurd (omega (arith, size))
no_worse_trans (x ∷ hs) (a ∷ p) (b ∷ q) [] size h k = refl
no_worse_trans (true ∷ hs) (a ∷ p) (b ∷ q) (c ∷ r) size h k =
    ground (arith, no_worse_trans hs p q r (omega (arith, size)))
no_worse_trans (false ∷ hs) (a ∷ p) (b ∷ q) (c ∷ r) size h k =
    ground (arith, no_worse_trans hs p q r (omega (arith, size)))

better_trans :
    (hs : List Bool) (p q r : Point)
    → IsPoint hs q
    → some_better hs p q ≡ true
    → no_worse hs p q ≡ true
    → no_worse hs q r ≡ true
    → IsPoint hs r
    → some_better hs p r ≡ true
unfolding some_better no_worse
better_trans [] p q r size b h k n = cc
better_trans (x ∷ hs) [] q r size b h k n = cc
better_trans (x ∷ hs) (a ∷ p) [] r size b h k n = cc
better_trans (x ∷ hs) (a ∷ p) (v ∷ q) [] size b h k n = absurd (omega (arith, n))
better_trans (true ∷ hs) (a ∷ p) (v ∷ q) (c ∷ r) size b h k n =
    ground (arith, better_trans hs p q r (omega (arith, size)))
better_trans (false ∷ hs) (a ∷ p) (v ∷ q) (c ∷ r) size b h k n =
    ground (arith, better_trans hs p q r (omega (arith, size)))

pub dominates_irreflexive : (hs : List Bool) (p : Point) → dominates hs p p ≡ false
unfolding dominates
dominates_irreflexive hs p = ground (arith, dominates_from-parts false hs p p, irreflexive hs p)

pub dominates_trans :
    (hs : List Bool) (p q r : Point)
    → IsPoint hs q
    → IsPoint hs r
    → dominates hs p q ≡ true
    → dominates hs q r ≡ true
    → dominates hs p r ≡ true
unfolding dominates
dominates_trans hs p q r size n h k = ground (
  arith,
  dominates_from-parts false hs p q,
  dominates_from-parts false hs q r,
  dominates_from-parts false hs p r,
  no_worse_trans hs p q r size,
  better_trans hs p q r size,
)
