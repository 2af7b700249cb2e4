-- ===== src/Analysis/Design/Total.antt =====
-- resiliencelab/analysis/design.py: when `build_design` returns a design.
use text.Mathlib.TextEquality.{eq_iff}
use resilience_lab.Common.{ℕ, suc, String, ◌≡◌, refl, false, List, [], ◌∷◌, map, All, arith}
use resilience_lab.Common.Checked.{Checked, ok, raise_if}
use resilience_lab.Core.Schema.Graph.{contains}
use resilience_lab.Core.Schema.Graph.Names.{Nodup}
use resilience_lab.Core.Schema.Merge.{Value, Items}
use resilience_lab.Analysis.Design.{
  Factor, Assignments, DesignCondition, product, zip, keys_of, value_sets, check_levels,
  check_factors, apply_factors, expand, build_design,
}

NotIn : List String → List String → Type 0
NotIn seen ks = All (λ k. contains k seen ≡ false) ks

NotIn-nil : (ks : List String) → NotIn [] ks
unfolding NotIn
NotIn-nil [] = tt
NotIn-nil (k ∷ ks) = (refl, NotIn-nil ks)

NotIn-cons :
    (x : String) (seen ks : List String)
    → contains x ks ≡ false
    → NotIn seen ks
    → NotIn (x ∷ seen) ks
unfolding NotIn
NotIn-cons x seen [] h hs = tt
NotIn-cons x seen (k ∷ ks) h (new, hs) =
    (ground (arith, eq_iff x k, eq_iff k x), NotIn-cons x seen ks (ground arith) hs)

-- No two levels of a factor have the same canonical form.
abbrev HasDistinctLevels : (Value → String) → List (Factor × List Value) → Type 0
HasDistinctLevels canonical factors = All (λ f. Nodup (map canonical f.1)) factors

check_levels-passes :
    (canonical : Value → String) (levels : List Value) (seen : List String)
    → Nodup (map canonical levels)
    → NotIn seen (map canonical levels)
    → check_levels canonical levels seen ≡ ok tt
unfolding check_levels NotIn
check_levels-passes canonical [] seen h hs = refl
check_levels-passes canonical (level ∷ rest) seen (once, h) (new, hs) =
    rw (new, raise_if)
      (check_levels-passes canonical rest (canonical level ∷ seen) h
        (NotIn-cons (canonical level) seen (map canonical rest) once hs))

check_factors-passes :
    (canonical : Value → String) (factors : List (Factor × List Value))
    → HasDistinctLevels canonical factors
    → check_factors canonical factors ≡ ok tt
unfolding check_factors
check_factors-passes canonical [] h = refl
check_factors-passes canonical ((path, levels) ∷ rest) (once, h) =
    rw (check_levels-passes canonical levels [] once (NotIn-nil (map canonical levels)))
      (check_factors-passes canonical rest h)

module _ {Spec : Type 0} (model_dump : Spec → Items) (model_validate : Items → Checked Spec)
    (base : Spec) (hash : Assignments → String) where
  abbrev IsApplicable : Assignments → Type 0
  IsApplicable factors =
      (spec : Spec) × (apply_factors model_dump model_validate base factors ≡ ok spec)

  abbrev pub Returns : Checked (List (DesignCondition Spec)) → Type 0
  Returns m = (cs : List (DesignCondition Spec)) × (m ≡ ok cs)

  expand-Returns :
      (keys : List Factor) (index : ℕ) (combos : List (List Value)) (seen : List String)
      → All IsApplicable (map (zip keys) combos)
      → Nodup (map hash (map (zip keys) combos))
      → NotIn seen (map hash (map (zip keys) combos))
      → Returns (expand model_dump model_validate base hash keys index combos seen)
  unfolding expand NotIn
  expand-Returns keys index [] seen fits once new = ([], refl)
  expand-Returns keys index (combo ∷ rest) seen ((spec, applies), fits) (other, once) (new, news) =
      let cid = hash (zip keys combo) in
      let (cs, found) =
        expand-Returns keys (suc index) rest (cid ∷ seen) fits once
          (NotIn-cons cid seen (map hash (map (zip keys) rest)) other news) in
      (
        record { condition_id = cid; index = index; factors = zip keys combo; spec = spec } ∷ cs,
        rw applies (rw (new, raise_if) (rw found refl)),
      )

  -- If no factor has two levels with the same canonical form, each combination of levels gives a
  -- specification that validates, and no two combinations have the same hash, then a design is
  -- returned.
  pub build_design-Returns :
      (canonical : Value → String) (factors : List (Factor × List Value))
      → HasDistinctLevels canonical factors
      → All IsApplicable (map (zip (keys_of factors)) (product (value_sets factors)))
      → Nodup (map hash (map (zip (keys_of factors)) (product (value_sets factors))))
      → Returns (build_design model_dump model_validate base hash canonical factors)
  unfolding build_design
  build_design-Returns canonical factors levels fits once =
      rw (check_factors-passes canonical factors levels) (
        expand-Returns (keys_of factors) 0 (product (value_sets factors)) [] fits once
          (NotIn-nil (map hash (map (zip (keys_of factors)) (product (value_sets factors))))))
