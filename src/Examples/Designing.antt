-- ===== src/Examples/Designing.antt =====
-- resiliencelab/analysis/design.py on concrete inputs.
use text.Mathlib.Text.{◌==◌}
use resilience_lab.Common.{ℕ, String, ◌≡◌, refl, if◌then◌else◌, List, [], ◌∷◌, length}
use resilience_lab.Common.Checked.{Checked, ok}
use resilience_lab.Core.Schema.Merge.{Value, Items, null, string, dict_of, empty, item}
use resilience_lab.Analysis.Design.{
  Factor, Assignments, DesignCondition, product, keys_of, value_sets, check_levels, check_factors,
  expand, set_path, build_design,
}
use resilience_lab.Analysis.Design.Conditions.{AreConditions, volume, build_design-AreConditions}
use resilience_lab.Analysis.Design.Total.{Returns, build_design-Returns}

abbrev shown : Value → String
shown (string s) = s
shown _ = "none"

abbrev hashed : Assignments → String
hashed ((key, null) ∷ (other, value) ∷ rest) = shown value
hashed ((key, string s) ∷ (other, value) ∷ rest) =
    if shown value == "fixed" then "once fixed" else "once exponential"
hashed _ = ""

abbrev dumped : Items → Items
dumped spec = spec

abbrev validated : Items → Checked Items
validated spec = ok spec

abbrev baseline : Items
baseline = item "policy" (dict_of (item "retry" (string "thrice") empty)) empty

abbrev two_factors : List (Factor × List Value)
two_factors =
    (("policy", "retry" ∷ []), null ∷ string "once" ∷ [])
    ∷ (("policy", "backoff" ∷ "type" ∷ []), string "fixed" ∷ string "exponential" ∷ [])
    ∷ []

abbrev backoff : String → Value
backoff kind = dict_of (item "type" (string kind) empty)

abbrev condition : String → ℕ → Value → String → Items → DesignCondition Items
condition id i retry kind policy = record {
  condition_id = id;
  index = i;
  factors =
      ((("policy", "retry" ∷ []), retry) ∷ (("policy", "backoff" ∷ "type" ∷ []), string kind) ∷ []);
  spec = item "policy" (dict_of policy) empty;
}

abbrev four_conditions : List (DesignCondition Items)
four_conditions =
    condition "fixed" 0 null "fixed" (item "backoff" (backoff "fixed") empty)
    ∷ condition "exponential" 1 null "exponential" (item "backoff" (backoff "exponential") empty)
    ∷ condition "once fixed" 2 (string "once") "fixed"
        (item "retry" (string "once") (item "backoff" (backoff "fixed") empty))
    ∷ condition "once exponential" 3 (string "once") "exponential"
        (item "retry" (string "once") (item "backoff" (backoff "exponential") empty))
    ∷ []

expanded : build_design dumped validated baseline hashed shown two_factors ≡ ok four_conditions
unfolding build_design check_factors check_levels expand set_path
expanded = refl

build_design-AreConditions_example :
    AreConditions dumped validated baseline hashed
      (keys_of two_factors)
      0
      (product (value_sets two_factors))
      four_conditions
    × (length four_conditions ≡ volume (value_sets two_factors))
build_design-AreConditions_example =
    build_design-AreConditions dumped validated baseline hashed shown two_factors four_conditions
      expanded

build_design-Returns_example :
    Returns dumped validated baseline hashed
      (build_design dumped validated baseline hashed shown two_factors)
build_design-Returns_example =
    build_design-Returns dumped validated baseline hashed shown two_factors
      ((refl, (refl, tt)), ((refl, (refl, tt)), tt))
      ((_, refl), ((_, refl), ((_, refl), ((_, refl), tt)))) (refl, (refl, (refl, (refl, tt))))
