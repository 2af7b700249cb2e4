-- ===== src/Analysis/Design.antt =====
-- resiliencelab/analysis/design.py: the expansion of factors into the conditions of an experiment. The
-- specification with its `model_dump` and `model_validate` is pydantic's, `canonical` and `hash` are
-- json's and hashlib's: parameters. A path "a.b.c" is the first of its parts and the others.
pub mod Paths
pub mod Conditions
pub mod Total
use resilience_lab.Common.{
  ℕ, zero, suc, String, Bool, true, false, Option, none, some, if◌then◌else◌, List, [], ◌∷◌, ◌++◌,
  map,
}
use resilience_lab.Common.Checked.{Checked, ok, value_error, ◌>>=◌, ◌>>◌, raise_if}
use resilience_lab.Core.Schema.Graph.{contains}
use resilience_lab.Core.Schema.Merge.{Value, null, string, dict_of, Items, empty, get, put}
use resilience_lab.Core.Config.{remove}

-- What `target.get(part)` has to hold to be gone into; else a new dictionary.
abbrev pub child_of : Option Value → Items
child_of (some (dict_of child)) = child
child_of _ = empty

-- At the last part: `None` takes the key away.
abbrev pub set_last : String → Value → Items → Items
set_last part null target = remove part target
set_last part value target = put part value target

-- `_set_path`, of the parts of a path.
unfoldable pub set_path : String → List String → Value → Items → Items
set_path part [] value target = set_last part value target
set_path part (next ∷ rest) value target =
    let child = set_path next rest value (child_of (get part target)) in
    put part (dict_of child) target

abbrev pub Factor : Type 0
Factor = String × List String

abbrev pub Assignments : Type 0
Assignments = List (Factor × Value)

abbrev set_all : Assignments → Items → Items
set_all [] mapping = mapping
set_all (((part, parts), value) ∷ rest) mapping = set_all rest (set_path part parts value mapping)

pub record DesignCondition (Spec : Type 0) : Type 0 where
  pub condition_id : String
  pub index : ℕ
  pub factors : Assignments
  pub spec : Spec

-- `itertools.product`: the last set moves fastest.
abbrev pub prefixed : List Value → List (List Value) → List (List Value)
prefixed [] combos = []
prefixed (level ∷ rest) combos = map (λ combo. level ∷ combo) combos ++ prefixed rest combos

abbrev pub product : List (List Value) → List (List Value)
product [] = [] ∷ []
product (levels ∷ sets) = prefixed levels (product sets)

-- `dict(zip(keys, combo))`, of distinct keys.
abbrev pub zip : List Factor → List Value → Assignments
zip (key ∷ keys) (level ∷ combo) = (key, level) ∷ zip keys combo
zip _ _ = []

abbrev pub keys_of : List (Factor × List Value) → List Factor
keys_of factors = map (λ f. f.0) factors

abbrev pub value_sets : List (Factor × List Value) → List (List Value)
value_sets factors = map (λ f. f.1) factors

module _ (canonical : Value → String) where
  unfoldable pub check_levels : List Value → List String → Checked (Unit {0})
  check_levels [] seen = ok tt
  check_levels (level ∷ rest) seen =
      let key = canonical level in
      raise_if (contains key seen) "duplicate factor level" >> check_levels rest (key ∷ seen)

  unfoldable pub check_factors : List (Factor × List Value) → Checked (Unit {0})
  check_factors [] = ok tt
  check_factors ((path, levels) ∷ rest) = check_levels levels [] >> check_factors rest

module _ {Spec : Type 0} (model_dump : Spec → Items) (model_validate : Items → Checked Spec)
    (base : Spec) where
  abbrev pub apply_factors : Assignments → Checked Spec
  apply_factors factors = model_validate (set_all factors (model_dump base))

  module _ (hash : Assignments → String) where
    -- The loop over the combinations, from an index and the identifiers seen so far.
    unfoldable pub expand :
        List Factor → ℕ → List (List Value) → List String → Checked (List (DesignCondition Spec))
    expand keys index [] seen_ids = ok []
    expand keys index (combo ∷ rest) seen_ids = do
      let assignments = zip keys combo
      let cid = hash assignments
      spec ← apply_factors assignments
      raise_if (contains cid seen_ids) "duplicate factorial condition"
      conditions ← expand keys (suc index) rest (cid ∷ seen_ids)
      ok (
          record { condition_id = cid; index = index; factors = assignments; spec = spec }
          ∷ conditions)

    unfoldable pub build_design :
        (Value → String) → List (Factor × List Value) → Checked (List (DesignCondition Spec))
    build_design canonical factors = do
      check_factors canonical factors
      expand (keys_of factors) 0 (product (value_sets factors)) []

    -- `generate_matrix` of experiments/factorial.py, with the texts that the templates give.
    module _ (id_of name_of : DesignCondition Spec → String) where
      abbrev rename : List (DesignCondition Spec) → Checked (List Spec)
      rename [] = ok []
      rename (c ∷ cs) = do
        spec ←
            model_validate
              (put "name" (string (name_of c)) (put "id" (string (id_of c)) (model_dump c.spec)))
        generated ← rename cs
        ok (spec ∷ generated)

      unfoldable generate_matrix :
          (Value → String) → List (Factor × List Value) → Checked (List Spec)
      generate_matrix canonical factors = do
        conditions ← build_design canonical factors
        rename conditions
