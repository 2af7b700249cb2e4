-- ===== src/Analysis/Design/Conditions.antt =====
-- resiliencelab/analysis/design.py: the conditions that `build_design` returns.
use text.Mathlib.TextEquality.{eq_iff}
use resilience_lab.Common.{
  ℕ, zero, suc, ◌*◌, String, ◌≡◌, refl, sym, ap, subst, ◌∙◌, false, List, [], ◌∷◌, map, length,
  length-append, All, arith,
}
use resilience_lab.Common.Checked.{Checked, ok, raise_if, ok-bind, ok-raise_if}
use resilience_lab.Core.Schema.Graph.{contains}
use resilience_lab.Core.Schema.Graph.Names.{Nodup}
use resilience_lab.Core.Schema.Merge.{Value, Items}
use resilience_lab.Analysis.Design.{
  Factor, Assignments, DesignCondition, prefixed, product, zip, keys_of, value_sets, check_factors,
  apply_factors, expand, build_design,
}

-- The product of the numbers of levels.
abbrev pub volume : List (List Value) → ℕ
volume [] = 1
volume (levels ∷ sets) = length levels * volume sets

length-map : {A : Type 0} {B : Type 0} (f : A → B) (xs : List A) → length (map f xs) ≡ length xs
length-map f [] = refl
length-map f (x ∷ xs) = ap suc (length-map f xs)

length-prefixed :
    (levels : List Value) (combos : List (List Value))
    → length (prefixed levels combos) ≡ length levels * length combos
length-prefixed [] combos = omega arith
length-prefixed (level ∷ rest) combos = ground (
  arith,
  length-append (map (λ combo. level ∷ combo) combos) (prefixed rest combos),
  length-map (λ combo. level ∷ combo) combos,
  length-prefixed rest combos,
)

-- There are as many combinations as the product of the numbers of levels.
length-product : (sets : List (List Value)) → length (product sets) ≡ volume sets
length-product [] = refl
length-product (levels ∷ sets) =
    length-prefixed levels (product sets) ∙ ap (λ n. length levels * n) (length-product sets)

abbrev indices_from : ℕ → ℕ → List ℕ
indices_from start zero = []
indices_from start (suc n) = start ∷ indices_from (suc start) n

module _ {Spec : Type 0} (model_dump : Spec → Items) (model_validate : Items → Checked Spec)
    (base : Spec) (hash : Assignments → String) where
  abbrev ids_of : List (DesignCondition Spec) → List String
  ids_of cs = map (λ c. c.condition_id) cs

  -- What holds of one condition: it is named by its content, and its specification is the base with
  -- its factors applied.
  pub record IsCondition (c : DesignCondition Spec) : Type 0 where
    pub named : c.condition_id ≡ hash c.factors
    pub applied : apply_factors model_dump model_validate base c.factors ≡ ok c.spec

  -- The conditions of the combinations, from an index on.
  pub record AreConditions (keys : List Factor) (start : ℕ) (combos : List (List Value))
      (cs : List (DesignCondition Spec)) : Type 0 where
    pub factored : map (λ c. c.factors) cs ≡ map (zip keys) combos
    pub numbered : map (λ c. c.index) cs ≡ indices_from start (length combos)
    pub each : All IsCondition cs
    pub distinct : Nodup (ids_of cs)

  abbrev Fresh : List String → List (DesignCondition Spec) → Type 0
  Fresh seen cs = All (λ c. contains c.condition_id seen ≡ false) cs

  Fresh-split :
      (x : String) (seen : List String) (cs : List (DesignCondition Spec))
      → Fresh (x ∷ seen) cs
      → Fresh seen cs × (contains x (ids_of cs) ≡ false)
  Fresh-split x seen [] h = (tt, refl)
  Fresh-split x seen (c ∷ cs) (h, hs) =
      let (later, other) = Fresh-split x seen cs hs in
      ((ground arith, later), ground (arith, eq_iff x c.condition_id, eq_iff c.condition_id x))

  expand-AreConditions :
      (keys : List Factor) (index : ℕ) (combos : List (List Value)) (seen : List String)
      (cs : List (DesignCondition Spec))
      → expand model_dump model_validate base hash keys index combos seen ≡ ok cs
      → AreConditions keys index combos cs × Fresh seen cs
  unfolding expand
  expand-AreConditions keys index [] seen [] h =
      (record { factored = refl; numbered = refl; each = tt; distinct = tt }, tt)
  expand-AreConditions keys index [] seen (c ∷ cs) h = cc
  expand-AreConditions keys index (combo ∷ rest) seen cs h =
      let cid = hash (zip keys combo) in
      let (spec, applies, h1) =
        ok-bind (apply_factors model_dump model_validate base (zip keys combo)) _ cs h in
      let (u, unseen, h2) = ok-bind (raise_if (contains cid seen) _) _ cs h1 in
      let (later, found, h3) =
        ok-bind (expand model_dump model_validate base hash keys (suc index) rest (cid ∷ seen)) _ cs
          h2 in
      let (conditions, fresh) =
        expand-AreConditions keys (suc index) rest (cid ∷ seen) later found in
      let (new, other) = Fresh-split cid seen later fresh in
      let c : DesignCondition Spec = record {
        condition_id = cid;
        index = index;
        factors = zip keys combo;
        spec = spec;
      } in
      let whole : (c ∷ later) ≡ cs = cc in
      subst (λ cs. AreConditions keys index (combo ∷ rest) cs × Fresh seen cs) whole
        (
          record {
            factored = ap (λ fs. zip keys combo ∷ fs) conditions.factored;
            numbered = ap (λ is. index ∷ is) conditions.numbered;
            each = (record { named = refl; applied = applies }, conditions.each);
            distinct = (other, conditions.distinct);
          },
          (ok-raise_if (contains cid seen) _ unseen, new),
        )

  -- When a design is returned, it has one condition for each combination of levels, in the order of
  -- `itertools.product` and numbered from 0, as many as the product of the numbers of levels; each
  -- is named by the hash of its factors and has the base with these factors applied, and no two
  -- have the same name.
  pub build_design-AreConditions :
      (canonical : Value → String) (factors : List (Factor × List Value))
      (cs : List (DesignCondition Spec))
      → build_design model_dump model_validate base hash canonical factors ≡ ok cs
      → AreConditions (keys_of factors) 0 (product (value_sets factors)) cs
        × (length cs ≡ volume (value_sets factors))
  unfolding build_design
  build_design-AreConditions canonical factors cs h =
      let (u, passed, found) = ok-bind (check_factors canonical factors) _ cs h in
      let (conditions, fresh) =
        expand-AreConditions (keys_of factors) 0 (product (value_sets factors)) [] cs found in
      let sized : length cs ≡ length (product (value_sets factors)) =
        sym (length-map (λ c. c.factors) cs)
        ∙ ap length conditions.factored
        ∙ length-map (zip (keys_of factors)) (product (value_sets factors)) in
      (conditions, sized ∙ length-product (value_sets factors))
