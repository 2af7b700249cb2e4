-- ===== src/Core/Config.antt =====
-- resiliencelab/core/config.py: an experiment as configuration data. The model's class with its
-- `model_validate` and `model_dump` is pydantic's, a parameter; so are the YAML reader and writer.
use text.Mathlib.Text.{◌==◌}
use text.Mathlib.TextEquality.{eq_iff}
use resilience_lab.Common.{
  String, ◌≡◌, refl, sym, ◌∙◌, Bool, true, false, Option, none, some, if◌then◌else◌, List, [], ◌∷◌,
  arith, Option-cases, inl, inr, if_both,
}
use resilience_lab.Common.Checked.{Checked, ok, value_error}
use resilience_lab.Core.Schema.Graph.{contains}
use resilience_lab.Core.Schema.Merge.{Value, dict_of, Items, empty, item, get, put}
use resilience_lab.Core.Schema.Merge.Laws.{HasDistinctKeys, get-put}

-- `{key: value for key, value in d.items() if key != k}`, and `d` after `d.pop(k)`
abbrev pub remove : String → Items → Items
remove k empty = empty
remove k (item j v rest) = if j == k then remove k rest else item j v (remove k rest)

-- `d.update(e)`
abbrev pub update : Items → Items → Items
update d empty = d
update d (item k v rest) = update (put k v d) rest

-- `{key: d.pop(key) for key in fields if key in d}`, with what is left of `d`.
abbrev pop_fields : List String → Items → Items × Items
pop_fields [] d = (empty, d)
pop_fields (k ∷ ks) d = elim (get k d) [
  | none ↦ pop_fields ks d
  | some v ↦ let popped = pop_fields ks (remove k d) in (item k v popped.0, popped.1)
]

abbrev identity_fields : List String
identity_fields = "id" ∷ "name" ∷ "version" ∷ "description" ∷ []

-- The data that is validated, of a mapping with or without the group "experiment".
unfoldable flattened : Items → Items
flattened d = elim (get "experiment" d) [
  | some (dict_of identity) ↦ update (remove "experiment" d) identity
  | _ ↦ d
]

-- `to_dict`, of the dumped data.
unfoldable grouped : Items → Items
grouped d =
    let popped = pop_fields identity_fields d in
    update (item "experiment" (dict_of popped.0) empty) popped.1

module _ {Spec : Type 0} (model_validate : Items → Checked Spec) (model_dump : Spec → Items) where
  unfoldable pub parse_experiment : Value → Checked Spec
  unfolding flattened
  parse_experiment (dict_of d) = model_validate (flattened d)
  parse_experiment _ = value_error "configuration root must be a mapping"

  unfoldable pub to_dict : Spec → Value
  unfolding grouped
  to_dict spec = dict_of (grouped (model_dump spec))

pub get-remove :
    (k j : String) (d : Items) → get k (remove j d) ≡ (if j == k then none else get k d)
get-remove k j empty = ground arith
get-remove k j (item i v rest) =
    ground (arith, get-remove k j rest, eq_iff i j, eq_iff j k, eq_iff i k)

HasDistinctKeys-remove : (j : String) (d : Items) → HasDistinctKeys d → HasDistinctKeys (remove j d)
HasDistinctKeys-remove j empty h = tt
HasDistinctKeys-remove j (item i v rest) (once, h) =
    if_both HasDistinctKeys (i == j) (HasDistinctKeys-remove j rest h)
      (ground (arith, get-remove i j rest), HasDistinctKeys-remove j rest h)

-- The second entry where it is given, else the first.
abbrev later : Option Value → Option Value → Option Value
later old none = old
later old (some v) = some v

get-update :
    (k : String) (d e : Items) → HasDistinctKeys e → get k (update d e) ≡ later (get k d) (get k e)
get-update k d empty h = refl
get-update k d (item j v rest) (once, h) =
    ground (arith, get-update k (put j v d) rest h, get-put k j v d, eq_iff j k)

pop_fields-get :
    (ks : List String) (d : Items) (k : String)
    → (get k (pop_fields ks d).0 ≡ (if contains k ks then get k d else none))
      × (get k (pop_fields ks d).1 ≡ (if contains k ks then none else get k d))
pop_fields-get [] d k = (refl, refl)
pop_fields-get (j ∷ ks) d k = elim (Option-cases (get j d)) [
  | inl absent ↦
      let after : (get k (pop_fields ks d).0 ≡ (if contains k ks then get k d else none))
          × (get k (pop_fields ks d).1 ≡ (if contains k ks then none else get k d)) =
        pop_fields-get ks d k in
      rw (absent, pop_fields) (ground (arith, after, absent, eq_iff k j))
  | inr (v, there) ↦
      rw (there, pop_fields)
        (ground (arith, pop_fields-get ks (remove j d) k, get-remove k j d, eq_iff k j, eq_iff j k))
]

pop_fields-distinct :
    (ks : List String) (d : Items)
    → HasDistinctKeys d
    → HasDistinctKeys (pop_fields ks d).0 × HasDistinctKeys (pop_fields ks d).1
pop_fields-distinct [] d h = (tt, h)
pop_fields-distinct (j ∷ ks) d h = elim (Option-cases (get j d)) [
  | inl absent ↦ rw (absent, pop_fields) (pop_fields-distinct ks d h)
  | inr (v, there) ↦
      let (of_identity, of_rest) =
        pop_fields-distinct ks (remove j d) (HasDistinctKeys-remove j d h) in
      rw (there, pop_fields)
        (
          (
            ground (arith, pop_fields-get ks (remove j d) j, get-remove j j d, eq_iff j j),
            of_identity,
          ),
          of_rest,
        )
]

-- What stands under a key that is or is not the group's, and is or is not in the group.
joined :
    (is_group in_group : Bool) (g : Value) (o : Option Value)
    → (is_group ≡ true → o ≡ none)
    → later
        (if is_group
          then none
          else later (if is_group then some g else none) (if in_group then none else o))
        (if in_group then o else none)
      ≡ o
joined true true g o h = rw (h refl) refl
joined true false g o h = sym (h refl)
joined false in_group g o h = ground arith

flattened-grouped :
    (d : Items)
    → HasDistinctKeys d
    → get "experiment" d ≡ none
    → (k : String) → get k (flattened (grouped d)) ≡ get k d
unfolding flattened grouped
flattened-grouped d h e k =
    let popped = pop_fields identity_fields d in
    let whole = update (item "experiment" (dict_of popped.0) empty) popped.1 in
    let (of_identity, of_rest) = pop_fields-distinct identity_fields d h in
    let at : (j : String)
        → get j whole
          ≡ later (get j (item "experiment" (dict_of popped.0) empty)) (get j popped.1) =
      λ j. get-update j (item "experiment" (dict_of popped.0) empty) popped.1 of_rest in
    let grouping : get "experiment" whole ≡ some (dict_of popped.0) =
      at "experiment" ∙ rw ((pop_fields-get identity_fields d "experiment").1) (rw e refl) in
    let (in_identity, in_rest) = pop_fields-get identity_fields d k in
    rw (grouping, flattened)
      (rw (get-update k (remove "experiment" whole) popped.0 of_identity) (
        rw (get-remove k "experiment" whole) (
          rw (at k) (
            rw (in_identity, in_rest)
              (joined ("experiment" == k) (contains k identity_fields) (dict_of popped.0) (get k d)
                (λ same. rw⁻¹ ((eq_iff "experiment" k).0 same) e))))))

-- Pydantic reads a mapping by its keys and accepts what it dumped; no field is called "experiment".
pub record IsPydantic {Spec : Type 0} (model_validate : Items → Checked Spec)
    (model_dump : Spec → Items) : Type 0 where
  pub by_key :
      (d e : Items) → ((k : String) → get k d ≡ get k e) → model_validate d ≡ model_validate e
  pub accepted : (spec : Spec) → model_validate (model_dump spec) ≡ ok spec
  pub distinct : (spec : Spec) → HasDistinctKeys (model_dump spec)
  pub ungrouped : (spec : Spec) → get "experiment" (model_dump spec) ≡ none

-- If pydantic reads a mapping by its keys, accepts what it dumps, and dumps distinct keys of
-- which none is "experiment", then parsing what `to_dict` writes gives the specification back.
pub parse_experiment-to_dict :
    {Spec : Type 0} (model_validate : Items → Checked Spec) (model_dump : Spec → Items)
    → IsPydantic model_validate model_dump
    → (spec : Spec)
    → parse_experiment model_validate model_dump (to_dict model_validate model_dump spec) ≡ ok spec
unfolding parse_experiment to_dict
parse_experiment-to_dict model_validate model_dump p spec =
    p.by_key _ (model_dump spec)
      (flattened-grouped (model_dump spec) (p.distinct spec) (p.ungrouped spec))
    ∙ p.accepted spec
