-- ===== src/Core/Schema/Merge/Laws.antt =====
-- resiliencelab/core/schema.py: what `merge_policy_dicts` puts under each key and at each path.
use text.Mathlib.Text.{◌==◌}
use text.Mathlib.TextEquality.{eq_iff}
use resilience_lab.Common.{
  String, ◌≡◌, refl, ◌∙◌, false, Option, none, some, if_both, if◌then◌else◌, List, [], ◌∷◌, arith,
  Bool-cases, inl, inr, ◌⊎◌,
}
use resilience_lab.Core.Schema.Merge.{
  Value, null, boolean, number, string, list_of, dict_of, Items, empty, item, get, put, at_path,
  is_silent, merge_value, merge_policy_dicts,
}

-- The keys of a Python dictionary are distinct.
abbrev pub HasDistinctKeys : Items → Type 0
HasDistinctKeys empty = Unit
HasDistinctKeys (item k v rest) = (get k rest ≡ none) × HasDistinctKeys rest

pub get-put :
    (k j : String) (v : Value) (d : Items)
    → get k (put j v d) ≡ (if j == k then some v else get k d)
get-put k j v empty = refl
get-put k j v (item i w rest) =
    ground (arith, get-put k j v rest, eq_iff i j, eq_iff j k, eq_iff i k)

abbrev pub merged : Option Value → Option Value → Option Value
merged old none = old
merged old (some new) = some (merge_value old new)

get-merge_policy_dicts :
    (k : String) (base override : Items)
    → HasDistinctKeys override
    → get k (merge_policy_dicts base override) ≡ merged (get k base) (get k override)
unfolding merge_policy_dicts
get-merge_policy_dicts k base empty distinct = refl
get-merge_policy_dicts k base (item j v rest) (once, distinct) =
    let x = merge_value (get j base) v in
    get-merge_policy_dicts k (put j x base) rest distinct
    ∙ (rw (get-put k j x base) (elim (Bool-cases (j == k)) [
      | inl same ↦ rw (same, if◌then◌else◌) (rw⁻¹ ((eq_iff j k).0 same) (rw once refl))
      | inr other ↦ rw other refl
    ]))

-- Distinct keys at every level.
unfoldable mutual
  pub IsProper : Value → Type 0
  IsProper (dict_of d) = AreProper d
  IsProper _ = Unit

  pub AreProper : Items → Type 0
  AreProper empty = Unit
  AreProper (item k v rest) = (get k rest ≡ none) × IsProper v × AreProper rest

abbrev IsProperOption : Option Value → Type 0
IsProperOption none = Unit
IsProperOption (some v) = IsProper v

AreProper-distinct : (d : Items) → AreProper d → HasDistinctKeys d
unfolding AreProper
AreProper-distinct empty h = tt
AreProper-distinct (item k v rest) (once, h, hs) = (once, AreProper-distinct rest hs)

get-IsProper : (k : String) (d : Items) → AreProper d → IsProperOption (get k d)
unfolding AreProper
get-IsProper k empty h = tt
get-IsProper k (item j v rest) (once, h, hs) =
    if_both IsProperOption (j == k) h (get-IsProper k rest hs)

abbrev replaced : Option Value → Option Value → Option Value
replaced old none = none
replaced old (some new) = some (merge_value old new)

abbrev pub overridden : List String → Option Value → Option Value → Option Value
overridden path base override =
    if is_silent path override
    then at_path path base
    else replaced (at_path path base) (at_path path override)

-- Over a value that is no dictionary the override stands as it is.
base-cases :
    (base : Option Value)
    → ((old : Items) × (base ≡ some (dict_of old)))
      ⊎ (((v : Value) → merge_value base v ≡ v)
          × ((k : String) (ks : List String) → at_path (k ∷ ks) base ≡ none))
unfolding merge_value
base-cases none = inr (λ v. refl, λ k ks. refl)
base-cases (some null) = inr (λ v. refl, λ k ks. refl)
base-cases (some (boolean b)) = inr (λ v. refl, λ k ks. refl)
base-cases (some (number n)) = inr (λ v. refl, λ k ks. refl)
base-cases (some (string t)) = inr (λ v. refl, λ k ks. refl)
base-cases (some (list_of vs)) = inr (λ v. refl, λ k ks. refl)
base-cases (some (dict_of old)) = inl (old, refl)

at_path-alone :
    (path : List String) (override : Option Value)
    → at_path path override ≡ overridden path none override
unfolding merge_value
at_path-alone [] none = refl
at_path-alone [] (some v) = refl
at_path-alone (k ∷ ks) none = refl
at_path-alone (k ∷ ks) (some (dict_of d)) = over_nothing ks (get k d) (at_path-alone ks (get k d))
  where
    over_nothing :
        (ks : List String) (o : Option Value)
        → at_path ks o ≡ overridden ks none o
        → at_path ks o ≡ (if is_silent ks o then none else replaced none (at_path ks o))
    over_nothing [] o e = e
    over_nothing (j ∷ js) o e = e
at_path-alone (k ∷ ks) (some null) = refl
at_path-alone (k ∷ ks) (some (boolean b)) = refl
at_path-alone (k ∷ ks) (some (number n)) = refl
at_path-alone (k ∷ ks) (some (string t)) = refl
at_path-alone (k ∷ ks) (some (list_of vs)) = refl

-- A value that is no dictionary, written over anything.
at_path-scalar :
    (k : String) (ks : List String) (base : Option Value) (v : Value)
    → (((old : Items) → merge_value (some (dict_of old)) v ≡ v))
    → at_path (k ∷ ks) (some v) ≡ none
    → is_silent (k ∷ ks) (some v) ≡ false
    → at_path (k ∷ ks) (some (merge_value base v)) ≡ overridden (k ∷ ks) base (some v)
at_path-scalar k ks base v stands nothing heard =
    rw (heard, overridden)
      (rw nothing (elim (base-cases base) [
        | inl (old, e) ↦ rw e (rw (stands old) nothing)
        | inr (alone, below) ↦ rw (alone v) nothing
      ]))

-- If no dictionary of an override has a key twice, then at every path of keys the merged policy
-- has what the override says there, a dictionary there being merged with the base's, and what the
-- base says where the override lacks a key on the way.
pub at_path-merged :
    (path : List String) (base override : Option Value)
    → IsProperOption override
    → at_path path (merged base override) ≡ overridden path base override
unfolding IsProper merge_value
at_path-merged [] base none h = refl
at_path-merged [] base (some v) h = refl
at_path-merged (k ∷ ks) base none h = refl
at_path-merged (k ∷ ks) base (some (dict_of new)) h = elim (base-cases base) [
  | inl (old, e) ↦ rw e (
      rw (get-merge_policy_dicts k old new (AreProper-distinct new h))
        (at_path-merged ks (get k old) (get k new) (get-IsProper k new h)))
  | inr (alone, below) ↦
      rw (alone (dict_of new)) (rw (below k ks) (at_path-alone (k ∷ ks) (some (dict_of new))))
]
at_path-merged (k ∷ ks) base (some null) h = at_path-scalar k ks base null (λ old. refl) refl refl
at_path-merged (k ∷ ks) base (some (boolean b)) h =
    at_path-scalar k ks base (boolean b) (λ old. refl) refl refl
at_path-merged (k ∷ ks) base (some (number n)) h =
    at_path-scalar k ks base (number n) (λ old. refl) refl refl
at_path-merged (k ∷ ks) base (some (string t)) h =
    at_path-scalar k ks base (string t) (λ old. refl) refl refl
at_path-merged (k ∷ ks) base (some (list_of vs)) h =
    at_path-scalar k ks base (list_of vs) (λ old. refl) refl refl
