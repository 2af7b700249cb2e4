-- ===== src/Core/Schema/Merge.antt =====
-- resiliencelab/core/schema.py: `merge_policy_dicts`, over plain data as YAML and JSON have it. A
-- dictionary is its list of items in order of insertion; Values hold lists
-- and dictionaries of values.
pub mod Laws
use text.Mathlib.Text.{◌==◌}
use resilience_lab.Common.{
  ℕ, String, Bool, true, false, Option, none, some, if◌then◌else◌, List, [], ◌∷◌,
}

mutual
  pub data Value : Type 0 where
    null : Value
    boolean : Bool → Value
    number : ℕ → Value
    string : String → Value
    list_of : Values → Value
    dict_of : Items → Value

  pub data Values : Type 0 where
    nil : Values
    cons : Value → Values → Values

  pub data Items : Type 0 where
    empty : Items
    item : String → Value → Items → Items

abbrev pub get : String → Items → Option Value
get k empty = none
get k (item j v rest) = if j == k then some v else get k rest

-- `result[k] = v`: in place for a key that is there, at the end for a new one.
abbrev pub put : String → Value → Items → Items
put k v empty = item k v empty
put k v (item j w rest) = if j == k then item j v rest else item j w (put k v rest)

unfoldable mutual
  pub merge_value : Option Value → Value → Value
  merge_value (some (dict_of old)) (dict_of new) = dict_of (merge_policy_dicts old new)
  merge_value old new = new

  -- The loop over `override.items()`, from the result so far.
  pub merge_policy_dicts : Items → Items → Items
  merge_policy_dicts result empty = result
  merge_policy_dicts result (item k v rest) =
      merge_policy_dicts (put k (merge_value (get k result) v) result) rest

-- What stands at a path of keys.
abbrev pub at_path : List String → Option Value → Option Value
at_path [] v = v
at_path (k ∷ ks) (some (dict_of d)) = at_path ks (get k d)
at_path (k ∷ ks) _ = none

-- An override says nothing of a path when it lacks a key on the way.
abbrev pub is_silent : List String → Option Value → Bool
is_silent path none = true
is_silent [] (some v) = false
is_silent (k ∷ ks) (some (dict_of d)) = is_silent ks (get k d)
is_silent (k ∷ ks) (some _) = false
