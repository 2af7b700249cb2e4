-- ===== src/Core/Policies.antt =====
-- resiliencelab/core/policies.py: the policy of each service, out of a default and overrides. A policy
-- is of any type; pydantic's dump and validation of it are parameters.
pub mod Effective
use resilience_lab.Common.{String, Option, none, some, List, [], ◌∷◌}
use resilience_lab.Common.Checked.{Checked, ok, ◌>>=◌}
use resilience_lab.Common.Dict.{lookup, store}
use resilience_lab.Core.Schema.Merge.{Items, empty, item, merge_policy_dicts}
use resilience_lab.Core.Schema.Graph
use resilience_lab.Core.Schema.Graph.{ServiceSpec, Walk, call_order}

-- `list(spec.system.call_order())`, or the one service that there is without a graph.
unfoldable pub service_names : List ServiceSpec → Walk (List String)
service_names [] = Graph.done ("payment_service" ∷ [])
service_names (s ∷ services) = call_order (s ∷ services)

pub record PolicyResolver (Policy : Type 0) : Type 0 where
  pub default : Policy
  pub overrides : List (String × Items)

-- A dictionary comprehension over names, from the dictionary so far.
unfoldable pub each_name :
    {A : Type 0}
    → (String → Checked A)
    → List (String × A)
    → List String
    → Checked (List (String × A))
each_name f d [] = ok d
each_name f d (name ∷ rest) = do a ← f name; each_name f (store name a d) rest

module _ {Policy : Type 0} (dump : Policy → Items) (validate : Items → Checked Policy) where
  -- An override that is missing or empty leaves the default.
  abbrev with_override : Policy → Option Items → Checked Policy
  with_override default none = ok default
  with_override default (some empty) = ok default
  with_override default (some (item k v rest)) =
      validate (merge_policy_dicts (dump default) (item k v rest))

  unfoldable pub resolve : PolicyResolver Policy → String → Checked Policy
  resolve r service_name = with_override r.default (lookup service_name r.overrides)

  unfoldable pub resolved : PolicyResolver Policy → List String → Checked (List (String × Policy))
  resolved r service_names = each_name (resolve r) [] service_names

  -- With the dump for JSON.
  effective :
      (Policy → Items) → PolicyResolver Policy → List String → Checked (List (String × Items))
  effective dump_json r service_names =
      each_name (λ name. do policy ← resolve r name; ok (dump_json policy)) [] service_names
