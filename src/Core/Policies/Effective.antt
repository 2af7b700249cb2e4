-- ===== src/Core/Policies/Effective.antt =====
-- resiliencelab/core/policies.py: which policy a service gets.
use text.Mathlib.Text.{◌==◌}
use text.Mathlib.TextEquality.{eq_iff}
use resilience_lab.Common.{
  String, ◌≡◌, ◌⊎◌, refl, ap, subst, ◌∙◌, true, false, Option, none, some, List, [], ◌∷◌, All, inl,
  inr, Bool-cases, arith,
}
use resilience_lab.Common.Checked.{Checked, ok, ok-bind}
use resilience_lab.Common.Dict.{lookup, store, lookup-store}
use resilience_lab.Core.Schema.Graph
use resilience_lab.Core.Schema.Graph.{ServiceSpec, contains, names_of, check_graph}
use resilience_lab.Core.Schema.Graph.Order.{call_order_lem}
use resilience_lab.Core.Schema.Merge.{
  dict_of, Items, empty, item, at_path, merge_value, merge_policy_dicts,
}
use resilience_lab.Core.Schema.Merge.Laws.{IsProper, AreProper, overridden, at_path-merged}
use resilience_lab.Core.Policies.{
  service_names, PolicyResolver, each_name, with_override, resolve, resolved,
}

module _ {A : Type 0} (f : String → Checked A) where
  -- What a comprehension has under a key: the value of a name, or what was there.
  abbrev Entered : List String → List (String × A) → List (String × A) → String → Type 0
  Entered names d d' k =
      ((a : A) × (contains k names ≡ true) × (f k ≡ ok a) × (lookup k d' ≡ some a))
      ⊎ ((contains k names ≡ false) × (lookup k d' ≡ lookup k d))

  each_name-Entered :
      (names : List String) (d d' : List (String × A))
      → each_name f d names ≡ ok d'
      → (k : String) → Entered names d d' k
  unfolding each_name
  each_name-Entered [] d d' h k = inr (refl, ap (lookup k) cc)
  each_name-Entered (name ∷ rest) d d' h k =
      let (a, found, h') = ok-bind (f name) _ d' h in
      elim (each_name-Entered rest (store name a d) d' h' k) [
        | inl (b, listed, worked, there) ↦ inl (b, ground (arith, listed), worked, there)
        | inr (unlisted, same) ↦ elim (Bool-cases (name == k)) [
          | inl here ↦
              let e : name ≡ k = (eq_iff name k).0 here in
              inl (
                a,
                ground (arith, eq_iff k name, e),
                subst (λ j. f j ≡ ok a) e found,
                same ∙ ground (arith, lookup-store k name a d, here),
              )
          | inr other ↦ inr (
            ground (arith, eq_iff k name, eq_iff name k, unlisted, other),
            same ∙ ground (arith, lookup-store k name a d, other),
          )
        ]
      ]

abbrev pub HasProper : String × Items → Type 0
HasProper (name, override) = AreProper override

lookup-HasProper :
    (overrides : List (String × Items)) (name : String) (d : Items)
    → All HasProper overrides
    → lookup name overrides ≡ some d
    → AreProper d
unfolding lookup
lookup-HasProper [] name d proper h = cc
lookup-HasProper ((j, o) ∷ rest) name d (first, proper) h = elim (Bool-cases (j == name)) [
  | inl same ↦ subst AreProper (ground (arith, same, h)) first
  | inr other ↦ lookup-HasProper rest name d proper (ground (arith, other, h))
]

module _ {Policy : Type 0} (dump : Policy → Items) (validate : Items → Checked Policy) where
  -- A policy that is what validation makes of the default with the override over it.
  pub record IsMerged (default : Policy) (override : Items) (policy : Policy) : Type 0 where
    pub data_of : Items
    pub validated : validate data_of ≡ ok policy
    pub layered :
        (path : List String)
        → at_path path (some (dict_of data_of))
          ≡ overridden path (some (dict_of (dump default))) (some (dict_of override))

  -- Without an override of its own, or with an empty one, a service has the default.
  abbrev pub Governs : Policy → Option Items → Policy → Type 0
  Governs default none policy = policy ≡ default
  Governs default (some empty) policy = policy ≡ default
  Governs default (some (item k v rest)) policy = IsMerged default (item k v rest) policy

  with_override-Governs :
      (default : Policy) (o : Option Items) (policy : Policy)
      → ((d : Items) → o ≡ some d → AreProper d)
      → with_override dump validate default o ≡ ok policy
      → Governs default o policy
  unfolding merge_value IsProper
  with_override-Governs default none policy proper h = cc
  with_override-Governs default (some empty) policy proper h = cc
  with_override-Governs default (some (item k v rest)) policy proper h = record {
    data_of = merge_policy_dicts (dump default) (item k v rest);
    validated = h;
    layered = λ path.
        at_path-merged path (some (dict_of (dump default))) (some (dict_of (item k v rest)))
          (proper (item k v rest) refl);
  }

  -- When no dictionary of an override has a key twice and policies are resolved for names, exactly
  -- these names have one: without an override of its own, or with an empty one, the default, and
  -- else what validation makes of data that has at every path what the override says there, and the
  -- default's where the override is silent.
  pub resolved-Governs :
      (r : PolicyResolver Policy) (names : List String) (policies : List (String × Policy))
      → All HasProper r.overrides
      → resolved dump validate r names ≡ ok policies
      → (name : String)
      → ((policy : Policy) × (contains name names ≡ true)
          × (lookup name policies ≡ some policy)
          × Governs r.default (lookup name r.overrides) policy)
        ⊎ ((contains name names ≡ false) × (lookup name policies ≡ none))
  unfolding resolved resolve lookup
  resolved-Governs r names policies proper h name =
      elim (each_name-Entered (resolve dump validate r) names [] policies h name) [
        | inl (policy, listed, worked, there) ↦ inl (
          policy,
          listed,
          there,
          with_override-Governs r.default (lookup name r.overrides) policy
              (λ d found. lookup-HasProper r.overrides name d proper found) worked,
        )
        | inr (unlisted, absent) ↦ inr (unlisted, absent)
      ]

  -- Each service of an accepted graph has a policy in what is resolved for its services.
  every_service_governed :
      (services : List ServiceSpec) (r : PolicyResolver Policy) (names : List String)
      (policies : List (String × Policy)) (name : String)
      → check_graph services ≡ Graph.done tt
      → All HasProper r.overrides
      → service_names services ≡ Graph.done names
      → resolved dump validate r names ≡ ok policies
      → contains name (names_of services) ≡ true
      → (policy : Policy) × (lookup name policies ≡ some policy)
        × Governs r.default (lookup name r.overrides) policy
  unfolding service_names
  every_service_governed [] r names policies name passed proper ordered h listed = cc
  every_service_governed (s ∷ services) r names policies name passed proper ordered h listed =
      let (order, found, first, once, same) = call_order_lem (s ∷ services) passed in
      elim (resolved-Governs r names policies proper h name) [
        | inl (policy, there, at, governs) ↦ (policy, at, governs)
        | inr (unlisted, absent) ↦
            let e : order ≡ names = cc in absurd (ground (arith, same name, e, unlisted, listed))
      ]
