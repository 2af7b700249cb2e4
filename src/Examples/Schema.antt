-- ===== src/Examples/Schema.antt =====
-- resiliencelab/core/schema.py, policies.py, config.py and builders.py, and a request of
-- resiliencelab/experiments/runner.py, on concrete inputs.
use resilience_lab.Common.{
  ℕ, ◌+◌, ◌++◌, if◌then◌else◌, ◌⊎◌, String, ◌≡◌, refl, Bool, true, false, Option, none, some, List,
  [], ◌∷◌, arith,
}
use resilience_lab.Common.Table.{find}
use resilience_lab.Common.Checked.{Checked, ok, value_error}
use resilience_lab.Core.Schema.Graph.{
  ServiceSpec, check_dependencies, visit, place, check_graph, call_order, done, failed, cyclic,
  contains, names_of,
}
use resilience_lab.Core.Schema.Graph.Names.{Nodup}
use resilience_lab.Core.Schema.Graph.Visits.{DependenciesFirst}
use resilience_lab.Core.Schema.Graph.Order.{call_order_lem}
use resilience_lab.Core.Schema.Graph.Cycles.{IsCycle, check_graph_cyclic}
use resilience_lab.Core.Schema.Merge.{
  Value, Items, null, number, string, dict_of, empty, item, get, at_path, merge_policy_dicts,
}
use resilience_lab.Core.Schema.Merge.Laws.{merged, overridden, at_path-merged, IsProper, AreProper}
use text.Mathlib.Text.{◌==◌}
use resilience_lab.Experiments.Requests.{downstream, send, logged}
use resilience_lab.Experiments.Requests.Calls.{called, Ends, downstream_lem}
use resilience_lab.Services.Sut
use resilience_lab.Services.Sut.{handle}
use resilience_lab.Resilience.Errors.{call_failure}
use resilience_lab.Resilience.Policy.{Result, returned, raised}
use resilience_lab.Core.Policies.{service_names, PolicyResolver, each_name, resolve, resolved}
use resilience_lab.Core.Policies.Effective.{HasProper, Governs, resolved-Governs}
use resilience_lab.Common.Dict.{lookup, store}
use resilience_lab.Core.Config.{parse_experiment, to_dict, IsPydantic, parse_experiment-to_dict}
use resilience_lab.Core.Schema.Policies.{
  PolicySpec, validate, valid, check_consistency, has_valid_fields,
}
use resilience_lab.Core.Builders.{ResiliencePolicy, build_policy}
use resilience_lab.Core.Builders.Total.{PolicyOf, build_policy-validate}
use resilience_lab.Resilience.Backoff
use resilience_lab.Resilience.Jitter

abbrev shop : List ServiceSpec
shop =
    record { name = "orders"; depends_on = "payment" ∷ "stock" ∷ [] }
    ∷ record { name = "payment"; depends_on = "stock" ∷ [] }
    ∷ record { name = "stock"; depends_on = [] }
    ∷ []

shop_passes : check_graph shop ≡ done tt
unfolding check_graph check_dependencies visit find
shop_passes = refl

shop_order : call_order shop ≡ done ("stock" ∷ "payment" ∷ "orders" ∷ [])
unfolding call_order place find
shop_order = refl

call_order_lem_example :
    (order : List String) × (call_order shop ≡ done order)
    × DependenciesFirst shop [] order
    × Nodup order
    × ((x : String) → contains x order ≡ contains x (names_of shop))
call_order_lem_example = call_order_lem shop shop_passes

abbrev shop_names : List String
shop_names = "stock" ∷ "payment" ∷ "orders" ∷ []

shop_named : service_names shop ≡ done shop_names
unfolding service_names call_order place find
shop_named = refl

-- Every service answers but the payment; the state is the number of calls.
abbrev execute_call : String → ℕ → Result × ℕ
execute_call name n =
    (if name == "payment" then raised (call_failure (some 503) none) else returned 7, n + 1)

downstream_lem_example :
    let (result, (n, log)) = downstream (logged execute_call) (returned 0) shop_names (0, []) in
    (send execute_call 0 shop_names 0 ≡ (handle result, n))
    × DependenciesFirst shop [] (called log)
    × Nodup (called log)
    × ((rest : List String) × (shop_names ≡ called log ++ rest) × Ends (returned 0) log rest result)
    × (handle result ≡ some (Sut.response 200 Sut.all_well)
        → (x : String) → contains x (called log) ≡ contains x (names_of shop))
downstream_lem_example =
    downstream_lem execute_call (record { name = "orders"; depends_on = "payment" ∷ "stock" ∷ [] })
      (record { name = "payment"; depends_on = "stock" ∷ [] }
        ∷ record { name = "stock"; depends_on = [] }
        ∷ [])
      shop_names 0 0 shop_passes shop_named

abbrev ring : List ServiceSpec
ring =
    record { name = "a"; depends_on = "b" ∷ [] }
    ∷ record { name = "b"; depends_on = "c" ∷ [] }
    ∷ record { name = "c"; depends_on = "b" ∷ [] }
    ∷ []

abbrev around : List String
around = "a" ∷ "b" ∷ "c" ∷ "b" ∷ []

ring_fails : check_graph ring ≡ failed (cyclic around)
unfolding check_graph check_dependencies visit find
ring_fails = refl

check_graph_cyclic_example : IsCycle ring around
check_graph_cyclic_example = check_graph_cyclic ring around ring_fails

abbrev base : Items
base = item "retry" (dict_of (item "max_attempts" (number 3) empty)) (item "timeout" null empty)

abbrev override : Items
override =
    item "retry" (dict_of (item "max_attempts" (number 5) empty))
      (item "timeout" (dict_of (item "total" (number 2) empty)) empty)

abbrev path : List String
path = "retry" ∷ "max_attempts" ∷ []

override-IsProper : IsProper (dict_of override)
unfolding IsProper
override-IsProper = (refl, (refl, tt, tt), (refl, (refl, tt, tt), tt))

at_path-merged_example :
    at_path path (merged (some (dict_of base)) (some (dict_of override)))
    ≡ overridden path (some (dict_of base)) (some (dict_of override))
at_path-merged_example =
    at_path-merged path (some (dict_of base)) (some (dict_of override)) override-IsProper

-- A policy is its own dump.
abbrev resolver : PolicyResolver Items
resolver = record { default = base; overrides = ("payment", override) ∷ [] }

abbrev two_policies : List (String × Items)
two_policies = ("orders", base) ∷ ("payment", merge_policy_dicts base override) ∷ []

both_resolved : resolved (λ p. p) ok resolver ("orders" ∷ "payment" ∷ []) ≡ ok two_policies
unfolding resolved resolve each_name lookup store merge_policy_dicts
both_resolved = refl

override-HasProper : HasProper ("payment", override)
unfolding AreProper
override-HasProper = (refl, (refl, tt, tt), (refl, (refl, tt, tt), tt))

resolved-Governs_example :
    ((policy : Items) × (true ≡ true)
      × (lookup "payment" two_policies ≡ some policy)
      × Governs (λ p. p) ok base (lookup "payment" resolver.overrides) policy)
    ⊎ ((true ≡ false) × (lookup "payment" two_policies ≡ none))
resolved-Governs_example =
    resolved-Governs (λ p. p) ok resolver ("orders" ∷ "payment" ∷ []) two_policies
      (override-HasProper, tt) both_resolved "payment"

-- A class of two fields in the place of the experiment's.
abbrev Two : Type 0
Two = Value × Value

abbrev model_dump : Two → Items
model_dump (id, workload) = item "id" id (item "workload" workload empty)

abbrev both : Option Value → Option Value → Checked Two
both none workload = value_error "id"
both (some id) none = value_error "workload"
both (some id) (some workload) = ok (id, workload)

abbrev model_validate : Items → Checked Two
model_validate d = both (get "id" d) (get "workload" d)

pydantic : IsPydantic model_validate model_dump
pydantic = record {
  by_key = λ d e same. rw (same "id", same "workload") refl;
  accepted = λ spec. refl;
  distinct = λ spec. (refl, (refl, tt));
  ungrouped = λ spec. refl;
}

abbrev two : Two
two = (string "e", dict_of (item "clients" (number 4) empty))

parse_experiment-to_dict_example :
    parse_experiment model_validate model_dump (to_dict model_validate model_dump two) ≡ ok two
parse_experiment-to_dict_example = parse_experiment-to_dict model_validate model_dump pydantic two

abbrev policy : Bool → PolicySpec
policy enabled = record {
  retry = some (record {
    enabled = enabled;
    max_attempts = 3;
    retryable_statuses = 503 ∷ [];
    budget_max_retries = some 4;
    budget_window = 10;
  });
  backoff = record {
    kind = Backoff.exponential;
    base = 1;
    maximum = 50;
    factor_num = 2;
    factor_den = 1;
    jitter = Jitter.full;
    jitter_num = 1;
    jitter_den = 10;
  };
  circuit_breaker = some (record {
    enabled = false;
    threshold = 10;
    recovery_window = 15;
    half_open_probes = 1;
    rolling_window = none;
    minimum_throughput = 1;
  });
  timeout = none;
  concurrency = none;
}

policy_accepted : validate (policy true) ≡ valid (policy true)
unfolding validate check_consistency has_valid_fields
policy_accepted = refl

build_policy-validate_example :
    (built : ResiliencePolicy) × (build_policy (policy true) ≡ ok built)
    × PolicyOf (policy true) built
build_policy-validate_example =
    build_policy-validate (policy true) (policy true)
      (record { factor = omega arith; jitter = omega arith }) policy_accepted
