-- ===== src/Experiments/Requests.antt =====
-- resiliencelab/experiments/runner.py: how a request of a repetition goes through the services
-- (`downstream` and `send` in `_run_once`), and what each service is given. What a client's `execute`
-- does, to the state that everything shares, is a function of the service's name.
pub mod Calls
use text.Mathlib.Text.{◌==◌}
use resilience_lab.Common.{
  ℕ, ◌+◌, String, Bool, true, false, Option, none, some, List, [], ◌∷◌, ◌++◌,
}
use resilience_lab.Common.Dict.{lookup}
use resilience_lab.Faults.{FaultSpec}
use resilience_lab.Services.Capacity
use resilience_lab.Services.Dependency.Invoke.{DependencyService}
use resilience_lab.Services.Network.{NetworkSpec, NetworkLinkSpec, resolve_network_link}
use resilience_lab.Services.Sut.{ServiceResponse, handle}
use resilience_lab.Resilience.Policy.{Result, returned, raised, escaped, interrupted}

-- What a service says of its capacity.
record CapacitySpec : Type 0 where
  pub max_concurrency : ℕ
  pub queue_limit : Option ℕ

-- The constructor of `DependencyService`, with its defaults in milliseconds.
abbrev new_dependency : List FaultSpec → Option CapacitySpec → DependencyService
new_dependency injectors capacity = record {
  injectors = injectors;
  hang_duration = 30000;
  saturation_delay = 50;
  capacity = elim capacity [
    | none ↦ none
    | some spec ↦ some (Capacity.idle spec.max_concurrency spec.queue_limit)
  ];
  saturated = false;
  fault_active = false;
}

abbrev faults_of : List (String × List FaultSpec) → String → List FaultSpec
faults_of routed name = elim (lookup name routed) [ none ↦ [] | some injectors ↦ injectors ]

-- What stands under a service's name in `indices`, `dependencies` and `network_links`.
record Wired : Type 0 where
  pub index : ℕ
  pub dependency : DependencyService
  pub link : Option NetworkLinkSpec

-- The loops that fill the three dictionaries; the names are distinct.
wire :
    List (String × List FaultSpec)
    → (capacity : String → Option CapacitySpec) → Option NetworkSpec
    → ℕ
    → List String
    → List (String × Wired)
wire routed capacity network index [] = []
wire routed capacity network index (name ∷ rest) =
    (
      name,
      record {
        index = index;
        dependency = new_dependency (faults_of routed name) (capacity name);
        link = resolve_network_link network "order_api" name;
      },
    )
    ∷ wire routed capacity network (index + 1) rest

-- An exception of a call ends the loop, and a value lets it go on.
abbrev unless_raised : {S : Type 0} → Result × S → (ℕ → S → Result × S) → Result × S
unless_raised (returned value, s) go_on = go_on value s
unless_raised (raised failure, s) go_on = (raised failure, s)
unless_raised (escaped, s) go_on = (escaped, s)
unless_raised (interrupted, s) go_on = (interrupted, s)

module _ {S : Type 0} (execute : String → S → Result × S) where
  -- `downstream`, from the result so far.
  pub downstream : Result → List String → S → Result × S
  downstream result [] s = (result, s)
  downstream result (name ∷ rest) s =
      unless_raised (execute name s) (λ value s'. downstream (returned value) rest s')

  -- `send`, the answer of the system under test; `nothing` stands for the None to begin with.
  pub send : ℕ → List String → S → Option ServiceResponse × S
  send nothing names s =
      let (result, s') = downstream (returned nothing) names s in (handle result, s')

-- The execution that also writes down whom it called and how that ended.
abbrev pub logged :
    {S : Type 0}
    → (String → S → Result × S)
    → String
    → S × List (String × Result)
    → Result × (S × List (String × Result))
logged execute name (s, log) =
    let (outcome, s') = execute name s in (outcome, (s', log ++ (name, outcome) ∷ []))
