-- ===== src/Core/Schema/Graph.antt =====
-- resiliencelab/core/schema.py: the graph of a system's services, its check and the order of calls.
-- Both are depth-first walks; each recurses on fuel, one unit for a level of nesting. A service's
-- processing and capacity, which the walks do not read, are left out.
pub mod Names
pub mod Visits
pub mod Order
pub mod Fuel
pub mod Cycles
use text.Mathlib.Text.{◌==◌}
use resilience_lab.Common.{
  ℕ, zero, suc, String, Bool, true, false, not, ◌||◌, ◌&&◌, leb, none, some, List, [], ◌∷◌, ◌++◌,
  map, length, if◌then◌else◌,
}
use resilience_lab.Common.Table.{find}

pub record ServiceSpec : Type 0 where
  pub name : String
  pub depends_on : List String

-- The errors that the check raises, with what their messages name; `StopIteration` is that of
-- `next` over no service of the name.
pub data GraphError : Type 0 where
  duplicate_names : GraphError
  unknown_dependency : String → String → GraphError
  self_dependency : String → GraphError
  cyclic : List String → GraphError
  stop_iteration : String → GraphError

pub data Walk (A : Type 0) : Type 0 where
  done : A → Walk A
  failed : GraphError → Walk A
  out_of_fuel : Walk A

infixl 5 ◌>>=◌
abbrev pub ◌>>=◌ : {A B : Type 0} → Walk A → (A → Walk B) → Walk B
done a >>= f = f a
failed e >>= f = failed e
out_of_fuel >>= f = out_of_fuel

-- `for x in xs: step(x)`, over a state.
abbrev pub each : {A S : Type 0} → (A → S → Walk S) → List A → S → Walk S
each step [] s = done s
each step (x ∷ xs) s = do s' ← step x s; each step xs s'

abbrev pub contains : String → List String → Bool
contains x [] = false
contains x (y ∷ ys) = x == y || contains x ys

-- `set(names)`, whose order does not matter here.
abbrev pub set_of : List String → List String
set_of [] = []
set_of (x ∷ xs) = if contains x xs then set_of xs else x ∷ set_of xs

abbrev pub names_of : List ServiceSpec → List String
names_of services = map (λ s. s.name) services

abbrev pub same_number : ℕ → ℕ → Bool
same_number a b = leb a b && leb b a

-- The numbers 0, 1 and 2 of the source: not visited, the visit is open, the visit is over.
pub data Mark : Type 0 where
  fresh opened closed : Mark

-- The dictionary of states, with the latest entry of a name in front.
abbrev pub Visited : Type 0
Visited = List (String × Mark)

abbrev pub state_of : Visited → String → Mark
state_of [] x = fresh
state_of ((y, n) ∷ rest) x = if x == y then n else state_of rest x

module _ (services : List ServiceSpec) where
  -- `next(s for s in self.services if s.name == name)`
  abbrev pub next : String → Walk ServiceSpec
  next name = elim (find (λ s. s.name) name services) [
    | none ↦ failed (stop_iteration name)
    | some target ↦ done target
  ]

  unfoldable pub visit : ℕ → List String → String → Visited → Walk Visited
  visit zero chain name visited = out_of_fuel
  visit (suc fuel) chain name visited = elim (state_of visited name) [
    | opened ↦ failed (cyclic (chain ++ name ∷ []))
    | closed ↦ done visited
    | fresh ↦ do
      target ← next name
      visited' ← each (visit fuel (chain ++ name ∷ [])) target.depends_on ((name, opened) ∷ visited)
      done ((name, closed) ∷ visited')
  ]

  abbrev pub check_dependency : String → String → Walk (Unit {0})
  check_dependency name dependency =
      if not (contains dependency (names_of services))
      then failed (unknown_dependency name dependency)
      else if dependency == name
      then failed (self_dependency name)
      else done tt

  unfoldable pub check_dependencies : Walk (Unit {0})
  check_dependencies =
      each (λ s u. each (λ dependency w. check_dependency s.name dependency) s.depends_on u)
        services tt

  -- `_check_graph`, whose walk has a level of nesting for each service and one more.
  unfoldable pub check_graph : Walk (Unit {0})
  check_graph =
      if not (same_number (length (set_of (names_of services))) (length services))
      then failed duplicate_names
      else do
        checked ← check_dependencies
        visited ← each (visit (suc (length services)) []) (names_of services) []
        done tt

  unfoldable pub place : ℕ → String → List String → Walk (List String)
  place zero name ordered = out_of_fuel
  place (suc fuel) name ordered = elim (contains name ordered) [
    | true ↦ done ordered
    | false ↦ do
      target ← next name
      ordered' ← each (place fuel) target.depends_on ordered
      done (ordered' ++ name ∷ [])
  ]

  unfoldable pub call_order : Walk (List String)
  call_order = each (place (suc (length services))) (names_of services) []
