-- ===== src/Core/Schema/Graph/Cycles.antt =====
-- resiliencelab/core/schema.py: a graph that `_check_graph` refuses as cyclic has the cycle it names.
use text.Mathlib.TextEquality.{eq_iff}
use text.Mathlib.Text.{◌==◌}
use resilience_lab.Common.Table.{find}
use resilience_lab.Common.{
  ℕ, zero, suc, String, ◌≡◌, ◌≢◌, refl, ap, true, List, [], ◌∷◌, ◌++◌, All, length, arith, inl, inr,
  ◌⊎◌, not, Bool-cases, Option-cases,
}
use resilience_lab.Core.Schema.Graph.{
  ServiceSpec, Walk, done, failed, out_of_fuel, ◌>>=◌, each, contains, names_of, opened, closed,
  cyclic, GraphError, Visited, state_of, next, visit, check_dependency, check_dependencies,
  check_graph, same_number, set_of,
}
use resilience_lab.Core.Schema.Graph.Visits.{Agrees, Mark-cases, agrees-open}
use resilience_lab.Core.Schema.Graph.Names.{contains-append}
use resilience_lab.Core.Schema.Graph.Order.{start}
use resilience_lab.Core.Schema.Graph.Fuel.{visit-goes}

failed_injective : {A : Type 0} (x y : GraphError) → ◌≡◌ {A = Walk A} (failed x) (failed y) → x ≡ y
failed_injective x y h = cc

cyclic_injective : (p q : List String) → cyclic p ≡ cyclic q → p ≡ q
cyclic_injective p q h = cc

bind-failed :
    {A B : Type 0} (w : Walk A) (f : A → Walk B) (e : GraphError)
    → (w >>= f) ≡ failed e
    → (w ≡ failed e) ⊎ ((a : A) × (w ≡ done a) × (f a ≡ failed e))
bind-failed (done a) f e h = inr (a, refl, h)
bind-failed (failed x) f e h = inl (ap failed (failed_injective x e h))
bind-failed out_of_fuel f e h = cc

each-failed :
    {A S : Type 0} (step : A → S → Walk S) (xs : List A) (s : S) (e : GraphError)
    → each step xs s ≡ failed e
    → (x : A) × (s' : S) × (step x s' ≡ failed e)
each-failed step [] s e h = cc
each-failed step (x ∷ xs) s e h = elim (bind-failed (step x s) (each step xs) e h) [
  | inl here ↦ (x, s, here)
  | inr (s', went, later) ↦ each-failed step xs s' e later
]

module _ (services : List ServiceSpec) where
  -- The service `a` depends on `b`.
  abbrev DependsOn : String → String → Type 0
  DependsOn a b =
      (target : ServiceSpec) × (next services a ≡ done target)
      × (contains b target.depends_on ≡ true)

  abbrev IsPath : List String → Type 0
  IsPath [] = Unit
  IsPath (a ∷ []) = Unit
  IsPath (a ∷ b ∷ rest) = DependsOn a b × IsPath (b ∷ rest)

  -- A path of dependencies that ends in a service that stands in it before.
  abbrev pub IsCycle : List String → Type 0
  IsCycle path =
      (before : List String) × (x : String) × (path ≡ before ++ x ∷ [])
      × (contains x before ≡ true)
      × IsPath path

  IsPath-snoc :
      (chain : List String) (x y : String)
      → IsPath (chain ++ x ∷ [])
      → DependsOn x y
      → IsPath ((chain ++ x ∷ []) ++ y ∷ [])
  IsPath-snoc [] x y p d = (d, tt)
  IsPath-snoc (a ∷ []) x y p d = (p.0, (d, tt))
  IsPath-snoc (a ∷ b ∷ rest) x y p d = (p.0, IsPath-snoc (b ∷ rest) x y p.1 d)

  abbrev InChain : Visited → List String → Type 0
  InChain v chain = (y : String) → state_of v y ≡ opened → contains y chain ≡ true

  each-cyclic :
      (fuel : ℕ) (chain path : List String)
      → ((x : String) (v : Visited) (o : List String)
          → Agrees services v o
          → InChain v chain
          → IsPath (chain ++ x ∷ [])
          → visit services fuel chain x v ≡ failed (cyclic path)
          → IsCycle path)
      → (xs : List String) (v : Visited) (o : List String) → Agrees services v o
      → InChain v chain
      → All (λ x. IsPath (chain ++ x ∷ [])) xs
      → each (visit services fuel chain) xs v ≡ failed (cyclic path)
      → IsCycle path
  each-cyclic fuel chain path hyp [] v o a i ps h = cc
  each-cyclic fuel chain path hyp (x ∷ xs) v o a i ps h =
      elim (bind-failed (visit services fuel chain x v) (each (visit services fuel chain) xs)
        (cyclic path) h) [
          | inl here ↦ hyp x v o a i ps.0 here
          | inr (v', went, later) ↦
              let (o', a', k) = visit-goes services fuel chain x v v' o a went in
              each-cyclic fuel chain path hyp xs v' o' a' (λ y e. i y (k.opens y e)) ps.1 later
        ]

  paths_on :
      (chain : List String) (x : String) (target : ServiceSpec)
      → next services x ≡ done target
      → IsPath (chain ++ x ∷ [])
      → (xs : List String)
      → ((y : String) → contains y xs ≡ true → contains y target.depends_on ≡ true)
      → All (λ y. IsPath ((chain ++ x ∷ []) ++ y ∷ [])) xs
  paths_on chain x target found p [] sub = tt
  paths_on chain x target found p (y ∷ ys) sub = (
    IsPath-snoc chain x y p (target, found, sub y (ground (arith, eq_iff y y))),
    paths_on chain x target found p ys (λ z e. sub z (ground arith)),
  )

  next-acyclic : (x : String) (path : List String) → next services x ≢ failed (cyclic path)
  next-acyclic x path = elim (Option-cases (find (λ s. s.name) x services)) [
    | inl missing ↦ λ e. cc (rw (missing, next) at e)
    | inr (s, found) ↦ λ e. cc (rw (found, next) at e)
  ]

  visit-cyclic :
      (fuel : ℕ) (chain path : List String) (x : String) (v : Visited) (o : List String)
      → Agrees services v o
      → InChain v chain
      → IsPath (chain ++ x ∷ [])
      → visit services fuel chain x v ≡ failed (cyclic path)
      → IsCycle path
  unfolding visit
  visit-cyclic zero chain path x v o a i p h = cc
  visit-cyclic (suc fuel) chain path x v o a i p h = elim (Mark-cases services (state_of v x)) [
    | inl new ↦
        let nested = visit services fuel (chain ++ x ∷ []) in
        let close : Visited → Walk Visited = λ w. done ((x, closed) ∷ w) in
        elim (bind-failed (next services x)
          (λ t. each nested t.depends_on ((x, opened) ∷ v) >>= close) (cyclic path)
          (rw (new, visit) at h)) [
            | inl here ↦ absurd (next-acyclic x path here)
            | inr (target, found, later) ↦
                elim (bind-failed (each nested target.depends_on ((x, opened) ∷ v)) close
                  (cyclic path) later) [
                    | inl inside ↦
                        each-cyclic fuel (chain ++ x ∷ []) path
                          (visit-cyclic fuel (chain ++ x ∷ []) path) target.depends_on
                          ((x, opened) ∷ v) o (agrees-open services x v o a new)
                          (λ y e.
                            ground (
                              arith,
                              i y,
                              contains-append y chain (x ∷ []),
                              eq_iff x y,
                              eq_iff y x,
                            ))
                          (paths_on chain x target found p target.depends_on (λ y e. e)) inside
                    | inr (w, went, e) ↦ cc
                  ]
          ]
    | inr (inl before) ↦
        let named : (chain ++ x ∷ []) ≡ path =
          cyclic_injective (chain ++ x ∷ []) path
            (failed_injective (cyclic (chain ++ x ∷ [])) (cyclic path) (rw (before, visit) at h)) in
        rw⁻¹ named (chain, x, refl, i x before, p)
    | inr (inr before) ↦ cc (rw (before, visit) at h)
  ]

  check_dependency-acyclic :
      (name dependency : String) (path : List String)
      → check_dependency services name dependency ≢ failed (cyclic path)
  check_dependency-acyclic name dependency path =
      elim (Bool-cases (not (contains dependency (names_of services)))) [
        | inl unknown ↦ rw (unknown, check_dependency) (λ q. cc)
        | inr known ↦
            rw (known, check_dependency)
              (elim (Bool-cases (dependency == name)) [
                | inl itself ↦ rw itself (λ q. cc)
                | inr other ↦ rw other (λ q. cc)
              ])
      ]

  check_dependencies-acyclic :
      (path : List String) → check_dependencies services ≢ failed (cyclic path)
  unfolding check_dependencies
  check_dependencies-acyclic path h =
      let (s, u, e) =
        each-failed
          (λ s u. each (λ dependency w. check_dependency services s.name dependency) s.depends_on u)
          services tt (cyclic path) h in
      let (d, w, e') =
        each-failed (λ dependency w. check_dependency services s.name dependency) s.depends_on u
          (cyclic path) e in
      check_dependency-acyclic s.name d path e'

  alone : (xs : List String) → All (λ x. IsPath (x ∷ [])) xs
  alone [] = tt
  alone (x ∷ xs) = (tt, alone xs)

  -- When the check refuses the services as cyclic, the names that it reports are a path on which
  -- each service depends on the next, and whose last name stands in it before.
  pub check_graph_cyclic :
      (path : List String) → check_graph services ≡ failed (cyclic path) → IsCycle path
  unfolding check_graph
  check_graph_cyclic path h =
      let fuel = suc (length services) in
      let walked = each (visit services fuel []) (names_of services) [] in
      let over : Visited → Walk (Unit {0}) = λ visited. done tt in
      elim (Bool-cases
        (not (same_number (length (set_of (names_of services))) (length services)))) [
          | inl twice ↦ cc (rw twice at h)
          | inr unique ↦
              elim (bind-failed (check_dependencies services) (λ checked. walked >>= over)
                (cyclic path) (rw unique at h)) [
                  | inl early ↦ absurd (check_dependencies-acyclic path early)
                  | inr (u, checked, later) ↦ elim (bind-failed walked over (cyclic path) later) [
                    | inl cycle ↦
                        each-cyclic fuel [] path (visit-cyclic fuel [] path) (names_of services) []
                          [] (start services) (λ y e. cc) (alone (names_of services)) cycle
                    | inr (v, went, e) ↦ cc
                  ]
                ]
        ]
