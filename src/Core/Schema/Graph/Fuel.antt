-- ===== src/Core/Schema/Graph/Fuel.antt =====
-- resiliencelab/core/schema.py: the walk of `_check_graph` ends, since it opens a name only once.
use text.Mathlib.Text.{◌==◌}
use text.Mathlib.TextEquality.{eq_iff}
use resilience_lab.Common.{
  ℕ, zero, suc, ◌≤◌, ◌<◌, String, ◌≡◌, ◌≢◌, refl, ap, Bool, true, false, List, [], ◌∷◌, ◌++◌,
  length, arith, inl, inr, not, Bool-cases, Option-cases, count, count-le-length,
}
use resilience_lab.Common.Table.{find}
use resilience_lab.Core.Schema.Graph.{
  ServiceSpec, Walk, done, failed, out_of_fuel, ◌>>=◌, each, contains, names_of, Mark, fresh,
  opened, closed, Visited, state_of, next, visit, check_dependency, check_dependencies, check_graph,
  same_number, set_of,
}
use resilience_lab.Core.Schema.Graph.Visits.{Agrees, Kept, Mark-cases, visit-Follows, agrees-open}
use resilience_lab.Core.Schema.Graph.Order.{next-known, start}

abbrev mark_is_fresh : Mark → Bool
mark_is_fresh fresh = true
mark_is_fresh _ = false

abbrev is_fresh : Visited → String → Bool
is_fresh v x = mark_is_fresh (state_of v x)

abbrev unvisited : Visited → List String → ℕ
unvisited v names = count (is_fresh v) names

bind-finishes :
    {A B : Type 0} (w : Walk A) (f : A → Walk B)
    → w ≢ out_of_fuel
    → ((a : A) → w ≡ done a → f a ≢ out_of_fuel)
    → (w >>= f) ≢ out_of_fuel
bind-finishes (done a) f h k = k a refl
bind-finishes (failed e) f h k = λ q. cc
bind-finishes out_of_fuel f h k = λ q. h refl

count_mono :
    {A : Type 0} (p q : A → Bool)
    → ((x : A) → p x ≡ true → q x ≡ true)
    → (xs : List A) → count p xs ≤ count q xs
count_mono p q h [] = omega arith
count_mono p q h (x ∷ xs) = ground (arith, h x, count_mono p q h xs)

was_fresh : (v : Visited) (x y : String) → is_fresh ((x, opened) ∷ v) y ≡ true → is_fresh v y ≡ true
was_fresh v x y e = ground arith

unvisited-opened :
    (v : Visited) (x : String) (names : List String)
    → contains x names ≡ true
    → state_of v x ≡ fresh
    → unvisited ((x, opened) ∷ v) names < unvisited v names
unvisited-opened v x [] known e = cc
unvisited-opened v x (y ∷ ys) known e = ground (
  arith,
  eq_iff x y,
  eq_iff y x,
  unvisited-opened v x ys,
  ap (is_fresh v),
  count_mono (is_fresh ((x, opened) ∷ v)) (is_fresh v) (was_fresh v x) ys,
)

each-ends :
    {A S : Type 0} (step : A → S → Walk S)
    → ((x : A) (s : S) → step x s ≢ out_of_fuel)
    → (xs : List A) (s : S) → each step xs s ≢ out_of_fuel
each-ends step h [] s = λ q. cc
each-ends step h (x ∷ xs) s =
    bind-finishes (step x s) (each step xs) (h x s) (λ s' e. each-ends step h xs s')

length-names : (services : List ServiceSpec) → length (names_of services) ≡ length services
length-names [] = refl
length-names (s ∷ rest) = ap suc (length-names rest)

module _ (services : List ServiceSpec) where
  unvisited_mono :
      (v v' : Visited) (names : List String)
      → Kept services v v'
      → unvisited v' names ≤ unvisited v names
  unvisited_mono v v' names k = count_mono (is_fresh v') (is_fresh v) shown names
    where
      shown : (x : String) → is_fresh v' x ≡ true → is_fresh v x ≡ true
      shown x e = elim (Mark-cases services (state_of v x)) [
        | inl same ↦ rw (same, is_fresh) refl
        | inr (inl before) ↦ cc (rw (k.of_opened x before, is_fresh) at e)
        | inr (inr before) ↦ cc (rw (k.of_closed x before, is_fresh) at e)
      ]

  each-finishes :
      (walk : String → Visited → Walk Visited) (n : ℕ)
      → ((x : String) (v : Visited) (o : List String)
          → Agrees services v o
          → unvisited v (names_of services) < n
          → walk x v ≢ out_of_fuel)
      → ((x : String) (v v' : Visited) (o : List String)
          → Agrees services v o
          → walk x v ≡ done v'
          → (o' : List String) × Agrees services v' o' × Kept services v v')
      → (xs : List String) (v : Visited) (o : List String) → Agrees services v o
      → unvisited v (names_of services) < n
      → each walk xs v ≢ out_of_fuel
  each-finishes walk n ends goes [] v o a small = λ q. cc
  each-finishes walk n ends goes (x ∷ xs) v o a small =
      bind-finishes (walk x v) (each walk xs) (ends x v o a small) (λ v' e.
        let (o', a', k) = goes x v v' o a e in
        each-finishes walk n ends goes xs v' o' a'
          (omega (arith, unvisited_mono v v' (names_of services) k, small)))

  pub visit-goes :
      (fuel : ℕ) (chain : List String) (x : String) (v v' : Visited) (o : List String)
      → Agrees services v o
      → visit services fuel chain x v ≡ done v'
      → (o' : List String) × Agrees services v' o' × Kept services v v'
  visit-goes fuel chain x v v' o a e =
      let ((o', p, a', k), over) = visit-Follows services fuel chain x v v' o a e in (o', a', k)

  next-finishes : (x : String) → next services x ≢ out_of_fuel
  next-finishes x = elim (Option-cases (find (λ s. s.name) x services)) [
    | inl missing ↦ λ e. cc (rw (missing, next) at e)
    | inr (s, found) ↦ λ e. cc (rw (found, next) at e)
  ]

  visit-finishes :
      (fuel : ℕ) (chain : List String) (x : String) (v : Visited) (o : List String)
      → Agrees services v o
      → unvisited v (names_of services) < fuel
      → visit services fuel chain x v ≢ out_of_fuel
  unfolding visit
  visit-finishes zero chain x v o a small = omega (arith, small)
  visit-finishes (suc fuel) chain x v o a small = elim (Mark-cases services (state_of v x)) [
    | inl new ↦
        let nested = visit services fuel (chain ++ x ∷ []) in
        rw (new, visit)
          (bind-finishes (next services x)
            (λ target.
              each nested target.depends_on ((x, opened) ∷ v) >>= λ w. done ((x, closed) ∷ w))
            (next-finishes x)
            (λ target found.
              bind-finishes (each nested target.depends_on ((x, opened) ∷ v))
                (λ w. done ((x, closed) ∷ w))
                (each-finishes nested fuel (visit-finishes fuel (chain ++ x ∷ []))
                  (visit-goes fuel (chain ++ x ∷ [])) target.depends_on ((x, opened) ∷ v) o
                  (agrees-open services x v o a new)
                  (omega (
                    arith,
                    small,
                    unvisited-opened v x (names_of services) (next-known services x target found)
                        new,
                  )))
                (λ w e q. cc)))
    | inr (inl before) ↦ rw (before, visit) (λ q. cc)
    | inr (inr before) ↦ rw (before, visit) (λ q. cc)
  ]

  check_dependency-finishes :
      (name dependency : String) → check_dependency services name dependency ≢ out_of_fuel
  check_dependency-finishes name dependency =
      elim (Bool-cases (not (contains dependency (names_of services)))) [
        | inl unknown ↦ rw (unknown, check_dependency) (λ q. cc)
        | inr known ↦
            rw (known, check_dependency)
              (elim (Bool-cases (dependency == name)) [
                | inl itself ↦ rw itself (λ q. cc)
                | inr other ↦ rw other (λ q. cc)
              ])
      ]

  check_dependencies-finishes : check_dependencies services ≢ out_of_fuel
  unfolding check_dependencies
  check_dependencies-finishes =
      each-ends
        (λ s u. each (λ dependency w. check_dependency services s.name dependency) s.depends_on u)
        (λ s u.
          each-ends (λ dependency w. check_dependency services s.name dependency)
            (λ dependency w. check_dependency-finishes s.name dependency) s.depends_on u)
        services tt

  -- The check of the services, whatever their names and dependencies, never runs out of fuel.
  pub check_graph-finishes : check_graph services ≢ out_of_fuel
  unfolding check_graph
  check_graph-finishes =
      let walk = visit services (suc (length services)) [] in
      let walked = each walk (names_of services) [] in
      let rest : Unit {0} → Walk (Unit {0}) = λ checked. walked >>= λ visited. done tt in
      elim (Bool-cases
        (not (same_number (length (set_of (names_of services))) (length services)))) [
          | inl twice ↦ rw twice (λ q. cc)
          | inr unique ↦ rw unique (
              bind-finishes (check_dependencies services) rest check_dependencies-finishes (λ u e.
                bind-finishes walked (λ visited. done tt)
                  (each-finishes walk (suc (length services))
                    (visit-finishes (suc (length services)) [])
                    (visit-goes (suc (length services)) []) (names_of services) [] []
                    (start services)
                    (ground (
                      arith,
                      count-le-length (is_fresh []) (names_of services),
                      length-names services,
                    )))
                  (λ v e2 q. cc)))
        ]
