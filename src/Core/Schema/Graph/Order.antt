-- ===== src/Core/Schema/Graph/Order.antt =====
-- resiliencelab/core/schema.py: what a graph that passes `_check_graph` has, in the order of calls.
use text.Mathlib.TextEquality.{eq_iff}
use resilience_lab.Common.{
  suc, String, ◌≡◌, refl, sym, ap, ◌∙◌, true, List, [], ◌∷◌, ◌++◌, All, length, arith, Option-cases,
  Bool-cases, not, inl, inr,
}
use resilience_lab.Common.Table.{find}
use resilience_lab.Core.Schema.Graph.{
  ServiceSpec, Walk, done, ◌>>=◌, each, contains, names_of, closed, Visited, state_of, next, visit,
  check_dependencies, check_graph, place, call_order, same_number, set_of,
}
use resilience_lab.Core.Schema.Graph.Names.{bind-done, Nodup}
use resilience_lab.Core.Schema.Graph.Visits.{
  is_closed, known-find, DependenciesFirst, Agrees, each-Follows, visit-Follows,
}

module _ (services : List ServiceSpec) where
  pub next-known :
      (x : String) (target : ServiceSpec)
      → next services x ≡ done target
      → contains x (names_of services) ≡ true
  next-known x target e = elim (Option-cases (find (λ s. s.name) x services)) [
    | inl missing ↦ cc (rw (missing, next) at e)
    | inr (s, found) ↦ known-find x services s found
  ]

  entries-known :
      (earlier xs : List String) (x : String)
      → DependenciesFirst services earlier xs
      → contains x xs ≡ true
      → contains x (names_of services) ≡ true
  entries-known earlier [] x h e = cc
  entries-known earlier (y ∷ ys) x ((target, found, deps), h) e =
      ground
        (arith, eq_iff x y, next-known y target found, entries-known (earlier ++ y ∷ []) ys x h)

  All-closed :
      (v : Visited) (xs : List String) (x : String)
      → All (λ y. state_of v y ≡ closed) xs
      → contains x xs ≡ true
      → state_of v x ≡ closed
  All-closed v [] x h e = cc
  All-closed v (y ∷ ys) x (h, t) e = ground (arith, eq_iff x y, All-closed v ys x t)

  pub start : Agrees services [] []
  start = record { same = λ x. refl; first = tt; once = tt }

  walk_done :
      check_graph services ≡ done tt
      → (v : Visited) × (each (visit services (suc (length services)) []) (names_of services) []
          ≡ done v)
  unfolding check_graph
  walk_done passed =
      let walked = each (visit services (suc (length services)) []) (names_of services) [] in
      let rest : Unit {0} → Walk (Unit {0}) = λ checked. walked >>= λ visited. done tt in
      elim (Bool-cases
        (not (same_number (length (set_of (names_of services))) (length services)))) [
          | inl twice ↦ cc (rw twice at passed)
          | inr unique ↦
              let (u, e1, e2) =
                bind-done (check_dependencies services) rest tt (rw unique at passed) in
              let (v, e3, e4) = bind-done walked (λ visited. done tt) tt e2 in (v, e3)
        ]

  -- When the check accepts the services, the order of calls is found within the fuel, names every
  -- service exactly once and nothing else, and puts each service after all that it depends on.
  pub call_order_lem :
      check_graph services ≡ done tt
      → (order : List String) × (call_order services ≡ done order)
        × DependenciesFirst services [] order
        × Nodup order
        × ((x : String) → contains x order ≡ contains x (names_of services))
  unfolding check_graph call_order
  call_order_lem passed =
      let walk = visit services (suc (length services)) [] in
      let (v, walked) = walk_done passed in
      let ((order, e, a, kept), over) =
        each-Follows services walk (place services (suc (length services)))
          (λ x u u' o. visit-Follows services (suc (length services)) [] x u u' o)
          (names_of services) [] v [] start walked in
      (
        order,
        e,
        a.first,
        a.once,
        λ x. elim (Bool-cases (contains x (names_of services))) [
          | inl known ↦
              a.same x ∙ ap is_closed (All-closed v (names_of services) x over known) ∙ sym known
          | inr unknown ↦ ground (arith, entries-known [] order x a.first)
        ],
      )
