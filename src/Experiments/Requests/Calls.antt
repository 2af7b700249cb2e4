-- ===== src/Experiments/Requests/Calls.antt =====
-- resiliencelab/experiments/runner.py: which services a request reaches.
use mathlib.Core.List.{append_assoc, append-nil}
use resilience_lab.Common.{
  ℕ, String, ◌≡◌, refl, sym, ap, subst, ◌∙◌, Bool, true, false, some, List, [], ◌∷◌, ◌++◌, map,
  arith,
}
use resilience_lab.Core.Schema.Graph
use resilience_lab.Core.Schema.Graph.{ServiceSpec, contains, names_of, check_graph}
use resilience_lab.Core.Schema.Graph.Names.{Nodup, contains-append}
use resilience_lab.Core.Schema.Graph.Visits.{DependenciesFirst}
use resilience_lab.Core.Schema.Graph.Order.{call_order_lem}
use resilience_lab.Core.Policies.{service_names}
use resilience_lab.Services.Sut
use resilience_lab.Services.Sut.{ServiceResponse, handle}
use resilience_lab.Resilience.Policy.{Result, returned, raised, escaped, interrupted}
use resilience_lab.Experiments.Requests.{unless_raised, downstream, send, logged}

abbrev has_returned : Result → Bool
has_returned (returned value) = true
has_returned (raised failure) = false
has_returned escaped = false
has_returned interrupted = false

abbrev pub called : List (String × Result) → List String
called log = map (λ entry. entry.0) log

-- After a result, each call is made when what went before has returned; the names that are left out
-- are left out by an exception; and the last result is that of the request.
abbrev pub Ends : Result → List (String × Result) → List String → Result → Type 0
Ends before [] rest result = (result ≡ before) × (has_returned before ≡ true → rest ≡ [])
Ends before ((name, outcome) ∷ log) rest result =
    (has_returned before ≡ true) × Ends outcome log rest result

module _ {S : Type 0} (execute : String → S → Result × S) where
  abbrev Reaches :
      Result
      → List String
      → S
      → List (String × Result)
      → Result × S
      → Result × (S × List (String × Result))
      → Type 0
  Reaches before names s log plain (result, (s', log')) =
      (plain ≡ (result, s'))
      × (new : List (String × Result)) × (rest : List String) × (log' ≡ log ++ new)
      × (names ≡ called new ++ rest)
      × Ends before new rest result

  downstream-Reaches :
      (before : Result) (names : List String) (s : S) (log : List (String × Result))
      → has_returned before ≡ true
      → Reaches before names s log
          (downstream execute before names s)
          (downstream (logged execute) before names (s, log))
  unfolding downstream
  downstream-Reaches before [] s log h =
      (refl, [], [], sym (append-nil log), refl, (refl, λ returned. refl))
  downstream-Reaches before (name ∷ names) s log h = by_outcome (execute name s) (λ value s1.
      downstream-Reaches (returned value) names s1 (log ++ (name, returned value) ∷ []) refl)
    where
      by_outcome :
          (out : Result × S)
          → ((value : ℕ) (s1 : S)
              → let log1 = log ++ (name, returned value) ∷ [] in
                Reaches
                  (returned value)
                  names
                  s1
                  log1
                  (downstream execute (returned value) names s1)
                  (downstream (logged execute) (returned value) names (s1, log1)))
          → Reaches before
              (name ∷ names)
              s
              log
              (unless_raised out (λ value s1. downstream execute (returned value) names s1))
              (unless_raised
                (out.0, (out.1, log ++ (name, out.0) ∷ []))
                (λ value s1. downstream (logged execute) (returned value) names s1))
      by_outcome (returned value, s1) again =
          let (same, new, rest, longer, split, ends) = again value s1 in
          (
            same,
            (name, returned value) ∷ new,
            rest,
            longer ∙ append_assoc log ((name, returned value) ∷ []) new,
            ap (λ xs. name ∷ xs) split,
            (h, ends),
          )
      by_outcome (raised failure, s1) again =
          (refl, (name, raised failure) ∷ [], names, refl, refl, (h, (refl, λ wrong. cc)))
      by_outcome (escaped, s1) again =
          (refl, (name, escaped) ∷ [], names, refl, refl, (h, (refl, λ wrong. cc)))
      by_outcome (interrupted, s1) again =
          (refl, (name, interrupted) ∷ [], names, refl, refl, (h, (refl, λ wrong. cc)))

prefix-DependenciesFirst :
    (services : List ServiceSpec) (earlier xs ys : List String)
    → DependenciesFirst services earlier (xs ++ ys)
    → DependenciesFirst services earlier xs
prefix-DependenciesFirst services earlier [] ys h = tt
prefix-DependenciesFirst services earlier (x ∷ xs) ys (here, h) =
    (here, prefix-DependenciesFirst services (earlier ++ x ∷ []) xs ys h)

prefix-Nodup : (xs ys : List String) → Nodup (xs ++ ys) → Nodup xs
prefix-Nodup [] ys h = tt
prefix-Nodup (x ∷ xs) ys (once, h) =
    (ground (arith, contains-append x xs ys, once), prefix-Nodup xs ys h)

-- After a request that ended with a value nothing is left out.
Ends-all :
    (before : Result) (log : List (String × Result)) (rest : List String) (result : Result)
    → Ends before log rest result
    → has_returned result ≡ true
    → rest ≡ []
Ends-all before [] rest result (same, all) h = all (subst (λ r. has_returned r ≡ true) same h)
Ends-all before ((name, outcome) ∷ log) rest result (went, ends) h =
    Ends-all outcome log rest result ends h

handle-returned :
    (result : Result)
    → handle result ≡ some (Sut.response 200 Sut.all_well)
    → has_returned result ≡ true
unfolding handle
handle-returned (returned value) h = refl
handle-returned (raised failure) h = absurd (ground (arith, h))
handle-returned escaped h = cc
handle-returned interrupted h = cc

module _ {S : Type 0} (execute : String → S → Result × S) where
  -- When the check accepts a graph of at least one service, a request reaches the services in their
  -- order, none of them twice, each only after all that it depends on have returned, up to the
  -- first that raises, whose end is the request's; the answer of a request that succeeded, 200 with
  -- the body that says so, is given only if every service was reached.
  pub downstream_lem :
      (service : ServiceSpec) (services : List ServiceSpec) (names : List String) (nothing : ℕ)
      (s : S)
      → check_graph (service ∷ services) ≡ Graph.done tt
      → service_names (service ∷ services) ≡ Graph.done names
      → let (result, (s', log)) = downstream (logged execute) (returned nothing) names (s, []) in
        (send execute nothing names s ≡ (handle result, s'))
        × DependenciesFirst (service ∷ services) [] (called log)
        × Nodup (called log)
        × ((rest : List String) × (names ≡ called log ++ rest)
            × Ends (returned nothing) log rest result)
        × (handle result ≡ some (Sut.response 200 Sut.all_well)
            → (x : String) → contains x (called log) ≡ contains x (names_of (service ∷ services)))
  unfolding service_names send
  downstream_lem service services names nothing s passed ordered =
      let (order, found, first, once, known) = call_order_lem (service ∷ services) passed in
      let same : order ≡ names = cc in
      let (result, (s', log)) = downstream (logged execute) (returned nothing) names (s, []) in
      let (plain, new, rest, whole, split, ends) =
        downstream-Reaches execute (returned nothing) names s [] refl in
      let reached : names ≡ called log ++ rest = split ∙ ap (λ l. called l ++ rest) (sym whole) in
      let order' : order ≡ called log ++ rest = same ∙ reached in
      let ends' : Ends (returned nothing) log rest result =
        subst (λ l. Ends (returned nothing) l rest result) (sym whole) ends in
      (
        ap (λ (out : Result × S). (handle out.0, out.1)) plain,
        prefix-DependenciesFirst (service ∷ services) [] (called log) rest
            (subst (DependenciesFirst (service ∷ services) []) order' first),
        prefix-Nodup (called log) rest (subst Nodup order' once),
        (rest, reached, ends'),
        λ well x.
            let none_left : rest ≡ [] =
              Ends-all (returned nothing) log rest result ends' (handle-returned result well) in
            let all : order ≡ called log =
              order' ∙ ap (λ r. called log ++ r) none_left ∙ append-nil (called log) in
            subst (λ l. contains x l ≡ contains x (names_of (service ∷ services))) all (known x),
      )
