-- ===== src/Core/Schema/Graph/Visits.antt =====
-- resiliencelab/core/schema.py: the walk of the check of the graph keeps what it knows in step with
-- the order of calls.
use mathlib.Core.List.{append_assoc, append-nil}
use text.Mathlib.TextEquality.{eq_iff}
use resilience_lab.Common.{
  ℕ, zero, suc, String, ◌≡◌, refl, ap, ◌∙◌, Bool, true, false, List, [], ◌∷◌, ◌++◌, All, arith,
  some, inl, inr, ◌⊎◌,
}
use resilience_lab.Common.Table.{find}
use resilience_lab.Core.Schema.Graph.{
  ServiceSpec, Walk, done, ◌>>=◌, each, contains, names_of, Mark, fresh, opened, closed, Visited,
  state_of, next, visit, place,
}
use resilience_lab.Core.Schema.Graph.Names.{
  bind-done, done_injective, contains-append, Nodup, Nodup-snoc,
}

abbrev pub is_closed : Mark → Bool
is_closed closed = true
is_closed _ = false

pub known-find :
    (x : String) (ss : List ServiceSpec) (s : ServiceSpec)
    → find (λ s. s.name) x ss ≡ some s
    → contains x (names_of ss) ≡ true
unfolding find
known-find x [] s e = cc
known-find x (y ∷ ys) s e = ground (arith, known-find x ys s, eq_iff x y.name, eq_iff y.name x)

module _ (services : List ServiceSpec) where
  -- The entries of a list stand after all that they depend on, and are services.
  abbrev pub DependenciesFirst : List String → List String → Type 0
  DependenciesFirst earlier [] = Unit
  DependenciesFirst earlier (x ∷ xs) =
      ((target : ServiceSpec) × (next services x ≡ done target)
        × All (λ d. contains d earlier ≡ true) target.depends_on)
      × DependenciesFirst (earlier ++ x ∷ []) xs

  DependenciesFirst-snoc :
      (earlier xs : List String) (x : String) (target : ServiceSpec)
      → DependenciesFirst earlier xs
      → next services x ≡ done target
      → All (λ d. contains d (earlier ++ xs) ≡ true) target.depends_on
      → DependenciesFirst earlier (xs ++ x ∷ [])
  DependenciesFirst-snoc earlier [] x target h e deps =
      ((target, e, rw (append-nil earlier) at deps), tt)
  DependenciesFirst-snoc earlier (y ∷ ys) x target h e deps = (
    h.0,
    DependenciesFirst-snoc (earlier ++ y ∷ []) ys x target h.1 e
        (rw (append_assoc earlier (y ∷ []) ys) deps),
  )

  -- The order so far against the marks.
  pub record Agrees (visited : Visited) (ordered : List String) : Type 0 where
    pub same : (x : String) → contains x ordered ≡ is_closed (state_of visited x)
    pub first : DependenciesFirst [] ordered
    pub once : Nodup ordered

  pub record Kept (before after : Visited) : Type 0 where
    pub of_opened : (x : String) → state_of before x ≡ opened → state_of after x ≡ opened
    pub of_closed : (x : String) → state_of before x ≡ closed → state_of after x ≡ closed
    pub opens : (x : String) → state_of after x ≡ opened → state_of before x ≡ opened

  abbrev Follows : (List String → Walk (List String)) → Visited → List String → Visited → Type 0
  Follows step visited ordered visited' =
      (ordered' : List String) × (step ordered ≡ done ordered')
      × Agrees visited' ordered'
      × Kept visited visited'

  pub each-Follows :
      (walk : String → Visited → Walk Visited) (order : String → List String → Walk (List String))
      → ((x : String) (v v' : Visited) (o : List String)
          → Agrees v o
          → walk x v ≡ done v'
          → Follows (order x) v o v' × (state_of v' x ≡ closed))
      → (xs : List String) (v v' : Visited) (o : List String) → Agrees v o
      → each walk xs v ≡ done v'
      → Follows (each order xs) v o v' × All (λ x. state_of v' x ≡ closed) xs
  each-Follows walk order hyp [] v v' o a e =
      let same : v ≡ v' = done_injective v v' e in
      (
        (
          o,
          refl,
          rw⁻¹ same a,
          rw⁻¹ same (record { of_opened = λ y h. h; of_closed = λ y h. h; opens = λ y h. h }),
        ),
        tt,
      )
  each-Follows walk order hyp (x ∷ xs) v v' o a e =
      let (v1, e1, e2) = bind-done (walk x v) (each walk xs) v' e in
      let ((o1, p1, a1, k1), c1) = hyp x v v1 o a e1 in
      let ((o2, p2, a2, k2), c2) = each-Follows walk order hyp xs v1 v' o1 a1 e2 in
      (
        (
          o2,
          rw p1 p2,
          a2,
          record {
            of_opened = λ y h. k2.of_opened y (k1.of_opened y h);
            of_closed = λ y h. k2.of_closed y (k1.of_closed y h);
            opens = λ y h. k1.opens y (k2.opens y h);
          },
        ),
        (k2.of_closed x c1, c2),
      )

  pub Mark-cases : (m : Mark) → (m ≡ fresh) ⊎ (m ≡ opened) ⊎ (m ≡ closed)
  Mark-cases fresh = inl refl
  Mark-cases opened = inr (inl refl)
  Mark-cases closed = inr (inr refl)

  closed-of :
      (x : String) (v v' : Visited)
      → Kept ((x, opened) ∷ v) v'
      → state_of v x ≡ fresh
      → Kept v ((x, closed) ∷ v')
  closed-of x v v' k e = record {
    of_opened = λ y h. ground (arith, k.of_opened y, eq_iff x y, eq_iff y x);
    of_closed = λ y h. ground (arith, k.of_closed y, eq_iff x y, eq_iff y x);
    opens = λ y h. ground (arith, k.opens y, eq_iff x y, eq_iff y x);
  }

  All-contains :
      (v : Visited) (o : List String)
      → Agrees v o
      → (xs : List String) → All (λ x. state_of v x ≡ closed) xs
      → All (λ x. contains x o ≡ true) xs
  All-contains v o a [] h = tt
  All-contains v o a (x ∷ xs) h = (a.same x ∙ ap is_closed h.0, All-contains v o a xs h.1)

  agrees-snoc :
      (x : String) (target : ServiceSpec) (v : Visited) (o : List String)
      → Agrees v o
      → state_of v x ≡ opened
      → next services x ≡ done target
      → All (λ d. state_of v d ≡ closed) target.depends_on
      → Agrees ((x, closed) ∷ v) (o ++ x ∷ [])
  agrees-snoc x target v o a e found deps = record {
    same = λ y. ground (arith, contains-append y o (x ∷ []), a.same y, eq_iff y x);
    first =
        DependenciesFirst-snoc [] o x target a.first found
          (All-contains v o a target.depends_on deps);
    once = Nodup-snoc o x a.once (a.same x ∙ ap is_closed e);
  }

  pub agrees-open :
      (x : String) (v : Visited) (o : List String)
      → Agrees v o
      → state_of v x ≡ fresh
      → Agrees ((x, opened) ∷ v) o
  agrees-open x v o a e = record {
    same = λ y. ground (arith, a.same y, eq_iff y x);
    first = a.first;
    once = a.once;
  }

  pub visit-Follows :
      (fuel : ℕ) (chain : List String) (x : String) (v v' : Visited) (o : List String)
      → Agrees v o
      → visit services fuel chain x v ≡ done v'
      → Follows (place services fuel x) v o v' × (state_of v' x ≡ closed)
  unfolding visit place
  visit-Follows zero chain x v v' o a e = cc
  visit-Follows (suc fuel) chain x v v' o a e = elim (Mark-cases (state_of v x)) [
    | inl new ↦
        let nested = visit services fuel (chain ++ x ∷ []) in
        let (target, found, e1) =
          bind-done (next services x)
            (λ t. each nested t.depends_on ((x, opened) ∷ v) >>= λ w. done ((x, closed) ∷ w)) v'
            (rw (new, visit) at e) in
        let (w, e2, e3) =
          bind-done (each nested target.depends_on ((x, opened) ∷ v)) (λ w. done ((x, closed) ∷ w))
            v' e1 in
        let ((o', p, a', k), closed_deps) =
          each-Follows nested (place services fuel)
            (λ y u u' q. visit-Follows fuel (chain ++ x ∷ []) y u u' q) target.depends_on
            ((x, opened) ∷ v) w o (agrees-open x v o a new) e2 in
        let still : state_of w x ≡ opened = k.of_opened x (ground (arith, eq_iff x x)) in
        let last : ((x, closed) ∷ w) ≡ v' = done_injective ((x, closed) ∷ w) v' e3 in
        rw⁻¹ last (
          (
            o' ++ x ∷ [],
            rw (a.same x ∙ ap is_closed new, place) (rw found (rw p refl)),
            agrees-snoc x target w o' a' still found closed_deps,
            closed-of x v w k new,
          ),
          ground (arith, eq_iff x x),
        )
    | inr (inl open_) ↦ cc (rw (open_, visit) at e)
    | inr (inr over) ↦
        let last : v ≡ v' = done_injective v v' (rw (over, visit) at e) in
        rw⁻¹ last (
          (
            o,
            rw (a.same x ∙ ap is_closed over, place) refl,
            a,
            record { of_opened = λ y h. h; of_closed = λ y h. h; opens = λ y h. h },
          ),
          over,
        )
  ]
