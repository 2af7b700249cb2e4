-- ===== src/Resilience/CircuitBreaker/Listeners.antt =====
-- The transitions that a breaker reports to its listeners.
use resilience_lab.Common.{
  ◌≡◌, refl, ◌⊎◌, inl, inr, ◌≢◌, Bool, true, false, List, [], ◌∷◌, ◌++◌, map, arith, All,
}
use resilience_lab.Resilience.CircuitBreaker.{
  CircuitState, closed, open_state, half_open, CircuitBreaker, Call, allows, successes, failures,
  resets, step, run,
}

-- The arrows of the state diagram.
abbrev is_edge : CircuitState → CircuitState → Bool
is_edge closed open_state = true
is_edge open_state half_open = true
is_edge half_open open_state = true
is_edge half_open closed = true
is_edge _ _ = false

-- The calls that a listener received lead along the arrows from one state to another.
abbrev Chain : CircuitState → List (CircuitState × CircuitState) → CircuitState → Type 0
Chain s [] t = s ≡ t
Chain s ((a, b) ∷ rest) t = (s ≡ a) × (is_edge a b ≡ true) × Chain b rest t

Chain-snoc :
    (s t u : CircuitState) (log : List (CircuitState × CircuitState))
    → Chain s log t
    → is_edge t u ≡ true
    → Chain s (log ++ (t, u) ∷ []) u
Chain-snoc s t u [] c e = (c, e, refl)
Chain-snoc s t u ((a, b) ∷ rest) c e = (c.0, c.1, Chain-snoc b t u rest c.2 e)

-- Each listener was told of every transition since it was added, `since` being the states then.
abbrev Informed :
    List CircuitState → List (List (CircuitState × CircuitState)) → CircuitState → Type 0
Informed [] [] t = Unit {0}
Informed (s ∷ ss) (log ∷ logs) t = Chain s log t × Informed ss logs t
Informed _ _ t = ⊥

Informed-notify :
    (since : List CircuitState) (logs : List (List (CircuitState × CircuitState)))
    (t u : CircuitState)
    → Informed since logs t
    → is_edge t u ≡ true
    → Informed since (map (λ calls. calls ++ (t, u) ∷ []) logs) u
Informed-notify [] [] t u h e = tt
Informed-notify [] (log ∷ logs) t u h e = absurd h
Informed-notify (s ∷ ss) [] t u h e = absurd h
Informed-notify (s ∷ ss) (log ∷ logs) t u h e =
    (Chain-snoc s t u log h.0 e, Informed-notify ss logs t u h.1 e)

-- A call changes nothing that a listener sees, or tells every listener of one arrow.
abbrev Notified : CircuitBreaker → CircuitBreaker → Type 0
Notified b c =
    ((c.state ≡ b.state) × (c.listeners ≡ b.listeners))
    ⊎ ((is_edge b.state c.state ≡ true)
        × (c.listeners ≡ map (λ calls. calls ++ (b.state, c.state) ∷ []) b.listeners))

step-Notified : (b : CircuitBreaker) (c : Call) → c ≢ resets → Notified b (step b c)
unfolding step
step-Notified b (allows now) h = ground arith
step-Notified b (successes now) h = ground arith
step-Notified b (failures now later) h = ground arith
step-Notified b resets h = absurd (h refl)

step-Informed :
    (since : List CircuitState) (b c : CircuitBreaker)
    → Notified b c
    → Informed since b.listeners b.state
    → Informed since c.listeners c.state
step-Informed since b c (inl (s, l)) h = rw (s, l) h
step-Informed since b c (inr (e, l)) h =
    rw l (Informed-notify since b.listeners b.state c.state h e)

-- In a history without resets, the calls that each listener has received form an unbroken path of
-- permitted transitions from the state at its registration to the present state.
run-Informed :
    (since : List CircuitState) (b : CircuitBreaker) (cs : List Call)
    → All (λ c. c ≢ resets) cs
    → Informed since b.listeners b.state
    → Informed since (run b cs).listeners (run b cs).state
unfolding run
run-Informed since b [] n h = h
run-Informed since b (c ∷ cs) n h =
    run-Informed since (step b c) cs n.1
      (step-Informed since b (step b c) (step-Notified b c n.0) h)
