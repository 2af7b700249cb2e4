-- ===== src/Experiments/Runner/Routing.antt =====
-- resiliencelab/experiments/runner.py, `_injectors_by_service`: which faults a service gets.
use mathlib.Core.List.{append_assoc, append-nil}
use text.Mathlib.Text.{◌==◌}
use text.Mathlib.TextEquality.{eq_iff}
use resilience_lab.Common.{
  ℕ, String, ◌≡◌, refl, sym, ◌∙◌, Bool, List, [], ◌∷◌, ◌++◌, if◌then◌else◌, arith, Bool-cases, inl,
  inr,
}
use resilience_lab.Faults.{FaultSpec}
use resilience_lab.Experiments.Runner.{
  FailureSpec, Routed, append_to, faults_of, after_warmup, injectors_by_service,
}

-- The faults aimed at a name, in the order of the specification.
abbrev aimed_at : Bool → ℕ → String → List FailureSpec → List FaultSpec
aimed_at has_services warmup name [] = []
aimed_at has_services warmup name (failure ∷ rest) =
    if (if has_services then failure.target else "payment_service") == name
    then after_warmup warmup failure ∷ aimed_at has_services warmup name rest
    else aimed_at has_services warmup name rest

faults_of-append_to :
    (name target : String) (fault : FaultSpec) (routed : Routed)
    → faults_of name (append_to target fault routed)
      ≡ (if target == name then faults_of name routed ++ fault ∷ [] else faults_of name routed)
unfolding faults_of append_to
faults_of-append_to name target fault [] = ground arith
faults_of-append_to name target fault ((other, faults) ∷ rest) = ground (
  arith,
  faults_of-append_to name target fault rest,
  eq_iff target name,
  eq_iff other name,
  eq_iff other target,
)

after :
    (has_services : Bool) (warmup : ℕ) (name : String) (failures : List FailureSpec)
    (routed : Routed)
    → faults_of name (injectors_by_service has_services warmup failures routed)
      ≡ faults_of name routed ++ aimed_at has_services warmup name failures
unfolding injectors_by_service
after has_services warmup name [] routed = sym (append-nil (faults_of name routed))
after has_services warmup name (failure ∷ rest) routed =
    let target = if has_services then failure.target else "payment_service" in
    let fault = after_warmup warmup failure in
    after has_services warmup name rest (append_to target fault routed)
    ∙ rw (faults_of-append_to name target fault routed) (elim (Bool-cases (target == name)) [
      | inl aimed ↦ rw aimed (
          append_assoc (faults_of name routed) (fault ∷ [])
            (aimed_at has_services warmup name rest))
      | inr elsewhere ↦ rw elsewhere refl
    ])

-- The faults of a service are those whose target names it, in their order.
injectors_by_service_lem :
    (has_services : Bool) (warmup : ℕ) (name : String) (failures : List FailureSpec)
    → faults_of name (injectors_by_service has_services warmup failures [])
      ≡ aimed_at has_services warmup name failures
unfolding faults_of
injectors_by_service_lem has_services warmup name failures =
    after has_services warmup name failures []
