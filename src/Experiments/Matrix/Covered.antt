-- ===== src/Experiments/Matrix/Covered.antt =====
-- resiliencelab/cli/app.py: what the manifest of a matrix says of the conditions.
use text.Mathlib.Text.{◌==◌}
use text.Mathlib.TextEquality.{eq_iff}
use resilience_lab.Common.{
  suc, ◌+◌, ◌≤◌, if_both, String, ◌≡◌, ◌⊎◌, refl, ap, ◌∙◌, Bool, true, false, if◌then◌else◌, none,
  some, List, [], ◌∷◌, length, All, inl, inr, arith,
}
use resilience_lab.Common.Dict.{lookup, store, lookup-store, lookup-store_self}
use resilience_lab.Experiments.Matrix.{
  ConditionStatus, ok, failed, cancelled, ConditionManifest, Step, gives, raises, interrupts,
  ConditionResult, Environment, MatrixState, after_write, after_run, after_spec, run_condition,
  run_conditions,
}

length-store :
    {A : Type 0} (k : String) (a : A) (d : List (String × A))
    → lookup k d ≡ none
    → length (store k a d) ≡ suc (length d)
unfolding lookup store
length-store k a [] h = refl
length-store k a ((j, b) ∷ d) h = ground (arith, length-store k a d)

module _ {F Spec Condition : Type 0} (env : Environment F Spec Condition) where
  -- A condition has a specification, and its run a result that is kept.
  pub record Completes (condition : Condition) (status : ConditionStatus) : Type 0 where
    pub spec : Spec
    pub result : ConditionResult F
    pub specified : env.condition_spec_for condition ≡ gives spec
    pub ran : env.run_spec spec ≡ gives result
    pub written : env.write_bundle condition result ≡ gives tt
    pub told : status ≡ (if result.cancelled then cancelled else ok)

  -- One of the three steps raised an `Exception`.
  abbrev Fails : Condition → Type 0
  Fails condition =
      (env.condition_spec_for condition ≡ raises)
      ⊎ ((spec : Spec) × (env.condition_spec_for condition ≡ gives spec)
          × ((env.run_spec spec ≡ raises)
              ⊎ ((result : ConditionResult F) × (env.run_spec spec ≡ gives result)
                  × (env.write_bundle condition result ≡ raises))))

  -- What an entry tells of a condition.
  abbrev pub Tells : Condition → ConditionManifest → Type 0
  Tells condition m =
      (m.condition_id ≡ env.condition_id condition)
      × (((m.status ≡ failed) × Fails condition) ⊎ Completes condition m.status)

  -- A round is broken off without an entry, or enters the condition.
  abbrev Enters : Condition → MatrixState F → Bool × MatrixState F → Type 0
  Enters condition s (goes_on, s') =
      ((goes_on ≡ false) × (s'.condition_manifests ≡ s.condition_manifests))
      ⊎ ((m : ConditionManifest) × (s'.condition_manifests
            ≡ store (env.condition_id condition) m s.condition_manifests)
          × Tells condition m)

  run_condition-Enters :
      (condition : Condition) (s : MatrixState F)
      → Enters condition s (run_condition env condition s)
  unfolding run_condition
  run_condition-Enters condition s =
      if_both (Enters condition s) (env.interrupted_at condition) (inl (refl, refl))
        (of_spec (env.condition_spec_for condition) refl)
    where
      of_write :
          (spec : Spec) (result : ConditionResult F) (w : Step (Unit {0}))
          → env.condition_spec_for condition ≡ gives spec
          → env.run_spec spec ≡ gives result
          → env.write_bundle condition result ≡ w
          → Enters condition s (after_write env condition (env.spec_id spec) result w s)
      of_write spec result (gives tt) specified ran written =
          let told : Tells condition (record {
            status = if result.cancelled then cancelled else ok;
            condition_id = env.condition_id condition;
            spec_id = some (env.spec_id spec);
          }) =
            (
              refl,
              inr (record {
                spec = spec;
                result = result;
                specified = specified;
                ran = ran;
                written = written;
                told = refl;
              }),
            ) in
          if_both (Enters condition s) (env.interrupted_after condition) (inr (_, refl, told))
            (inr (_, refl, told))
      of_write spec result raises specified ran written =
          inr (_, refl, (refl, inl (refl, inr (spec, specified, inr (result, ran, written)))))
      of_write spec result interrupts specified ran written = inl (refl, refl)

      of_run :
          (spec : Spec) (r : Step (ConditionResult F))
          → env.condition_spec_for condition ≡ gives spec
          → env.run_spec spec ≡ r
          → Enters condition s (after_run env condition (env.spec_id spec) r s)
      of_run spec (gives result) specified ran =
          of_write spec result (env.write_bundle condition result) specified ran refl
      of_run spec raises specified ran =
          inr (_, refl, (refl, inl (refl, inr (spec, specified, inl ran))))
      of_run spec interrupts specified ran = inl (refl, refl)

      of_spec :
          (o : Step Spec)
          → env.condition_spec_for condition ≡ o
          → Enters condition s (after_spec env condition o s)
      of_spec (gives spec) specified = of_run spec (env.run_spec spec) specified refl
      of_spec raises specified = inr (_, refl, (refl, inl (refl, inl specified)))
      of_spec interrupts specified = inl (refl, refl)

  -- No two conditions have the same identifier.
  abbrev pub AreDistinct : List Condition → Type 0
  AreDistinct [] = Unit
  AreDistinct (c ∷ cs) =
      All (λ d. env.condition_id d == env.condition_id c ≡ false) cs × AreDistinct cs

  abbrev AreFresh : List (String × ConditionManifest) → List Condition → Type 0
  AreFresh manifests cs = All (λ c. lookup (env.condition_id c) manifests ≡ none) cs

  store-AreFresh :
      (c : Condition) (m : ConditionManifest) (manifests : List (String × ConditionManifest))
      (cs : List Condition)
      → All (λ d. env.condition_id d == env.condition_id c ≡ false) cs
      → AreFresh manifests cs
      → AreFresh (store (env.condition_id c) m manifests) cs
  store-AreFresh c m manifests [] other fresh = tt
  store-AreFresh c m manifests (d ∷ cs) (differs, other) (here, fresh) = (
    ground (
      arith,
      lookup-store (env.condition_id d) (env.condition_id c) m manifests,
      eq_iff (env.condition_id c) (env.condition_id d),
      eq_iff (env.condition_id d) (env.condition_id c),
      differs,
      here,
    ),
    store-AreFresh c m manifests cs other fresh,
  )

  -- A condition has an entry that tells of it.
  abbrev pub Covered : List (String × ConditionManifest) → Condition → Type 0
  Covered manifests c =
      (m : ConditionManifest) × (lookup (env.condition_id c) manifests ≡ some m) × Tells c m

  -- What the loop does to the manifests.
  pub record Runs (cs : List Condition) (before after : List (String × ConditionManifest))
      (whole : Bool) : Type 0 where
    pub apart :
        (j : String)
        → All (λ c. env.condition_id c == j ≡ false) cs
        → lookup j after ≡ lookup j before
    pub complete :
        whole ≡ true → (length after ≡ length before + length cs) × All (Covered after) cs
    pub bounded : length after ≤ length before + length cs

  pub run_conditions-Runs :
      (cs : List Condition) (s : MatrixState F)
      → AreDistinct cs
      → AreFresh s.condition_manifests cs
      → let (whole, s') = run_conditions env cs s in
        Runs cs s.condition_manifests s'.condition_manifests whole
  unfolding run_conditions
  run_conditions-Runs [] s distinct fresh = record {
    apart = λ j other. refl;
    complete = λ h. (omega arith, tt);
    bounded = omega arith;
  }
  run_conditions-Runs (c ∷ cs) s (other, distinct) (absent, fresh) =
      go (run_condition env c s) (run_condition-Enters c s)
        (λ s1. run_conditions-Runs cs s1 distinct)
    where
      id : String
      id = env.condition_id c

      go :
          (out : Bool × MatrixState F)
          → Enters c s out
          → ((s1 : MatrixState F)
              → AreFresh s1.condition_manifests cs
              → let (whole, s') = run_conditions env cs s1 in
                Runs cs s1.condition_manifests s'.condition_manifests whole)
          → let (whole, s') = (if out.0 then run_conditions env cs out.1 else (false, out.1)) in
            Runs (c ∷ cs) s.condition_manifests s'.condition_manifests whole
      go (true, s1) (inl (cut, same)) later = cc
      go (true, s1) (inr (m, stored, tells)) later =
          let fresh1 : AreFresh s1.condition_manifests cs =
            rw stored (store-AreFresh c m s.condition_manifests cs other fresh) in
          let runs = later s1 fresh1 in
          let longer : length s1.condition_manifests ≡ suc (length s.condition_manifests) =
            ap length stored ∙ length-store id m s.condition_manifests absent in
          record {
            apart = λ j (differs, differ).
                runs.apart j differ
                ∙ ap (lookup j) stored
                ∙ ground (arith, lookup-store j id m s.condition_manifests, differs);
            complete = λ h.
                let (number, covered) = runs.complete h in
                (
                  omega (arith, number, longer),
                  (
                    (
                      m,
                      runs.apart id other
                          ∙ ap (lookup id) stored
                          ∙ lookup-store_self id m s.condition_manifests,
                      tells,
                    ),
                    covered,
                  ),
                );
            bounded = omega (arith, runs.bounded, longer);
          }
      go (false, s1) (inl (cut, same)) later = record {
        apart = λ j differ. ap (lookup j) same;
        complete = λ h. cc;
        bounded = omega (arith, ap length same);
      }
      go (false, s1) (inr (m, stored, tells)) later = record {
        apart = λ j (differs, differ).
            ap (lookup j) stored
            ∙ ground (arith, lookup-store j id m s.condition_manifests, differs);
        complete = λ h. cc;
        bounded = omega (arith, ap length stored ∙ length-store id m s.condition_manifests absent);
      }
