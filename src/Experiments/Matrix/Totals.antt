-- ===== src/Experiments/Matrix/Totals.antt =====
-- resiliencelab/cli/app.py: how a matrix ends, and what its manifest adds up to.
use resilience_lab.Common.{
  ℕ, suc, ◌+◌, ◌≤◌, ◌≢◌, ◌&&◌, Bool, true, false, Option, String, ◌≡◌, ◌⊎◌, refl, ap, ◌∙◌,
  if◌then◌else◌, ltb, none, some, List, [], ◌∷◌, length, count, All, inl, inr, arith,
}
use resilience_lab.Common.Dict.{lookup}
use resilience_lab.Analysis.Comparison.{Experiment, Statistics, values}
use resilience_lab.Experiments.Matrix.{
  ConditionStatus, ok, failed, cancelled, ConditionManifest, Environment, MatrixState,
  run_conditions, same_status, has_status, MatrixManifest, Exit, exit_code, reraised,
  finalize_matrix, exit_of, matrix, manifest_of, finish, Observations, Step, gives, raises,
  interrupts,
}
use resilience_lab.Experiments.Matrix.Covered.{AreDistinct, Covered, Runs, run_conditions-Runs}

length-values : {A : Type 0} (d : List (String × A)) → length (values d) ≡ length d
length-values [] = refl
length-values ((k, a) ∷ d) = ap suc (length-values d)

one_status :
    (status : ConditionStatus)
    → (if same_status ok status then 1 else 0)
        + (if same_status failed status then 1 else 0)
        + (if same_status cancelled status then 1 else 0)
      ≡ 1
one_status ok = refl
one_status failed = refl
one_status cancelled = refl

-- Every entry has one of the three statuses.
count-statuses :
    (ms : List ConditionManifest)
    → count (has_status ok) ms + count (has_status failed) ms + count (has_status cancelled) ms
      ≡ length ms
count-statuses [] = refl
count-statuses (m ∷ ms) = ground (arith, count-statuses ms, one_status m.status)

AreFresh-nothing :
    {Condition : Type 0} (f : Condition → String) (cs : List Condition)
    → All (λ c. lookup {A = ConditionManifest} (f c) [] ≡ none) cs
unfolding lookup
AreFresh-nothing f [] = tt
AreFresh-nothing f (c ∷ cs) = (refl, AreFresh-nothing f cs)

module _ {F S Spec Condition : Type 0} (stats : Statistics F S) (metrics : List String)
    (env : Environment F Spec Condition) where
  -- What a manifest says of the conditions, by the end of the command.
  abbrev pub Says : List Condition → MatrixManifest F S → Exit → Type 0
  Says conditions manifest exit =
      (manifest.condition_count ≡ length conditions)
      × (manifest.succeeded + manifest.failed + manifest.cancelled ≡ length manifest.conditions)
      × (length manifest.conditions ≤ manifest.condition_count)
      × ((exit ≡ reraised)
          ⊎ ((exit ≡ exit_code (if ltb 0 manifest.failed then 1 else 0))
              × (length manifest.conditions ≡ manifest.condition_count)
              × All (Covered env manifest.conditions) conditions))

  -- Why there is no manifest.
  abbrev pub Unwritten : Type 0
  Unwritten =
      (env.interrupted_at_start ≡ true)
      ⊎ ((env.interrupted_at_end ≡ true)
          ⊎ ((entries : List (Experiment F)) × (observations : Observations F) × (env.reports
                  entries observations
                ≢ gives tt)))

  abbrev pub Ends : List Condition → Option (MatrixManifest F S) × Exit → Type 0
  Ends conditions (none, exit) = (exit ≡ reraised) × Unwritten
  Ends conditions (some manifest, exit) = Says conditions manifest exit

  finish-Ends :
      (cs : List Condition) (whole : Bool) (s : MatrixState F)
      → Runs env cs [] s.condition_manifests whole
      → Ends cs (finish stats metrics env cs whole s)
  unfolding finalize_matrix
  finish-Ends cs whole s runs = by_report (env.reports s.entries s.observations) refl
    where
      totals :
          let m = manifest_of stats metrics env cs s in
          m.succeeded + m.failed + m.cancelled ≡ length m.conditions
      totals = count-statuses (values s.condition_manifests) ∙ length-values s.condition_manifests

      by_end :
          (b : Bool) (how : Step (Unit {0}))
          → whole ≡ b
          → Says cs
              (manifest_of stats metrics env cs s)
              (exit_of stats metrics env b (manifest_of stats metrics env cs s).failed how)
      by_end true (gives tt) e =
          let (number, covered) = runs.complete e in
          (refl, totals, omega (arith, runs.bounded), inr (refl, omega (arith, number), covered))
      by_end true raises e = (refl, totals, omega (arith, runs.bounded), inl refl)
      by_end true interrupts e = (refl, totals, omega (arith, runs.bounded), inl refl)
      by_end false how e = (refl, totals, omega (arith, runs.bounded), inl refl)

      refused :
          (b : Bool) (how : Step (Unit {0})) (n : ℕ)
          → how ≢ gives tt
          → exit_of stats metrics env b n how ≡ reraised
      refused true (gives tt) n h = absurd (h refl)
      refused true raises n h = refl
      refused true interrupts n h = refl
      refused false how n h = refl

      by_report :
          (w : Step (Unit {0}))
          → env.reports s.entries s.observations ≡ w
          → Ends cs (finish stats metrics env cs whole s)
      by_report (gives tt) e = rw (e, finalize_matrix) (by_end whole env.prints refl)
      by_report raises e =
          let ne : env.reports s.entries s.observations ≢ gives tt = λ h. cc (e, h) in
          rw (e, finalize_matrix)
            (refused whole raises _ (λ h. cc), inr (inr (s.entries, s.observations, ne)))
      by_report interrupts e =
          let ne : env.reports s.entries s.observations ≢ gives tt = λ h. cc (e, h) in
          rw (e, finalize_matrix)
            (refused whole interrupts _ (λ h. cc), inr (inr (s.entries, s.observations, ne)))

  -- For at least one condition, no two of the same identifier, a matrix leaves a manifest unless an
  -- interrupt comes before the first round or after the last or the report cannot be written, and
  -- then an exception leaves the command. The manifest's numbers of successes, failures and
  -- cancellations add up to its entries, of which there is at most one for each condition; and
  -- either an exception leaves the command, or every condition has an entry, which says failed when
  -- one of its steps raised, and else whether its result was cancelled, and the exit code is 1
  -- exactly when some condition failed.
  pub matrix_lem :
      (c : Condition) (cs : List Condition)
      → AreDistinct env (c ∷ cs)
      → Ends (c ∷ cs) (matrix stats metrics env (c ∷ cs))
  unfolding matrix
  matrix_lem c cs distinct =
      let start : MatrixState F = record {
        entries = [];
        observations = [];
        condition_manifests = [];
      } in
      let (whole, s) = run_conditions env (c ∷ cs) start in
      let runs =
        run_conditions-Runs env (c ∷ cs) start distinct
          (AreFresh-nothing env.condition_id (c ∷ cs)) in
      go env.interrupted_at_start (whole && env.interrupted_at_end) whole _ refl refl
        (finish-Ends (c ∷ cs) whole s runs)
    where
      go :
          (early late whole : Bool) (out : Option (MatrixManifest F S) × Exit)
          → env.interrupted_at_start ≡ early
          → whole && env.interrupted_at_end ≡ late
          → Ends (c ∷ cs) out
          → Ends
              (c ∷ cs)
              (if early then (none, reraised) else if late then (none, reraised) else out)
      go true late whole out e f ends = (refl, inl e)
      go false true whole out e f ends = (refl, inr (inl (ground (arith, f))))
      go false false whole out e f ends = ends
