-- ===== src/Experiments/Runner/Repetitions.antt =====
-- resiliencelab/experiments/runner.py, `run_async`: which runs a result holds.
use mathlib.Core.List.{append_assoc, append-nil}
use resilience_lab.Common.{
  ℕ, suc, String, ◌<◌, ◌≡◌, ◌⊎◌, inl, inr, refl, sym, ◌∙◌, ap, true, false, Option, none, some,
  List, [], ◌∷◌, ◌++◌, length, arith, Option-cases,
}
use resilience_lab.Core.Cancellation.{CancellationToken, CancelledError}
use resilience_lab.Experiments.Runner.{
  Once, returns, is_cancelled, fails, started, cancelled, failed, completed, Outcome, result,
  raises, Loop, all_done, cut_off, broken, check, loop, closed, run_async,
}

module _ {R : Type 0} (run_once : ℕ → ℕ → Once R) (token : ℕ → Option CancellationToken) where
  -- The runs are those of the first seeds, in order, each of the repetition with its index.
  abbrev RunsOf : ℕ → List ℕ → List R → Type 0
  RunsOf i all_seeds [] = Unit
  RunsOf i [] (r ∷ rs) = ⊥
  RunsOf i (seed ∷ rest) (r ∷ rs) = (run_once i seed ≡ returns r) × RunsOf (suc i) rest rs

  -- Why the loop ends before the last seed: the token, or the repetition itself.
  abbrev Stops : ℕ → ℕ → Type 0
  Stops i seed =
      ((e : CancelledError) × (check run_once token (suc i) ≡ some e))
      ⊎ (run_once i seed ≡ is_cancelled)

  abbrev Good : ℕ → List ℕ → List R → Loop R → Type 0
  Good i rest before (all_done rs) =
      (new : List R) × (rs ≡ before ++ new) × RunsOf i rest new × (length new ≡ length rest)
  Good i rest before (cut_off rs) =
      (new : List R) × (rs ≡ before ++ new)
      × RunsOf i rest new
      × (length new < length rest)
      × (k : ℕ) × (seed : ℕ) × Stops k seed
  Good i rest before (broken text) = (k : ℕ) × (seed : ℕ) × (run_once k seed ≡ fails text)

  -- One more run in front.
  Good-more :
      (i seed : ℕ) (rest : List ℕ) (before : List R) (r : R) (l : Loop R)
      → run_once i seed ≡ returns r
      → Good (suc i) rest (before ++ r ∷ []) l
      → Good i (seed ∷ rest) before l
  Good-more i seed rest before r (all_done rs) e (new, same, runs, size) =
      (r ∷ new, same ∙ append_assoc before (r ∷ []) new, (e, runs), ap suc size)
  Good-more i seed rest before r (cut_off rs) e (new, same, runs, size, k, s, cause) = (
    r ∷ new,
    same ∙ append_assoc before (r ∷ []) new,
    (e, runs),
    omega (arith, size),
    k,
    s,
    cause,
  )
  Good-more i seed rest before r (broken text) e cause = cause

  Once-cases :
      (o : Once R)
      → ((r : R) × (o ≡ returns r)) ⊎ (o ≡ is_cancelled) ⊎ ((text : String) × (o ≡ fails text))
  Once-cases (returns r) = inl (r, refl)
  Once-cases is_cancelled = inr (inl refl)
  Once-cases (fails text) = inr (inr (text, refl))

  loop-Good :
      (i : ℕ) (rest : List ℕ) (before : List R)
      → Good i rest before (loop run_once token i rest before)
  unfolding loop
  loop-Good i [] before = ([], sym (append-nil before), tt, refl)
  loop-Good i (seed ∷ rest) before = elim (Option-cases (check run_once token (suc i))) [
    | inr (e, raised) ↦
        rw (raised, loop) ([], sym (append-nil before), tt, omega arith, i, seed, inl (e, raised))
    | inl goes ↦ elim (Once-cases (run_once i seed)) [
      | inl (r, returned) ↦
          rw (goes, loop)
            (rw returned (
              Good-more i seed rest before r _ returned
                (loop-Good (suc i) rest (before ++ r ∷ []))))
      | inr (inl stopped) ↦
          rw (goes, loop)
            (rw stopped ([], sym (append-nil before), tt, omega arith, i, seed, inr stopped))
      | inr (inr (text, broke)) ↦ rw (goes, loop) (rw broke (i, seed, broke))
    ]
  ]

  -- Why a result is partial.
  abbrev Cause : Type 0
  Cause =
      ((e : CancelledError) × (check run_once token 0 ≡ some e))
      ⊎ ((k : ℕ) × (seed : ℕ) × Stops k seed)

  -- What `run_async` promises of its outcome.
  abbrev pub Promised : List ℕ → Outcome R → Type 0
  Promised all_seeds (result x) =
      RunsOf 0 all_seeds x.runs
      × (((x.is_partial ≡ false)
            × (length x.runs ≡ length all_seeds)
            × (x.events ≡ started (length all_seeds) ∷ completed (length all_seeds) ∷ []))
          ⊎ ((x.is_partial ≡ true)
              × (length x.runs < length all_seeds)
              × (x.events
                  ≡ started (length all_seeds) ∷ cancelled (length x.runs) (length all_seeds) ∷ [])
              × Cause))
  Promised all_seeds (raises text events) =
      ((k : ℕ) × (seed : ℕ) × (run_once k seed ≡ fails text))
      × (events ≡ started (length all_seeds) ∷ failed text ∷ [])

  closed-Promised :
      (all_seeds : List ℕ) (l : Loop R)
      → Good 0 all_seeds [] l
      → Promised all_seeds (closed run_once token (length all_seeds) l)
  closed-Promised all_seeds (all_done rs) (new, same, runs, size) =
      rw same (runs, inl (refl, size, rw size refl))
  closed-Promised all_seeds (cut_off rs) (new, same, runs, size, k, seed, cause) =
      rw same (runs, inr (refl, size, refl, inr (k, seed, cause)))
  closed-Promised all_seeds (broken text) cause = (cause, refl)

  -- For at least one seed, `run_async` either raises after its started and failed events, because a
  -- repetition raised, or returns the results of the first repetitions in the order of their seeds:
  -- of all of them with a completed event, or of fewer with a cancelled event, because the token
  -- was cancelled at a check or a repetition was cancelled.
  pub run_async-Promised :
      (seed : ℕ) (rest : List ℕ) → Promised (seed ∷ rest) (run_async run_once token (seed ∷ rest))
  unfolding run_async
  run_async-Promised seed rest = at_check (check run_once token 0) refl
    where
      at_check :
          (o : Option CancelledError)
          → check run_once token 0 ≡ o
          → Promised (seed ∷ rest) (
              closed run_once token
                (length (seed ∷ rest))
                (elim o [ some e ↦ cut_off [] | none ↦ loop run_once token 0 (seed ∷ rest) [] ]))
      at_check none e = closed-Promised (seed ∷ rest) _ (loop-Good 0 (seed ∷ rest) [])
      at_check (some e) raised = (tt, inr (refl, omega arith, refl, inl (e, raised)))
