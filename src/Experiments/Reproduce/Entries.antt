-- ===== src/Experiments/Reproduce/Entries.antt =====
-- resiliencelab/experiments/reproduce.py: the entries of a reproduction.
use resilience_lab.Common.{
  ℕ, suc, ◌+◌, ◌-◌, String, ◌≡◌, ◌≢◌, ◌↔◌, refl, ap, inl, inr, Option-cases, Option, none, some,
  List, [], ◌∷◌, length, All, count, count-le-length, arith,
}
use resilience_lab.Common.Checked.{Checked, ok, ◌>>=◌}
use resilience_lab.Common.Dict.{store}
use resilience_lab.Experiments.Artifacts.{Rendered, Manifest, Files, write_artifacts}
use resilience_lab.Experiments.Artifacts.Integrity.{verify_artifacts-write_artifacts}
use resilience_lab.Experiments.Reproduce.{
  normalize_benchmark_name, resolve_benchmark_path, EntryStatus, missing, invalid_configuration,
  execution_failed, write_failed, passed, corrupt, Entry, is_ok, Laboratory, Stored, bundle_of,
  entry_of, failed_entry, keep_result, run_spec, with_repetitions, run_loaded, run_path, reproduce,
  reproduce_each, Reproduction, reproduce_all,
}

module _ (hash : String → String) (digits : ℕ → String) (dump : Manifest → String)
    (load : String → Checked Manifest) {Spec : Type 0} (lab : Laboratory Spec)
    (benchmarks_dir : Option String) (repetitions : Option ℕ)
    (loads : (spec : Spec) (t : Rendered) (files : Files)
      → lab.run spec ≡ some t
      → load (dump (write_artifacts hash digits dump t files).0)
        ≡ ok (write_artifacts hash digits dump t files).0) where
  -- A name is normalised, and reading its file raises no exception but the two that are caught.
  pub record IsLegible (name : String) : Type 0 where
    pub called : String
    pub normalised : normalize_benchmark_name lab.texts name ≡ ok called
    pub loaded :
        (path : String)
        → resolve_benchmark_path lab.exists called benchmarks_dir ≡ some path
        → (o : Option Spec) × (lab.load_yaml path ≡ ok o)

  -- A benchmark of a normalised name is found, read and run, and the disk takes its bundle.
  pub record Goes (name : String) : Type 0 where
    pub path : String
    pub spec : Spec
    pub rendered : Rendered
    pub resolved : resolve_benchmark_path lab.exists name benchmarks_dir ≡ some path
    pub readable : lab.load_yaml path ≡ ok (some spec)
    pub runs : lab.run (with_repetitions lab repetitions spec) ≡ some rendered
    pub kept : lab.refuses (lab.spec_id (with_repetitions lab repetitions spec)) ≡ none

  -- What the entry of a benchmark says.
  pub record Tells (name : String) (e : Entry) : Type 0 where
    pub named : normalize_benchmark_name lab.texts name ≡ ok e.id
    pub sound : e.status ≢ corrupt
    pub passes : (e.status ≡ passed) ↔ Goes e.id

  abbrev Answers : String → Checked (Entry × Stored) → Type 0
  Answers name m = (e : Entry) × (stored' : Stored) × (m ≡ ok (e, stored')) × Tells name e

  fails-Answers :
      (name called : String) (status : EntryStatus) (stored : Stored)
      → normalize_benchmark_name lab.texts name ≡ ok called
      → status ≢ passed
      → status ≢ corrupt
      → (Goes called → ⊥)
      → Answers name (ok (failed_entry called status, stored))
  fails-Answers name called status stored normalised failed sound stops = (
    _,
    stored,
    refl,
    record {
      named = normalised;
      sound = sound;
      passes = (λ h. absurd (failed h), λ g. absurd (stops g));
    },
  )

  run_spec-Answers :
      (name called path : String) (spec : Spec) (stored : Stored)
      → normalize_benchmark_name lab.texts name ≡ ok called
      → resolve_benchmark_path lab.exists called benchmarks_dir ≡ some path
      → lab.load_yaml path ≡ ok (some spec)
      → Answers name
          (run_spec hash digits dump load lab called (with_repetitions lab repetitions spec) stored)
  run_spec-Answers name called path spec stored normalised found read =
      let spec' = with_repetitions lab repetitions spec in
      let id = lab.spec_id spec' in
      elim (Option-cases (lab.run spec')) [
        | inl broken ↦
            rw (broken, run_spec)
              (fails-Answers name called execution_failed stored normalised (λ h. cc) (λ h. cc)
                (λ g. ground (arith, g.resolved, found, g.readable, read, g.runs, broken)))
        | inr (t, ran) ↦ elim (Option-cases (lab.refuses id)) [
          | inl takes ↦
              let (manifest, files) = write_artifacts hash digits dump t (bundle_of stored id) in
              let (v, verified, valid, clean, checked, same) =
                verify_artifacts-write_artifacts hash dump load digits t (bundle_of stored id)
                  (lab.listing id) (loads spec' t (bundle_of stored id) ran) in
              (
                entry_of called v,
                store id files stored,
                rw (ran, run_spec) (rw (takes, keep_result) (rw verified refl)),
                record {
                  named = normalised;
                  sound = rw valid (λ h. cc);
                  passes = (
                    λ h. record {
                      path = path;
                      spec = spec;
                      rendered = t;
                      resolved = found;
                      readable = read;
                      runs = ran;
                      kept = takes;
                    },
                    λ g. rw valid refl,
                  );
                },
              )
          | inr (left, refused) ↦
              rw (ran, run_spec)
                (rw (refused, keep_result)
                  (fails-Answers name called write_failed (store id left stored) normalised
                    (λ h. cc) (λ h. cc)
                    (λ g. ground (arith, g.resolved, found, g.readable, read, g.kept, refused))))
        ]
      ]

  reproduce-Answers :
      (name : String) (stored : Stored)
      → IsLegible name
      → Answers name (reproduce hash digits dump load lab benchmarks_dir repetitions name stored)
  unfolding reproduce
  reproduce-Answers name stored legible =
      let called = legible.called in
      let normalised = legible.normalised in
      rw (normalised, reproduce)
        (elim (Option-cases (resolve_benchmark_path lab.exists called benchmarks_dir)) [
          | inl absent ↦
              rw (absent, run_path)
                (fails-Answers name called missing stored normalised (λ h. cc) (λ h. cc)
                  (λ g. ground (arith, g.resolved, absent)))
          | inr (path, found) ↦
              rw (found, run_path) (of_loaded path found (legible.loaded path found))
        ])
    where
      of_loaded :
          (path : String)
          → resolve_benchmark_path lab.exists legible.called benchmarks_dir ≡ some path
          → (o : Option Spec) × (lab.load_yaml path ≡ ok o)
          → Answers name (
              lab.load_yaml path >>= λ loaded.
              run_loaded hash digits dump load lab repetitions legible.called loaded stored)
      of_loaded path found (none, read) = rw read (
          fails-Answers name legible.called invalid_configuration stored legible.normalised
            (λ h. cc) (λ h. cc) (λ g. ground (arith, g.resolved, found, g.readable, read)))
      of_loaded path found (some spec, read) =
          rw read
            (run_spec-Answers name legible.called path spec stored legible.normalised found read)

  -- The entries tell of the benchmarks in their order.
  abbrev pub TellAll : List String → List Entry → Type 0
  TellAll [] [] = Unit
  TellAll (name ∷ names) (e ∷ entries) = Tells name e × TellAll names entries
  TellAll _ _ = ⊥

  length-TellAll :
      (names : List String) (es : List Entry) → TellAll names es → length es ≡ length names
  length-TellAll [] [] h = refl
  length-TellAll [] (e ∷ es) h = absurd h
  length-TellAll (name ∷ names) [] h = absurd h
  length-TellAll (name ∷ names) (e ∷ es) (first, h) = ap suc (length-TellAll names es h)

  reproduce_each-TellAll :
      (names : List String) (stored : Stored)
      → All IsLegible names
      → (entries : List Entry) × (stored' : Stored) × (reproduce_each hash digits dump load lab
            benchmarks_dir repetitions names stored
          ≡ ok (entries, stored'))
        × TellAll names entries
  unfolding reproduce_each
  reproduce_each-TellAll [] stored legible = ([], stored, refl, tt)
  reproduce_each-TellAll (name ∷ names) stored (first, legible) =
      let (e, stored', answered, tells) = reproduce-Answers name stored first in
      let (entries, stored'', found, all) = reproduce_each-TellAll names stored' legible in
      (e ∷ entries, stored'', rw answered (rw found refl), (tells, all))

  -- When the manifest of each result of a run reads back as it was dumped, every name can be
  -- normalised, reading no benchmark's file raises another exception than the two that are caught,
  -- and the reproduction's own manifest can be written, a reproduction answers: with an entry for
  -- each benchmark in order, under its normalised name, never a corrupt one, passed exactly when
  -- the benchmark is found, read and run and the disk takes its bundle; the numbers of successes
  -- and failures are those of the entries.
  pub reproduce_all_lem :
      (names : List String) (stored : Stored)
      → All IsLegible names
      → lab.refuses_manifest ≡ none
      → (r : Reproduction) × (stored' : Stored) × (reproduce_all hash digits dump load lab
            benchmarks_dir repetitions names stored
          ≡ ok (r, stored'))
        × TellAll names r.results
        × (r.succeeded ≡ count is_ok r.results)
        × (r.succeeded + r.failed ≡ length names)
  unfolding reproduce_all
  reproduce_all_lem names stored legible taken =
      let (entries, stored', found, all) = reproduce_each-TellAll names stored legible in
      (
        record {
          succeeded = count is_ok entries;
          failed = length entries - count is_ok entries;
          results = entries;
        },
        stored',
        rw (found, reproduce_all) (rw taken refl),
        all,
        refl,
        omega (arith, count-le-length is_ok entries, length-TellAll names entries all),
      )
