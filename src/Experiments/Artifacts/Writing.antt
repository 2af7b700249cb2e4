-- ===== src/Experiments/Artifacts/Writing.antt =====
-- resiliencelab/experiments/artifacts.py: what `write_artifacts` leaves on the disk and in the manifest.
use Prim.Native.String.{◌++◌ as ◌<>◌}
use text.Mathlib.Text.{◌==◌}
use text.Mathlib.TextEquality.{eq_iff}
use resilience_lab.Common.{
  ℕ, suc, String, ◌≡◌, refl, ◌∙◌, false, Option, none, some, List, [], ◌∷◌, All, arith,
}
use resilience_lab.Common.Dict.{lookup, store, lookup-store, NodupKeys, store-NodupKeys, All-store}
use resilience_lab.Common.Text.{append-differs}
use resilience_lab.Experiments.Artifacts.{
  RunTexts, Rendered, Files, manifest_name, Bundle, record_file, record_condition, record_runs,
  record_events, record_statistics, record_all,
}

-- A file is there with the hash that an entry gives.
abbrev pub IsIntact : (String → String) → Files → String × String → Type 0
IsIntact hash files (name, expected) =
    (content : String) × (lookup name files ≡ some content) × (hash content ≡ expected)

module _ (hash : String → String) where
  -- What a bundle being written has: no name twice in the manifest, every entry right, and no entry
  -- for the manifest itself.
  pub record IsSound (b : Bundle) : Type 0 where
    pub once : NodupKeys b.manifest_files
    pub intact : All (IsIntact hash b.files) b.manifest_files
    pub apart : lookup manifest_name b.manifest_files ≡ none

  -- A name is recorded whose file holds the content, and the other files are as they were.
  recorded-IsSound :
      (name content : String) (files : Files) (b : Bundle)
      → ((j : String) → name == j ≡ false → lookup j files ≡ lookup j b.files)
      → lookup name files ≡ some content
      → name == manifest_name ≡ false
      → IsSound b
      → IsSound
          (record { files = files; manifest_files = store name (hash content) b.manifest_files })
  recorded-IsSound name content files b same there other s = record {
    once = store-NodupKeys name (hash content) b.manifest_files s.once;
    intact =
        All-store (IsIntact hash b.files) (IsIntact hash files) name (hash content) b.manifest_files
          (λ j expected differs (c, found, right). (c, same j differs ∙ found, right))
          (content, there, refl) s.once s.intact;
    apart = rw (lookup-store manifest_name name (hash content) b.manifest_files) (rw other s.apart);
  }

  record_file-IsSound :
      (name content : String) (b : Bundle)
      → name == manifest_name ≡ false
      → IsSound b
      → IsSound (record_file hash name content b)
  record_file-IsSound name content b other s =
      recorded-IsSound name content (store name content b.files) b
        (λ j differs. ground (arith, lookup-store j name content b.files))
        (ground (arith, lookup-store name name content b.files, eq_iff name name)) other s

  record_condition-IsSound :
      (o : Option String) (b : Bundle) → IsSound b → IsSound (record_condition hash o b)
  record_condition-IsSound none b s = s
  record_condition-IsSound (some content) b s =
      record_file-IsSound "condition.json" content b refl s

  record_statistics-IsSound :
      (t : Rendered) (b : Bundle) → IsSound b → IsSound (record_statistics hash t b)
  record_statistics-IsSound t b s =
      let name : String = "analysis/statistics.json" in
      let drafted = store name t.statistics_draft b.files in
      recorded-IsSound name t.statistics (store name t.statistics drafted) b
        (λ j differs. ground (
          arith,
          lookup-store j name t.statistics drafted,
          lookup-store j name t.statistics_draft b.files,
        ))
        (ground (arith, lookup-store name name t.statistics drafted, eq_iff name name)) refl s

  module _ (digits : ℕ → String) where
    record_runs-IsSound :
        (index : ℕ) (runs : List RunTexts) (b : Bundle)
        → IsSound b
        → IsSound (record_runs hash digits index runs b)
    record_runs-IsSound index [] b s = s
    record_runs-IsSound index (run ∷ rest) b s =
        let ending = digits index <> ".json" in
        let ending_lines = digits index <> ".jsonl" in
        let b' = record_file hash ("raw/records-" <> ending_lines) run.records b in
        record_runs-IsSound (suc index) rest
          (record_file hash ("analysis/timeline-" <> ending) run.timeline b')
          (record_file-IsSound ("analysis/timeline-" <> ending) run.timeline b'
            (append-differs "analysis/timeline-" ending manifest_name refl)
            (record_file-IsSound ("raw/records-" <> ending_lines) run.records b
              (append-differs "raw/records-" ending_lines manifest_name refl) s))

    record_events-IsSound :
        (index : ℕ) (runs : List RunTexts) (b : Bundle)
        → IsSound b
        → IsSound (record_events hash digits index runs b)
    record_events-IsSound index [] b s = s
    record_events-IsSound index (run ∷ rest) b s =
        let ending = digits index <> ".jsonl" in
        record_events-IsSound (suc index) rest
          (record_file hash ("raw/events-" <> ending) run.events b)
          (record_file-IsSound ("raw/events-" <> ending) run.events b
            (append-differs "raw/events-" ending manifest_name refl) s)

    pub record_all-IsSound :
        (t : Rendered) (files : Files) → IsSound (record_all hash digits t files)
    unfolding record_all lookup
    record_all-IsSound t files =
        let b : Bundle = record { files = files; manifest_files = [] } in
        let s : IsSound b = record { once = tt; intact = tt; apart = refl } in
        let s2 =
          record_file-IsSound "environment.json" t.environment _ refl
            (record_file-IsSound "configuration.yaml" t.configuration b refl s) in
        let s4 =
          record_file-IsSound "experiment.json" t.summary _ refl
            (record_condition-IsSound t.condition _ s2) in
        let s6 =
          record_file-IsSound "raw/records-hash.txt" (t.raw_hash <> "\n") _ refl
            (record_runs-IsSound 0 t.runs _ s4) in
        let s8 =
          record_file-IsSound "raw/events-experiment.jsonl" t.lifecycle _ refl
            (record_events-IsSound 0 t.runs _ s6) in
        let s10 =
          record_statistics-IsSound t _
            (record_file-IsSound "raw/events-hash.txt" (t.events_hash <> "\n") _ refl s8) in
        record_file-IsSound "report/report.md" t.report _ refl
          (record_file-IsSound "analysis/summary.json" t.summary _ refl s10)
