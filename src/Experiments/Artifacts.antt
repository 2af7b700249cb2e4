-- ===== src/Experiments/Artifacts.antt =====
-- resiliencelab/experiments/artifacts.py: the bundle of files that keeps a result, and the check of a
-- bundle against its manifest. A bundle is the dictionary of its files by their paths below its
-- directory; the texts in the files, the hash, the JSON of a manifest and the digits of an index are
-- parameters. That the disk refuses a write, and a tracked name that is a directory, are left out.
pub mod Writing
pub mod Integrity
use Prim.Native.String.{◌++◌ as ◌<>◌}
use text.Mathlib.Text.{◌==◌}
use resilience_lab.Common.{
  ℕ, suc, ◌+◌, String, Bool, true, false, Option, none, some, if◌then◌else◌, List, [], ◌∷◌, ◌++◌,
  length,
}
use resilience_lab.Common.Checked.{Checked, ok, value_error, ◌>>=◌}
use resilience_lab.Common.Dict.{lookup, store}

-- The texts of one run.
pub record RunTexts : Type 0 where
  pub records : String
  pub timeline : String
  pub events : String

-- What a result is rendered to, with what the manifest says of it.
pub record Rendered : Type 0 where
  pub configuration : String
  pub environment : String
  pub condition : Option String
  pub summary : String
  pub runs : List RunTexts
  pub raw_hash : String
  pub lifecycle : String
  pub events_hash : String
  pub statistics_draft : String
  pub statistics : String
  pub report : String
  pub experiment_id : String
  pub config_hash : String
  pub event_count : ℕ
  pub cancelled : Bool
  pub cancellation_reason : Option String
  pub requested_repetitions : ℕ

pub record Manifest : Type 0 where
  pub experiment_id : String
  pub config_hash : String
  pub raw_records_hash : String
  pub events_hash : String
  pub event_count : ℕ
  pub cancelled : Bool
  pub cancellation_reason : Option String
  pub requested_repetitions : ℕ
  pub completed_repetitions : ℕ
  pub files : List (String × String)

abbrev pub Files : Type 0
Files = List (String × String)

abbrev pub manifest_name : String
manifest_name = "manifest.json"

-- The files written so far, and the hashes that go into the manifest.
pub record Bundle : Type 0 where
  pub files : Files
  pub manifest_files : Files

abbrev pub manifest_of : Rendered → Bundle → Manifest
manifest_of t b = record {
  experiment_id = t.experiment_id;
  config_hash = t.config_hash;
  raw_records_hash = t.raw_hash;
  events_hash = t.events_hash;
  event_count = t.event_count;
  cancelled = t.cancelled;
  cancellation_reason = t.cancellation_reason;
  requested_repetitions = t.requested_repetitions;
  completed_repetitions = length t.runs;
  files = b.manifest_files;
}

module _ (hash : String → String) where
  -- `record(name, content)`
  abbrev pub record_file : String → String → Bundle → Bundle
  record_file name content b = record {
    files = store name content b.files;
    manifest_files = store name (hash content) b.manifest_files;
  }

  abbrev record_condition : Option String → Bundle → Bundle
  record_condition none b = b
  record_condition (some content) b = record_file "condition.json" content b

  -- `_write_json` of the statistics, and the file recorded over it.
  abbrev record_statistics : Rendered → Bundle → Bundle
  record_statistics t b =
      let name : String = "analysis/statistics.json" in
      record_file name t.statistics (record b { files = store name t.statistics_draft b.files })

  module _ (digits : ℕ → String) where
    -- The loop over the runs for their records and timelines.
    abbrev record_runs : ℕ → List RunTexts → Bundle → Bundle
    record_runs index [] b = b
    record_runs index (run ∷ rest) b =
        let name = "raw/records-" <> (digits index <> ".jsonl") in
        let timeline = "analysis/timeline-" <> (digits index <> ".json") in
        record_runs (suc index) rest
          (record_file timeline run.timeline (record_file name run.records b))

    -- The loop over the runs for their events.
    abbrev record_events : ℕ → List RunTexts → Bundle → Bundle
    record_events index [] b = b
    record_events index (run ∷ rest) b =
        let name = "raw/events-" <> (digits index <> ".jsonl") in
        record_events (suc index) rest (record_file name run.events b)

    unfoldable pub record_all : Rendered → Files → Bundle
    record_all t files =
        let b : Bundle = record { files = files; manifest_files = [] } in
        let b1 = record_file "configuration.yaml" t.configuration b in
        let b2 = record_file "environment.json" t.environment b1 in
        let b3 = record_condition t.condition b2 in
        let b4 = record_file "experiment.json" t.summary b3 in
        let b5 = record_runs 0 t.runs b4 in
        let b6 = record_file "raw/records-hash.txt" (t.raw_hash <> "\n") b5 in
        let b7 = record_events 0 t.runs b6 in
        let b8 = record_file "raw/events-experiment.jsonl" t.lifecycle b7 in
        let b9 = record_file "raw/events-hash.txt" (t.events_hash <> "\n") b8 in
        let b10 = record_statistics t b9 in
        let b11 = record_file "analysis/summary.json" t.summary b10 in
        record_file "report/report.md" t.report b11

    unfoldable pub write_artifacts : (Manifest → String) → Rendered → Files → Manifest × Files
    write_artifacts dump t files =
        let b = record_all t files in
        let manifest = manifest_of t b in (manifest, store manifest_name (dump manifest) b.files)

pub data Problem : Type 0 where
  no_manifest : Problem
  missing : String → Problem
  mismatch : (name expected actual : String) → Problem

pub record Verification : Type 0 where
  pub valid : Bool
  pub errors : List Problem
  pub warnings : List String
  pub manifest : Option Manifest
  pub file_count : ℕ
  pub verified_files : ℕ

-- `len(errors) == 0`
abbrev is_empty : List Problem → Bool
is_empty [] = true
is_empty (e ∷ es) = false

-- The paths of the listed files that the manifest lacks, each of them a warning.
abbrev untracked : Files → List String → List String
untracked tracked [] = []
untracked tracked (name ∷ rest) =
    let later = untracked tracked rest in
    elim (lookup name tracked) [ none ↦ name ∷ later | some _ ↦ later ]

-- A file at the root of a bundle that must be tracked.
abbrev untracked_root : Files → Files → List String
untracked_root tracked files = elim (lookup "condition.json" files) [
  | none ↦ []
  | some _ ↦ untracked tracked ("condition.json" ∷ [])
]

module _ (hash : String → String) where
  -- The loop over the tracked files: what is wrong, and how many files are right.
  check_files : Files → Files → List Problem × ℕ
  check_files files [] = ([], 0)
  check_files files ((name, expected) ∷ rest) =
      let (errors, verified) = check_files files rest in
      elim (lookup name files) [
        | none ↦ (missing name ∷ errors, verified)
        | some content ↦
            if hash content == expected
            then (errors, verified + 1)
            else (mismatch name expected (hash content) ∷ errors, verified)
      ]

  -- What is said of a bundle with a manifest; `listing` is what `iterdir` finds in a directory of the
  -- bundle, in its order.
  abbrev verdict : (listing : String → List String) → Files → Manifest → Verification
  verdict listing files manifest =
      let tracked = manifest.files in
      let (errors, verified) = check_files files tracked in
      record {
        valid = is_empty errors;
        errors = errors;
        warnings =
            (untracked tracked (listing "raw")
              ++ untracked tracked (listing "analysis")
              ++ untracked tracked (listing "report")
              ++ untracked_root tracked files);
        manifest = some manifest;
        file_count = length tracked;
        verified_files = verified;
      }

  pub verify_artifacts :
      (String → Checked Manifest) → (String → List String) → Files → Checked Verification
  verify_artifacts load listing files = elim (lookup manifest_name files) [
    | none ↦ ok (record {
      valid = false;
      errors = no_manifest ∷ [];
      warnings = [];
      manifest = none;
      file_count = 0;
      verified_files = 0;
    })
    | some text ↦ do manifest ← load text; ok (verdict listing files manifest)
  ]
