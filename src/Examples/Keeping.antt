-- ===== src/Examples/Keeping.antt =====
-- resiliencelab/experiments/artifacts.py and reproduce.py, and the routes of resiliencelab/api/app.py
-- over bundles, on concrete inputs.
use Prim.Native.String.{◌++◌ as ◌<>◌}
use text.Mathlib.Text.{◌==◌}
use text.Mathlib.TextEquality.{eq_iff}
use resilience_lab.Common.{
  ℕ, ◌+◌, String, ◌≡◌, ◌≢◌, ◌↔◌, refl, subst, true, false, Option, none, some, if◌then◌else◌, List,
  [], ◌∷◌, length, count, All,
}
use resilience_lab.Common.Checked.{Checked, ok, value_error}
use resilience_lab.Common.Table.{find}
use resilience_lab.Common.Dict.{lookup, store}
use resilience_lab.ControlPlane.Records.{ExperimentRecord, Database, completed}
use resilience_lab.ControlPlane.Repositories.{get_experiment, get_runs, new_experiment}
use resilience_lab.Experiments.Artifacts.{
  Rendered, Manifest, Files, manifest_name, record_all, write_artifacts, mismatch, Verification,
  verify_artifacts,
}
use resilience_lab.Experiments.Artifacts.Writing.{IsIntact}
use resilience_lab.Experiments.Artifacts.Integrity.{
  verify_artifacts_lem, verify_artifacts-write_artifacts, verify_artifacts_changed,
}
use resilience_lab.Experiments.Reproduce.{
  normalize_benchmark_name, Laboratory, is_ok, Reproduction, Stored, reproduce_all,
}
use resilience_lab.Experiments.Reproduce.Entries.{TellAll, IsLegible, reproduce_all_lem}
use resilience_lab.Api.Auth.{Identity}
use resilience_lab.Api.Server.{answers, http_exception, is_valid_id, may_access, require}
use resilience_lab.Api.Server.Bundles.{Disk, artifact_bases, artifact_file, each_file, files_route}
use resilience_lab.Api.Server.Bundles.Served.{Served, files_route-Served, artifact_file_changed}

abbrev result : Rendered
result = record {
  configuration = "configuration";
  environment = "environment";
  condition = none;
  summary = "summary";
  runs = record { records = "records"; timeline = "timeline"; events = "events" } ∷ [];
  raw_hash = "raw";
  lifecycle = "lifecycle";
  events_hash = "events";
  statistics_draft = "draft";
  statistics = "statistics";
  report = "report";
  experiment_id = "e";
  config_hash = "c";
  event_count = 1;
  cancelled = false;
  cancellation_reason = none;
  requested_repetitions = 1;
}

-- A text is its own hash, and every index is written as one digit.
abbrev hash : String → String
hash text = text

abbrev digits : ℕ → String
digits n = "0"

abbrev dump : Manifest → String
dump m = "manifest of " <> m.experiment_id

abbrev bundle : Manifest × Files
bundle = write_artifacts hash digits dump result []

abbrev load : String → Checked Manifest
load text = if text == "manifest of e" then ok bundle.0 else value_error "JSON"

abbrev listing : String → List String
listing directory = []

loads :
    (files : Files)
    → load (dump (write_artifacts hash digits dump result files).0)
      ≡ ok (write_artifacts hash digits dump result files).0
unfolding write_artifacts record_all
loads files = refl

kept : lookup manifest_name bundle.1 ≡ some "manifest of e"
unfolding write_artifacts record_all lookup store
kept = refl

tracked : lookup "report/report.md" bundle.0.files ≡ some "report"
unfolding write_artifacts record_all lookup store
tracked = refl

verify_artifacts_lem_example :
    (v : Verification) × (verify_artifacts hash load listing bundle.1 ≡ ok v)
    × ((v.valid ≡ true) ↔ All (IsIntact hash bundle.1) bundle.0.files)
    × (length v.errors + v.verified_files ≡ v.file_count)
    × (v.file_count ≡ length bundle.0.files)
    × (v.manifest ≡ some bundle.0)
verify_artifacts_lem_example =
    verify_artifacts_lem hash load listing bundle.1 "manifest of e" bundle.0 kept refl

verify_artifacts-write_artifacts_example :
    (v : Verification) × (verify_artifacts hash load listing bundle.1 ≡ ok v)
    × (v.valid ≡ true)
    × (v.errors ≡ [])
    × (v.verified_files ≡ length bundle.0.files)
    × (v.manifest ≡ some bundle.0)
verify_artifacts-write_artifacts_example =
    verify_artifacts-write_artifacts hash dump load digits result [] listing (loads [])

other : hash "forged" ≢ "report"
other h = let wrong : false ≡ true = (eq_iff "forged" "report").1 h in cc

verify_artifacts_changed_example :
    (v : Verification) × (verify_artifacts hash load listing
        (store "report/report.md" "forged" bundle.1)
      ≡ ok v)
    × (v.valid ≡ false)
    × (v.errors ≡ mismatch "report/report.md" "report" "forged" ∷ [])
verify_artifacts_changed_example =
    verify_artifacts_changed hash dump load digits result [] listing "report/report.md" "report"
      "forged" tracked other (loads [])

forged_report_refused :
    artifact_file hash load (store "report/report.md" "forged" bundle.1) "report/report.md"
    ≡ http_exception 409
forged_report_refused =
    artifact_file_changed hash load dump digits result [] "report/report.md" "report" "forged"
      tracked (loads [])

abbrev row : ExperimentRecord
row = record (new_experiment 3 "e" "yaml" "hash" (some "alice")) {
  status = completed;
  artifact_path = some "results/e";
}

abbrev database : Database
database = record { experiments = row ∷ []; runs = [] }

abbrev alice : Identity
alice = record { user_id = "alice"; auth_method = "bearer" }

abbrev disk : Disk
disk = ("results/e", bundle.1) ∷ []

abbrev parse : String → Option String
parse text = some text

answered :
    files_route hash load parse "report/report.md" alice "e" database disk ≡ answers ("report" ∷ [])
unfolding files_route require is_valid_id get_experiment find artifact_bases get_runs each_file
    artifact_file write_artifacts record_all lookup store may_access
answered = refl

files_route-Served_example :
    (e : ExperimentRecord) × (bases : List String) × (get_experiment database "e" ≡ some e)
    × (may_access e alice ≡ true)
    × (artifact_bases database e ≡ answers bases)
    × Served hash load parse disk "report/report.md" bases ("report" ∷ [])
files_route-Served_example =
    files_route-Served hash load parse "report/report.md" alice "e" database disk ("report" ∷ [])
      answered

-- The first benchmark is there, the second is not.
abbrev lab : Laboratory ℕ
lab = record {
  texts = record { upper = λ t. t; strip = λ t. t; digits_of = λ t. ""; padded = λ t. ok t };
  exists = λ path. path == "benchmarks/first.yaml";
  load_yaml = λ path. ok (some 3);
  with_count = λ n spec. n;
  run = λ spec. some result;
  spec_id = λ spec. "e";
  refuses = λ id. none;
  listing = λ id. listing;
  refuses_manifest = none;
}

runs_loads :
    (spec : ℕ) (t : Rendered) (files : Files)
    → lab.run spec ≡ some t
    → load (dump (write_artifacts hash digits dump t files).0)
      ≡ ok (write_artifacts hash digits dump t files).0
runs_loads spec t files ran =
    let same : result ≡ t = cc in
    subst
      (λ x.
        load (dump (write_artifacts hash digits dump x files).0)
        ≡ ok (write_artifacts hash digits dump x files).0)
      same (loads files)

abbrev names : List String
names = "first" ∷ "second" ∷ []

names-IsLegible : All (IsLegible hash digits dump load lab none (some 2) runs_loads) names
unfolding normalize_benchmark_name
names-IsLegible = (
  record { called = "first"; normalised = refl; loaded = λ path h. (some 3, refl) },
  (record { called = "second"; normalised = refl; loaded = λ path h. (some 3, refl) }, tt),
)

reproduce_all_lem_example :
    (r : Reproduction) × (stored' : Stored) × (reproduce_all hash digits dump load lab none
        (some 2)
        names
        []
      ≡ ok (r, stored'))
    × TellAll hash digits dump load lab none (some 2) runs_loads names r.results
    × (r.succeeded ≡ count is_ok r.results)
    × (r.succeeded + r.failed ≡ 2)
reproduce_all_lem_example =
    reproduce_all_lem hash digits dump load lab none (some 2) runs_loads names [] names-IsLegible
      refl
