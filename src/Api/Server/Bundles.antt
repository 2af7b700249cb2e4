-- ===== src/Api/Server/Bundles.antt =====
-- resiliencelab/api/app.py: the routes that answer from the bundles of an experiment's runs. A disk is
-- the dictionary of the bundles by their directories; what is read of a file's JSON is a parameter.
pub mod Served
use Prim.Native.String.{◌++◌ as ◌<>◌}
use text.Mathlib.Text.{◌==◌}
use text.Mathlib.TextEquality.{eq_iff}
use resilience_lab.Common.{
  ℕ, String, ◌≡◌, refl, Bool, true, false, Option, none, some, if◌then◌else◌, List, [], ◌∷◌, ◌++◌,
  map, arith,
}
use resilience_lab.Common.Checked.{Checked, ok, value_error}
use resilience_lab.Common.Dict.{lookup}
use resilience_lab.ControlPlane.Records.{ExperimentRecord, RunRecord, Database}
use resilience_lab.ControlPlane.Repositories.{get_runs}
use resilience_lab.Experiments.Artifacts.{Files, Manifest, manifest_name}
use resilience_lab.Api.Auth.{Identity}
use resilience_lab.Api.Server.{HttpResult, answers, http_exception, internal_error, require}

infixl 5 ◌>>=◌
abbrev ◌>>=◌ : {A B : Type 0} → HttpResult A → (A → HttpResult B) → HttpResult B
answers a >>= f = f a
http_exception code >>= f = http_exception code
internal_error >>= f = internal_error

-- A value that is read, or an exception that is not of HTTP.
abbrev or_error : {A : Type 0} → Option A → HttpResult A
or_error none = internal_error
or_error (some a) = answers a

abbrev pub Disk : Type 0
Disk = List (String × Files)

abbrev bundle_at : Disk → String → Files
bundle_at disk base = elim (lookup base disk) [ none ↦ [] | some files ↦ files ]

-- A path that is not `None` and not empty.
abbrev given_path : Option String → Option String
given_path none = none
given_path (some path) = if path == "" then none else some path

abbrev paths_of : List RunRecord → List String
paths_of [] = []
paths_of (run ∷ rest) =
    let later = paths_of rest in
    elim (given_path run.artifact_path) [ none ↦ later | some path ↦ path ∷ later ]

-- `_server_artifact_bases`
unfoldable pub artifact_bases : Database → ExperimentRecord → HttpResult (List String)
artifact_bases db e = elim (paths_of (get_runs e.experiment_id db.runs)) [
  | path ∷ rest ↦ answers (path ∷ rest)
  | [] ↦ elim (given_path e.artifact_path) [
    | none ↦ http_exception 404
    | some path ↦ answers (path ∷ [])
  ]
]

-- What `ArtifactListResponse` says of one file.
record ArtifactFile : Type 0 where
  pub path : String
  pub sha256 : String
  pub size_bytes : Option ℕ

module _ (hash : String → String) (load : String → Checked Manifest) where
  abbrev compare_hash : String → Option String → HttpResult String
  compare_hash content none = http_exception 409
  compare_hash content (some expected) =
      if hash content == expected then answers content else http_exception 409

  abbrev against_manifest : String → String → Checked Manifest → HttpResult String
  against_manifest path content (value_error e) = internal_error
  against_manifest path content (ok manifest) = compare_hash content (lookup path manifest.files)

  abbrev with_file : String → (manifest content : Option String) → HttpResult String
  with_file path manifest none = http_exception 404
  with_file path none (some content) = http_exception 404
  with_file path (some text) (some content) = against_manifest path content (load text)

  -- `_artifact_file_or_404`, with what is read of the file.
  unfoldable pub artifact_file : Files → String → HttpResult String
  artifact_file files path = with_file path (lookup manifest_name files) (lookup path files)

  module _ {A : Type 0} (parse : String → Option A) where
    -- The loop over the bundles.
    unfoldable pub each_file : Disk → String → List String → HttpResult (List A)
    each_file disk path [] = answers []
    each_file disk path (base ∷ rest) = do
      content ← artifact_file (bundle_at disk base) path
      value ← or_error (parse content)
      values ← each_file disk path rest
      answers (value ∷ values)

    unfoldable pub files_route : String → Identity → String → Database → Disk → HttpResult (List A)
    files_route path i id db disk = do
      e ← require id i db
      bases ← artifact_bases db e
      each_file disk path bases

  abbrev flatten : {A : Type 0} → List (List A) → List A
  flatten [] = []
  flatten (xs ∷ rest) = xs ++ flatten rest

  -- `GET /experiments/{id}/metrics`
  abbrev metrics_route :
      {Row : Type 0}
      → (String → Option (List Row))
      → Identity
      → String
      → Database
      → Disk
      → HttpResult (List Row)
  metrics_route parse i id db disk = do
    rows ← files_route parse "experiment.json" i id db disk
    answers (flatten rows)

  -- `GET /experiments/{id}/timeline`
  abbrev timeline_route :
      {Json : Type 0}
      → (String → Option Json)
      → Identity
      → String
      → Database
      → Disk
      → HttpResult (List Json)
  timeline_route parse = files_route parse "analysis/timeline-0.json"

  -- `"\n\n".join(reports)`
  abbrev join : List String → String
  join [] = ""
  join (report ∷ []) = report
  join (report ∷ other ∷ rest) = report <> ("\n\n" <> join (other ∷ rest))

  -- `GET /experiments/{id}/report`
  abbrev report_route : Identity → String → Database → Disk → HttpResult String
  report_route i id db disk = do
    reports ← files_route (λ text. some text) "report/report.md" i id db disk
    answers (join reports)

  -- `GET /experiments/{id}/analysis`, where `together` is `{"runs": analyses}`.
  abbrev analysis_route :
      {Json : Type 0}
      → (String → Option Json)
      → (together : List Json → Json) → Identity
      → String
      → Database
      → Disk
      → HttpResult Json
  analysis_route parse together i id db disk = do
    analyses ← files_route parse "analysis/statistics.json" i id db disk
    answers (elim analyses [ analysis ∷ [] ↦ analysis | others ↦ together others ])

  abbrev listed : (String → ℕ) → Files → Files → List ArtifactFile
  listed size files [] = []
  listed size files ((path, sha256) ∷ rest) =
      record {
        path = path;
        sha256 = sha256;
        size_bytes = elim (lookup path files) [ none ↦ none | some content ↦ some (size content) ];
      }
      ∷ listed size files rest

  abbrev read_manifest : Checked Manifest → HttpResult Manifest
  read_manifest (value_error e) = internal_error
  read_manifest (ok manifest) = answers manifest

  -- `GET /experiments/{id}/artifacts`
  artifacts_route :
      (String → ℕ) → Identity → String → Database → Disk → HttpResult (Manifest × List ArtifactFile)
  artifacts_route size i id db disk = do
    e ← require id i db
    elim e.artifact_path [
      | none ↦ http_exception 404
      | some base ↦ elim (lookup manifest_name (bundle_at disk base)) [
        | none ↦ http_exception 404
        | some text ↦ do
          manifest ← read_manifest (load text)
          answers (manifest, listed size (bundle_at disk base) manifest.files)
      ]
    ]
