-- ===== src/Experiments/Reproduce.antt =====
-- resiliencelab/experiments/reproduce.py and benchmarks.py: benchmarks are run again, kept as bundles
-- and checked. Case folding, the digits of a text, the YAML reader, the runner and the disk's refusals
-- are parameters. An exception that the code does not catch ends the reproduction.
pub mod Entries
use Prim.Native.String.{◌++◌ as ◌<>◌}
use text.Mathlib.Text.{◌==◌, starts_with}
use resilience_lab.Common.{
  ℕ, ◌-◌, String, Bool, true, false, Option, none, some, if◌then◌else◌, List, [], ◌∷◌, length,
  count,
}
use resilience_lab.Common.Checked.{Checked, ok, value_error, ◌>>=◌, ◌>>◌}
use resilience_lab.Common.Dict.{lookup, store}
use resilience_lab.Experiments.Artifacts.{
  Rendered, Manifest, Files, Problem, Verification, write_artifacts, verify_artifacts,
}

-- Python's `str.upper`, `str.strip`, the digits of a text, and `f"{int(digits):03d}"`, where `int` raises
-- for digits that are none of a decimal.
pub record TextMethods : Type 0 where
  pub upper : String → String
  pub strip : String → String
  pub digits_of : String → String
  pub padded : String → Checked String

unfoldable pub normalize_benchmark_name : TextMethods → String → Checked String
normalize_benchmark_name texts name =
    let text = texts.strip (texts.upper name) in
    let digits = texts.digits_of text in
    if starts_with text "RL-BENCH-"
    then ok text
    else if digits == ""
    then ok text
    else texts.padded digits >>= λ number. ok ("RL-BENCH-" <> number)

abbrev first_existing : (String → Bool) → List String → Option String
first_existing exists [] = none
first_existing exists (path ∷ rest) =
    let later = first_existing exists rest in if exists path then some path else later

-- The candidates in their order; an empty directory counts as none.
abbrev candidates : String → Option String → List String
candidates name benchmarks_dir =
    let file = name <> ".yaml" in
    let standard = ("benchmarks/" <> file) ∷ ("configs/benchmarks/" <> file) ∷ [] in
    elim benchmarks_dir [
      | none ↦ standard
      | some directory ↦
          if directory == "" then standard else (directory <> ("/" <> file)) ∷ standard
    ]

pub resolve_benchmark_path : (String → Bool) → String → Option String → Option String
resolve_benchmark_path exists name benchmarks_dir =
    first_existing exists (candidates name benchmarks_dir)

pub data EntryStatus : Type 0 where
  missing invalid_configuration execution_failed write_failed passed corrupt : EntryStatus

pub record Entry : Type 0 where
  pub id : String
  pub status : EntryStatus
  pub errors : List Problem

abbrev pub is_ok : Entry → Bool
is_ok e = elim e.status [ passed ↦ true | _ ↦ false ]

-- What the reproduction reads and runs: specifications, their identifiers, and results. `load_yaml` is
-- `none` where it raises `ConfigValidationError` or `OSError`; `refuses_manifest` is the exception that
-- writing the reproduction's own manifest raises, if it does.
pub record Laboratory (Spec : Type 0) : Type 0 where
  pub texts : TextMethods
  pub exists : String → Bool
  pub load_yaml : String → Checked (Option Spec)
  pub with_count : ℕ → Spec → Spec
  pub run : Spec → Option Rendered
  pub spec_id : Spec → String
  pub refuses : String → Option Files
  pub listing : String → String → List String
  pub refuses_manifest : Option String

-- The bundles by the identifiers below the store's root.
abbrev pub Stored : Type 0
Stored = List (String × Files)

abbrev bundle_of : Stored → String → Files
bundle_of stored id = elim (lookup id stored) [ none ↦ [] | some files ↦ files ]

abbrev entry_of : String → Verification → Entry
entry_of name v = record {
  id = name;
  status = if v.valid then passed else corrupt;
  errors = v.errors;
}

abbrev failed_entry : String → EntryStatus → Entry
failed_entry name status = record { id = name; status = status; errors = [] }

abbrev with_repetitions : {Spec : Type 0} → Laboratory Spec → Option ℕ → Spec → Spec
with_repetitions lab none spec = spec
with_repetitions lab (some n) spec = lab.with_count n spec

abbrev raise_if_some : Option String → Checked (Unit {0})
raise_if_some none = ok tt
raise_if_some (some message) = value_error message

pub record Reproduction : Type 0 where
  pub succeeded : ℕ
  pub failed : ℕ
  pub results : List Entry

module _ (hash : String → String) (digits : ℕ → String) (dump : Manifest → String)
    (load : String → Checked Manifest) {Spec : Type 0} (lab : Laboratory Spec) where
  -- The bundle of a result is written and checked; a refused write leaves what the disk says.
  abbrev keep_result : String → String → Rendered → Stored → Checked (Entry × Stored)
  keep_result name id t stored = elim (lab.refuses id) [
    | some left ↦ ok (failed_entry name write_failed, store id left stored)
    | none ↦
        let (manifest, files) = write_artifacts hash digits dump t (bundle_of stored id) in
        verify_artifacts hash load (lab.listing id) files >>= λ v.
        ok (entry_of name v, store id files stored)
  ]

  abbrev run_spec : String → Spec → Stored → Checked (Entry × Stored)
  run_spec name spec stored = elim (lab.run spec) [
    | none ↦ ok (failed_entry name execution_failed, stored)
    | some t ↦ keep_result name (lab.spec_id spec) t stored
  ]

  -- What follows `load_yaml`.
  abbrev run_loaded : Option ℕ → String → Option Spec → Stored → Checked (Entry × Stored)
  run_loaded repetitions name none stored = ok (failed_entry name invalid_configuration, stored)
  run_loaded repetitions name (some spec) stored =
      run_spec name (with_repetitions lab repetitions spec) stored

  abbrev run_path : Option ℕ → String → Option String → Stored → Checked (Entry × Stored)
  run_path repetitions name none stored = ok (failed_entry name missing, stored)
  run_path repetitions name (some path) stored =
      lab.load_yaml path >>= λ loaded. run_loaded repetitions name loaded stored

  -- One round of the loop.
  reproduce : Option String → Option ℕ → String → Stored → Checked (Entry × Stored)
  reproduce benchmarks_dir repetitions raw_name stored =
      normalize_benchmark_name lab.texts raw_name >>= λ name.
      run_path repetitions name (resolve_benchmark_path lab.exists name benchmarks_dir) stored

  reproduce_each : Option String → Option ℕ → List String → Stored → Checked (List Entry × Stored)
  reproduce_each benchmarks_dir repetitions [] stored = ok ([], stored)
  reproduce_each benchmarks_dir repetitions (name ∷ rest) stored = do
    first ← reproduce benchmarks_dir repetitions name stored
    others ← reproduce_each benchmarks_dir repetitions rest first.1
    ok (first.0 ∷ others.0, others.1)

  pub reproduce_all :
      Option String → Option ℕ → List String → Stored → Checked (Reproduction × Stored)
  reproduce_all benchmarks_dir repetitions names stored = do
    ended ← reproduce_each benchmarks_dir repetitions names stored
    let succeeded = count is_ok ended.0
    raise_if_some lab.refuses_manifest
    ok (
      record { succeeded = succeeded; failed = length ended.0 - succeeded; results = ended.0 },
      ended.1,
    )
