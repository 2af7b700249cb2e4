-- ===== src/Api/Server/Bundles/Served.antt =====
-- resiliencelab/api/app.py: what the routes over bundles serve, and what they refuse.
use text.Mathlib.Text.{◌==◌}
use text.Mathlib.TextEquality.{eq_iff}
use resilience_lab.Common.{
  ℕ, String, ◌≡◌, refl, ap, subst, ◌∙◌, true, false, Option, none, some, if◌then◌else◌, List, [],
  ◌∷◌, arith,
}
use resilience_lab.Common.Checked.{Checked, ok, value_error}
use resilience_lab.Common.Dict.{lookup, store, lookup-store, lookup-store_self}
use resilience_lab.ControlPlane.Records.{ExperimentRecord, Database}
use resilience_lab.ControlPlane.Repositories.{get_experiment}
use resilience_lab.Experiments.Artifacts.{
  Files, Manifest, Rendered, Bundle, record_file, manifest_name, manifest_of, record_all,
  write_artifacts,
}
use resilience_lab.Experiments.Artifacts.Writing.{record_all-IsSound}
use resilience_lab.Api.Auth.{Identity}
use resilience_lab.Api.Server.{
  HttpResult, answers, http_exception, internal_error, require, may_access,
}
use resilience_lab.Api.Server.Routes.{require-answers}
use resilience_lab.Api.Server.Bundles.{
  ◌>>=◌, or_error, Disk, bundle_at, artifact_bases, compare_hash, against_manifest, artifact_file,
  with_file, each_file, files_route,
}

module _ {A B : Type 0} where
  -- What a route's part answered when the route did.
  answers-bind :
      (m : HttpResult A) (f : A → HttpResult B) (b : B)
      → (m >>= f) ≡ answers b
      → (a : A) × (m ≡ answers a) × (f a ≡ answers b)
  answers-bind (answers a) f b h = (a, refl, h)
  answers-bind (http_exception code) f b h = cc
  answers-bind internal_error f b h = cc

or_error-answers : {A : Type 0} (o : Option A) (a : A) → or_error o ≡ answers a → o ≡ some a
or_error-answers none a h = cc
or_error-answers (some b) a h = cc

module _ (hash : String → String) (load : String → Checked Manifest) where
  -- A file of a bundle is there, and the bundle's manifest has its hash.
  pub record IsTracked (files : Files) (path content : String) : Type 0 where
    pub there : lookup path files ≡ some content
    pub text : String
    pub manifest : Manifest
    pub kept : lookup manifest_name files ≡ some text
    pub loaded : load text ≡ ok manifest
    pub tracked : lookup path manifest.files ≡ some (hash content)

  artifact_file-IsTracked :
      (files : Files) (path content : String)
      → artifact_file hash load files path ≡ answers content
      → IsTracked files path content
  unfolding artifact_file
  artifact_file-IsTracked files path content h =
      by_file (lookup manifest_name files) (lookup path files) refl refl h
    where
      by_hash :
          (c text : String) (manifest : Manifest) (o : Option String)
          → lookup path files ≡ some c
          → lookup manifest_name files ≡ some text
          → load text ≡ ok manifest
          → lookup path manifest.files ≡ o
          → compare_hash hash load c o ≡ answers content
          → IsTracked files path content
      by_hash c text manifest none t k l e h = cc
      by_hash c text manifest (some expected) t k l e h = record {
        there = t ∙ ap some (ground (arith, h));
        text = text;
        manifest = manifest;
        kept = k;
        loaded = l;
        tracked = e ∙ ap some (ground (arith, h, eq_iff (hash c) expected));
      }

      by_load :
          (c text : String) (m : Checked Manifest)
          → lookup path files ≡ some c
          → lookup manifest_name files ≡ some text
          → load text ≡ m
          → against_manifest hash load path c m ≡ answers content
          → IsTracked files path content
      by_load c text (value_error e) t k l h = cc
      by_load c text (ok manifest) t k l h =
          by_hash c text manifest (lookup path manifest.files) t k l refl h

      by_file :
          (m o : Option String)
          → lookup manifest_name files ≡ m
          → lookup path files ≡ o
          → with_file hash load path m o ≡ answers content
          → IsTracked files path content
      by_file m none k t h = cc
      by_file none (some c) k t h = cc
      by_file (some text) (some c) k t h = by_load c text (load text) t k refl h

  module _ {A : Type 0} (parse : String → Option A) where
    -- A value is read from a tracked file of a bundle.
    pub record IsRead (files : Files) (path : String) (value : A) : Type 0 where
      pub content : String
      pub intact : IsTracked files path content
      pub parsed : parse content ≡ some value

    -- Each value is read from the bundle that stands in its place.
    abbrev pub Served : Disk → String → List String → List A → Type 0
    Served disk path [] [] = Unit
    Served disk path (base ∷ bases) (value ∷ values) =
        IsRead (bundle_at disk base) path value × Served disk path bases values
    Served disk path _ _ = ⊥

    each_file-Served :
        (disk : Disk) (path : String) (bases : List String) (values : List A)
        → each_file hash load parse disk path bases ≡ answers values
        → Served disk path bases values
    unfolding each_file
    each_file-Served disk path [] [] h = tt
    each_file-Served disk path [] (v ∷ values) h = cc
    each_file-Served disk path (base ∷ bases) values h =
        let (content, found, h1) =
          answers-bind (artifact_file hash load (bundle_at disk base) path) _ values h in
        let (value, read, h2) = answers-bind (or_error (parse content)) _ values h1 in
        let (later, others, h3) =
          answers-bind (each_file hash load parse disk path bases) _ values h2 in
        let whole : (value ∷ later) ≡ values = cc in
        subst (λ vs. Served disk path (base ∷ bases) vs) whole
          (
            record {
              content = content;
              intact = artifact_file-IsTracked (bundle_at disk base) path content found;
              parsed = or_error-answers (parse content) value read;
            },
            each_file-Served disk path bases later others,
          )

    -- When a route over the files of an experiment's bundles answers, the experiment exists, the
    -- caller may access it, and each value comes from its bundle in order, out of a file whose hash
    -- is the one that the bundle's own manifest has for it.
    pub files_route-Served :
        (path : String) (i : Identity) (id : String) (db : Database) (disk : Disk) (values : List A)
        → files_route hash load parse path i id db disk ≡ answers values
        → (e : ExperimentRecord) × (bases : List String) × (get_experiment db id ≡ some e)
          × (may_access e i ≡ true)
          × (artifact_bases db e ≡ answers bases)
          × Served disk path bases values
    unfolding files_route
    files_route-Served path i id db disk values h =
        let (e, passed, h1) = answers-bind (require id i db) _ values h in
        let (bases, found, h2) = answers-bind (artifact_bases db e) _ values h1 in
        let (valid, there, access) = require-answers id i db e passed in
        (e, bases, there, access, found, each_file-Served disk path bases values h2)

  module _ (dump : Manifest → String) (digits : ℕ → String) where
    -- When a tracked file of a bundle that was just written is overwritten, and the manifest reads back
    -- as it was dumped, the file is served if its new text has the recorded hash, and else refused with
    -- status 409.
    pub artifact_file_changed :
        (t : Rendered) (files : Files) (path expected content : String)
        → lookup path (write_artifacts hash digits dump t files).0.files ≡ some expected
        → load (dump (write_artifacts hash digits dump t files).0)
          ≡ ok (write_artifacts hash digits dump t files).0
        → artifact_file hash load
            (store path content (write_artifacts hash digits dump t files).1)
            path
          ≡ (if hash content == expected then answers content else http_exception 409)
    unfolding write_artifacts artifact_file
    artifact_file_changed t files path expected content tracked loads =
        let b = record_all hash digits t files in
        let (manifest, files') = write_artifacts hash digits dump t files in
        let s = record_all-IsSound hash digits t files in
        let kept : lookup manifest_name (store path content files') ≡ some (dump manifest) =
          ground (
            arith,
            lookup-store manifest_name path content files',
            lookup-store_self manifest_name (dump manifest) b.files,
            s.apart,
            tracked,
            eq_iff path manifest_name,
          ) in
        rw (kept, artifact_file)
          (rw (lookup-store_self path content files') (rw loads (rw tracked refl)))

    last_served :
        (t : Rendered) (path content : String) (b : Bundle)
        → path == manifest_name ≡ false
        → load (dump (manifest_of t (record_file hash path content b)))
          ≡ ok (manifest_of t (record_file hash path content b))
        → let b' = record_file hash path content b in
          artifact_file hash load (store manifest_name (dump (manifest_of t b')) b'.files) path
          ≡ answers content
    unfolding artifact_file
    last_served t path content b other loads =
        let b' = record_file hash path content b in
        let text = dump (manifest_of t b') in
        let there : lookup path (store manifest_name text b'.files) ≡ some content = ground (
          arith,
          lookup-store path manifest_name text b'.files,
          lookup-store_self path content b.files,
          eq_iff path manifest_name,
          eq_iff manifest_name path,
        ) in
        rw (there, artifact_file)
          (rw (lookup-store_self manifest_name text b'.files) (
            rw loads (
              rw (lookup-store_self path (hash content) b.manifest_files)
                (rw ((eq_iff (hash content) (hash content)).1 refl) refl))))

    -- The report of a result is served as it was written.
    report_served :
        (t : Rendered) (files : Files)
        → load (dump (write_artifacts hash digits dump t files).0)
          ≡ ok (write_artifacts hash digits dump t files).0
        → artifact_file hash load (write_artifacts hash digits dump t files).1 "report/report.md"
          ≡ answers t.report
    unfolding write_artifacts record_all
    report_served t files loads = last_served t "report/report.md" t.report _ refl loads
