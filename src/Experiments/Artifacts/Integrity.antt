-- ===== src/Experiments/Artifacts/Integrity.antt =====
-- resiliencelab/experiments/artifacts.py: what `verify_artifacts` finds in a bundle, in one that was
-- written and left alone, and in one that was changed.
use text.Mathlib.Text.{◌==◌}
use text.Mathlib.TextEquality.{eq_iff}
use resilience_lab.Common.{
  ℕ, ◌+◌, String, ◌≡◌, ◌≢◌, ◌↔◌, refl, ap, subst, true, false, some, inl, inr, Bool-cases,
  Option-cases, List, [], ◌∷◌, length, All, arith,
}
use resilience_lab.Common.Checked.{Checked, ok}
use resilience_lab.Common.Dict.{
  lookup, store, lookup-store, lookup-store_self, NodupKeys, All-other,
}
use resilience_lab.Experiments.Artifacts.{
  Rendered, Manifest, Files, manifest_name, Problem, mismatch, Verification, is_empty, record_all,
  manifest_of, write_artifacts, check_files, verdict, verify_artifacts,
}
use resilience_lab.Experiments.Artifacts.Writing.{IsIntact, record_all-IsSound}

module _ (hash : String → String) where
  -- What the check of the tracked files says.
  record Found (files tracked : Files) (errors : List Problem) (verified : ℕ) : Type 0 where
    pub counted : length errors + verified ≡ length tracked
    pub sound : is_empty errors ≡ true → All (IsIntact hash files) tracked
    pub complete : All (IsIntact hash files) tracked → errors ≡ []

  check_files-Found :
      (files tracked : Files)
      → Found files tracked (check_files hash files tracked).0 (check_files hash files tracked).1
  unfolding check_files
  check_files-Found files [] = record {
    counted = omega arith;
    sound = λ h. tt;
    complete = λ h. refl;
  }
  check_files-Found files ((name, expected) ∷ rest) =
      let later = check_files-Found files rest in
      elim (Option-cases (lookup name files)) [
        | inl absent ↦
            rw (absent, check_files)
              (record {
                counted = omega (arith, later.counted);
                sound = λ h. absurd (ground arith);
                complete = λ ((c, found, right), others). absurd (ground (arith, absent, found));
              })
        | inr (content, there) ↦ elim (Bool-cases (hash content == expected)) [
          | inl right ↦
              rw (there, check_files)
                (rw right (record {
                  counted = omega (arith, later.counted);
                  sound = λ h.
                      ((content, there, (eq_iff (hash content) expected).0 right), later.sound h);
                  complete = λ (first, others). later.complete others;
                }))
          | inr wrong ↦
              rw (there, check_files)
                (rw wrong (record {
                  counted = omega (arith, later.counted);
                  sound = λ h. absurd (ground arith);
                  complete = λ ((c, found, same), others).
                      absurd
                        (ground (arith, there, found, same, wrong, eq_iff (hash content) expected));
                }))
        ]
      ]

  -- For a bundle whose manifest can be read, the check answers; the bundle is valid exactly when
  -- each tracked file is there with its hash, and the errors and the verified files add up to the
  -- tracked ones.
  pub verify_artifacts_lem :
      (load : String → Checked Manifest) (listing : String → List String) (files : Files)
      (text : String) (manifest : Manifest)
      → lookup manifest_name files ≡ some text
      → load text ≡ ok manifest
      → (v : Verification) × (verify_artifacts hash load listing files ≡ ok v)
        × ((v.valid ≡ true) ↔ All (IsIntact hash files) manifest.files)
        × (length v.errors + v.verified_files ≡ v.file_count)
        × (v.file_count ≡ length manifest.files)
        × (v.manifest ≡ some manifest)
  unfolding verify_artifacts
  verify_artifacts_lem load listing files text manifest there loaded =
      let found = check_files-Found files manifest.files in
      (
        verdict hash listing files manifest,
        rw (there, verify_artifacts) (rw loaded refl),
        (found.sound, λ h. ap is_empty (found.complete h)),
        found.counted,
        refl,
        refl,
      )

  store-IsIntact :
      (files : Files) (name content j expected : String)
      → name == j ≡ false
      → IsIntact hash files (j, expected)
      → IsIntact hash (store name content files) (j, expected)
  store-IsIntact files name content j expected other (c, found, right) =
      (c, rw (lookup-store j name content files) (rw other found), right)

  -- A change of one tracked file of an intact bundle is found, and nothing else.
  check_files_changed :
      (files tracked : Files) (name expected content : String)
      → NodupKeys tracked
      → All (IsIntact hash files) tracked
      → lookup name tracked ≡ some expected
      → hash content ≢ expected
      → (check_files hash (store name content files) tracked).0
        ≡ mismatch name expected (hash content) ∷ []
  unfolding check_files lookup
  check_files_changed files [] name expected content once h there changed = ground arith
  check_files_changed files ((j, hashed) ∷ rest) name expected content (fresh, once) (here, h) there
        changed =
      elim (Bool-cases (j == name)) [
        | inl same ↦
            let name' : j ≡ name = (eq_iff j name).0 same in
            let hashed' : hashed ≡ expected = ground arith in
            let kept =
              All-other (IsIntact hash files) (IsIntact hash (store name content files)) j rest
                (λ i e differs intact.
                  store-IsIntact files name content i e (subst (λ k. k == i ≡ false) name' differs)
                    intact)
                fresh h in
            let clean = (check_files-Found (store name content files) rest).complete kept in
            let looked : lookup j (store name content files) ≡ some content =
              ground (arith, lookup-store j name content files, eq_iff name j) in
            let wrong : hash content == hashed ≡ false =
              ground (arith, hashed', changed, eq_iff (hash content) hashed) in
            rw (looked, check_files) (rw wrong (rw clean (ground (arith, name', hashed'))))
        | inr other ↦
            let (c, looked, right) =
              store-IsIntact files name content j hashed
                (ground (arith, eq_iff j name, eq_iff name j)) here in
            rw (looked, check_files)
              (rw ((eq_iff (hash c) hashed).1 right) (
                check_files_changed files rest name expected content once h (ground arith) changed))
      ]

  module _ (dump : Manifest → String) (load : String → Checked Manifest) (digits : ℕ → String) where
    -- What was written is intact, the manifest's own file included.
    written-IsIntact :
        (t : Rendered) (files : Files)
        → let (manifest, files') = write_artifacts hash digits dump t files in
          All (IsIntact hash files') manifest.files
    unfolding write_artifacts
    written-IsIntact t files =
        let b = record_all hash digits t files in
        let s = record_all-IsSound hash digits t files in
        let text = dump (manifest_of t b) in
        All-other (IsIntact hash b.files) (IsIntact hash (store manifest_name text b.files))
          manifest_name b.manifest_files
          (λ j expected other intact.
            store-IsIntact b.files manifest_name text j expected other intact)
          s.apart s.intact

    -- A bundle that was just written, over whatever files there were, and whose manifest reads back
    -- as it was dumped, is checked as valid: no errors, every tracked file right, and the manifest is
    -- the one that the writing returned.
    pub verify_artifacts-write_artifacts :
        (t : Rendered) (files : Files) (listing : String → List String)
        → load (dump (write_artifacts hash digits dump t files).0)
          ≡ ok (write_artifacts hash digits dump t files).0
        → let (manifest, files') = write_artifacts hash digits dump t files in
          (v : Verification) × (verify_artifacts hash load listing files' ≡ ok v)
          × (v.valid ≡ true)
          × (v.errors ≡ [])
          × (v.verified_files ≡ length manifest.files)
          × (v.manifest ≡ some manifest)
    unfolding write_artifacts verify_artifacts
    verify_artifacts-write_artifacts t files listing loads =
        let (manifest, files') = write_artifacts hash digits dump t files in
        let found = check_files-Found files' manifest.files in
        let clean = found.complete (written-IsIntact t files) in
        let there : lookup manifest_name files' ≡ some (dump manifest) =
          lookup-store_self manifest_name (dump manifest) (record_all hash digits t files).files in
        (
          verdict hash listing files' manifest,
          rw (there, verify_artifacts) (rw loads refl),
          ap is_empty clean,
          clean,
          omega (arith, found.counted, ap length clean),
          refl,
        )

    -- When one tracked file of a bundle that was just written gets a text of another hash, and its
    -- manifest reads back as it was dumped, the check answers that the bundle is invalid, and names
    -- this file with both hashes as the one error.
    pub verify_artifacts_changed :
        (t : Rendered) (files : Files) (listing : String → List String)
        (name expected content : String)
        → lookup name (write_artifacts hash digits dump t files).0.files ≡ some expected
        → hash content ≢ expected
        → load (dump (write_artifacts hash digits dump t files).0)
          ≡ ok (write_artifacts hash digits dump t files).0
        → (v : Verification) × (verify_artifacts hash load listing
              (store name content (write_artifacts hash digits dump t files).1)
            ≡ ok v)
          × (v.valid ≡ false)
          × (v.errors ≡ mismatch name expected (hash content) ∷ [])
    unfolding write_artifacts verify_artifacts
    verify_artifacts_changed t files listing name expected content tracked changed loads =
        let (manifest, files') = write_artifacts hash digits dump t files in
        let s = record_all-IsSound hash digits t files in
        let wrong =
          check_files_changed files' manifest.files name expected content s.once
            (written-IsIntact t files) tracked changed in
        let there : lookup manifest_name (store name content files') ≡ some (dump manifest) =
          ground (
            arith,
            lookup-store manifest_name name content files',
            lookup-store_self manifest_name (dump manifest) (record_all hash digits t files).files,
            s.apart,
            tracked,
            eq_iff name manifest_name,
          ) in
        (
          verdict hash listing (store name content files') manifest,
          rw (there, verify_artifacts) (rw loads refl),
          ap is_empty wrong,
          wrong,
        )
