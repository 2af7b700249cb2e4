-- ===== src/ControlPlane/Queue/Requeue.antt =====
-- Where the jobs go: to a worker in the order of their arrival, and back into the queue when stuck.
use resilience_lab.Common.{
  ℕ, suc, ◌+◌, ◌≤◌, String, ◌≡◌, ◌≢◌, refl, ap, ◌∙◌, some, List, [], ◌∷◌, ◌++◌, arith, leb, length,
  if◌then◌else◌,
}
use text.Mathlib.Text.{◌==◌}
use text.Mathlib.TextEquality.{eq_iff}
use resilience_lab.ControlPlane.Records.{running}
use resilience_lab.ControlPlane.Redis.{Redis, JobPayload, occurrences, occurrences-remove}
use resilience_lab.ControlPlane.Queue.{
  Fate, stuck, dropped, kept, fate, scan, requeue, requeue_stuck_jobs, claim_job, claimed,
  get_job_status, set_queued, set_running,
}

abbrev if_stuck : Fate → ℕ → ℕ
if_stuck stuck n = n
if_stuck _ n = 0

abbrev if_dropped : Fate → ℕ → ℕ
if_dropped dropped n = n
if_dropped _ n = 0

module _ {S : Type 0} (r : Redis S) where
  -- What a scan finds of one job, and leaves of it.
  record Scanned (id : String) (f : Fate) (ids : List String) (s : S) (out : List String × S)
      : Type 0 where
    same_pending : r.pending out.1 ≡ r.pending s
    found : occurrences id out.0 ≡ if_stuck f (occurrences id ids)
    left :
        occurrences id (r.processing out.1) + if_dropped f (occurrences id ids)
        ≡ occurrences id (r.processing s)

  abbrev is_one : String → String → ℕ
  is_one x id = if x == id then 1 else 0

  -- One more job, by its own fate, if the scan of the rest is right from every state.
  Scanned-more :
      (id x : String) (f g : Fate) (ids : List String) (s : S) (more : S → List String × S)
      → (x ≡ id → g ≡ f)
      → is_one x id + occurrences id ids ≤ occurrences id (r.processing s)
      → ((t : S)
          → ((j : String) → r.job t j ≡ r.job s j)
          → occurrences id ids ≤ occurrences id (r.processing t)
          → Scanned id f ids t (more t))
      → Scanned id f (x ∷ ids) s (elim g [
        | stuck ↦ let (found, s') = more s in (x ∷ found, s')
        | dropped ↦ more (r.lrem_processing x s)
        | kept ↦ more s
      ])
  Scanned-more id x f stuck ids s more at h ih =
      let later = ih s (λ j. refl) (omega arith) in
      record {
        same_pending = later.same_pending;
        found = ground (arith, at, eq_iff x id, later.found);
        left = ground (arith, at, eq_iff x id, later.left);
      }
  Scanned-more id x f kept ids s more at h ih =
      let later = ih s (λ j. refl) (omega arith) in
      record {
        same_pending = later.same_pending;
        found = ground (arith, at, eq_iff x id, later.found);
        left = ground (arith, at, eq_iff x id, later.left);
      }
  Scanned-more id x f dropped ids s more at h ih =
      let t = r.lrem_processing x s in
      let rest : occurrences id (r.processing t) + is_one x id ≡ occurrences id (r.processing s) =
        rw (r.processing-lrem x s) (occurrences-remove x id (r.processing s) (omega arith)) in
      let later = ih t (λ j. r.job-lrem x j s) (omega arith) in
      record {
        same_pending = later.same_pending ∙ r.pending-lrem x s;
        found = ground (arith, at, eq_iff x id, later.found);
        left = ground (arith, at, eq_iff x id, later.left);
      }

  scan-Scanned :
      (clock : ℕ → ℕ) (max_age n : ℕ) (id : String) (f : Fate) (ids : List String) (s : S)
      → ((k : ℕ) → fate (clock k) max_age (r.job s id) ≡ f)
      → occurrences id ids ≤ occurrences id (r.processing s)
      → Scanned id f ids s (scan r clock max_age n ids s)
  unfolding scan
  scan-Scanned clock max_age n id stuck [] s same h = record {
    same_pending = refl;
    found = refl;
    left = omega arith;
  }
  scan-Scanned clock max_age n id dropped [] s same h = record {
    same_pending = refl;
    found = refl;
    left = omega arith;
  }
  scan-Scanned clock max_age n id kept [] s same h = record {
    same_pending = refl;
    found = refl;
    left = omega arith;
  }
  scan-Scanned clock max_age n id f (x ∷ ids) s same h =
      Scanned-more id x f (fate (clock n) max_age (r.job s x)) ids s
        (scan r clock max_age (suc n) ids) (λ e. rw e (same n)) h
        (λ t agree. scan-Scanned clock max_age (suc n) id f ids t (λ k. rw (agree id) (same k)))

  requeue-moves :
      (id : String) (found : List String) (s : S)
      → occurrences id found ≤ occurrences id (r.processing s)
      → (occurrences id (r.pending (requeue r found s))
          ≡ occurrences id (r.pending s) + occurrences id found)
        × (occurrences id (r.processing (requeue r found s)) + occurrences id found
            ≡ occurrences id (r.processing s))
  unfolding requeue
  requeue-moves id [] s h = (omega arith, omega arith)
  requeue-moves id (x ∷ found) s h =
      let t = r.lpush_pending x (r.lrem_processing x s) in
      let back = r.hset x set_queued t in
      let in_process : occurrences id (r.processing back) + is_one x id
          ≡ occurrences id (r.processing s) =
        rw
          (
            r.processing-hset x set_queued t,
            r.processing-lpush x (r.lrem_processing x s),
            r.processing-lrem x s,
          )
          (occurrences-remove x id (r.processing s) (omega arith)) in
      let waiting : occurrences id (r.pending back) ≡ is_one x id + occurrences id (r.pending s) =
        rw
          (
            r.pending-hset x set_queued t,
            r.pending-lpush x (r.lrem_processing x s),
            r.pending-lrem x s,
          )
          refl in
      let rest = requeue-moves id found back (omega arith) in (omega arith, omega arith)

  abbrev unless_kept : Fate → ℕ → ℕ
  unless_kept kept n = 0
  unless_kept _ n = n

  -- The early return changes nothing: without a stuck job the second loop does nothing.
  requeued :
      (clock : ℕ → ℕ) (max_age : ℕ) (s : S)
      → let (found, s') = scan r clock max_age 0 (r.processing s) s in
        (requeue_stuck_jobs r clock max_age s).1 ≡ requeue r found s'
  unfolding requeue requeue_stuck_jobs
  requeued clock max_age s =
      go (scan r clock max_age 0 (r.processing s) s).0 (scan r clock max_age 0 (r.processing s) s).1
    where
      go :
          (found : List String) (t : S)
          → let out : ℕ × S =
              if leb (length found) 0 then (0, t) else (length found, requeue r found t) in
            out.1 ≡ requeue r found t
      go [] t = refl
      go (x ∷ xs) t = ground arith

  abbrev ByFate : String → Fate → S → S → Type 0
  ByFate id f s s' =
      (occurrences id (r.pending s')
        ≡ occurrences id (r.pending s) + if_stuck f (occurrences id (r.processing s)))
      × (occurrences id (r.processing s') + unless_kept f (occurrences id (r.processing s))
          ≡ occurrences id (r.processing s))

  by_fate :
      (id : String) (f : Fate) (s : S) (out : List String × S)
      → Scanned id f (r.processing s) s out
      → ByFate id f s (requeue r out.0 out.1)
  by_fate id stuck s out h =
      let moves = requeue-moves id out.0 out.1 (omega (arith, h.found, h.left)) in
      (
        ground (arith, moves, h.found, h.left, h.same_pending),
        ground (arith, moves, h.found, h.left),
      )
  by_fate id dropped s out h =
      let moves = requeue-moves id out.0 out.1 (omega (arith, h.found, h.left)) in
      (
        ground (arith, moves, h.found, h.left, h.same_pending),
        ground (arith, moves, h.found, h.left),
      )
  by_fate id kept s out h =
      let moves = requeue-moves id out.0 out.1 (omega (arith, h.found, h.left)) in
      (
        ground (arith, moves, h.found, h.left, h.same_pending),
        ground (arith, moves, h.found, h.left),
      )

  -- If a job's fate does not change with the clock while `requeue_stuck_jobs` scans, then by that
  -- fate all its occurrences among the jobs in process move to the queue (stuck), vanish (a
  -- cancelled job), or stay (a recent one, or one without a time of claim), and no occurrence is
  -- lost or made otherwise.
  pub requeue_stuck_jobs_lem :
      (clock : ℕ → ℕ) (max_age : ℕ) (id : String) (f : Fate) (s : S)
      → ((k : ℕ) → fate (clock k) max_age (r.job s id) ≡ f)
      → let s' = (requeue_stuck_jobs r clock max_age s).1 in
        (occurrences id (r.pending s')
          ≡ occurrences id (r.pending s) + if_stuck f (occurrences id (r.processing s)))
        × (occurrences id (r.processing s') + unless_kept f (occurrences id (r.processing s))
            ≡ occurrences id (r.processing s))
  requeue_stuck_jobs_lem clock max_age id f s same = rw (requeued clock max_age s) (
      by_fate id f s (scan r clock max_age 0 (r.processing s) s)
        (scan-Scanned clock max_age 0 id f (r.processing s) s same (omega arith)))

  claim_known :
      (worker : String) (now : ℕ) (id : String) (p : JobPayload) (s : S)
      → (r.brpoplpush s).0 ≡ some id
      → (r.job (r.brpoplpush s).1 id).payload ≡ some p
      → claim_job r worker now s ≡ (
        some (claimed worker now p),
        r.hset id (set_running (claimed worker now p)) (r.brpoplpush s).1,
      )
  unfolding claim_job
  claim_known worker now id p s popped known = rw (popped, known, claim_job) refl

  -- When the job that waits longest has a payload, `claim_job` returns that payload with the worker
  -- and the time of the claim, moves the job from the queue to the jobs in process, stores the
  -- payload with status running, and leaves every other job as it is.
  claim_job_lem :
      (worker : String) (now : ℕ) (ids : List String) (id : String) (p : JobPayload) (s : S)
      → r.pending s ≡ ids ++ id ∷ []
      → (r.job s id).payload ≡ some p
      → let (answer, s') = claim_job r worker now s in
        (answer ≡ some (claimed worker now p))
        × (r.pending s' ≡ ids)
        × (r.processing s' ≡ id ∷ r.processing s)
        × (get_job_status r s' id ≡ some running)
        × ((r.job s' id).payload ≡ answer)
        × ((j : String) → id ≢ j → r.job s' j ≡ r.job s j)
  claim_job_lem worker now ids id p s queue known =
      let (popped, waiting, taken, same) = r.brpoplpush-moves s ids id queue in
      let q = claimed worker now p in
      let t = (r.brpoplpush s).1 in
      rw (claim_known worker now id p s popped (ap (λ j. j.payload) (same id) ∙ known)) (
        refl,
        r.pending-hset id (set_running q) t ∙ waiting,
        r.processing-hset id (set_running q) t ∙ taken,
        ground (arith, eq_iff id id, r.job-hset id id (set_running q) t),
        ground (arith, eq_iff id id, r.job-hset id id (set_running q) t),
        λ j other. ground (arith, eq_iff id j, r.job-hset id j (set_running q) t, same j),
      )
