-- ===== src/ControlPlane/Queue.antt =====
-- resiliencelab/controlplane/queue.py: the queue of jobs. Each function runs as one step; the pieces
-- of a job's name that Python formats are a parameter.
pub mod Requeue
use resilience_lab.Common.{
  ℕ, zero, suc, ◌+◌, String, Bool, true, false, Option, none, some, List, [], ◌∷◌, ltb, leb, length,
  ◌&&◌, if◌then◌else◌,
}
use text.Mathlib.Text.{◌==◌}
use resilience_lab.ControlPlane.Records.{Status, queued, running, cancelled}
use resilience_lab.ControlPlane.Redis.{Redis, Job, JobPayload}

abbrev pub new_payload : String → String → String → ℕ → String → ℕ → JobPayload
new_payload experiment_id config_yaml config_hash i job_id now = record {
  experiment_id = experiment_id;
  run_id = job_id;
  run_index = i;
  seed = 0;
  config_yaml = config_yaml;
  config_hash = config_hash;
  worker_id = "";
  created_at = now;
  claimed_at = none;
}

abbrev pub put_payload : JobPayload → Job → Job
put_payload p j = record j { payload = some p; status = some queued }

abbrev pub claimed : String → ℕ → JobPayload → JobPayload
claimed worker now p = record p { worker_id = worker; claimed_at = some now }

abbrev pub set_running : JobPayload → Job → Job
set_running p j = record j { payload = some p; status = some running; worker_id = some p.worker_id }

-- `if artifact_path:`, a path that is neither absent nor empty.
abbrev given_path : Option String → Option String → Option String
given_path none old = old
given_path (some path) old = if path == "" then old else some path

abbrev set_finished : Status → Option String → Job → Job
set_finished status path j = record j {
  status = some status;
  artifact_path = given_path path j.artifact_path;
}

abbrev pub set_queued : Job → Job
set_queued j = record j { status = some queued }

abbrev pub is_cancelled : Option Status → Bool
is_cancelled (some cancelled) = true
is_cancelled _ = false

-- `payload.claimed_at and (time.time() - payload.claimed_at) > max_age_seconds`
abbrev is_old : ℕ → ℕ → Option ℕ → Bool
is_old now max_age none = false
is_old now max_age (some t) = ltb 0 t && ltb (t + max_age) now

-- What `requeue_stuck_jobs` does with a job in process.
pub data Fate : Type 0 where
  stuck dropped kept : Fate

abbrev pub fate : ℕ → ℕ → Job → Fate
fate now max_age j = elim j.payload [
  | none ↦ stuck
  | some p ↦
      if is_cancelled j.status
      then dropped
      else if is_old now max_age p.claimed_at
      then stuck
      else kept
]

module _ {S : Type 0} (r : Redis S) where
  -- The jobs from the number `i` on, `num_runs` of them; the clock is read for each.
  unfoldable pub enqueue_from :
      String → String → String → (ℕ → String) → (ℕ → ℕ) → ℕ → ℕ → S → List String × S
  enqueue_from experiment_id config_yaml config_hash name clock i zero s = ([], s)
  enqueue_from experiment_id config_yaml config_hash name clock i (suc num_runs) s =
      let p = new_payload experiment_id config_yaml config_hash i (name i) (clock i) in
      let s' = r.lpush_pending (name i) (r.hset (name i) (put_payload p) s) in
      let (ids, s'') =
        enqueue_from experiment_id config_yaml config_hash name clock (suc i) num_runs s' in
      (name i ∷ ids, s'')

  abbrev pub enqueue_experiment :
      String → String → String → (ℕ → String) → (ℕ → ℕ) → ℕ → S → List String × S
  enqueue_experiment experiment_id config_yaml config_hash name clock num_runs s =
      enqueue_from experiment_id config_yaml config_hash name clock 0 num_runs s

  unfoldable pub claim_job : String → ℕ → S → Option JobPayload × S
  claim_job worker now s =
      let (popped, s') = r.brpoplpush s in
      elim popped [
        | none ↦ (none, s')
        | some id ↦ elim (r.job s' id).payload [
          | none ↦ (none, r.lrem_processing id s')
          | some p ↦
              (some (claimed worker now p), r.hset id (set_running (claimed worker now p)) s')
        ]
      ]

  unfoldable pub complete_job : String → Status → Option String → S → S
  complete_job id status path s = r.lrem_processing id (r.hset id (set_finished status path) s)

  -- The first loop of `requeue_stuck_jobs`: the stuck jobs, and the cancelled ones taken out.
  unfoldable pub scan : (ℕ → ℕ) → ℕ → ℕ → List String → S → List String × S
  scan clock max_age n [] s = ([], s)
  scan clock max_age n (id ∷ ids) s = elim (fate (clock n) max_age (r.job s id)) [
    | stuck ↦ let (found, s') = scan clock max_age (suc n) ids s in (id ∷ found, s')
    | dropped ↦ scan clock max_age (suc n) ids (r.lrem_processing id s)
    | kept ↦ scan clock max_age (suc n) ids s
  ]

  -- The second loop.
  unfoldable pub requeue : List String → S → S
  requeue [] s = s
  requeue (id ∷ ids) s =
      requeue ids (r.hset id set_queued (r.lpush_pending id (r.lrem_processing id s)))

  unfoldable pub requeue_stuck_jobs : (ℕ → ℕ) → ℕ → S → ℕ × S
  requeue_stuck_jobs clock max_age s =
      let (found, s') = scan clock max_age 0 (r.processing s) s in
      if leb (length found) 0 then (0, s') else (length found, requeue found s')

  abbrev pub get_job_status : S → String → Option Status
  get_job_status s id = (r.job s id).status
