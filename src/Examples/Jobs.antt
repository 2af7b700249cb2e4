-- ===== src/Examples/Jobs.antt =====
-- resiliencelab/controlplane/queue.py with a server held in memory.
use resilience_lab.Common.{
  ◌+◌, String, ◌≡◌, refl, Option, none, some, List, [], ◌∷◌, ◌++◌, if◌then◌else◌,
}
use text.Mathlib.Text.{◌==◌}
use resilience_lab.ControlPlane.Records.{running}
use resilience_lab.ControlPlane.Redis.{Redis, Job, JobPayload, remove, occurrences}
use resilience_lab.ControlPlane.Queue.{stuck, claimed, new_payload, requeue_stuck_jobs}
use resilience_lab.ControlPlane.Queue.Requeue.{requeue_stuck_jobs_lem}

pub record Server : Type 0 where
  pub pending : List String
  pub processing : List String
  pub jobs : String → Job

abbrev unsnoc : List String → Option (List String × String)
unsnoc [] = none
unsnoc (x ∷ xs) = elim (unsnoc xs) [
  | none ↦ some ([], x)
  | some (front, last) ↦ some (x ∷ front, last)
]

pub unsnoc-append : (xs : List String) (x : String) → unsnoc (xs ++ x ∷ []) ≡ some (xs, x)
unsnoc-append [] x = refl
unsnoc-append (y ∷ ys) x = rw (unsnoc-append ys x) refl

abbrev pub move : Server → Option (List String × String) → Option String × Server
move s none = (none, s)
move s (some (front, last)) =
    (some last, record s { pending = front; processing = last ∷ s.processing })

abbrev pub in_memory : Redis Server
in_memory = record {
  pending = λ s. s.pending;
  processing = λ s. s.processing;
  job = λ s. s.jobs;
  lpush_pending = λ id s. record s { pending = id ∷ s.pending };
  lrem_processing = λ id s. record s { processing = remove id s.processing };
  brpoplpush = λ s. move s (unsnoc s.pending);
  hset = λ id f s. record s { jobs = λ j. if id == j then f (s.jobs j) else s.jobs j };
  pending-lpush = λ id s. refl;
  processing-lpush = λ id s. refl;
  job-lpush = λ id j s. refl;
  processing-lrem = λ id s. refl;
  pending-lrem = λ id s. refl;
  job-lrem = λ id j s. refl;
  brpoplpush-empty = λ s e. rw e refl;
  brpoplpush-moves = λ s ids id e. rw (e, unsnoc-append ids id) (refl, refl, refl, λ j. refl);
  pending-hset = λ id f s. refl;
  processing-hset = λ id f s. refl;
  job-hset = λ id j f s. refl;
}

abbrev pub first : JobPayload
first = new_payload "a" "" "" 0 "a/run-0" 5

abbrev pub waiting : Server
waiting = record {
  pending = "a/run-1" ∷ "a/run-0" ∷ [];
  processing = "b/run-0" ∷ [];
  jobs = λ j. record {
    payload = if j == "a/run-0" then some first else some (claimed "w" 7 first);
    status = some running;
    worker_id = none;
    artifact_path = none;
  };
}

requeue_stuck_jobs_lem_example :
    let s' = (requeue_stuck_jobs in_memory (λ k. 1000) 600 waiting).1 in
    (occurrences "b/run-0" s'.pending ≡ 0 + 1) × (occurrences "b/run-0" s'.processing + 1 ≡ 1)
requeue_stuck_jobs_lem_example =
    requeue_stuck_jobs_lem in_memory (λ k. 1000) 600 "b/run-0" stuck waiting (λ k. refl)
