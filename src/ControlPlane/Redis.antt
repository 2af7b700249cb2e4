-- ===== src/ControlPlane/Redis.antt =====
-- What resiliencelab/controlplane/queue.py uses of a Redis server: two lists of job identifiers, whose
-- head is their left end, and a hash per job. The server is a parameter; its laws are the documented
-- behaviour of the commands LRANGE, LPUSH, LREM, BRPOPLPUSH, HGET and HSET.
use resilience_lab.Common.{
  ℕ, ◌+◌, ◌≤◌, String, ◌≡◌, Bool, Option, none, some, List, [], ◌∷◌, ◌++◌, arith, count,
  if◌then◌else◌,
}
use resilience_lab.ControlPlane.Records.{Status}
use text.Mathlib.Text.{◌==◌}
use text.Mathlib.TextEquality.{eq_iff}

pub record JobPayload : Type 0 where
  pub experiment_id : String
  pub run_id : String
  pub run_index : ℕ
  pub seed : ℕ
  pub config_yaml : String
  pub config_hash : String
  pub worker_id : String
  pub created_at : ℕ
  pub claimed_at : Option ℕ

-- The fields of the hash of one job; the JSON text of the payload stands for the payload.
pub record Job : Type 0 where
  pub payload : Option JobPayload
  pub status : Option Status
  pub worker_id : Option String
  pub artifact_path : Option String

abbrev is_id : String → String → Bool
is_id id x = x == id

-- How often an identifier stands in a list.
abbrev pub occurrences : String → List String → ℕ
occurrences id xs = count (is_id id) xs

-- `LREM key 1 id`: the first occurrence goes.
unfoldable pub remove : String → List String → List String
remove id [] = []
remove id (x ∷ xs) = let rest = remove id xs in if x == id then xs else x ∷ rest

-- A removal takes one occurrence of its identifier, if there is one, and leaves the others.
pub occurrences-remove :
    (id j : String) (xs : List String)
    → (if id == j then 1 else 0) ≤ occurrences j xs
    → occurrences j (remove id xs) + (if id == j then 1 else 0) ≡ occurrences j xs
unfolding remove
occurrences-remove id j [] h = omega arith
occurrences-remove id j (x ∷ xs) h =
    ground (arith, occurrences-remove id j xs, eq_iff id j, eq_iff x id, eq_iff x j)

pub record Redis (S : Type 0) : Type 0 where
  pub pending : S → List String
  pub processing : S → List String
  pub job : S → String → Job
  pub lpush_pending : String → S → S
  pub lrem_processing : String → S → S
  pub brpoplpush : S → Option String × S
  pub hset : String → (Job → Job) → S → S
  pub pending-lpush : (id : String) (s : S) → pending (lpush_pending id s) ≡ id ∷ pending s
  pub processing-lpush : (id : String) (s : S) → processing (lpush_pending id s) ≡ processing s
  pub job-lpush : (id j : String) (s : S) → job (lpush_pending id s) j ≡ job s j
  pub processing-lrem :
      (id : String) (s : S) → processing (lrem_processing id s) ≡ remove id (processing s)
  pub pending-lrem : (id : String) (s : S) → pending (lrem_processing id s) ≡ pending s
  pub job-lrem : (id j : String) (s : S) → job (lrem_processing id s) j ≡ job s j
  pub brpoplpush-empty : (s : S) → pending s ≡ [] → brpoplpush s ≡ (none, s)
  pub brpoplpush-moves :
      (s : S) (ids : List String) (id : String)
      → pending s ≡ ids ++ id ∷ []
      → ((brpoplpush s).0 ≡ some id)
        × (pending ((brpoplpush s).1) ≡ ids)
        × (processing ((brpoplpush s).1) ≡ id ∷ processing s)
        × ((j : String) → job ((brpoplpush s).1) j ≡ job s j)
  pub pending-hset : (id : String) (f : Job → Job) (s : S) → pending (hset id f s) ≡ pending s
  pub processing-hset :
      (id : String) (f : Job → Job) (s : S) → processing (hset id f s) ≡ processing s
  pub job-hset :
      (id j : String) (f : Job → Job) (s : S)
      → job (hset id f s) j ≡ (if id == j then f (job s j) else job s j)
