-- ===== src/Metrics/Timeline.antt =====
-- resiliencelab/metrics/timeline.py, with the filters of resiliencelab/metrics/transforms.py: the rows of a run
-- in buckets of equal length. Times are in ticks and the rates of a bucket are its counts; the percentiles
-- of its latencies, which are floating-point numbers, are left out.
pub mod Counts
use resilience_lab.Common.{
  ℕ, zero, suc, ◌+◌, ◌-◌, ◌/◌, Bool, true, false, not, Option, none, some, List, [], ◌∷◌, ltb, leb,
  ◌==◌, min, max, if◌then◌else◌, length,
}

pub data CircuitEvent : Type 0 where
  circuit_open circuit_close circuit_half_open other_event : CircuitEvent

pub record RequestRow : Type 0 where
  pub t : ℕ
  pub success : Bool
  pub timeout : Bool

pub record DownstreamRow : Type 0 where
  pub t : ℕ
  pub success : Bool
  pub attempt : ℕ

pub data Record : Type 0 where
  request : RequestRow → Record
  downstream : DownstreamRow → Record
  event : ℕ → CircuitEvent → Record

abbrev pub requests : List Record → List RequestRow
requests [] = []
requests (request r ∷ rest) = r ∷ requests rest
requests (_ ∷ rest) = requests rest

abbrev downstreams : List Record → List DownstreamRow
downstreams [] = []
downstreams (downstream d ∷ rest) = d ∷ downstreams rest
downstreams (_ ∷ rest) = downstreams rest

abbrev pub events : List Record → List (ℕ × CircuitEvent)
events [] = []
events (event t e ∷ rest) = (t, e) ∷ events rest
events (_ ∷ rest) = events rest

-- `min(r["t"] for r in reqs)` and `max(…)`, over the first request and the others.
abbrev pub first_time : ℕ → List RequestRow → ℕ
first_time t [] = t
first_time t (r ∷ rest) = first_time (min t r.t) rest

abbrev last_time : ℕ → List RequestRow → ℕ
last_time t [] = t
last_time t (r ∷ rest) = last_time (max t r.t) rest

-- A Python index: `from_end k` is the negative index -(k + 1).
pub data Index : Type 0 where
  from_start from_end : ℕ → Index

-- `min(int((t - t0) / bucket), n - 1)`; `int` drops the fraction of a negative quotient, too.
unfoldable pub index_of : ℕ → ℕ → ℕ → ℕ → Index
index_of t0 bucket n t =
    if leb t0 t
    then from_start (min ((t - t0) / bucket) (n - 1))
    else if (t0 - t) / bucket == 0
    then from_start (min 0 (n - 1))
    else from_end ((t0 - t) / bucket - 1)

-- Where a list of length `n` has an index; `none` is `IndexError`.
unfoldable pub resolve : ℕ → Index → Option ℕ
resolve n (from_start i) = if ltb i n then some i else none
resolve n (from_end k) = if ltb k n then some (n - suc k) else none

pub record Bucket : Type 0 where
  pub requests_count : ℕ
  pub errors : ℕ
  pub timeouts : ℕ
  pub retries : ℕ
  pub down_counts : ℕ
  pub down_failures : ℕ

abbrev pub empty_bucket : Bucket
empty_bucket = record {
  requests_count = 0;
  errors = 0;
  timeouts = 0;
  retries = 0;
  down_counts = 0;
  down_failures = 0;
}

abbrev pub empty_buckets : ℕ → List Bucket
empty_buckets zero = []
empty_buckets (suc n) = empty_bucket ∷ empty_buckets n

abbrev pub update_at : ℕ → (Bucket → Bucket) → List Bucket → List Bucket
update_at i f [] = []
update_at zero f (b ∷ bs) = f b ∷ bs
update_at (suc i) f (b ∷ bs) = b ∷ update_at i f bs

abbrev pub one_if : Bool → ℕ
one_if true = 1
one_if false = 0

abbrev pub count_request : RequestRow → Bucket → Bucket
count_request r b = record b {
  requests_count = b.requests_count + 1;
  errors = b.errors + one_if (not r.success);
  timeouts = b.timeouts + one_if r.timeout;
}

abbrev pub count_downstream : DownstreamRow → Bucket → Bucket
count_downstream d b = record b {
  down_counts = b.down_counts + 1;
  down_failures = b.down_failures + one_if (not d.success);
  retries = b.retries + one_if (ltb 1 d.attempt);
}

-- `for x in xs: idx = …; buckets[idx] += …`
unfoldable pub tally :
    {A : Type 0} → (A → Index) → (A → Bucket → Bucket) → List A → List Bucket → Option (List Bucket)
tally index add [] buckets = some buckets
tally index add (x ∷ xs) buckets = elim (resolve (length buckets) (index x)) [
  | none ↦ none
  | some i ↦ tally index add xs (update_at i (add x) buckets)
]

-- The state that the last circuit event of a bucket names.
abbrev circuit_after :
    (ℕ → Index) → ℕ → Option CircuitEvent → List (ℕ × CircuitEvent) → Option CircuitEvent
circuit_after index i state [] = state
circuit_after index i state ((t, other_event) ∷ rest) = circuit_after index i state rest
circuit_after index i state ((t, e) ∷ rest) = elim (index t) [
  | from_start j ↦ circuit_after index i (if i == j then some e else state) rest
  | from_end k ↦ circuit_after index i state rest
]

-- The buckets with their circuit states, in order.
abbrev pub numbered :
    (ℕ → Option CircuitEvent) → ℕ → List Bucket → List (Bucket × Option CircuitEvent)
numbered state i [] = []
numbered state i (b ∷ bs) = (b, state i) ∷ numbered state (suc i) bs

abbrev pub bucket_count : ℕ → RequestRow → List RequestRow → ℕ
bucket_count bucket r rest = (last_time r.t rest - first_time r.t rest) / bucket + 1

-- The counts of all buckets, for at least one request; `none` is an exception: `IndexError`, or
-- `ZeroDivisionError` for buckets of no length.
unfoldable pub fill : ℕ → RequestRow → List RequestRow → List DownstreamRow → Option (List Bucket)
fill bucket r rest ds =
    let n = bucket_count bucket r rest in
    let index = index_of (first_time r.t rest) bucket n in
    if bucket == 0
    then none
    else elim (tally (λ q. index q.t) count_request (r ∷ rest) (empty_buckets n)) [
      | none ↦ none
      | some buckets ↦ tally (λ d. index d.t) count_downstream ds buckets
    ]

unfoldable build_timeline : List Record → ℕ → Option (List (Bucket × Option CircuitEvent))
build_timeline records bucket = elim (requests records) [
  | [] ↦ some []
  | r ∷ rest ↦ elim (fill bucket r rest (downstreams records)) [
    | none ↦ none
    | some buckets ↦ some (
        numbered
          (λ i.
            circuit_after (index_of (first_time r.t rest) bucket (bucket_count bucket r rest)) i
              none (events records))
          0 buckets)
  ]
]
