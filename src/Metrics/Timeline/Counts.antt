-- ===== src/Metrics/Timeline/Counts.antt =====
-- resiliencelab/metrics/timeline.py: the buckets count every row once, where the code has an index for it.
use resilience_lab.Common.{
  Bool-cases, leb, ◌==◌, false, ℕ, zero, suc, ◌+◌, ◌-◌, ◌/◌, ◌≤◌, ◌<◌, ◌≡◌, refl, ◌∙◌, ap, not,
  none, some, List, [], ◌∷◌, ltb, min, if◌then◌else◌, length, arith, All, Option-cases, inl, inr,
}
use resilience_lab.Metrics.Timeline.{
  RequestRow, DownstreamRow, first_time, Index, from_start, from_end, index_of, resolve, Bucket,
  empty_bucket, empty_buckets, update_at, one_if, count_request, count_downstream, tally,
  bucket_count, fill,
}

-- A count of all buckets together.
abbrev pub total : (Bucket → ℕ) → List Bucket → ℕ
total field [] = 0
total field (b ∷ bs) = field b + total field bs

abbrev weigh : {A : Type 0} → (A → ℕ) → List A → ℕ
weigh weight [] = 0
weigh weight (x ∷ xs) = weight x + weigh weight xs

length-update_at :
    (i : ℕ) (f : Bucket → Bucket) (bs : List Bucket) → length (update_at i f bs) ≡ length bs
length-update_at i f [] = refl
length-update_at zero f (b ∷ bs) = refl
length-update_at (suc i) f (b ∷ bs) = ap suc (length-update_at i f bs)

total-update_at :
    (field : Bucket → ℕ) (w i : ℕ) (f : Bucket → Bucket) (bs : List Bucket)
    → ((b : Bucket) → field (f b) ≡ field b + w)
    → i < length bs
    → total field (update_at i f bs) ≡ total field bs + w
total-update_at field w i f [] h inside = omega (arith, inside)
total-update_at field w zero f (b ∷ bs) h inside = omega (arith, h b)
total-update_at field w (suc i) f (b ∷ bs) h inside =
    omega (arith, total-update_at field w i f bs h (omega (arith, inside)))

resolve-inside : (n i : ℕ) (x : Index) → resolve n x ≡ some i → i < n
unfolding resolve
resolve-inside n i (from_start j) h = ground arith
resolve-inside n i (from_end k) h = ground arith

total-empty :
    (field : Bucket → ℕ) → field empty_bucket ≡ 0 → (n : ℕ) → total field (empty_buckets n) ≡ 0
total-empty field e zero = refl
total-empty field e (suc n) = omega (arith, e, total-empty field e n)

tally-total :
    {A : Type 0} (index : A → Index) (add : A → Bucket → Bucket) (field : Bucket → ℕ)
    (weight : A → ℕ) (xs : List A) (bs bs' : List Bucket)
    → ((x : A) (b : Bucket) → field (add x b) ≡ field b + weight x)
    → tally index add xs bs ≡ some bs'
    → (total field bs' ≡ total field bs + weigh weight xs) × (length bs' ≡ length bs)
unfolding tally
tally-total index add field weight [] bs bs' adds h = ground arith
tally-total index add field weight (x ∷ xs) bs bs' adds h =
    elim (Option-cases (resolve (length bs) (index x))) [
      | inl missing ↦ cc (rw (missing, tally) at h)
      | inr (i, found) ↦
          let (sum, size) =
            tally-total index add field weight xs (update_at i (add x) bs) bs' adds
              (rw (found, tally) at h) in
          (
            omega (
              arith,
              sum,
              total-update_at field (weight x) i (add x) bs (adds x)
                  (resolve-inside (length bs) i (index x) found),
            ),
            size ∙ length-update_at i (add x) bs,
          )
    ]

-- A row that is not earlier than the first request has a bucket.
index-found :
    (t0 bucket n t : ℕ) → 1 ≤ n → t0 ≤ t → (i : ℕ) × (resolve n (index_of t0 bucket n t) ≡ some i)
unfolding index_of resolve
index-found t0 bucket n t p h = (min ((t - t0) / bucket) (n - 1), ground arith)

-- A row that is earlier by no more whole buckets than there are has one, too.
index-found_early :
    (t0 bucket n t : ℕ)
    → 1 ≤ n
    → (t0 - t) / bucket ≤ n
    → (i : ℕ) × (resolve n (index_of t0 bucket n t) ≡ some i)
unfolding index_of resolve
index-found_early t0 bucket n t p h = elim (Bool-cases (leb t0 t)) [
  | inl late ↦ (min ((t - t0) / bucket) (n - 1), ground (arith, late))
  | inr early ↦ elim (Bool-cases ((t0 - t) / bucket == 0)) [
    | inl near ↦ (min 0 (n - 1), ground (arith, early, near))
    | inr far ↦ (n - suc ((t0 - t) / bucket - 1), ground (arith, early, far))
  ]
]

tally-found :
    {A : Type 0} (index : A → Index) (add : A → Bucket → Bucket) (n : ℕ) (xs : List A)
    (bs : List Bucket)
    → length bs ≡ n
    → All (λ x. (i : ℕ) × (resolve n (index x) ≡ some i)) xs
    → (bs' : List Bucket) × (tally index add xs bs ≡ some bs')
unfolding tally
tally-found index add n [] bs size h = (bs, refl)
tally-found index add n (x ∷ xs) bs size ((i, found), h) =
    let here : resolve (length bs) (index x) ≡ some i = rw size found in
    rw (here, tally)
      (tally-found index add n xs (update_at i (add x) bs) (length-update_at i (add x) bs ∙ size) h)

first-le : (t : ℕ) (rs : List RequestRow) → first_time t rs ≤ t
first-le t [] = omega arith
first-le t (r ∷ rs) = omega (arith, first-le (min t r.t) rs)

first-le_all : (t : ℕ) (rs : List RequestRow) → All (λ r. first_time t rs ≤ r.t) rs
first-le_all t [] = tt
first-le_all t (r ∷ rs) = (omega (arith, first-le (min t r.t) rs), first-le_all (min t r.t) rs)

length-empty : (n : ℕ) → length (empty_buckets n) ≡ n
length-empty zero = refl
length-empty (suc n) = ap suc (length-empty n)

all_found :
    {A : Type 0} (time : A → ℕ) (t0 bucket n : ℕ)
    → 1 ≤ n
    → (xs : List A) → All (λ x. t0 ≤ time x) xs
    → All (λ x. (i : ℕ) × (resolve n (index_of t0 bucket n (time x)) ≡ some i)) xs
all_found time t0 bucket n p [] h = tt
all_found time t0 bucket n p (x ∷ xs) (k, h) =
    (index-found t0 bucket n (time x) p k, all_found time t0 bucket n p xs h)

all_found_early :
    {A : Type 0} (time : A → ℕ) (t0 bucket n : ℕ)
    → 1 ≤ n
    → (xs : List A) → All (λ x. (t0 - time x) / bucket ≤ n) xs
    → All (λ x. (i : ℕ) × (resolve n (index_of t0 bucket n (time x)) ≡ some i)) xs
all_found_early time t0 bucket n p [] h = tt
all_found_early time t0 bucket n p (x ∷ xs) (k, h) =
    (index-found_early t0 bucket n (time x) p k, all_found_early time t0 bucket n p xs h)

-- What the buckets of a timeline count, all together.
pub record Conserves (rs : List RequestRow) (ds : List DownstreamRow) (bs : List Bucket)
    : Type 0 where
  pub of_requests : total (λ b. b.requests_count) bs ≡ length rs
  pub of_errors : total (λ b. b.errors) bs ≡ weigh (λ r. one_if (not r.success)) rs
  pub of_timeouts : total (λ b. b.timeouts) bs ≡ weigh (λ r. one_if r.timeout) rs
  pub of_downstreams : total (λ b. b.down_counts) bs ≡ length ds
  pub of_failures : total (λ b. b.down_failures) bs ≡ weigh (λ d. one_if (not d.success)) ds
  pub of_retries : total (λ b. b.retries) bs ≡ weigh (λ d. one_if (ltb 1 d.attempt)) ds

weigh-one : {A : Type 0} (xs : List A) → weigh (λ x. 1) xs ≡ length xs
weigh-one [] = refl
weigh-one (x ∷ xs) = omega (arith, weigh-one xs)

weigh-none : {A : Type 0} (xs : List A) → weigh (λ x. 0) xs ≡ 0
weigh-none [] = refl
weigh-none (x ∷ xs) = omega (arith, weigh-none xs)

-- What the two loops add to one count.
loops-total :
    (field : Bucket → ℕ) (of_request : RequestRow → ℕ) (of_downstream : DownstreamRow → ℕ)
    (bucket : ℕ) (r : RequestRow) (rest : List RequestRow) (ds : List DownstreamRow)
    (bs : List Bucket)
    → (bucket == 0) ≡ false
    → field empty_bucket ≡ 0
    → ((q : RequestRow) (b : Bucket) → field (count_request q b) ≡ field b + of_request q)
    → ((d : DownstreamRow) (b : Bucket) → field (count_downstream d b) ≡ field b + of_downstream d)
    → fill bucket r rest ds ≡ some bs
    → total field bs ≡ weigh of_request (r ∷ rest) + weigh of_downstream ds
unfolding fill
loops-total field of_request of_downstream bucket r rest ds bs long e by_request by_downstream h =
    let n = bucket_count bucket r rest in
    let index = index_of (first_time r.t rest) bucket n in
    let first = tally (λ (q : RequestRow). index q.t) count_request (r ∷ rest) (empty_buckets n) in
    elim (Option-cases first) [
      | inl missing ↦ cc (rw (missing, fill) at (rw (long, fill) at h))
      | inr (middle, found) ↦
          let (sum, size) =
            tally-total (λ q. index q.t) count_request field of_request (r ∷ rest) (empty_buckets n)
              middle by_request found in
          let (sum', size') =
            tally-total (λ d. index d.t) count_downstream field of_downstream ds middle bs
              by_downstream (rw (found, fill) at (rw (long, fill) at h)) in
          omega (arith, sum, sum', total-empty field e n)
    ]

-- What the buckets count grows by just the rows filled in.
fill-Conserves :
    (bucket : ℕ) (r : RequestRow) (rest : List RequestRow) (ds : List DownstreamRow)
    (bs : List Bucket)
    → (bucket == 0) ≡ false
    → fill bucket r rest ds ≡ some bs
    → Conserves (r ∷ rest) ds bs
fill-Conserves bucket r rest ds bs long h = record {
  of_requests =
      loops-total (λ b. b.requests_count) (λ q. 1) (λ d. 0) bucket r rest ds bs long refl
        (λ q b. refl) (λ d b. omega arith) h
      ∙ omega (arith, weigh-one (r ∷ rest), weigh-none ds);
  of_errors =
      loops-total (λ b. b.errors) (λ q. one_if (not q.success)) (λ d. 0) bucket r rest ds bs long
        refl (λ q b. refl) (λ d b. omega arith) h
      ∙ omega (arith, weigh-none ds);
  of_timeouts =
      loops-total (λ b. b.timeouts) (λ q. one_if q.timeout) (λ d. 0) bucket r rest ds bs long refl
        (λ q b. refl) (λ d b. omega arith) h
      ∙ omega (arith, weigh-none ds);
  of_downstreams =
      loops-total (λ b. b.down_counts) (λ q. 0) (λ d. 1) bucket r rest ds bs long refl
        (λ q b. omega arith) (λ d b. refl) h
      ∙ omega (arith, weigh-none (r ∷ rest), weigh-one ds);
  of_failures =
      loops-total (λ b. b.down_failures) (λ q. 0) (λ d. one_if (not d.success)) bucket r rest ds bs
        long refl (λ q b. omega arith) (λ d b. refl) h
      ∙ omega (arith, weigh-none (r ∷ rest));
  of_retries =
      loops-total (λ b. b.retries) (λ q. 0) (λ d. one_if (ltb 1 d.attempt)) bucket r rest ds bs long
        refl (λ q b. omega arith) (λ d b. refl) h
      ∙ omega (arith, weigh-none (r ∷ rest));
}

-- When buckets have a length and no downstream row is earlier than the first request by more
-- whole buckets than there are, the buckets can be filled, and their counts of requests, errors,
-- timeouts, downstream calls, failures and retries add up to those of the rows.
pub fill-found :
    (bucket : ℕ) (r : RequestRow) (rest : List RequestRow) (ds : List DownstreamRow)
    → 0 < bucket
    → All (λ d. (first_time r.t rest - d.t) / bucket ≤ bucket_count bucket r rest) ds
    → (bs : List Bucket) × (fill bucket r rest ds ≡ some bs) × Conserves (r ∷ rest) ds bs
unfolding fill
fill-found bucket r rest ds positive h =
    let long : (bucket == 0) ≡ false = ground arith in
    let n = bucket_count bucket r rest in
    let t0 = first_time r.t rest in
    let (middle, found) =
      tally-found (λ (q : RequestRow). index_of t0 bucket n q.t) count_request n (r ∷ rest)
        (empty_buckets n) (length-empty n)
        (all_found (λ (q : RequestRow). q.t) t0 bucket n (omega arith) (r ∷ rest)
          (first-le r.t rest, first-le_all r.t rest)) in
    let (same, size) =
      tally-total (λ (q : RequestRow). index_of t0 bucket n q.t) count_request
        (λ b. b.requests_count) (λ q. 1) (r ∷ rest) (empty_buckets n) middle (λ q b. refl) found in
    let (bs, filled) =
      tally-found (λ (d : DownstreamRow). index_of t0 bucket n d.t) count_downstream n ds middle
        (size ∙ length-empty n)
        (all_found_early (λ (d : DownstreamRow). d.t) t0 bucket n (omega arith) ds h) in
    let whole : fill bucket r rest ds ≡ some bs = rw (long, fill) (rw (found, fill) filled) in
    (bs, whole, fill-Conserves bucket r rest ds bs long whole)

-- A row that is whole buckets earlier than the first request goes to a bucket counted from the end, and
-- to none when it is earlier by more buckets than there are.
early_row :
    (t0 bucket n t k : ℕ)
    → t < t0
    → (t0 - t) / bucket ≡ suc k
    → resolve n (index_of t0 bucket n t) ≡ (if ltb k n then some (n - suc k) else none)
unfolding resolve index_of
early_row t0 bucket n t k early quotient = ground (arith, quotient)
