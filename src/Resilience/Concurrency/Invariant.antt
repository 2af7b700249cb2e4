-- ===== src/Resilience/Concurrency/Invariant.antt =====
-- What every interleaving of tasks keeps true of a limiter.
use resilience_lab.Common.{
  ℕ, ◌+◌, ◌-◌, ◌≤◌, ◌≡◌, refl, ◌≢◌, ◌⊎◌, inl, inr, Option, none, some, List, [], ◌∷◌, arith, length,
  length-append, ◌==◌, Option-cases, suc,
}
use resilience_lab.Common.Waiters.{pick, length-pick}
use resilience_lab.Resilience.Concurrency.{
  ConcurrencyLimitConfig, ConcurrencyLimiter, idle, Outcome, acquired, rejected, attempt,
  left_woken, resume, cancel, release, Event, acquires, resumes, cancels, releases, step, run,
}

abbrev WithinQueue : Option ℕ → ℕ → Type 0
WithinQueue none waiting = Unit {0}
WithinQueue (some q) waiting = waiting ≤ q

-- A limiter after some notifications were lost.
pub record IsValid (lost : ℕ) (l : ConcurrencyLimiter) : Type 0 where
  -- No more calls in flight than the limit.
  pub bounded : l.active ≤ l.limit
  -- The counter is the number of tasks in the queue.
  pub counted : l.waiting ≡ length l.cond.parked + length l.cond.woken
  -- No more tasks in the queue than its limit.
  pub queue_bounded : WithinQueue l.queue_limit l.waiting
  -- While a task sleeps, every free slot has a notified task on its way to it, or lost one.
  pub awake : l.cond.parked ≢ [] → l.limit ≤ l.active + length l.cond.woken + lost

-- The notifications lost after one more event: that of a notified task which is cancelled is.
abbrev pub lost_by : Event → ConcurrencyLimiter → ℕ → ℕ
lost_by (cancels task) l k = elim (pick (λ t. t == task) l.cond.parked) [
  | none ↦ elim (pick (λ t. t == task) l.cond.woken) [ none ↦ k | some (t, rest) ↦ suc k ]
  | some (t, rest) ↦ k
]
lost_by _ l k = k

-- The notifications lost after a history.
abbrev pub lost : ConcurrencyLimiter → List Event → ℕ → ℕ
lost l [] k = k
lost l (e ∷ es) k = lost (step l e) es (lost_by e l k)

attempt-IsValid : (k task : ℕ) (l : ConcurrencyLimiter) → IsValid k l → IsValid k (attempt task l).1
unfolding attempt
attempt-IsValid k task l v = ground (arith, length-append l.cond.parked (task ∷ []))

first_length : (xs : List ℕ) → (xs ≡ []) ⊎ ((x : ℕ) × (r : List ℕ) × (xs ≡ x ∷ r))
first_length [] = inl refl
first_length (x ∷ xs) = inr (x, xs, refl)

release-IsValid : (k : ℕ) (l : ConcurrencyLimiter) → IsValid k l → IsValid k (release l)
unfolding release
release-IsValid k l v = elim (first_length l.cond.parked) [
  | inl e ↦ ground (arith, e)
  | inr (x, r, e) ↦
      ground (arith, e, v.awake (λ none. cc (none, e)), length-append l.cond.woken (x ∷ []))
]

cancel-IsValid :
    (k task : ℕ) (l : ConcurrencyLimiter)
    → IsValid k l
    → IsValid (lost_by (cancels task) l k) (cancel task l)
unfolding cancel
cancel-IsValid k task l v = elim (Option-cases (pick (λ t. t == task) l.cond.parked)) [
  | inl e ↦ elim (Option-cases (pick (λ t. t == task) l.cond.woken)) [
    | inl f ↦ rw (e, cancel, lost_by) (rw (f, cancel, lost_by) v)
    | inr ((t, rest), f) ↦
        let shorter = length-pick (λ t. t == task) l.cond.woken t rest f in
        rw (e, cancel, lost_by) (rw (f, cancel, lost_by) (ground (arith, shorter)))
  ]
  | inr ((t, rest), e) ↦
      let shorter = length-pick (λ t. t == task) l.cond.parked t rest e in
      rw (e, cancel, lost_by)
        (ground (arith, shorter, v.awake (λ none. ground (arith, none, shorter))))
]

-- A notified task that resumes, and what `attempt` then does.
resume-IsValid :
    (k task : ℕ) (l : ConcurrencyLimiter)
    → IsValid k l
    → (resume task l ≡ none)
      ⊎ ((o : Outcome) × (m : ConcurrencyLimiter) × (resume task l ≡ some (o, m))
          × (o ≢ rejected)
          × IsValid k m)
unfolding resume
resume-IsValid k task l v = elim (Option-cases (pick (λ t. t == task) l.cond.woken)) [
  | inl e ↦ inl (rw (e, resume))
  | inr ((t, rest), e) ↦
      let shorter = length-pick (λ t. t == task) l.cond.woken t rest e in
      let m = left_woken rest l in
      inr (
        (attempt task m).0,
        (attempt task m).1,
        rw (e, resume),
        unfold attempt in λ r. ground (arith, shorter, r),
        unfold attempt in ground (arith, shorter, length-append l.cond.parked (task ∷ [])),
      )
]

step-IsValid :
    (k : ℕ) (l : ConcurrencyLimiter) (e : Event) → IsValid k l → IsValid (lost_by e l k) (step l e)
unfolding step
step-IsValid k l (acquires task) v = attempt-IsValid k task l v
step-IsValid k l (resumes task) v = elim (resume-IsValid k task l v) [
  | inl e ↦ rw e v
  | inr (o, m, e, _, w) ↦ rw e w
]
step-IsValid k l (cancels task) v = cancel-IsValid k task l v
step-IsValid k l releases v = release-IsValid k l v

run-IsValid :
    (k : ℕ) (l : ConcurrencyLimiter) (es : List Event)
    → IsValid k l
    → IsValid (lost l es k) (run l es)
unfolding run
run-IsValid k l [] v = v
run-IsValid k l (e ∷ es) v = run-IsValid (lost_by e l k) (step l e) es (step-IsValid k l e v)

idle-IsValid : (c : ConcurrencyLimitConfig) → IsValid 0 (idle c)
idle-IsValid c = record {
  bounded = omega arith;
  counted = omega arith;
  queue_bounded = go c.queue_limit;
  awake = λ h. absurd (h refl);
}
  where
    go : (q : Option ℕ) → WithinQueue q 0
    go none = tt
    go (some q) = omega arith

-- From an idle limiter every sequence of arrivals, resumptions, cancellations and releases keeps
-- the calls in flight within the limit, the waiting tasks within the queue's limit and counted
-- exactly, and, while a task sleeps, the calls in flight, the notified tasks and the
-- notifications lost by cancellations of notified tasks together at least the limit.
pub run-idle-IsValid :
    (c : ConcurrencyLimitConfig) (es : List Event) → IsValid (lost (idle c) es 0) (run (idle c) es)
run-idle-IsValid c es = run-IsValid 0 (idle c) es (idle-IsValid c)

-- After any history from an idle limiter, a notified task that resumes is never rejected.
pub resume-ne-rejected :
    (c : ConcurrencyLimitConfig) (es : List Event) (task : ℕ) (o : Outcome) (m : ConcurrencyLimiter)
    → resume task (run (idle c) es) ≡ some (o, m)
    → o ≢ rejected
resume-ne-rejected c es task o m e =
    elim (resume-IsValid (lost (idle c) es 0) task (run (idle c) es) (run-idle-IsValid c es)) [
      | inl n ↦ λ _. cc (n, e)
      | inr (o', m', e', ne, _) ↦ λ r. ne (cc (e, e', r))
    ]

-- In a full valid limiter whose queue has nobody notified, a release hands its slot to the task
-- that has waited longest, if that task resumes next; the limiter is then full again and the
-- queue one shorter.
pub release_serves_oldest :
    (k : ℕ) (l : ConcurrencyLimiter) (task : ℕ) (rest : List ℕ)
    → IsValid k l
    → 1 ≤ l.limit
    → l.active ≡ l.limit
    → l.cond.parked ≡ task ∷ rest
    → l.cond.woken ≡ []
    → (m : ConcurrencyLimiter) × (resume task (release l) ≡ some (acquired, m))
      × (m.active ≡ l.limit)
      × (m.cond.parked ≡ rest)
      × (m.cond.woken ≡ [])
      × (m.waiting + 1 ≡ l.waiting)
unfolding resume release attempt pick
release_serves_oldest k l task rest v h full parked woken = (
  record l { waiting = l.waiting - 1; cond = record { parked = rest; woken = [] } },
  ground arith,
  ground arith,
  ground arith,
  ground arith,
  ground (arith, v.counted),
)
