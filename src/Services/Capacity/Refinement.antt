-- ===== src/Services/Capacity/Refinement.antt =====
-- A service's capacity behaves as a concurrency limiter with the same limits.
use mathlib.Core.List.{map-append}
use resilience_lab.Common.{
  ℕ, ◌≤◌, ◌≡◌, refl, ap, ◌∙◌, inl, inr, Option, none, some, List, [], ◌∷◌, map, arith, ◌==◌,
  Option-cases,
}
use resilience_lab.Common.Waiters.{Condition, pick, pick-map, map_pick, notify}
use resilience_lab.Resilience.Concurrency
use resilience_lab.Resilience.Concurrency.{ConcurrencyLimiter}
use resilience_lab.Resilience.Concurrency.Invariant
use resilience_lab.Services.Capacity.{
  ServiceCapacity, idle, is_task, left_woken, after_resume, attempt, resume, cancel, release, Event,
  acquires, resumes, cancels, releases, step, run,
}

-- The capacity without its peak and its waiting times.
abbrev forget_cond : Condition (ℕ × ℕ) → Condition ℕ
forget_cond c = record { parked = map (λ e. e.0) c.parked; woken = map (λ e. e.0) c.woken }

abbrev pub forget : ServiceCapacity → ConcurrencyLimiter
forget s = record {
  config = record { limit = s.max_concurrency; queue_limit = s.queue_limit };
  active = s.active;
  waiting = s.waiting;
  cond = forget_cond s.cond;
  rejected_count = s.rejected_count;
}

abbrev pub forget_event : Event → Concurrency.Event
forget_event (acquires task now) = Concurrency.acquires task
forget_event (resumes task now) = Concurrency.resumes task
forget_event (cancels task) = Concurrency.cancels task
forget_event releases = Concurrency.releases

attempt-forget :
    (task : ℕ) (q : Option ℕ) (now : ℕ) (s : ServiceCapacity)
    → forget (attempt task q now s).1 ≡ (Concurrency.attempt task (forget s)).1
unfolding attempt Concurrency.attempt
attempt-forget task none now s =
    ground (arith, map-append (λ (e : ℕ × ℕ). e.0) s.cond.parked ((task, now) ∷ []))
attempt-forget task (some t) now s =
    ground (arith, map-append (λ (e : ℕ × ℕ). e.0) s.cond.parked ((task, t) ∷ []))

notify-forget :
    (parked woken : List (ℕ × ℕ))
    → forget_cond (notify (record { parked = parked; woken = woken }))
      ≡ notify (forget_cond (record { parked = parked; woken = woken }))
notify-forget [] woken = refl
notify-forget (e ∷ rest) woken = ground (arith, map-append (λ (e : ℕ × ℕ). e.0) woken (e ∷ []))

release-forget : (s : ServiceCapacity) → forget (release s) ≡ Concurrency.release (forget s)
unfolding release Concurrency.release
release-forget s = ground (arith, notify-forget s.cond.parked s.cond.woken)

cancel-forget :
    (task : ℕ) (s : ServiceCapacity) → forget (cancel task s) ≡ Concurrency.cancel task (forget s)
unfolding cancel Concurrency.cancel
cancel-forget task s = ground (
  arith,
  pick-map (λ (e : ℕ × ℕ). e.0) (λ t. t == task) s.cond.parked,
  pick-map (λ (e : ℕ × ℕ). e.0) (λ t. t == task) s.cond.woken,
)

resume_absent :
    (task now : ℕ) (s : ServiceCapacity)
    → pick (is_task task) s.cond.woken ≡ none
    → resume task now s ≡ none
unfolding resume
resume_absent task now s e = rw (e, resume)

resume_present :
    (task now : ℕ) (s : ServiceCapacity) (entry : ℕ × ℕ) (rest : List (ℕ × ℕ))
    → pick (is_task task) s.cond.woken ≡ some (entry, rest)
    → resume task now s ≡ some (attempt task (some entry.1) now (left_woken rest s))
unfolding resume
resume_present task now s entry rest e = rw (e, resume)

limiter_resumes :
    (task : ℕ) (l : ConcurrencyLimiter) (o : Option (ℕ × List ℕ))
    → pick (λ t. t == task) l.cond.woken ≡ o
    → Concurrency.resume task l ≡ elim o [
      | none ↦ none
      | some (t, rest) ↦ some (Concurrency.attempt task (Concurrency.left_woken rest l))
    ]
unfolding Concurrency.resume
limiter_resumes task l o e = rw (e, Concurrency.resume)

resume-forget :
    (task now : ℕ) (s : ServiceCapacity)
    → forget (after_resume s (resume task now s))
      ≡ Concurrency.after_resume (forget s) (Concurrency.resume task (forget s))
resume-forget task now s = elim (Option-cases (pick (is_task task) s.cond.woken)) [
  | inl e ↦ rw (resume_absent task now s e, limiter_resumes task (forget s) none (rw e at picked))
  | inr ((entry, rest), e) ↦
      rw
        (
          resume_present task now s entry rest e,
          limiter_resumes task (forget s) (some (entry.0, map (λ (x : ℕ × ℕ). x.0) rest))
              (rw e at picked),
        )
        (attempt-forget task (some entry.1) now (left_woken rest s))
]
  where
    picked :
        pick (λ t. t == task) (map (λ (x : ℕ × ℕ). x.0) s.cond.woken)
        ≡ map_pick (λ (x : ℕ × ℕ). x.0) (λ t. t == task) (pick (is_task task) s.cond.woken)
    picked = pick-map (λ (x : ℕ × ℕ). x.0) (λ t. t == task) s.cond.woken

step-forget :
    (s : ServiceCapacity) (e : Event)
    → forget (step s e) ≡ Concurrency.step (forget s) (forget_event e)
unfolding step Concurrency.step
step-forget s (acquires task now) = attempt-forget task none now s
step-forget s (resumes task now) = resume-forget task now s
step-forget s (cancels task) = cancel-forget task s
step-forget s releases = release-forget s

-- Every history of a service's capacity is, but for the peak and the waiting times, the history
-- of a concurrency limiter with the same limits.
pub run-forget :
    (s : ServiceCapacity) (es : List Event)
    → forget (run s es) ≡ Concurrency.run (forget s) (map forget_event es)
unfolding run Concurrency.run
run-forget s [] = refl
run-forget s (e ∷ es) =
    run-forget (step s e) es ∙ ap (λ l. Concurrency.run l (map forget_event es)) (step-forget s e)

-- From idle slots, every history of a service's capacity keeps the requests in process within the
-- capacity and the queue within its limit, and leaves no request asleep while the requests in
-- process, the notified ones and the notifications lost together are fewer than the capacity.
capacity_run-IsValid :
    (max_concurrency : ℕ) (queue_limit : Option ℕ) (es : List Event)
    → Invariant.IsValid
        (Invariant.lost (forget (idle max_concurrency queue_limit)) (map forget_event es) 0)
        (forget (run (idle max_concurrency queue_limit) es))
capacity_run-IsValid m q es =
    rw (run-forget (idle m q) es)
      (Invariant.run-idle-IsValid (record { limit = m; queue_limit = q }) (map forget_event es))

step-peak :
    (s : ServiceCapacity) (e : Event)
    → s.waiting ≤ s.peak_queue_depth
    → ((step s e).waiting ≤ (step s e).peak_queue_depth)
      × (s.peak_queue_depth ≤ (step s e).peak_queue_depth)
unfolding step
step-peak s (acquires task now) h = ground arith
step-peak s (resumes task now) h = ground arith
step-peak s (cancels task) h = ground arith
step-peak s releases h = ground arith

run-peak_le :
    (s : ServiceCapacity) (es : List Event)
    → s.waiting ≤ s.peak_queue_depth
    → ((run s es).waiting ≤ (run s es).peak_queue_depth)
      × (s.peak_queue_depth ≤ (run s es).peak_queue_depth)
unfolding run
run-peak_le s [] h = omega arith
run-peak_le s (e ∷ es) h =
    omega (arith, step-peak s e h, run-peak_le (step s e) es (step-peak s e h).0)

-- The recorded peak is at least the length of the queue at every earlier moment of a history from
-- idle slots, and at that moment itself.
peak-bounds_queue :
    (max_concurrency : ℕ) (queue_limit : Option ℕ) (es later : List Event)
    → let s = run (idle max_concurrency queue_limit) es in
      s.waiting ≤ (run s later).peak_queue_depth
peak-bounds_queue m q es later =
    let s = run (idle m q) es in
    omega (
      arith,
      run-peak_le (idle m q) es (omega arith),
      run-peak_le s later (run-peak_le (idle m q) es (omega arith)).0,
    )
