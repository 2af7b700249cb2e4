-- ===== src/Resilience/Policy/Accounting.antt =====
-- The executor's counters and its events agree, and the policy bounds them.
use resilience_lab.Common.{
  ℕ, zero, suc, ◌+◌, ◌≤◌, ◌-◌, ◌≡◌, refl, Bool, true, false, Option, none, some, List, [], ◌∷◌,
  ◌++◌, arith, count, count-append, Bool-cases, if◌then◌else◌, inl, inr, max, subst,
}
use resilience_lab.Resilience.Errors.{CallFailure}
use resilience_lab.Resilience.Retry.{
  RetryConfig, Retry, Decision, returns, raises, should_retry, delay_before,
}
use resilience_lab.Resilience.Policy.{
  Policy, Shared, PolicyExecutor, PolicyEvent, attempt_event, Round, Result, returned, raised,
  escaped, interrupted, State, Next, finish, again, call, obey, decide, settle, round, loop,
  max_passes, Entry, execute, guarded, enter, fresh, passed, Admission, refused, admitted,
  refused_by_limiter, leave, leave_with, ask_breaker, deadline_of, for_circuit_open, reported,
  note_failure, timeout_event, retry_event, rejected_event, before_retry, cut_delay, is_deadline,
  attempt_of, for_deadline, for_read_timeout,
}
use resilience_lab.Resilience.Policy.Termination.{round-again, round-retries, retries_next}

abbrev pub is_attempt : PolicyEvent → Bool
is_attempt (attempt_event a) = true
is_attempt _ = false

-- How many attempts the events report.
abbrev pub attempts : PolicyExecutor → ℕ
attempts x = count is_attempt x.events

count-snoc :
    (e : PolicyEvent) (l : List PolicyEvent)
    → count is_attempt (l ++ e ∷ []) ≡ count is_attempt l + (if is_attempt e then 1 else 0)
count-snoc e l = omega (arith, count-append is_attempt l (e ∷ []))

-- An exception that is no `CallFailure` passes through unreported.
abbrev pub unreported : Result → ℕ
unreported escaped = 1
unreported _ = 0

-- A retry that a cancellation cut off in its sleep.
abbrev pub cut_off : Result → ℕ
cut_off interrupted = 1
cut_off _ = 0

-- What one pass adds to the counters, given what its call of the operation has added before.
abbrev Adds : ℕ → Next → PolicyExecutor → PolicyExecutor → Type 0
Adds k again x y =
    (y.calls ≡ x.calls + k) × (y.retries ≡ x.retries + 1) × (attempts y ≡ attempts x + k)
Adds k (finish r) x y =
    (y.calls ≤ x.calls + k)
    × (x.calls ≤ y.calls)
    × (x.calls + k + cut_off r ≤ y.calls + 1)
    × (y.retries ≡ x.retries + cut_off r)
    × (y.calls + attempts x ≡ x.calls + attempts y + unreported r)

call-quiet :
    (p : Policy) (d : Option ℕ) (r : Round) (x : PolicyExecutor)
    → ((call p d r x).1.calls ≡ x.calls)
      × ((call p d r x).1.retries ≡ x.retries)
      × (attempts (call p d r x).1 ≡ attempts x)
unfolding call
call-quiet p d r x = ground (arith, count-snoc (timeout_event for_read_timeout) x.events)

before_retry-Adds :
    (d : Option ℕ) (r : Round) (n : ℕ) (f : CallFailure) (retry : Retry) (s : State)
    → let (next, s') = before_retry d r n f retry s in Adds 0 next s.executor s'.executor
unfolding before_retry
before_retry-Adds d r n f retry s =
    let delay = cut_delay d r.after_failure (delay_before retry (n - 1) r.uniform) in
    ground (
      arith,
      count-snoc (timeout_event for_deadline) s.executor.events,
      count-snoc (retry_event (n + 1) delay f.status) s.executor.events,
    )

obey-Adds :
    (d : Option ℕ) (r : Round) (n : ℕ) (f : CallFailure) (retry : Retry) (c : Decision) (s : State)
    → let (next, s') = obey d r n f retry c s in Adds 0 next s.executor s'.executor
unfolding obey
obey-Adds d r n f retry (returns true) s = before_retry-Adds d r n f retry s
obey-Adds d r n f retry (returns false) s = omega arith
obey-Adds d r n f retry (raises g) s = omega arith

decide-Adds :
    (c : Option RetryConfig) (d : Option ℕ) (r : Round) (n : ℕ) (f : CallFailure) (s : State)
    → let (next, s') = decide c d r n f s in Adds 0 next s.executor s'.executor
unfolding decide
decide-Adds none d r n f s = omega arith
decide-Adds (some config) d r n f s =
    let retry : Retry = record { config = config; budget = s.shared.budget } in
    let asked = should_retry r.budgeted n f retry in
    obey-Adds d r n f asked.1 asked.0
      (record s { shared = record s.shared { budget = asked.1.budget } })

-- A pass that has called the operation and reported it before it decides.
Adds-after_call :
    (next : Next) (x y z : PolicyExecutor)
    → y.calls ≡ x.calls + 1
    → y.retries ≡ x.retries
    → attempts y ≡ attempts x + 1
    → Adds 0 next y z
    → Adds 1 next x z
Adds-after_call again x y z a b c h = omega arith
Adds-after_call (finish r) x y z a b c h = omega arith

module _ (p : Policy) (d : Option ℕ) (r : Round) (n : ℕ) (s : State) (x : PolicyExecutor)
    (calls : s.executor.calls ≡ x.calls + 1) (retries : s.executor.retries ≡ x.retries)
    (same : attempts s.executor ≡ attempts x) where
  failed-Adds :
      (f : CallFailure) → let (next, s') = settle p d r n (raised f) s in Adds 1 next x s'.executor
  unfolding settle
  failed-Adds f = elim (Bool-cases (is_deadline f.class)) [
    | inl e ↦ rw e (
        ground (
          arith,
          calls,
          retries,
          same,
          count-snoc (attempt_of (n + 1) false true none) s.executor.events,
        ))
    | inr e ↦
        let noted : State = record {
          executor = reported (n + 1) false false f.status s.executor;
          shared = note_failure r.recorded r.opened s.shared;
        } in
        rw e (
          Adds-after_call (decide p.retry d r (n + 1) f noted).0 x noted.executor
            (decide p.retry d r (n + 1) f noted).1.executor calls retries
            (omega
              (arith, same, count-snoc (attempt_of (n + 1) false false f.status) s.executor.events))
            (decide-Adds p.retry d r (n + 1) f noted))
  ]

  settle-Adds :
      (result : Result) → let (next, s') = settle p d r n result s in Adds 1 next x s'.executor
  unfolding settle
  settle-Adds (returned v) = omega (
    arith,
    calls,
    retries,
    same,
    count-snoc (attempt_of (n + 1) true false none) s.executor.events,
  )
  settle-Adds (raised f) = failed-Adds f
  settle-Adds escaped = omega (arith, calls, retries, same)
  settle-Adds interrupted = omega (arith, calls, retries, same)

round-Adds :
    (p : Policy) (d : Option ℕ) (n : ℕ) (r : Round) (s : State)
    → let (next, s') = round p d n r s in Adds 1 next s.executor s'.executor
unfolding round
round-Adds p d n r s = elim (Bool-cases (passed d r.top)) [
  | inl late ↦ rw late (ground (arith, count-snoc (timeout_event for_deadline) s.executor.events))
  | inr soon ↦
      let x : PolicyExecutor = record s.executor { calls = s.executor.calls + 1 } in
      let (a, b, c) = call-quiet p d r x in
      rw soon (
        settle-Adds p d r n
          (record {
            executor = (call p d r x).1;
            shared = if passed d r.at_call then s.shared else r.during_call s.shared;
          })
          s.executor a b c (call p d r x).0)
]

-- What the counters come to at the end of the loop.
abbrev Totals : PolicyExecutor → Result → PolicyExecutor → Type 0
Totals x r y =
    (y.calls + x.retries ≤ x.calls + y.retries + 1)
    × (x.calls + y.retries ≤ y.calls + x.retries)
    × (y.calls + attempts x ≡ x.calls + attempts y + unreported r)

Totals-step : (x y z : PolicyExecutor) (r : Result) → Adds 1 again x y → Totals y r z → Totals x r z
Totals-step x y z r a t = omega arith

finished :
    (x : PolicyExecutor) (n m : ℕ) (result r : Result) (t s' : State)
    → result ≡ r
    → t ≡ s'
    → (retries_next (finish result) ≡ true → n + 1 ≤ m)
    → Adds 1 (finish result) x t.executor
    → Totals x r s'.executor × (s'.executor.retries + n ≤ x.retries + max n m)
finished x n m result r t s' e f room adds =
    subst (λ q. Totals x q s'.executor × (s'.executor.retries + n ≤ x.retries + max n m)) e
      (subst
        (λ (u : State). Totals x result u.executor × (u.executor.retries + n ≤ x.retries + max n m))
        f (by_result result room adds))
  where
    by_result :
        (q : Result)
        → (retries_next (finish q) ≡ true → n + 1 ≤ m)
        → Adds 1 (finish q) x t.executor
        → Totals x q t.executor × (t.executor.retries + n ≤ x.retries + max n m)
    by_result (returned v) room adds = omega arith
    by_result (raised g) room adds = omega arith
    by_result escaped room adds = omega arith
    by_result interrupted room adds = omega (arith, room refl)

loop-Totals :
    (fuel : ℕ) (p : Policy) (d : Option ℕ) (n : ℕ) (env : ℕ → Round) (s s' : State) (r : Result)
    → loop fuel p d n env s ≡ some (r, s')
    → Totals s.executor r s'.executor
      × (s'.executor.retries + n ≤ s.executor.retries + max n (max_passes p - 2))
unfolding loop
loop-Totals zero p d n env s s' r e = cc
loop-Totals (suc fuel) p d n env s s' r e =
    go (round p d n (env n) s) refl (round-Adds p d n (env n) s)
      (λ t. loop-Totals fuel p d (suc n) env t s' r) e
  where
    go :
        (out : Next × State)
        → round p d n (env n) s ≡ out
        → Adds 1 out.0 s.executor out.1.executor
        → ((t : State)
            → loop fuel p d (suc n) env t ≡ some (r, s')
            → Totals t.executor r s'.executor
              × (s'.executor.retries + suc n ≤ t.executor.retries + max (suc n) (max_passes p - 2)))
        → let k : Option (Result × State) = elim out.0 [
          | finish result ↦ some (result, out.1)
          | again ↦ loop fuel p d (suc n) env out.1
        ] in
          k ≡ some (r, s')
          → Totals s.executor r s'.executor
            × (s'.executor.retries + n ≤ s.executor.retries + max n (max_passes p - 2))
    go (finish result, t) here adds rest eq =
        finished s.executor n (max_passes p - 2) result r t s' (ground arith) (ground arith)
          (λ k.
            let (config, has, left) = round-retries p d n (env n) s (rw here k) in
            ground (arith, has))
          adds
    go (again, t) here adds rest eq =
        let (config, has, left) = round-again p d n (env n) s t here in
        let (totals, bound) = rest t eq in
        let room : n + 1 ≤ max_passes p - 2 = ground (arith, has) in
        (Totals-step s.executor t.executor s'.executor r adds totals, omega arith)

guarded-Totals :
    (p : Policy) (e : Entry) (env : ℕ → Round) (s s' : State) (r : Result)
    → guarded p e env s ≡ some (r, s')
    → Totals s.executor r s'.executor
      × (s'.executor.retries ≤ s.executor.retries + (max_passes p - 2))
unfolding guarded
guarded-Totals p e env s s' r h = elim (Bool-cases (ask_breaker e.allowed_at s.shared).0) [
  | inl ok ↦
      let t : State = record s { shared = (ask_breaker e.allowed_at s.shared).1 } in
      let (totals, bound) =
        loop-Totals (max_passes p) p (deadline_of p e.start) 0 env t s' r (ground (arith, ok)) in
      (totals, omega arith)
  | inr no_entry ↦
      ground (arith, no_entry, count-snoc (rejected_event for_circuit_open) s.executor.events)
]

pub leave_with-inv :
    (o : Option (Result × State)) (r : Result) (s' : State)
    → leave_with o ≡ some (r, s')
    → (t : State) × (o ≡ some (r, t)) × (s'.executor ≡ t.executor) × (s'.shared ≡ leave t.shared)
leave_with-inv none r s' h = cc
leave_with-inv (some (q, t)) r s' h = (t, ground arith, ground arith, ground arith)

-- Whatever the environment does, when `execute` ends on a fresh executor the retries are at most
-- the passes that the policy allows less two (so at most `max_attempts - 1`, and none without a
-- retry policy), the operation is called at most once more than it is retried and at least as
-- often, and the calls number as the attempt events, plus one if an exception escaped from the
-- operation that is no `CallFailure`; a cancellation in the sleep before a retry adds none.
pub execute-counts :
    (p : Policy) (e : Entry) (env : ℕ → Round) (s : Shared) (r : Result) (s' : State)
    → execute p e env fresh s ≡ some (r, s')
    → let x = s'.executor in
      (x.retries ≤ max_passes p - 2)
      × (x.calls ≤ x.retries + 1)
      × (x.retries ≤ x.calls)
      × (x.calls ≡ attempts x + unreported r)
unfolding execute guarded
execute-counts p e env s r s' h = go (enter e s) h
  where
    go :
        (o : Option (Admission × Shared))
        → let k : Option (Result × State) = elim o [
          | none ↦ none
          | some (refused, t) ↦ some (refused_by_limiter fresh t)
          | some (admitted, t) ↦
              leave_with (guarded p e env (record { executor = fresh; shared = t }))
        ] in
          k ≡ some (r, s')
          → (s'.executor.retries ≤ max_passes p - 2)
            × (s'.executor.calls ≤ s'.executor.retries + 1)
            × (s'.executor.retries ≤ s'.executor.calls)
            × (s'.executor.calls ≡ attempts s'.executor + unreported r)
    go none eq = cc
    go (some (refused, t)) eq = ground (arith, eq)
    go (some (admitted, t)) eq =
        let start : State = record { executor = fresh; shared = t } in
        let (u, left, same, _) = leave_with-inv (guarded p e env start) r s' eq in
        let totals = guarded-Totals p e env start u r left in ground (arith, same, totals)
