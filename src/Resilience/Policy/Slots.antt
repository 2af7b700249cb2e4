-- ===== src/Resilience/Policy/Slots.antt =====
-- A call gives back the slot that it took, however it ends.
use resilience_lab.Common.{
  ℕ, zero, suc, ◌+◌, ◌-◌, ◌<◌, ◌≡◌, refl, ◌∙◌, true, false, Option, none, some, arith,
  if◌then◌else◌, Bool-cases, inl, inr,
}
use resilience_lab.Resilience.Errors.{CallFailure}
use resilience_lab.Resilience.Retry.{RetryConfig, Retry, Decision, returns, raises, should_retry}
use resilience_lab.Resilience.Concurrency
use resilience_lab.Resilience.Concurrency.{ConcurrencyLimiter}
use resilience_lab.Resilience.Policy
use resilience_lab.Resilience.Policy.Accounting.{leave_with-inv}
use resilience_lab.Resilience.Policy.{
  Policy, Shared, PolicyExecutor, Round, Result, returned, raised, escaped, interrupted, State,
  Next, finish, again, call, before_retry, obey, decide, settle, round, loop, max_passes, Entry,
  Admission, enter, guarded, execute, ask_breaker, leave, leave_with, deadline_of, passed, reported,
  note_success, note_failure, is_deadline,
}

-- Other calls leave the limiter as it is while this one awaits.
pub record LeavesLimiter (r : Round) : Type 0 where
  pub calling : (t : Shared) → (r.during_call t).limiter ≡ t.limiter
  pub sleeping : (t : Shared) → (r.during_sleep t).limiter ≡ t.limiter

module _ (d : Option ℕ) (r : Round) (alone : LeavesLimiter r) where
  before_retry-limiter :
      (n : ℕ) (f : CallFailure) (retry : Retry) (s : State)
      → (before_retry d r n f retry s).1.shared.limiter ≡ s.shared.limiter
  unfolding before_retry
  before_retry-limiter n f retry s = ground (arith, alone.sleeping s.shared)

  obey-limiter :
      (n : ℕ) (f : CallFailure) (retry : Retry) (c : Decision) (s : State)
      → (obey d r n f retry c s).1.shared.limiter ≡ s.shared.limiter
  unfolding obey
  obey-limiter n f retry (returns true) s = before_retry-limiter n f retry s
  obey-limiter n f retry (returns false) s = refl
  obey-limiter n f retry (raises g) s = refl

  decide-limiter :
      (c : Option RetryConfig) (n : ℕ) (f : CallFailure) (s : State)
      → (decide c d r n f s).1.shared.limiter ≡ s.shared.limiter
  unfolding decide
  decide-limiter none n f s = refl
  decide-limiter (some config) n f s =
      let retry : Retry = record { config = config; budget = s.shared.budget } in
      let asked = should_retry r.budgeted n f retry in
      obey-limiter n f asked.1 asked.0
        (record s { shared = record s.shared { budget = asked.1.budget } })

  note_failure-limiter : (s : Shared) → (note_failure r.recorded r.opened s).limiter ≡ s.limiter
  note_failure-limiter s = ground arith

  settle-limiter :
      (p : Policy) (n : ℕ) (result : Result) (s : State)
      → (settle p d r n result s).1.shared.limiter ≡ s.shared.limiter
  unfolding settle
  settle-limiter p n (returned v) s = ground arith
  settle-limiter p n (raised f) s = elim (Bool-cases (is_deadline f.class)) [
    | inl e ↦ rw e (note_failure-limiter s.shared)
    | inr e ↦
        let noted : State = record {
          executor = reported (n + 1) false false f.status s.executor;
          shared = note_failure r.recorded r.opened s.shared;
        } in
        rw e (decide-limiter p.retry (n + 1) f noted ∙ note_failure-limiter s.shared)
  ]
  settle-limiter p n escaped s = refl
  settle-limiter p n interrupted s = refl

  round-limiter :
      (p : Policy) (n : ℕ) (s : State) → (round p d n r s).1.shared.limiter ≡ s.shared.limiter
  unfolding round
  round-limiter p n s =
      let x : PolicyExecutor = record s.executor { calls = s.executor.calls + 1 } in
      let s'' : State = record {
        executor = (call p d r x).1;
        shared = if passed d r.at_call then s.shared else r.during_call s.shared;
      } in
      ground (arith, alone.calling s.shared, settle-limiter p n (call p d r x).0 s'')

loop-limiter :
    (fuel : ℕ) (p : Policy) (d : Option ℕ) (n : ℕ) (env : ℕ → Round) (s s' : State) (r : Result)
    → ((k : ℕ) → LeavesLimiter (env k))
    → loop fuel p d n env s ≡ some (r, s')
    → s'.shared.limiter ≡ s.shared.limiter
unfolding loop
loop-limiter zero p d n env s s' r alone e = cc
loop-limiter (suc fuel) p d n env s s' r alone e =
    go (round p d n (env n) s) (round-limiter d (env n) (alone n) p n s)
      (λ t. loop-limiter fuel p d (suc n) env t s' r alone) e
  where
    go :
        (out : Next × State)
        → out.1.shared.limiter ≡ s.shared.limiter
        → ((t : State)
            → loop fuel p d (suc n) env t ≡ some (r, s')
            → s'.shared.limiter ≡ t.shared.limiter)
        → let k : Option (Result × State) = elim out.0 [
          | finish result ↦ some (result, out.1)
          | again ↦ loop fuel p d (suc n) env out.1
        ] in
          k ≡ some (r, s') → s'.shared.limiter ≡ s.shared.limiter
    go (finish result, t) same rest eq = ground arith
    go (again, t) same rest eq = rest t eq ∙ same

guarded-limiter :
    (p : Policy) (e : Entry) (env : ℕ → Round) (s s' : State) (r : Result)
    → ((k : ℕ) → LeavesLimiter (env k))
    → guarded p e env s ≡ some (r, s')
    → s'.shared.limiter ≡ s.shared.limiter
unfolding guarded
guarded-limiter p e env s s' r alone h = elim (Bool-cases (ask_breaker e.allowed_at s.shared).0) [
  | inl ok ↦
      let t : State = record s { shared = (ask_breaker e.allowed_at s.shared).1 } in
      loop-limiter (max_passes p) p (deadline_of p e.start) 0 env t s' r alone (ground (arith, ok))
      ∙ asked
  | inr no_entry ↦ ground (arith, no_entry, asked)
]
  where
    asked : (ask_breaker e.allowed_at s.shared).1.limiter ≡ s.shared.limiter
    asked = ground arith

free_slot :
    (e : Entry) (s : Shared) (l : ConcurrencyLimiter)
    → s.limiter ≡ some l
    → l.active < l.limit
    → (enter e s
        ≡ some (Policy.admitted, record s { limiter = some (Concurrency.attempt e.task l).1 }))
      × ((Concurrency.attempt e.task l).1.active ≡ l.active + 1)
unfolding enter Concurrency.attempt
free_slot e s l has free = ground arith

active-release : (l : ConcurrencyLimiter) → (Concurrency.release l).active ≡ l.active - 1
unfolding Concurrency.release
active-release l = ground arith

-- If a call finds a free slot, other calls leave the limiter alone meanwhile, and `execute` ends,
-- then as many calls are in flight afterwards as before, however it ends.
pub execute-gives_back :
    (p : Policy) (e : Entry) (env : ℕ → Round) (x : PolicyExecutor) (s : Shared)
    (l : ConcurrencyLimiter) (r : Result) (s' : State)
    → ((k : ℕ) → LeavesLimiter (env k))
    → s.limiter ≡ some l
    → l.active < l.limit
    → execute p e env x s ≡ some (r, s')
    → (l' : ConcurrencyLimiter) × (s'.shared.limiter ≡ some l') × (l'.active ≡ l.active)
unfolding execute
execute-gives_back p e env x s l r s' alone has free h =
    let (enters, more) = free_slot e s l has free in
    let l1 : ConcurrencyLimiter = (Concurrency.attempt e.task l).1 in
    let start : State = record { executor = x; shared = record s { limiter = some l1 } } in
    let (t, ended, _, left) =
      leave_with-inv (guarded p e env start) r s' (rw (enters, execute) at h) in
    let kept = guarded-limiter p e env start t r alone ended in
    (Concurrency.release l1, ground (arith, left, kept), omega (arith, more, active-release l1))
