-- ===== src/Resilience/Policy/Termination.antt =====
-- The executor's loop ends: the retry policy bounds its passes.
use resilience_lab.Common.{
  Bool, ℕ, zero, suc, ◌+◌, ◌≤◌, ◌<◌, ◌≡◌, refl, inl, inr, Option, none, some, arith, Bool-cases,
  if◌then◌else◌, true, false,
}
use resilience_lab.Resilience.Errors.{CallFailure}
use resilience_lab.Resilience.Retry.{RetryConfig, Retry, should_retry, returns}
use resilience_lab.Resilience.Policy.{
  Policy, Shared, PolicyExecutor, Round, Result, returned, raised, escaped, interrupted, State,
  Next, finish, again, call, decide, settle, round, loop, max_passes, Entry, Admission, admitted,
  refused, enter, guarded, execute, ask_breaker, leave, leave_with, deadline_of, refused_by_breaker,
  refused_by_limiter, passed, reported, note_failure,
}

-- A policy asks for another pass after `n + 1` attempts.
abbrev Asks : Policy → ℕ → Type 0
Asks p n = (config : RetryConfig) × (p.retry ≡ some config) × (n + 1 < config.max_attempts)

-- The pass counts a retry.
abbrev pub retries_next : Next → Bool
retries_next again = true
retries_next (finish interrupted) = true
retries_next (finish _) = false

retry_left :
    (now attempts : ℕ) (f : CallFailure) (r : Retry)
    → (should_retry now attempts f r).0 ≡ returns true
    → attempts < r.max_attempts
unfolding should_retry
retry_left now attempts f r h = ground arith

decide-retries :
    (c : Option RetryConfig) (d : Option ℕ) (r : Round) (n : ℕ) (f : CallFailure) (s : State)
    → retries_next (decide c d r n f s).0 ≡ true
    → (config : RetryConfig) × (c ≡ some config) × (n < config.max_attempts)
unfolding decide
decide-retries none d r n f s h = cc
decide-retries (some config) d r n f s h =
    let asked : Retry = record { config = config; budget = s.shared.budget } in
    (config, refl, ground (arith, retry_left r.budgeted n f asked))

settle-retries :
    (p : Policy) (d : Option ℕ) (r : Round) (n : ℕ) (result : Result) (s : State)
    → retries_next (settle p d r n result s).0 ≡ true
    → Asks p n
unfolding settle
settle-retries p d r n (returned v) s h = cc
settle-retries p d r n (raised f) s h =
    let s' : State = record {
      executor = reported (n + 1) false false f.status s.executor;
      shared = note_failure r.recorded r.opened s.shared;
    } in
    ground (arith, decide-retries p.retry d r (n + 1) f s')
settle-retries p d r n escaped s h = cc
settle-retries p d r n interrupted s h = cc

pub round-retries :
    (p : Policy) (d : Option ℕ) (n : ℕ) (r : Round) (s : State)
    → retries_next (round p d n r s).0 ≡ true
    → Asks p n
unfolding round
round-retries p d n r s h =
    let x : PolicyExecutor = record s.executor { calls = s.executor.calls + 1 } in
    let s'' : State = record {
      executor = (call p d r x).1;
      shared = if passed d r.at_call then s.shared else r.during_call s.shared;
    } in
    ground (arith, settle-retries p d r n (call p d r x).0 s'')

pub round-again :
    (p : Policy) (d : Option ℕ) (n : ℕ) (r : Round) (s s' : State)
    → round p d n r s ≡ (again, s')
    → Asks p n
round-again p d n r s s' h = round-retries p d n r s (rw h refl)

-- With positive fuel that, added to the passes already made, reaches the passes that the policy
-- allows, the retry loop ends, whatever the environment does.
loop_total :
    (fuel : ℕ) (p : Policy) (d : Option ℕ) (n : ℕ) (env : ℕ → Round) (s : State)
    → 0 < fuel
    → max_passes p ≤ n + fuel
    → (out : Result × State) × (loop fuel p d n env s ≡ some out)
unfolding loop
loop_total zero p d n env s h m = absurd (omega arith)
loop_total (suc fuel) p d n env s h m =
    go (round p d n (env n) s) refl (λ s'. loop_total fuel p d (suc n) env s')
  where
    go :
        (out : Next × State)
        → round p d n (env n) s ≡ out
        → ((s' : State)
            → 0 < fuel
            → max_passes p ≤ suc n + fuel
            → (res : Result × State) × (loop fuel p d (suc n) env s' ≡ some res))
        → (res : Result × State) × (elim out.0 [
          | finish result ↦ some (result, out.1)
          | again ↦ loop fuel p d (suc n) env out.1
        ]
            ≡ some res)
    go (finish result, s') e rest = ((result, s'), refl)
    go (again, s') e rest =
        let (config, has, left) = round-again p d n (env n) s s' e in
        rest s' (ground (arith, has)) (omega arith)

max_passes_pos : (p : Policy) → 0 < max_passes p
max_passes_pos p = ground arith

guarded_total :
    (p : Policy) (e : Entry) (env : ℕ → Round) (s : State)
    → (out : Result × State) × (guarded p e env s ≡ some out)
unfolding guarded
guarded_total p e env s = elim (Bool-cases (ask_breaker e.allowed_at s.shared).0) [
  | inl ok ↦
      let s' : State = record s { shared = (ask_breaker e.allowed_at s.shared).1 } in
      let (out, eq) =
        loop_total (max_passes p) p (deadline_of p e.start) 0 env s' (max_passes_pos p)
          (omega arith) in
      (out, ground (arith, ok, eq))
  | inr no_entry ↦ (
    refused_by_breaker s.executor (ask_breaker e.allowed_at s.shared).1,
    ground (arith, no_entry),
  )
]

left_total :
    (p : Policy) (e : Entry) (env : ℕ → Round) (s : State)
    → (out : Result × State) × (leave_with (guarded p e env s) ≡ some out)
left_total p e env s =
    let ((r, s'), eq) = guarded_total p e env s in
    ((r, record s' { shared = leave s'.shared }), rw eq)

-- If the call is admitted or refused by the limiter, `execute` comes to a result, whatever the
-- environment does.
pub execute_total :
    (p : Policy) (e : Entry) (env : ℕ → Round) (x : PolicyExecutor) (s : Shared)
    (a : Admission × Shared)
    → enter e s ≡ some a
    → (out : Result × State) × (execute p e env x s ≡ some out)
unfolding execute
execute_total p e env x s (refused, s') h = (refused_by_limiter x s', rw (h, execute))
execute_total p e env x s (admitted, s') h =
    let (out, eq) = left_total p e env (record { executor = x; shared = s' }) in
    (out, rw (h, execute) eq)
