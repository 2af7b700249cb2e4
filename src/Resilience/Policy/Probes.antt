-- ===== src/Resilience/Policy/Probes.antt =====
-- What a call leaves of the breaker's probes. `allow` takes a probe before the loop, and only an
-- outcome that is recorded gives it back.
use resilience_lab.Common.{ℕ, ◌+◌, ◌≤◌, ◌≡◌, refl, true, some, List, arith}
use resilience_lab.Resilience.Errors.{deadline}
use resilience_lab.Resilience.CircuitBreaker.{CircuitBreaker, open_state, half_open, allow}
use resilience_lab.Resilience.CircuitBreaker.Window.{admitted, admitted_half_open}
use resilience_lab.Resilience.Policy
use resilience_lab.Resilience.Policy.{
  Policy, Shared, PolicyExecutor, Round, Result, raised, escaped, State, Next, finish, round, loop,
  max_passes, Entry, Admission, enter, guarded, execute, ask_breaker, leave, leave_with,
  deadline_of, passed, end_by_deadline,
}

-- A breaker whose probes are all taken, once it is half open, admits nobody any more.
pub record IsStuck (b : CircuitBreaker) : Type 0 where
  pub half : b.state ≡ half_open
  pub no_probe : b.half_open_inflight ≡ b.half_open_probes

stuck-admitted : (b : CircuitBreaker) (times : List ℕ) → IsStuck b → admitted b times ≡ 0
stuck-admitted b times k = omega (arith, admitted_half_open b times k.half, k.no_probe)

first_probe :
    (now : ℕ) (b : CircuitBreaker)
    → b.state ≡ open_state
    → b.half_open_probes ≡ 1
    → b.opened_at + b.recovery_window ≤ now
    → ((allow now b).0 ≡ true) × IsStuck (allow now b).1
unfolding allow
first_probe now b o one h = ground arith

late_loop :
    (p : Policy) (d : ℕ) (env : ℕ → Round) (s : State)
    → d ≤ (env 0).top
    → loop (max_passes p) p (some d) 0 env s ≡ some (raised deadline, (end_by_deadline s).1)
unfolding loop round
late_loop p d env s late = ground arith

-- The state at the start of the loop of a call that was given a probe.
abbrev with_probe : ℕ → PolicyExecutor → Shared → CircuitBreaker → State
with_probe now x t b = record { executor = x; shared = record t { breaker = some (allow now b).1 } }

late_guarded :
    (p : Policy) (e : Entry) (env : ℕ → Round) (x : PolicyExecutor) (t : Shared)
    (b : CircuitBreaker) (d : ℕ)
    → t.breaker ≡ some b
    → (allow e.allowed_at b).0 ≡ true
    → deadline_of p e.start ≡ some d
    → d ≤ (env 0).top
    → guarded p e env (record { executor = x; shared = t })
      ≡ some (raised deadline, (end_by_deadline (with_probe e.allowed_at x t b)).1)
unfolding guarded
late_guarded p e env x t b d has ok due late =
    ground (arith, has, ok, due, late_loop p d env (with_probe e.allowed_at x t b) late)

breaker-leave : (s : Shared) → (leave s).breaker ≡ s.breaker
breaker-leave s = ground arith

-- When the recovery window of an open breaker with one probe is over, and the deadline of an
-- admitted call has passed before its first attempt, the call raises `DeadlineExceeded` without
-- calling the operation and leaves the breaker half-open, and however many calls ask it, at any
-- times, while nothing is recorded, it admits none of them.
pub deadline_leaks_probe :
    (p : Policy) (e : Entry) (env : ℕ → Round) (x : PolicyExecutor) (s t : Shared)
    (b : CircuitBreaker) (d : ℕ)
    → enter e s ≡ some (Policy.admitted, t)
    → t.breaker ≡ some b
    → b.state ≡ open_state
    → b.half_open_probes ≡ 1
    → b.opened_at + b.recovery_window ≤ e.allowed_at
    → deadline_of p e.start ≡ some d
    → d ≤ (env 0).top
    → (s' : State) × (b' : CircuitBreaker) × (execute p e env x s ≡ some (raised deadline, s'))
      × (s'.shared.breaker ≡ some b')
      × (s'.executor.calls ≡ x.calls)
      × (b'.state ≡ half_open)
      × ((times : List ℕ) → admitted b' times ≡ 0)
unfolding execute
deadline_leaks_probe p e env x s t b d enters has o one over due late =
    let (ok, stuck) = first_probe e.allowed_at b o one over in
    let ended : State = (end_by_deadline (with_probe e.allowed_at x t b)).1 in
    (
      record ended { shared = leave ended.shared },
      (allow e.allowed_at b).1,
      rw (enters, execute) (rw (late_guarded p e env x t b d has ok due late)),
      breaker-leave ended.shared,
      refl,
      stuck.half,
      λ times. stuck-admitted (allow e.allowed_at b).1 times stuck,
    )
