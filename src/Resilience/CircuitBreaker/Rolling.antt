-- ===== src/Resilience/CircuitBreaker/Rolling.antt =====
-- What the rolling window of a breaker holds.
use resilience_lab.Common.{
  ℕ, ◌≤◌, ◌≡◌, refl, ◌≢◌, Bool, true, false, some, List, [], ◌∷◌, ◌++◌, arith, All, ◌∙◌, All-append,
  ap,
}
use mathlib.Core.List.{append-nil, append_assoc}
use resilience_lab.Common.Deque.{
  popleft_while, reject, IsOrdered, IsOrdered-snoc, popleft-reject-snoc, All-mono,
}
use resilience_lab.Resilience.CircuitBreaker.{
  CircuitBreaker, allow, is_stale, record_success, record_failure, Call, allows, successes,
  failures, resets, step, run,
}

-- The outcomes that a history reports, each with its time.
abbrev pub outcomes : List Call → List (ℕ × Bool)
outcomes [] = []
outcomes (allows now ∷ cs) = outcomes cs
outcomes (successes now ∷ cs) = (now, true) ∷ outcomes cs
outcomes (failures now later ∷ cs) = (now, false) ∷ outcomes cs
outcomes (resets ∷ cs) = outcomes cs

-- The time of the last outcome, `now` if there is none.
abbrev pub latest : ℕ → List (ℕ × Bool) → ℕ
latest now [] = now
latest now (o ∷ os) = latest o.0 os

-- Times do not run backwards, from `now` on.
abbrev pub IsForward : ℕ → List (ℕ × Bool) → Type 0
IsForward now [] = Unit {0}
IsForward now (o ∷ os) = (now ≤ o.0) × IsForward o.0 os

record Remembers (w now : ℕ) (seen : List (ℕ × Bool)) (b : CircuitBreaker) : Type 0 where
  window : b.rolling_window ≡ some w
  kept : b.recent ≡ reject (is_stale now w) seen
  ordered : IsOrdered (λ e. e.0) seen
  past : All (λ e. e.0 ≤ now) seen

stale_mono : (n w : ℕ) (x y : ℕ × Bool) → x.0 ≤ y.0 → is_stale n w y ≡ true → is_stale n w x ≡ true
stale_mono n w x y le h = ground arith

stale-later : (m n w : ℕ) (x : ℕ × Bool) → m ≤ n → is_stale m w x ≡ true → is_stale n w x ≡ true
stale-later m n w x le h = ground arith

-- One outcome, at a time that is not before the last.
outcome-Remembers :
    (w now later : ℕ) (ok : Bool) (seen : List (ℕ × Bool)) (b c : CircuitBreaker)
    → now ≤ later
    → Remembers w now seen b
    → c.rolling_window ≡ b.rolling_window
    → c.recent ≡ popleft_while (is_stale later w) b.recent ++ (later, ok) ∷ []
    → Remembers w later (seen ++ (later, ok) ∷ []) c
outcome-Remembers w now later ok seen b c le r same new = record {
  window = same ∙ r.window;
  kept =
      new
      ∙ ap (λ l. popleft_while (is_stale later w) l ++ (later, ok) ∷ []) r.kept
      ∙ popleft-reject-snoc (λ e. e.0) (is_stale now w) (is_stale later w) seen (later, ok)
          (λ x y. stale_mono later w x y) (λ x. stale-later now later w x le) (ground arith)
          r.ordered;
  ordered = IsOrdered-snoc (λ e. e.0) seen (later, ok) r.ordered past';
  past = All-append (λ e. e.0 ≤ later) seen ((later, ok) ∷ []) past' (omega arith);
}
  where
    past' : All (λ e. e.0 ≤ later) seen
    past' = All-mono (λ e. e.0 ≤ now) (λ e. e.0 ≤ later) seen (λ e h. omega arith) r.past

success-recent :
    (w now : ℕ) (b : CircuitBreaker)
    → b.rolling_window ≡ some w
    → ((record_success now b).rolling_window ≡ b.rolling_window)
      × ((record_success now b).recent
          ≡ popleft_while (is_stale now w) b.recent ++ (now, true) ∷ [])
unfolding record_success
success-recent w now b h = ground arith

failure-recent :
    (w now later : ℕ) (b : CircuitBreaker)
    → b.rolling_window ≡ some w
    → ((record_failure now later b).rolling_window ≡ b.rolling_window)
      × ((record_failure now later b).recent
          ≡ popleft_while (is_stale now w) b.recent ++ (now, false) ∷ [])
unfolding record_failure
failure-recent w now later b h = ground arith

allow-Remembers :
    (w now t : ℕ) (seen : List (ℕ × Bool)) (b : CircuitBreaker)
    → Remembers w now seen b
    → Remembers w now seen (allow t b).1
unfolding allow
allow-Remembers w now t seen b r = record {
  window = ground (arith, r.window);
  kept = ground (arith, r.kept);
  ordered = r.ordered;
  past = r.past;
}

run-Remembers :
    (w now : ℕ) (seen : List (ℕ × Bool)) (b : CircuitBreaker) (cs : List Call)
    → All (λ c. c ≢ resets) cs
    → IsForward now (outcomes cs)
    → Remembers w now seen b
    → Remembers w (latest now (outcomes cs)) (seen ++ outcomes cs) (run b cs)
unfolding run step
run-Remembers w now seen b [] n f r = rw append-nil r
run-Remembers w now seen b (allows t ∷ cs) n f r =
    run-Remembers w now seen (allow t b).1 cs n.1 f (allow-Remembers w now t seen b r)
run-Remembers w now seen b (successes t ∷ cs) n f r =
    let (same, new) = success-recent w t b r.window in
    rw (← append_assoc seen ((t, true) ∷ []) (outcomes cs)) (
      run-Remembers w t (seen ++ (t, true) ∷ []) (record_success t b) cs n.1 f.1
        (outcome-Remembers w now t true seen b (record_success t b) f.0 r same new))
run-Remembers w now seen b (failures t u ∷ cs) n f r =
    let (same, new) = failure-recent w t u b r.window in
    rw (← append_assoc seen ((t, false) ∷ []) (outcomes cs)) (
      run-Remembers w t (seen ++ (t, false) ∷ []) (record_failure t u b) cs n.1 f.1
        (outcome-Remembers w now t false seen b (record_failure t u b) f.0 r same new))
run-Remembers w now seen b (resets ∷ cs) n f r = absurd (n.0 refl)

-- After a history without resets whose outcomes come in the order of time, a breaker with a
-- rolling window that began empty remembers exactly the outcomes that are not older than the
-- window at the time of the last one.
run-recent :
    (w now : ℕ) (b : CircuitBreaker) (cs : List Call)
    → b.rolling_window ≡ some w
    → b.recent ≡ []
    → All (λ c. c ≢ resets) cs
    → IsForward now (outcomes cs)
    → (run b cs).recent ≡ reject (is_stale (latest now (outcomes cs)) w) (outcomes cs)
unfolding reject
run-recent w now b cs window empty n f =
    (run-Remembers w now [] b cs n f
      (record { window = window; kept = empty; ordered = tt; past = tt })).kept
