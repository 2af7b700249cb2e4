-- ===== src/Resilience/Retry/SlidingWindow.antt =====
-- A retry budget against its contract: never more than `max_retries` grants in any window.
use resilience_lab.Common.{
  ℕ, ◌+◌, ◌≤◌, ◌≡◌, refl, Bool, true, false, ◌&&◌, List, [], ◌∷◌, ◌++◌, arith, ltb, leb,
  if◌then◌else◌, length, count, count-append, All, All-append, Bool-cases, ap, ◌∙◌, subst, inl, inr,
}
use mathlib.Core.List.{append-nil, append_assoc}
use resilience_lab.Common.Deque.{
  popleft_while, reject, IsOrdered, IsOrdered-snoc, popleft-eq-reject, IsOrdered-reject,
  reject-reject, reject-snoc, All-mono,
}
use resilience_lab.Resilience.Retry.Budget.{RetryBudget, expired, acquire}

-- The times at which `acquire` grants, out of the times of its calls.
abbrev pub grants : RetryBudget → List ℕ → List ℕ
grants b [] = []
grants b (t ∷ ts) =
    let rest = grants (acquire t b).1 ts in if (acquire t b).0 then t ∷ rest else rest

-- Whether a time lies in the window that begins at `start`, both ends included.
abbrev pub in_window : ℕ → ℕ → ℕ → Bool
in_window start window t = leb start t && leb t (start + window)

abbrev pub IsForward : ℕ → List ℕ → Type 0
IsForward now [] = Unit {0}
IsForward now (t ∷ ts) = (now ≤ t) × IsForward t ts

-- What the budget holds at the time `now` after it granted the times `seen`.
record Holds (now : ℕ) (seen : List ℕ) (b : RetryBudget) : Type 0 where
  kept : b.timestamps ≡ reject (expired now b.window) seen
  ordered : IsOrdered (λ t. t) seen
  past : All (λ t. t ≤ now) seen
  bounded : (start : ℕ) → count (in_window start b.window) seen ≤ b.max_retries

pruned :
    (now t : ℕ) (seen : List ℕ) (b : RetryBudget)
    → now ≤ t
    → Holds now seen b
    → popleft_while (expired t b.window) b.timestamps ≡ reject (expired t b.window) seen
pruned now t seen b le h =
    ap (popleft_while (expired t b.window)) h.kept
    ∙ popleft-eq-reject (λ s. s) (expired t b.window) (reject (expired now b.window) seen)
        (λ x y p e. ground arith) (IsOrdered-reject (λ s. s) (expired now b.window) seen h.ordered)
    ∙ reject-reject (expired now b.window) (expired t b.window) seen (λ x e. ground arith)

-- A window that reaches to `t` holds no grant that has expired by then.
count-le-live :
    (start window t : ℕ) (seen : List ℕ)
    → t ≤ start + window
    → count (in_window start window) seen ≤ length (reject (expired t window) seen)
unfolding reject
count-le-live start window t [] h = omega arith
count-le-live start window t (s ∷ seen) h = ground (arith, count-le-live start window t seen h)

module _ (now t : ℕ) (seen : List ℕ) (b : RetryBudget) (le : now ≤ t) (h : Holds now seen b) where
  past' : All (λ s. s ≤ t) seen
  past' = All-mono (λ s. s ≤ now) (λ s. s ≤ t) seen (λ s p. omega arith) h.past

  refused-Holds :
      ltb (length (popleft_while (expired t b.window) b.timestamps)) b.max_retries ≡ false
      → ((acquire t b).0 ≡ false) × Holds t seen (acquire t b).1
  unfolding acquire
  refused-Holds full =
      rw (full, acquire)
        (
          refl,
          record {
            kept = pruned now t seen b le h;
            ordered = h.ordered;
            past = past';
            bounded = h.bounded;
          },
        )

  granted-Holds :
      ltb (length (popleft_while (expired t b.window) b.timestamps)) b.max_retries ≡ true
      → ((acquire t b).0 ≡ true) × Holds t (seen ++ t ∷ []) (acquire t b).1
  unfolding acquire
  granted-Holds room =
      rw (room, acquire)
        (
          refl,
          record {
            kept =
                rw (
                  reject-snoc (expired t b.window) seen t (ground arith),
                  pruned now t seen b le h,
                );
            ordered = IsOrdered-snoc (λ s. s) seen t h.ordered past';
            past = All-append (λ s. s ≤ t) seen (t ∷ []) past' (omega arith);
            bounded = λ start. ground (
              arith,
              h.bounded start,
              count-append (in_window start b.window) seen (t ∷ []),
              count-le-live start b.window t seen,
              ap (λ (l : List ℕ). length l) (pruned now t seen b le h),
            );
          },
        )

window-acquire :
    (t : ℕ) (b : RetryBudget)
    → ((acquire t b).1.window ≡ b.window) × ((acquire t b).1.max_retries ≡ b.max_retries)
unfolding acquire
window-acquire t b = ground arith

grants-bounded :
    (w m now : ℕ) (seen : List ℕ) (b : RetryBudget) (ts : List ℕ)
    → b.window ≡ w
    → b.max_retries ≡ m
    → IsForward now ts
    → Holds now seen b
    → (start : ℕ) → count (in_window start w) (seen ++ grants b ts) ≤ m
grants-bounded w m now seen b [] ew em f h start =
    rw append-nil
      (subst (λ v. count (in_window start v) seen ≤ m) ew (omega (arith, h.bounded start)))
grants-bounded w m now seen b (t ∷ ts) ew em f h start =
    elim (Bool-cases
      (ltb (length (popleft_while (expired t b.window) b.timestamps)) b.max_retries)) [
        | inl room ↦
            let (e, h') = granted-Holds now t seen b f.0 h room in
            rw e (
              rw (← append_assoc seen (t ∷ []) (grants (acquire t b).1 ts)) (
                grants-bounded w m t (seen ++ t ∷ []) (acquire t b).1 ts
                  ((window-acquire t b).0 ∙ ew) ((window-acquire t b).1 ∙ em) f.1 h' start))
        | inr full ↦
            let (e, h') = refused-Holds now t seen b f.0 h full in
            rw e (
              grants-bounded w m t seen (acquire t b).1 ts ((window-acquire t b).0 ∙ ew)
                ((window-acquire t b).1 ∙ em) f.1 h' start)
      ]

-- From an empty budget, if the clock does not run backwards, every window of the configured
-- length, both ends included, holds at most `max_retries` grants.
pub grants-in_window :
    (b : RetryBudget) (ts : List ℕ) (start : ℕ)
    → b.timestamps ≡ []
    → IsForward 0 ts
    → count (in_window start b.window) (grants b ts) ≤ b.max_retries
unfolding reject
grants-in_window b ts start empty f =
    grants-bounded b.window b.max_retries 0 [] b ts refl refl f
      (record { kept = empty; ordered = tt; past = tt; bounded = λ s. omega arith }) start
