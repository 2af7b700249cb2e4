-- ===== src/Analysis/Recovery.antt =====
-- resiliencelab/analysis/recovery.py: the first sustained recovery after a degradation. A sample is a
-- time and a value; the two gates, products of fractions in the code, are given by their values.
use resilience_lab.Common.{
  ℕ, ◌+◌, ◌≤◌, ◌<◌, ◌≡◌, subst, Bool, true, false, Option, none, some, List, [], ◌∷◌, ltb, leb,
  if◌then◌else◌, arith, All, Bool-cases, inl, inr,
}
use resilience_lab.Common.Deque.{IsOrdered, All-mono}

abbrev Series : Type 0
Series = List (ℕ × ℕ)

-- `all(rr >= gate for tt, rr in series[i:] if tt <= t + stability_window)`
unfoldable pub throughput_sustaining : ℕ → ℕ → Series → Bool
throughput_sustaining gate until [] = true
throughput_sustaining gate until ((t, r) ∷ rest) =
    let later = throughput_sustaining gate until rest in
    if leb t until then (if leb gate r then later else false) else later

-- Over a sorted series.
unfoldable pub latency_recovery_sustained : ℕ → ℕ → ℕ → Series → Bool
latency_recovery_sustained max_latency until after [] = true
latency_recovery_sustained max_latency until after ((t, p95) ∷ rest) =
    let later = latency_recovery_sustained max_latency until after rest in
    if ltb t after
    then later
    else if ltb until t
    then true
    else if ltb max_latency p95
    then false
    else later

-- The gates of a search: the latency gate is there when a series of latencies is.
pub record Gates : Type 0 where
  pub throughput : ℕ
  pub max_latency : ℕ
  pub latencies : Series
  pub stability_window : ℕ
  pub after : ℕ

abbrev latency_ok : Gates → ℕ → Bool
latency_ok g t =
    latency_recovery_sustained g.max_latency (t + g.stability_window) g.after g.latencies

-- Whether the search stops at a sample, the first of `rest`.
abbrev recovers : Gates → ℕ → ℕ → Series → Bool
recovers g t r rest =
    if ltb t g.after
    then false
    else if ltb r g.throughput
    then false
    else if throughput_sustaining g.throughput (t + g.stability_window) rest
    then latency_ok g t
    else false

unfoldable pub first_sustained_recovery : Gates → Series → Option ℕ
first_sustained_recovery g [] = none
first_sustained_recovery g ((t, r) ∷ rest) =
    let later = first_sustained_recovery g rest in
    if recovers g t r ((t, r) ∷ rest) then some t else later

-- The samples of a stretch of time satisfy the gate.
abbrev pub Within : ℕ → ℕ → (ℕ → Type 0) → Series → Type 0
Within from until P series = All (λ s. from ≤ s.0 → s.0 ≤ until → P s.1) series

sustaining-Within :
    (gate until : ℕ) (series : Series)
    → throughput_sustaining gate until series ≡ true
    → Within 0 until (λ r. gate ≤ r) series
unfolding throughput_sustaining
sustaining-Within gate until [] h = tt
sustaining-Within gate until ((t, r) ∷ rest) h =
    (λ from to. ground (arith, h), sustaining-Within gate until rest (ground (arith, h)))

too_late : (a b c : ℕ) → a ≤ b → b < c → c ≤ a → ⊥
too_late a b c h k l = omega arith

beyond-Within :
    (from until : ℕ) (P : ℕ → Type 0) (t : ℕ) (series : Series)
    → until < t
    → All (λ s. t ≤ s.0) series
    → Within from until P series
beyond-Within from until P t [] h o = tt
beyond-Within from until P t (s ∷ rest) h o =
    (λ a b. absurd (too_late s.0 until t b h o.0), beyond-Within from until P t rest h o.1)

latency-Within :
    (max_latency until after : ℕ) (series : Series)
    → IsOrdered (λ s. s.0) series
    → latency_recovery_sustained max_latency until after series ≡ true
    → Within after until (λ p95. p95 ≤ max_latency) series
unfolding latency_recovery_sustained
latency-Within max_latency until after [] o h = tt
latency-Within max_latency until after ((t, p95) ∷ rest) o h = elim (Bool-cases (ltb t after)) [
  | inl early ↦ (
    λ a b. ground (arith, early),
    latency-Within max_latency until after rest o.1 (ground (arith, early, h)),
  )
  | inr due ↦ elim (Bool-cases (ltb until t)) [
    | inl over ↦ (
      λ a b. ground (arith, over),
      beyond-Within after until (λ p. p ≤ max_latency) t rest (ground (arith, over)) o.0,
    )
    | inr still ↦ (
      λ a b. ground (arith, due, still, h),
      latency-Within max_latency until after rest o.1 (ground (arith, due, still, h)),
    )
  ]
]

-- What a sample at which the search stops has shown.
stops_here :
    (g : Gates) (t r : ℕ) (rest : Series)
    → recovers g t r rest ≡ true
    → (g.after ≤ t)
      × (g.throughput ≤ r)
      × (throughput_sustaining g.throughput (t + g.stability_window) rest ≡ true)
      × (latency_ok g t ≡ true)
stops_here g t r rest h = elim (Bool-cases (ltb t g.after)) [
  | inl early ↦ cc (rw early at h)
  | inr due ↦ elim (Bool-cases (ltb r g.throughput)) [
    | inl low ↦ cc (rw (due, low) at h)
    | inr high ↦
        elim (Bool-cases (throughput_sustaining g.throughput (t + g.stability_window) rest)) [
          | inl on ↦ (ground (arith, due), ground (arith, high), on, rw (due, high, on) at h)
          | inr off ↦ cc (rw (due, high, off) at h)
        ]
  ]
]

found_later :
    (g : Gates) (series : Series) (start t : ℕ)
    → All (λ s. start ≤ s.0) series
    → first_sustained_recovery g series ≡ some t
    → start ≤ t
unfolding first_sustained_recovery
found_later g [] start t o e = cc
found_later g ((u, r) ∷ rest) start t o e = elim (Bool-cases (recovers g u r ((u, r) ∷ rest))) [
  | inl good ↦ ground (arith, rw good at e, o.0)
  | inr bad ↦ found_later g rest start t o.1 (rw bad at e)
]

same_time : (a b : ℕ) → some a ≡ some b → a ≡ b
same_time a b e = cc

-- What the search has read of the two series when it finds a recovery.
recovery_shown :
    (g : Gates) (series : Series) (t : ℕ)
    → IsOrdered (λ s. s.0) series
    → IsOrdered (λ s. s.0) g.latencies
    → first_sustained_recovery g series ≡ some t
    → (g.after ≤ t)
      × Within (t + 1) (t + g.stability_window) (λ r. g.throughput ≤ r) series
      × Within g.after (t + g.stability_window) (λ p95. p95 ≤ g.max_latency) g.latencies
unfolding first_sustained_recovery
recovery_shown g [] t o l e = cc
recovery_shown g ((u, r) ∷ rest) t o l e = elim (Bool-cases (recovers g u r ((u, r) ∷ rest))) [
  | inl good ↦
      let shown = stops_here g u r ((u, r) ∷ rest) good in
      let until = u + g.stability_window in
      subst
        (λ v.
          (g.after ≤ v)
          × Within (v + 1) (v + g.stability_window) (λ x. g.throughput ≤ x) ((u, r) ∷ rest)
          × Within g.after (v + g.stability_window) (λ p95. p95 ≤ g.max_latency) g.latencies)
        (same_time u t (rw good at e))
        (
          shown.0,
          All-mono (λ s. 0 ≤ s.0 → s.0 ≤ until → g.throughput ≤ s.1)
              (λ s. u + 1 ≤ s.0 → s.0 ≤ until → g.throughput ≤ s.1) ((u, r) ∷ rest)
              (λ s f a b. f (omega arith) b)
              (sustaining-Within g.throughput until ((u, r) ∷ rest) shown.2),
          latency-Within g.max_latency until g.after g.latencies l shown.3,
        )
  | inr bad ↦
      let rest_e = rw bad at e in
      let later = recovery_shown g rest t o.1 l rest_e in
      let before : u ≤ t = found_later g rest u t o.0 rest_e in
      (later.0, (λ a b. absurd (too_late u t (t + 1) before (omega arith) a), later.1), later.2)
]

-- When the search finds a recovery at a time in series that are sorted by time, that time is not
-- before the degradation, and up to the end of the stability window every later throughput meets
-- its gate and every latency from that time on is within its own.
pub first_sustained_recovery_lem :
    (g : Gates) (series : Series) (t : ℕ)
    → IsOrdered (λ s. s.0) series
    → IsOrdered (λ s. s.0) g.latencies
    → first_sustained_recovery g series ≡ some t
    → (g.after ≤ t)
      × Within (t + 1) (t + g.stability_window) (λ r. g.throughput ≤ r) series
      × Within t (t + g.stability_window) (λ p95. p95 ≤ g.max_latency) g.latencies
first_sustained_recovery_lem g series t o l e =
    let (due, throughputs, latencies) = recovery_shown g series t o l e in
    let until = t + g.stability_window in
    (
      due,
      throughputs,
      All-mono (λ s. g.after ≤ s.0 → s.0 ≤ until → s.1 ≤ g.max_latency)
          (λ s. t ≤ s.0 → s.0 ≤ until → s.1 ≤ g.max_latency) g.latencies
          (λ s f a b. f (omega arith) b) latencies,
    )
