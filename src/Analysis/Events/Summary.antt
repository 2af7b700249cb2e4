-- ===== src/Analysis/Events/Summary.antt =====
-- resiliencelab/analysis/events.py: what a summary counts, and what a filter leaves.
use text.Mathlib.Text.{◌==◌}
use text.Mathlib.TextEquality.{eq_iff}
use resilience_lab.Common.{ℕ, ◌+◌, String, ◌≡◌, refl, Bool, ◌&&◌, List, [], ◌∷◌, count, arith}
use resilience_lab.Common.Dict.{lookup, store, lookup-store}
use resilience_lab.Events.{Event}
use resilience_lab.Analysis.Events.{
  Filter, matches, filter_events, counted, counter, event_types, event_summary,
}

counted-counter :
    (k : String) (counts : List (String × ℕ)) (ks : List String)
    → counted k (counter counts ks) ≡ counted k counts + count (λ j. j == k) ks
unfolding counter
counted-counter k counts [] = omega arith
counted-counter k counts (j ∷ ks) = ground (
  arith,
  counted-counter k (store j (counted j counts + 1) counts) ks,
  lookup-store k j (counted j counts + 1) counts,
  eq_iff j k,
)

count-event_types :
    (k : String) (es : List Event)
    → count (λ j. j == k) (event_types es) ≡ count (λ (e : Event). e.report.event_type == k) es
count-event_types k [] = refl
count-event_types k (e ∷ es) = ground (arith, count-event_types k es)

count-filter_events :
    (f : Filter) (p : Event → Bool) (es : List Event)
    → count p (filter_events f es) ≡ count (λ e. matches f e && p e) es
unfolding filter_events
count-filter_events f p [] = refl
count-filter_events f p (e ∷ es) = ground (arith, count-filter_events f p es)

filter_events_comm :
    (f g : Filter) (es : List Event)
    → filter_events f (filter_events g es) ≡ filter_events g (filter_events f es)
unfolding filter_events
filter_events_comm f g [] = refl
filter_events_comm f g (e ∷ es) = ground (arith, filter_events_comm f g es)

-- Of the events that a filter leaves, a summary counts each type as often as a matching event has it,
-- and two filters may be applied in either order.
filtered_summary :
    (f g : Filter) (k : String) (es : List Event)
    → (counted k (event_summary (filter_events f es))
        ≡ count (λ (e : Event). matches f e && e.report.event_type == k) es)
      × (filter_events f (filter_events g es) ≡ filter_events g (filter_events f es))
unfolding lookup
filtered_summary f g k es =
    let kept = filter_events f es in
    (
      omega (
        arith,
        counted-counter k [] (event_types kept),
        count-event_types k kept,
        count-filter_events f (λ (e : Event). e.report.event_type == k) es,
      ),
      filter_events_comm f g es,
    )
