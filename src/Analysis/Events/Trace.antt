-- ===== src/Analysis/Events/Trace.antt =====
-- resiliencelab/analysis/events.py: the order and the length of a trace.
use Prim.Native.String.{◌++◌ as ◌<>◌}
use resilience_lab.Common.{
  ℕ, zero, suc, ◌+◌, ◌-◌, min, String, ◌≡◌, refl, ap, ◌∙◌, Bool, true, false, ltb, if◌then◌else◌,
  List, [], ◌∷◌, ◌++◌, length, length-append, count, All, ◌⊎◌, ◌<◌, ◌≤◌, inl, inr, Bool-cases,
  arith,
}
use resilience_lab.Events.{Event}
use resilience_lab.Analysis.Events.{precedes, insert, ordered, lines_of, trace_lines}

precedes_trans : (a b c : Event) → precedes a b ≡ true → precedes b c ≡ true → precedes a c ≡ true
unfolding precedes
precedes_trans a b c h k = ground (arith, h, k)

precedes_total : (a b : Event) → precedes a b ≡ false → precedes b a ≡ true
unfolding precedes
precedes_total a b h = ground (arith, h)

-- Each event precedes all that come after it.
abbrev IsOrdered : List Event → Type 0
IsOrdered [] = Unit
IsOrdered (event ∷ rest) = All (λ later. precedes event later ≡ true) rest × IsOrdered rest

-- `a` was earlier than `b`, or at the same time with a sequence number that is not greater.
abbrev pub NotAfter : Event → Event → Type 0
NotAfter a b = (a.elapsed < b.elapsed) ⊎ ((a.elapsed ≡ b.elapsed) × (a.sequence ≤ b.sequence))

-- No event is after one that follows it.
abbrev pub InOrder : List Event → Type 0
InOrder [] = Unit
InOrder (event ∷ rest) = All (λ later. NotAfter event later) rest × InOrder rest

precedes-NotAfter : (a b : Event) → precedes a b ≡ true → NotAfter a b
unfolding precedes
precedes-NotAfter a b h = elim (Bool-cases (ltb a.elapsed b.elapsed)) [
  | inl before ↦ inl (ground (arith, before))
  | inr at_once ↦ inr (ground (arith, at_once, h))
]

all_NotAfter :
    (a : Event) (es : List Event)
    → All (λ later. precedes a later ≡ true) es
    → All (λ later. NotAfter a later) es
all_NotAfter a [] h = tt
all_NotAfter a (e ∷ es) (he, hs) = (precedes-NotAfter a e he, all_NotAfter a es hs)

ordered-InOrder : (es : List Event) → IsOrdered es → InOrder es
ordered-InOrder [] h = tt
ordered-InOrder (e ∷ es) (first, h) = (all_NotAfter e es first, ordered-InOrder es h)

module _ (a : Event) where
  All-insert :
      (e : Event) (es : List Event)
      → precedes a e ≡ true
      → All (λ later. precedes a later ≡ true) es
      → All (λ later. precedes a later ≡ true) (insert e es)
  All-insert e [] h hs = (h, tt)
  All-insert e (x ∷ es) h (hx, hs) = elim (Bool-cases (precedes e x)) [
    | inl before ↦ rw (before, insert) (h, (hx, hs))
    | inr after ↦ rw (after, insert) (hx, All-insert e es h hs)
  ]

  All-precedes :
      (b : Event) (es : List Event)
      → precedes a b ≡ true
      → All (λ later. precedes b later ≡ true) es
      → All (λ later. precedes a later ≡ true) es
  All-precedes b [] h hs = tt
  All-precedes b (e ∷ es) h (he, hs) = (precedes_trans a b e h he, All-precedes b es h hs)

insert-IsOrdered : (e : Event) (es : List Event) → IsOrdered es → IsOrdered (insert e es)
insert-IsOrdered e [] h = (tt, tt)
insert-IsOrdered e (x ∷ es) (first, h) = elim (Bool-cases (precedes e x)) [
  | inl before ↦ rw (before, insert) ((before, All-precedes e x es before first), (first, h))
  | inr after ↦
      rw (after, insert)
        (All-insert x e es (precedes_total e x after) first, insert-IsOrdered e es h)
]

count-insert :
    (p : Event → Bool) (e : Event) (es : List Event) → count p (insert e es) ≡ count p (e ∷ es)
count-insert p e [] = refl
count-insert p e (x ∷ es) = ground (arith, count-insert p e es)

ordered-IsOrdered : (es : List Event) → IsOrdered (ordered es)
unfolding ordered
ordered-IsOrdered [] = tt
ordered-IsOrdered (e ∷ es) = insert-IsOrdered e (ordered es) (ordered-IsOrdered es)

count-ordered : (p : Event → Bool) (es : List Event) → count p (ordered es) ≡ count p es
unfolding ordered
count-ordered p [] = refl
count-ordered p (e ∷ es) = ground (arith, count-insert p e (ordered es), count-ordered p es)

length-insert : (e : Event) (es : List Event) → length (insert e es) ≡ suc (length es)
length-insert e [] = refl
length-insert e (x ∷ es) = ground (arith, length-insert e es)

length-ordered : (es : List Event) → length (ordered es) ≡ length es
unfolding ordered
length-ordered [] = refl
length-ordered (e ∷ es) = length-insert e (ordered es) ∙ ap suc (length-ordered es)

module _ (seconds number : ℕ → String) where
  length-lines_of :
      (limit : ℕ) (es : List Event)
      → length (lines_of seconds number limit es) ≡ min limit (length es)
  length-lines_of zero es = omega arith
  length-lines_of (suc limit) [] = omega arith
  length-lines_of (suc limit) (e ∷ es) = omega (arith, length-lines_of limit es)

  -- The last line of a trace that leaves some out.
  abbrev pub overflow : ℕ → ℕ → List String
  overflow limit n =
      if ltb limit n then ("  ... (" <> (number (n - limit) <> " more events)")) ∷ [] else []

  -- The lines of a trace are those of the first events, up to the limit, of a list that has every
  -- event as often as it was given, in which none is after one that follows it by elapsed time and
  -- then sequence, and one more line with the number of the others when there are more events than
  -- the limit.
  pub trace_lines_lem :
      (limit : ℕ) (es : List Event)
      → (all : List Event) × InOrder all
        × ((p : Event → Bool) → count p all ≡ count p es)
        × (trace_lines seconds number limit es
            ≡ lines_of seconds number limit all ++ overflow limit (length es))
        × (length (trace_lines seconds number limit es)
            ≡ min limit (length es) + (if ltb limit (length es) then 1 else 0))
  unfolding trace_lines
  trace_lines_lem limit es =
      let same = length-ordered es in
      let lines = lines_of seconds number limit (ordered es) in
      (
        ordered es,
        ordered-InOrder (ordered es) (ordered-IsOrdered es),
        λ p. count-ordered p es,
        rw (same, trace_lines) refl,
        rw (same, trace_lines)
            (length-append lines _ ∙ (ground (arith, length-lines_of limit (ordered es), same))),
      )
