-- ===== src/Services/Dependency/Invoke/Slots.antt =====
-- resiliencelab/services/dependency.py: the slots that requests hold, and the saturation flag.
use resilience_lab.Common.{
  ℕ, ◌-◌, ◌≡◌, refl, ap, ◌∙◌, Bool, ◌⊎◌, Option, none, some, List, ltb, leb, arith, Bool-cases,
  Option-cases, inl, inr,
}
use resilience_lab.Services.Capacity.{ServiceCapacity, attempt, release}
use resilience_lab.Resilience.Concurrency.{queue_full}
use resilience_lab.Services.Dependency.{update_saturation}
use resilience_lab.Services.Dependency.Invoke.{
  DependencyService, Notice, saturate, Arrival, admitted, refused, parked, enter, Course,
  saturated_error, pending, strike, leave, process, continue, invoke, in_flight, one_less,
}

-- The flag says whether every slot is taken.
abbrev Flags : Option ServiceCapacity → Bool → Type 0
Flags none flag = Unit
Flags (some cap) flag = flag ≡ leb cap.max_concurrency cap.active

abbrev pub HasFlag : DependencyService → Type 0
HasFlag d = Flags d.capacity d.saturated

abbrev Kept : (DependencyService → DependencyService) → Type 0
Kept others = (d : DependencyService) → in_flight (others d) ≡ in_flight d

saturate-in_flight : (d : DependencyService) → in_flight (saturate d).0 ≡ in_flight d
unfolding saturate
saturate-in_flight d = refl

update_saturation-Flags :
    (o : Option ServiceCapacity) (flag : Bool) → Flags o (update_saturation o flag).0
unfolding update_saturation
update_saturation-Flags none flag = tt
update_saturation-Flags (some cap) flag = ground arith

saturate-HasFlag : (d : DependencyService) → HasFlag (saturate d).0
unfolding saturate
saturate-HasFlag d = update_saturation-Flags d.capacity d.saturated

release-active : (cap : ServiceCapacity) → (release cap).active ≡ cap.active - 1
unfolding release
release-active cap = ground arith

leave-in_flight : (d : DependencyService) → in_flight (leave d).0 ≡ one_less (in_flight d)
unfolding leave saturate
leave-in_flight d = elim (Option-cases d.capacity) [
  | inl endless ↦ rw (endless, leave) (rw endless refl)
  | inr (cap, limited) ↦ rw (limited, leave) (ap some (release-active cap))
]

leave-HasFlag : (d : DependencyService) → HasFlag (leave d).0
unfolding leave
leave-HasFlag d = elim (Option-cases d.capacity) [
  | inl endless ↦ rw (endless, leave) (rw endless tt)
  | inr (cap, limited) ↦
      rw (limited, leave) (saturate-HasFlag (record d { capacity = some (release cap) }))
]

process-in_flight :
    (course : Course) (d : DependencyService)
    → Kept course.while_processing
    → Kept course.while_delayed
    → in_flight (process course d).1 ≡ one_less (in_flight d)
unfolding process strike
process-in_flight course d before after = elim (Bool-cases course.cut_processing) [
  | inl cut ↦ rw cut (leave-in_flight (course.while_processing d) ∙ ap one_less (before d))
  | inr whole ↦ rw whole (
      leave-in_flight (course.while_delayed (strike course (course.while_processing d)).1)
      ∙ ap one_less (after (strike course (course.while_processing d)).1 ∙ before d))
]

process-HasFlag : (course : Course) (d : DependencyService) → HasFlag (process course d).1
unfolding process
process-HasFlag course d = elim (Bool-cases course.cut_processing) [
  | inl cut ↦ rw cut (leave-HasFlag (course.while_processing d))
  | inr whole ↦ rw whole (leave-HasFlag _)
]

-- What `acquire` does to the slots.
abbrev Entered : Option ℕ → Arrival → Option ℕ → Type 0
Entered held admitted held' = one_less held' ≡ held
Entered held refused held' = held' ≡ held
Entered held parked held' = held' ≡ held

enter-Entered :
    (task now : ℕ) (d : DependencyService)
    → Entered (in_flight d) (enter task now d).0 (in_flight (enter task now d).1)
unfolding enter attempt saturate
enter-Entered task now d = elim (Option-cases d.capacity) [
  | inl endless ↦ rw (endless, enter) (rw endless refl)
  | inr (cap, limited) ↦ elim (Bool-cases (ltb cap.active cap.max_concurrency)) [
    | inl free ↦ rw (limited, enter) (rw free (ap some (omega arith)))
    | inr taken ↦ elim (Bool-cases (queue_full cap.queue_limit cap.waiting)) [
      | inl full ↦ rw (limited, enter) (rw taken (rw full refl))
      | inr room ↦ rw (limited, enter) (rw taken (rw room refl))
    ]
  ]
]

-- When the other requests leave the number of taken slots as they find it while a request sleeps,
-- the request leaves it so, too, on every ending, and the saturation flag then says whether all
-- slots are taken, unless the request was turned away or still waits.
pub invoke-gives_back :
    (course : Course) (task now : ℕ) (d : DependencyService)
    → Kept course.while_processing
    → Kept course.while_delayed
    → let (ending, d', notices) = invoke course task now d in
      (in_flight d' ≡ in_flight d)
      × ((ending ≡ saturated_error) ⊎ ((ending ≡ pending) ⊎ HasFlag d'))
unfolding invoke
invoke-gives_back course task now d before after =
    by_arrival (enter task now d) (enter-Entered task now d)
  where
    by_arrival :
        (entered : Arrival × DependencyService × List Notice)
        → Entered (in_flight d) entered.0 (in_flight entered.1)
        → let (ending, d', notices) = continue course entered in
          (in_flight d' ≡ in_flight d)
          × ((ending ≡ saturated_error) ⊎ ((ending ≡ pending) ⊎ HasFlag d'))
    by_arrival (admitted, d1, notices) held =
        (process-in_flight course d1 before after ∙ held, inr (inr (process-HasFlag course d1)))
    by_arrival (refused, d1, notices) held = (held, inl refl)
    by_arrival (parked, d1, notices) held = (held, inr (inl refl))
