-- ===== src/Workloads/Generator/Drives.antt =====
-- resiliencelab/workloads/generator.py: what a warm-up leaves behind, and what a cancellation does.
use resilience_lab.Common.{
  ℕ, suc, ◌≡◌, refl, ap, true, false, not, Option, none, some, List, [], ◌∷◌, ◌++◌, ltb, All,
  if◌then◌else◌, inl, inr, Bool-cases, Option-cases, if_both,
}
use resilience_lab.Core.Cancellation.{CancellationToken, CancelledError, raise_if_cancelled}
use resilience_lab.Workloads.Arrivals.{WorkloadType, closed_loop}
use resilience_lab.Workloads.Generator.{
  issued, Pass, Ending, at_deadline, cancelled_by, unfinished, Log, note, arrival_loop, Turn,
  is_done, client_turns, closed_loop_drive, Environment, is_closed_loop, drive, after_warmup, run,
}

option_both :
    {A B : Type 0} (Holds : B → Type 0) (o : Option A) (given : A → B) (absent : B)
    → ((a : A) → Holds (given a))
    → Holds absent
    → Holds (elim o as (λ x. B) [ some a ↦ given a | none ↦ absent ])
option_both Holds none given absent h k = k
option_both Holds (some a) given absent h k = h a

-- A drive that is not recorded leaves no trace.
arrival_unrecorded :
    (id : ℕ) (ps : List Pass) (log : Log) → log.recording ≡ false → (arrival_loop id ps log).1 ≡ log
unfolding arrival_loop
arrival_unrecorded id [] log off = refl
arrival_unrecorded id (p ∷ ps) log off =
    let silent : note (issued id p.sent) log ≡ log = rw off refl in
    let rest : (arrival_loop (suc id) ps (note (issued id p.sent) log)).1 ≡ log =
      rw silent (arrival_unrecorded (suc id) ps log off) in
    if_both (λ (x : Ending × Log). x.1 ≡ log) (not p.ahead) refl
      (option_both (λ (x : Ending × Log). x.1 ≡ log) (raise_if_cancelled p.token)
        (λ e. (cancelled_by e, log)) _ (λ e. refl) rest)

turns_unrecorded :
    (id : ℕ) (finished : List ℕ) (ts : List Turn) (log : Log)
    → log.recording ≡ false
    → client_turns id finished ts log ≡ log
unfolding client_turns
turns_unrecorded id finished [] log off = refl
turns_unrecorded id finished (t ∷ ts) log off =
    let silent : note (issued id t.sent) log ≡ log = rw off refl in
    if_both (λ (x : Log). x ≡ log) (is_done t.client finished)
      (turns_unrecorded id finished ts log off)
      (option_both (λ (x : Log). x ≡ log) (raise_if_cancelled t.token)
        (λ e. client_turns id (t.client ∷ finished) ts log) _
        (λ e. turns_unrecorded id (t.client ∷ finished) ts log off)
        (rw silent (turns_unrecorded (suc id) finished ts log off)))

drive_unrecorded :
    (kind : WorkloadType) (env : Environment) (log : Log)
    → log.recording ≡ false
    → (drive kind env log).1 ≡ log
unfolding drive closed_loop_drive
drive_unrecorded kind env log off = elim (Option-cases (raise_if_cancelled env.at_start)) [
  | inr (e, raised) ↦ rw (raised, drive) refl
  | inl goes ↦
      rw (goes, drive)
        (if_both (λ (x : Ending × Log). x.1 ≡ log) (is_closed_loop kind)
          (turns_unrecorded 0 [] env.turns log off) (arrival_unrecorded 0 env.passes log off))
]

-- What a warm-up makes of the measured part: it goes ahead only where the warm-up met its deadline.
abbrev pub unless_ended : Ending → Log → Ending × Log → Ending × Log
unless_ended at_deadline log measured = measured
unless_ended ending log measured = (ending, log)

-- While the collector records, a run with a warm-up leaves the traces of the measured drive alone
-- if the warm-up met its deadline, and none otherwise, with the way in which the warm-up ended.
pub run_lem :
    (kind : WorkloadType) (warmup : ℕ) (warm measured : Environment) (log : Log)
    → log.recording ≡ true
    → run kind warmup warm measured log ≡ (
        if ltb 0 warmup
        then unless_ended
            (drive kind warm (record log { recording = false })).0
            log
            (drive kind measured log)
        else drive kind measured log)
unfolding run
run_lem kind warmup warm measured log on = elim (Bool-cases (ltb 0 warmup)) [
  | inl some_warmup ↦
      rw some_warmup (ended (drive kind warm off) (drive_unrecorded kind warm off refl))
  | inr no_warmup ↦ rw no_warmup refl
]
  where
    off : Log
    off = record log { recording = false }

    again : (l : Log) → l ≡ off → record l { recording = true } ≡ log
    again l e = rw e (rw⁻¹ on refl)

    ended :
        (x : Ending × Log)
        → x.1 ≡ off
        → after_warmup (drive kind measured) x ≡ unless_ended x.0 log (drive kind measured log)
    ended (at_deadline, l) e = ap (drive kind measured) (again l e)
    ended (cancelled_by why, l) e = rw (again l e) refl
    ended (unfinished, l) e = rw (again l e) refl

-- The check of a turn raises.
abbrev IsCancelled : CancellationToken → Type 0
IsCancelled token = (e : CancelledError) × (raise_if_cancelled token ≡ some e)

all_stopped :
    (id : ℕ) (finished : List ℕ) (ts : List Turn) (log : Log)
    → All (λ t. IsCancelled t.token) ts
    → client_turns id finished ts log ≡ log
unfolding client_turns
all_stopped id finished [] log h = refl
all_stopped id finished (t ∷ ts) log ((e, raised), h) =
    if_both (λ (x : Log). x ≡ log) (is_done t.client finished) (all_stopped id finished ts log h)
      (rw raised (all_stopped id (t.client ∷ finished) ts log h))

turns_cut :
    (id : ℕ) (finished : List ℕ) (before after : List Turn) (log : Log)
    → All (λ t. IsCancelled t.token) after
    → client_turns id finished (before ++ after) log ≡ client_turns id finished before log
unfolding client_turns
turns_cut id finished [] after log h = all_stopped id finished after log h
turns_cut id finished (t ∷ before) after log h = elim (Bool-cases (is_done t.client finished)) [
  | inl over ↦ rw (over, client_turns) (turns_cut id finished before after log h)
  | inr alive ↦ elim (Option-cases (raise_if_cancelled t.token)) [
    | inl goes ↦
        rw (alive, goes) (turns_cut (suc id) finished before after (note (issued id t.sent) log) h)
    | inr (e, raised) ↦ rw (alive, raised) (turns_cut id (t.client ∷ finished) before after log h)
  ]
]

-- When the token is not cancelled at the start of a closed-loop drive and is cancelled in all
-- turns from some point on, no request is issued from there on, yet the drive ends as one that
-- met its deadline.
pub closed_loop_cancelled :
    (start : CancellationToken) (before after : List Turn) (passes : List Pass) (log : Log)
    → raise_if_cancelled start ≡ none
    → All (λ t. IsCancelled t.token) after
    → let env : List Turn → Environment =
        λ turns. record { at_start = start; turns = turns; passes = passes } in
      let (ending, log') = drive closed_loop (env (before ++ after)) log in
      (ending ≡ at_deadline) × (log' ≡ (drive closed_loop (env before) log).1)
unfolding drive closed_loop_drive
closed_loop_cancelled start before after passes log goes h =
    rw (goes, drive) (refl, turns_cut 0 [] before after log h)

-- A cancelled pass ends the arrival loop: the tasks of the passes before it are all there is.
arrival_loop_cancelled :
    (id : ℕ) (before after : List Pass) (p : Pass) (log : Log) (e : CancelledError)
    → All (λ q. (q.ahead ≡ true) × (raise_if_cancelled q.token ≡ none)) before
    → p.ahead ≡ true
    → raise_if_cancelled p.token ≡ some e
    → arrival_loop id (before ++ p ∷ after) log ≡ (cancelled_by e, (arrival_loop id before log).1)
unfolding arrival_loop
arrival_loop_cancelled id [] after p log e h ahead raised = rw (ahead, raised) refl
arrival_loop_cancelled id (q ∷ before) after p log e ((on, goes), h) ahead raised =
    rw (on, goes)
      (arrival_loop_cancelled (suc id) before after p (note (issued id q.sent) log) e h ahead
        raised)
