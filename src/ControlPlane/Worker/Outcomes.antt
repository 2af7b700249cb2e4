-- ===== src/ControlPlane/Worker/Outcomes.antt =====
-- resiliencelab/controlplane/worker.py: what becomes of the row of a job's run.
use resilience_lab.Common.{◌⊎◌, String, ◌≡◌, refl, Bool, false, Option, none, some}
use resilience_lab.ControlPlane.Records.{
  cancelled, cancel_requested, ExperimentRecord, RunRecord, is_terminal,
}
use resilience_lab.ControlPlane.Repositories.{get_experiment, get_run, mark_run}
use resilience_lab.ControlPlane.Redis.{Redis, JobPayload}
use resilience_lab.ControlPlane.Queue.{complete_job}
use resilience_lab.ControlPlane.Worker.{World, Environment, close_run, skip_cancelled_job, handle}
use resilience_lab.ControlPlane.Worker.Rows.{
  run_status, closing, close-status, experiments-close_run, get_experiment-experiments, mark-close,
  stops,
}

-- The run is over.
abbrev pub has_ended : Option RunRecord → Bool
has_ended none = false
has_ended (some x) = is_terminal x.status

module _ {S : Type 0} (r : Redis S) where
  -- A job whose experiment is cancelled or asked to cancel is not started: every experiment is as
  -- before, its run is cancelled if it exists and is not terminal, and the queue hears that the job
  -- was cancelled.
  pub handle_cancelled :
      (env : Environment S) (p : JobPayload) (w : World S) (e : ExperimentRecord) (j : String)
      → get_experiment w.db p.experiment_id ≡ some e
      → (e.status ≡ cancelled) ⊎ (e.status ≡ cancel_requested)
      → (get_experiment (handle r env p w).db j ≡ get_experiment w.db j)
        × (run_status (get_run (handle r env p w).db p.run_id)
            ≡ closing cancelled (get_run w.db p.run_id))
        × ((handle r env p w).server ≡ complete_job r p.run_id cancelled none w.server)
  unfolding handle skip_cancelled_job
  handle_cancelled env p w e j known stop =
      let f = mark_run env.began "cancelled before execution" in
      rw (stops p w.db e known stop) (
        rw (mark-close env.began p.run_id "cancelled before execution" w.db) (
          get_experiment-experiments w.db (close_run (get_run w.db p.run_id) p.run_id f w.db) j
              (experiments-close_run (get_run w.db p.run_id) p.run_id f w.db),
          close-status p.run_id f cancelled w.db (λ x. refl) (λ x. refl),
          refl,
        ))
