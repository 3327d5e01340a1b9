-- ===== src/Samples/Passes.antt =====
-- The theorems on passes, polling and the refresh at concrete tasks.
use agentic_dev_pipeline.Prelude.{[], false, none, refl, ℕ, ◌+◌, ◌∷◌}
use agentic_dev_pipeline.Text.{codes}
use agentic_dev_pipeline.Api.{
  DevTask, awaiting_review, blocked_on_clarification, failed, running, unset,
}
use agentic_dev_pipeline.Effects.{attempt, cancelled, err, is_not_found, not_found, ok, tick, ◌>>=◌}
use agentic_dev_pipeline.Effects.Monitor.{Calls, Safe}
use agentic_dev_pipeline.Credentials.{github_app_token, read_pipeline_credentials}
use agentic_dev_pipeline.Sandbox.{
  ensure_namespace, ensure_network_policy, ensure_pod, ensure_task_secret,
}
use agentic_dev_pipeline.Poller.{max_concurrent_tasks, new_task, poller_goroutine}
use agentic_dev_pipeline.Poller.Cap.{poller-capped}
use agentic_dev_pipeline.Poller.Tally.{cap_gate, nothing_known}
use agentic_dev_pipeline.Reconcile.{
  reconcile_active_pod, reconcile_blocked, reconcile_new, reconcile_phase, start_pod,
}
use agentic_dev_pipeline.Reconcile.Building.{build_order, nothing_built}
use agentic_dev_pipeline.Reconcile.Diagram.{Footprint}
use agentic_dev_pipeline.Reconcile.Gate.{reconcile_active_pod-gated}
use agentic_dev_pipeline.Reconcile.Lifecycle.{
  DeletesOwn, Life, Life-DeletesOwn, Life-Sound, Sound, born, here, later, pass,
}
use agentic_dev_pipeline.Reconcile.Order.{reconcile_phase-ordered}
use agentic_dev_pipeline.Reconcile.Phases.{reconcile_phase-Footprint}
use agentic_dev_pipeline.Reconcile.Pods.{CreatesHardened, reconcile_phase-hardened}
use agentic_dev_pipeline.Reconcile.Progress.{ComesBack, reconcile_phase-ComesBack, status_writes}
use agentic_dev_pipeline.Reconcile.Results.{failed_namespace_ttl, mark_building}
use agentic_dev_pipeline.Reconcile.Resume.{reconcile_blocked-trusted, trust_gate}
use agentic_dev_pipeline.Reconcile.Retention.{Retained, cleanup, reconcile_phase-retains, untimed}
use agentic_dev_pipeline.Reconcile.Review.{diff_gate, nothing_seen}
use agentic_dev_pipeline.Triage.{refresher_goroutine}
use agentic_dev_pipeline.Triage.Rotation.{nothing_fresh, refresher-rotates, rotation}
use agentic_dev_pipeline.Samples.Inputs.{no_env, pipeline_secret, sample_host, sample_repo, task_in}

abbrev issue_number : ℕ
issue_number = 7

reconcile_phase-Footprint_example :
    Calls
      (Footprint sample_host (task_in running))
      (reconcile_phase sample_host (task_in running) running)
reconcile_phase-Footprint_example = reconcile_phase-Footprint sample_host (task_in running)

reconcile_phase-hardened_example :
    Calls
      (CreatesHardened sample_host (task_in unset))
      (reconcile_phase sample_host (task_in unset) unset)
reconcile_phase-hardened_example = reconcile_phase-hardened sample_host (task_in unset)

reconcile_phase-ordered_example :
    Safe
      (build_order sample_host (task_in unset))
      (λ _ _. Unit)
      nothing_built
      (reconcile_phase sample_host (task_in unset) unset)
reconcile_phase-ordered_example = reconcile_phase-ordered sample_host (task_in unset)

reconcile_active_pod-gated_example :
    Safe
      (diff_gate sample_host (task_in running))
      (λ _ _. Unit)
      nothing_seen
      (reconcile_active_pod sample_host (task_in running))
reconcile_active_pod-gated_example = reconcile_active_pod-gated sample_host (task_in running)

reconcile_blocked-trusted_example :
    Safe
      (trust_gate (task_in blocked_on_clarification))
      (λ _ _. Unit)
      none
      (reconcile_blocked sample_host (task_in blocked_on_clarification))
reconcile_blocked-trusted_example =
    reconcile_blocked-trusted sample_host (task_in blocked_on_clarification)

reconcile_phase-ComesBack_example :
    Safe status_writes
      (ComesBack (task_in awaiting_review))
      false
      (reconcile_phase sample_host (task_in awaiting_review) awaiting_review)
reconcile_phase-ComesBack_example = reconcile_phase-ComesBack sample_host (task_in awaiting_review)

reconcile_phase-retains_example :
    Safe
      (cleanup (task_in failed) (5 + failed_namespace_ttl sample_host))
      (Retained (5 + failed_namespace_ttl sample_host))
      untimed
      (reconcile_phase sample_host (task_in failed) failed)
reconcile_phase-retains_example =
    reconcile_phase-retains sample_host (task_in failed) 5 (λ e. cc) refl

poller-capped_example :
    Safe
      (cap_gate (max_concurrent_tasks no_env))
      (λ _ _. Unit)
      nothing_known
      (poller_goroutine sample_host (sample_repo ∷ []) (tick ∷ tick ∷ cancelled ∷ []))
poller-capped_example =
    poller-capped sample_host (sample_repo ∷ []) (tick ∷ tick ∷ cancelled ∷ []) nothing_known

refresher-rotates_example :
    Safe
      (rotation sample_host)
      (λ s a. Unit)
      nothing_fresh
      (refresher_goroutine sample_host (tick ∷ cancelled ∷ []))
refresher-rotates_example = refresher-rotates sample_host (tick ∷ cancelled ∷ []) nothing_fresh

-- The state that the first pass leaves.
abbrev started : DevTask
started =
    mark_building 0 (codes "envbuilder building devcontainer") (new_task sample_repo issue_number)

started-Life : Life sample_host sample_repo issue_number started
unfolding reconcile_phase reconcile_new ensure_namespace ensure_network_policy
    read_pipeline_credentials github_app_token ensure_task_secret start_pod ensure_pod attempt ◌>>=◌
    new_task is_not_found
started-Life = pass born (
    later (ok tt) (
      later (ok tt) (
        later (ok pipeline_secret)
          (later (err not_found) (later (ok tt) (later (ok tt) (later 0 here)))))))

Life-Sound_example : Sound sample_repo issue_number started
Life-Sound_example = Life-Sound sample_host sample_repo issue_number started started-Life

Life-DeletesOwn_example :
    Calls (DeletesOwn started) (reconcile_phase sample_host started started.status.phase)
Life-DeletesOwn_example = Life-DeletesOwn sample_host sample_repo issue_number started started-Life
