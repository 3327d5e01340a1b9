-- ===== src/Reconcile/Phases.antt =====
-- A pass of `Reconcile` of devtask_controller.go, in every phase, keeps to the footprint of the
-- diagram.
use agentic_dev_pipeline.Prelude.{
  Bool, Option, [], false, inr, ltb, none, refl, some, subst, true, ℕ, ◌+◌, ◌∷◌, ◌≡◌, ◌≢◌,
}
use agentic_dev_pipeline.Text.{Text}
use agentic_dev_pipeline.Api.{
  DevTask, DevTaskPhase, awaiting_review, awaiting_revision, blocked_on_clarification, building,
  completed, failed, pending, running, unset,
}
use agentic_dev_pipeline.Effects.{Host, ◌>>=◌}
use agentic_dev_pipeline.Effects.Kinds.{IsLookup, IsLookup→IsAside}
use agentic_dev_pipeline.Effects.Monitor.{Calls, Calls-bind, Calls-mono}
use agentic_dev_pipeline.Sandbox.{delete_revision_pod}
use agentic_dev_pipeline.Github.Reads.{
  human_replied_after_clarification-IsTalk, if-Calls, is_pr_merged_or_closed-IsLookup,
  pr_has_label-IsTalk, remove_pr_label-IsTalk,
}
use agentic_dev_pipeline.Reconcile.{
  after_merge_check, expire, reconcile_blocked, reconcile_failed, reconcile_phase, reconcile_review,
  reconcile_revision,
}
use agentic_dev_pipeline.Reconcile.ActivePhase.{reconcile_active_pod-Within}
use agentic_dev_pipeline.Reconcile.Diagram.{
  Footprint, Owns, Spawns, building_live, forget, merge, request, resume, resumed, revise, revision,
  running_live,
}
use agentic_dev_pipeline.Reconcile.Spawning.{
  Within, aside_Footprint, finish-Within, or_stop, reconcile_new-Within, remove_namespace-Within,
  spawn_agent_sandbox-Within, started-Owns, talk, with_phase-Update,
}

module _ (host : Host) (task : DevTask) where
  reviewed : task.status.phase ≡ awaiting_review → Owns task
  reviewed e = started-Owns host task awaiting_review e (λ h. cc) (λ h. cc)

  after_merge_check-Within :
      (merged : Bool)
      → task.status.phase ≡ awaiting_review
      → Within host task (after_merge_check task merged)
  unfolding after_merge_check
  after_merge_check-Within true e =
      Calls-bind (Footprint host task) _ _
        (remove_namespace-Within host task (reviewed e) (λ h. subst Spawns e h))
        λ _.
          finish-Within host task _ _
            (with_phase-Update host task completed _ (rw e merge) (λ h. cc) (reviewed e))
  after_merge_check-Within false e =
      or_stop host task _ _ _ (talk host task _ (pr_has_label-IsTalk task _)) λ needed.
        if-Calls (Footprint host task) needed _ _
          (finish-Within host task _ _
            (with_phase-Update host task awaiting_revision _ (rw e request) (λ h. cc) (reviewed e)))
          tt

  reconcile_review-Within :
      task.status.phase ≡ awaiting_review → Within host task (reconcile_review task)
  unfolding reconcile_review
  reconcile_review-Within e =
      or_stop host task _ _ _
        (Calls-mono IsLookup (Footprint host task)
          (λ c h. aside_Footprint host task c (IsLookup→IsAside c h)) _
          (is_pr_merged_or_closed-IsLookup task))
        λ merged. after_merge_check-Within merged e

  delete_revision_pod-Within :
      Owns task → Within host task (delete_revision_pod task.status.namespace)
  unfolding delete_revision_pod ◌>>=◌
  delete_revision_pod-Within owns = ((refl, refl, owns), λ r. tt)

  reconcile_revision-Within :
      task.status.phase ≡ awaiting_revision → Within host task (reconcile_revision host task)
  unfolding reconcile_revision
  reconcile_revision-Within e =
      Calls-bind (Footprint host task) _ _ (talk host task _ (remove_pr_label-IsTalk task _)) λ _.
        Calls-bind (Footprint host task) (delete_revision_pod task.status.namespace) _
          (delete_revision_pod-Within
            (started-Owns host task awaiting_revision e (λ h. cc) (λ h. cc)))
          λ _. spawn_agent_sandbox-Within host task _ _ (rw e revision) (rw e revise)

  reconcile_blocked-Within :
      task.status.phase ≡ blocked_on_clarification → Within host task (reconcile_blocked host task)
  unfolding reconcile_blocked
  reconcile_blocked-Within e =
      or_stop host task _ _ _ (talk host task _ (human_replied_after_clarification-IsTalk task))
        λ replied.
          if-Calls (Footprint host task) replied _ _
            (spawn_agent_sandbox-Within host task _ _ (rw e resumed) (rw e resume)) tt

  expire-Within :
      (ttl since : ℕ)
      → task.status.phase ≡ failed
      → task.status.namespace ≢ []
      → Within host task (expire ttl task since)
  unfolding expire ◌>>=◌
  expire-Within ttl since e named = (
    tt,
    λ t. if-Calls (Footprint host task) (ltb t (since + ttl)) _ _ tt (
        or_stop host task _ _ _
          (remove_namespace-Within host task (λ h. cc (e, h), λ _. named) (λ h. subst Spawns e h))
          λ _. finish-Within host task 0 _ (record {
            edge = rw e forget;
            same_name = refl;
            same_namespace = refl;
            same_spec = refl;
            accounted = λ h. inr refl;
            same_pull = inr refl;
            home = inr (inr (e, refl));
          })),
  )

  reconcile_failed-Within :
      (ttl : ℕ) (ns : Text) (since : Option ℕ)
      → task.status.phase ≡ failed
      → task.status.namespace ≡ ns
      → Within host task (reconcile_failed ttl task ns since)
  reconcile_failed-Within ttl [] since e n = tt
  reconcile_failed-Within ttl (c ∷ ns) none e n = tt
  reconcile_failed-Within ttl (c ∷ ns) (some since) e n = expire-Within ttl since e (λ h. cc (n, h))

  phase-Within :
      (p : DevTaskPhase) → task.status.phase ≡ p → Within host task (reconcile_phase host task p)
  unfolding reconcile_phase
  phase-Within unset e = reconcile_new-Within host task e
  phase-Within building e = reconcile_active_pod-Within host task (rw e building_live)
  phase-Within running e = reconcile_active_pod-Within host task (rw e running_live)
  phase-Within awaiting_review e = reconcile_review-Within e
  phase-Within awaiting_revision e = reconcile_revision-Within e
  phase-Within blocked_on_clarification e = reconcile_blocked-Within e
  phase-Within completed e = tt
  phase-Within failed e = reconcile_failed-Within _ _ _ e refl
  phase-Within pending e = tt

-- Whatever the services reply, a pass over a task writes to the cluster only what the footprint of
-- the task allows: status updates that follow the diagram of the phases and keep name, namespace and
-- spec; the namespace, network policy and secret of the task; the pod that belongs to the phase; and
-- deletions of the recorded namespace, in a phase in which no pod is created, and of the revision pod
-- in it, where the task was started and the status names a namespace if it failed. A failed status carries the time of the failure or no
-- namespace, and the namespace that a status names is the task's own, or is kept.
pub reconcile_phase-Footprint :
    (host : Host) (task : DevTask)
    → Calls (Footprint host task) (reconcile_phase host task task.status.phase)
reconcile_phase-Footprint host task = phase-Within host task task.status.phase refl
