-- ===== src/Reconcile/Order.antt =====
-- In which order devtask_controller.go builds a sandbox, whatever the services reply.
use agentic_dev_pipeline.Prelude.{Bool, false, if◌then◌else◌, refl, subst, true, ◌≡◌}
use agentic_dev_pipeline.Text.{codes}
use agentic_dev_pipeline.Api.{
  DevTask, DevTaskPhase, awaiting_revision, blocked_on_clarification, unset,
}
use agentic_dev_pipeline.Kube.{Pod}
use agentic_dev_pipeline.Effects.{Call, Host, Prog, create_namespace, create_pod, ◌>>=◌}
use agentic_dev_pipeline.Effects.Kinds.{IsTalk, IsTalk→IsAside}
use agentic_dev_pipeline.Effects.Monitor.{
  Calls, Calls-mono, Neutral, Safe, Safe-after, Safe-attempt, Safe-of_guard,
}
use agentic_dev_pipeline.Sandbox.{delete_revision_pod}
use agentic_dev_pipeline.Sandbox.Pods.{agent_pod_resume}
use agentic_dev_pipeline.Github.Reads.{
  human_replied_after_clarification-IsTalk, remove_pr_label-IsTalk,
}
use agentic_dev_pipeline.Reconcile.{
  reconcile_blocked, reconcile_phase, reconcile_revision, spawn_agent_sandbox,
}
use agentic_dev_pipeline.Reconcile.Building.{
  BuildGuard, Built, Ordered, agent_pod_resume-namespace, agent_pod_revision-namespace,
  aside-Neutral, build_order, nothing_built, reconcile_new-Ordered, spawn_agent_sandbox-Ordered,
}
use agentic_dev_pipeline.Reconcile.Diagram.{Footprint, IsAgentPod}
use agentic_dev_pipeline.Reconcile.Phases.{reconcile_phase-Footprint}
use agentic_dev_pipeline.Reconcile.Results.{Outcome, done, seconds}

module _ (host : Host) (task : DevTask) where
  -- Calls that write nothing, in front of a respawn.
  talk-Neutral : (s : Built) (c : Call) → IsTalk c → Neutral (build_order host task) s c
  talk-Neutral s c h = aside-Neutral host task s c (IsTalk→IsAside c h)

  after_talk :
      {A : Type 0} (p : Prog A) (f : A → Prog Outcome)
      → Calls IsTalk p
      → ((a : A) → Ordered host task nothing_built (f a))
      → Ordered host task nothing_built (p >>= f)
  after_talk p f h k =
      Safe-after (build_order host task) (λ _ _. Unit) nothing_built p f
        (Calls-mono IsTalk (Neutral (build_order host task) nothing_built)
          (talk-Neutral nothing_built) p h)
        k

  reconcile_revision-Ordered : Ordered host task nothing_built (reconcile_revision host task)
  unfolding reconcile_revision
  reconcile_revision-Ordered = after_talk _ _ (remove_pr_label-IsTalk task _) λ _.
      Safe-after (build_order host task) (λ _ _. Unit) nothing_built
        (delete_revision_pod task.status.namespace) _
        (unfold delete_revision_pod ◌>>=◌ in ((tt, λ r. refl), λ r. tt))
        λ _. spawn_agent_sandbox-Ordered host task _ _ (agent_pod_revision-namespace host task)

  resume_if :
      (replied : Bool)
      → Ordered host task nothing_built (
          if replied
          then spawn_agent_sandbox host task
              (agent_pod_resume host task)
              (codes "resuming after clarification")
          else done (seconds 60))
  resume_if true = spawn_agent_sandbox-Ordered host task _ _ (agent_pod_resume-namespace host task)
  resume_if false = tt

  reconcile_blocked-Ordered : Ordered host task nothing_built (reconcile_blocked host task)
  unfolding reconcile_blocked
  reconcile_blocked-Ordered =
      Safe-attempt (build_order host task) (λ _ _. Unit) nothing_built _ _ _
        (Calls-mono IsTalk (Neutral (build_order host task) nothing_built)
          (talk-Neutral nothing_built) _ (human_replied_after_clarification-IsTalk task))
        (λ _. tt) λ replied. resume_if replied

  -- In every other phase no pod belongs to the footprint.
  no_pod :
      (s : Built) (c : Call)
      → ((p : Pod) → ¬ IsAgentPod host task task.status.phase p)
      → Footprint host task c
      → BuildGuard host task s c
  no_pod s (create_pod p) no_agent h = absurd (no_agent p h)
  no_pod s (create_namespace n) no_agent h = tt
  no_pod s _ no_agent h = tt

  other_phase :
      ((p : Pod) → ¬ IsAgentPod host task task.status.phase p)
      → Ordered host task nothing_built (reconcile_phase host task task.status.phase)
  other_phase no_agent =
      Safe-of_guard (build_order host task) (Footprint host task) (λ s c h. no_pod s c no_agent h)
        nothing_built (reconcile_phase host task task.status.phase)
        (reconcile_phase-Footprint host task)

  phase-Ordered :
      (p : DevTaskPhase)
      → task.status.phase ≡ p
      → Ordered host task nothing_built (reconcile_phase host task p)
  unfolding reconcile_phase
  phase-Ordered unset e = reconcile_new-Ordered host task
  phase-Ordered awaiting_revision e = reconcile_revision-Ordered
  phase-Ordered blocked_on_clarification e = reconcile_blocked-Ordered
  phase-Ordered _ e =
      subst (λ q. Ordered host task nothing_built (reconcile_phase host task q)) e
        (other_phase (λ p h. elim (subst (λ q. IsAgentPod host task q p) e h) [ ]))

-- Whatever the services reply, in every phase a pod is created only behind a namespace, a network
-- policy and a secret that are the task's own, each created in the same pass or found to be there
-- already, and only in the task's namespace.
pub reconcile_phase-ordered :
    (host : Host) (task : DevTask)
    → Safe
        (build_order host task)
        (λ _ _. Unit)
        nothing_built
        (reconcile_phase host task task.status.phase)
reconcile_phase-ordered host task = phase-Ordered host task task.status.phase refl
