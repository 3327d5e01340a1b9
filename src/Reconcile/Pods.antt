-- ===== src/Reconcile/Pods.antt =====
-- The pods that `Reconcile` of devtask_controller.go creates.
use agentic_dev_pipeline.Api.{DevTask, DevTaskPhase}
use agentic_dev_pipeline.Kube.{Pod}
use agentic_dev_pipeline.Effects.{Call, Host, create_namespace, create_pod}
use agentic_dev_pipeline.Effects.Monitor.{Calls, Calls-mono}
use agentic_dev_pipeline.Sandbox.Hardening.{IsHardened, sandbox_pod-IsHardened}
use agentic_dev_pipeline.Sandbox.Pods.{agent_pod, agent_pod_resume, agent_pod_revision}
use agentic_dev_pipeline.Reconcile.{reconcile_phase}
use agentic_dev_pipeline.Reconcile.Diagram.{Footprint, IsAgentPod, fresh, resumed, revision}
use agentic_dev_pipeline.Reconcile.Phases.{reconcile_phase-Footprint}

agent_pods-IsHardened :
    (host : Host) (task : DevTask) (p : DevTaskPhase) (pod : Pod)
    → IsAgentPod host task p pod
    → IsHardened host task pod
unfolding agent_pod agent_pod_resume agent_pod_revision
agent_pods-IsHardened host task _ _ fresh = sandbox_pod-IsHardened host task _ _
agent_pods-IsHardened host task _ _ revision = sandbox_pod-IsHardened host task _ _
agent_pods-IsHardened host task _ _ resumed = sandbox_pod-IsHardened host task _ _

-- A pod that is created is hardened.
abbrev pub CreatesHardened : Host → DevTask → Call → Type 0
CreatesHardened host task (create_pod pod) = IsHardened host task pod
CreatesHardened host task _ = Unit

hardened :
    (host : Host) (task : DevTask) (c : Call) → Footprint host task c → CreatesHardened host task c
hardened host task (create_pod pod) h = agent_pods-IsHardened host task task.status.phase pod h
hardened host task (create_namespace n) h = tt
hardened host task _ h = tt

-- Whatever the services reply, every pod that a pass over a task creates, in whichever phase, is in the
-- task's namespace, is hardened (no service account token, not root, the default seccomp profile, no
-- escalation, a read-only root, no capability), ends by itself, mounts only its own volumes, and
-- gives its agent the credentials only by reference to keys that the task's secret has.
pub reconcile_phase-hardened :
    (host : Host) (task : DevTask)
    → Calls (CreatesHardened host task) (reconcile_phase host task task.status.phase)
reconcile_phase-hardened host task =
    Calls-mono (Footprint host task) (CreatesHardened host task) (hardened host task) _
      (reconcile_phase-Footprint host task)
