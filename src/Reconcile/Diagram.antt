-- ===== src/Reconcile/Diagram.antt =====
-- Everything that a pass of `Reconcile` of devtask_controller.go writes to the cluster, in which
-- phase, and the diagram of the phases.
use agentic_dev_pipeline.Prelude.{[], none, ◌≡◌, ◌≢◌, ◌⊎◌}
use agentic_dev_pipeline.Api.{
  DevTask, DevTaskPhase, awaiting_review, awaiting_revision, blocked_on_clarification, building,
  completed, failed, running, unset,
}
use agentic_dev_pipeline.Kube.{Pod}
use agentic_dev_pipeline.Effects.{
  Call, Host, create_dev_task, create_namespace, create_network_policy, create_pod, create_secret,
  delete_namespace, delete_pod, update_secret, update_status,
}
use agentic_dev_pipeline.Egress.{sandbox_policy}
use agentic_dev_pipeline.Credentials.{PipelineCreds}
use agentic_dev_pipeline.Sandbox.{namespace_object, revision_pod_name, task_namespace, task_secret}
use agentic_dev_pipeline.Sandbox.Pods.{agent_pod, agent_pod_resume, agent_pod_revision}

-- An agent is at work.
pub data IsLive : DevTaskPhase → Type 0 where
  building_live : IsLive building
  running_live : IsLive running

infix 40 ◌⟶◌
pub data ◌⟶◌ : DevTaskPhase → DevTaskPhase → Type 0 where
  launch : unset ⟶ building
  observe : building ⟶ running
  deliver : {p : DevTaskPhase} → IsLive p → p ⟶ awaiting_review
  ask : {p : DevTaskPhase} → IsLive p → p ⟶ blocked_on_clarification
  give_up : {p : DevTaskPhase} → IsLive p → p ⟶ failed
  merge : awaiting_review ⟶ completed
  request : awaiting_review ⟶ awaiting_revision
  revise : awaiting_revision ⟶ building
  resume : blocked_on_clarification ⟶ building
  forget : failed ⟶ failed

-- The namespace that the status names is in use: the task was started, and if it failed, then the
-- status still names one.
abbrev pub Owns : DevTask → Type 0
Owns task = (task.status.phase ≢ unset) × (task.status.phase ≡ failed → task.status.namespace ≢ [])

-- The namespace in the status is the task's own, is kept, or is given up by a failed task.
abbrev pub Home : DevTask → DevTask → Type 0
Home old new =
    (new.status.namespace ≡ task_namespace old)
    ⊎ (Owns old × (new.status.namespace ≡ old.status.namespace))
    ⊎ ((new.status.phase ≡ failed) × (new.status.namespace ≡ []))

-- A status update follows the diagram and leaves the identity and the spec of the task. A failed task
-- carries the time of the failure or has no namespace left; the number of the pull request is set only
-- on the way to the review.
pub record Update (old new : DevTask) : Type 0 where
  pub edge : old.status.phase ⟶ new.status.phase
  pub same_name : new.name ≡ old.name
  pub same_namespace : new.namespace ≡ old.namespace
  pub same_spec : new.spec ≡ old.spec
  pub accounted :
      new.status.phase ≡ failed → (new.status.failed_at ≢ none) ⊎ (new.status.namespace ≡ [])
  pub same_pull :
      (new.status.phase ≡ awaiting_review) ⊎ (new.status.pr_number ≡ old.status.pr_number)
  pub home : Home old new

-- The three pods, each in its phase.
pub data IsAgentPod (host : Host) (task : DevTask) : DevTaskPhase → Pod → Type 0 where
  fresh : IsAgentPod host task unset (agent_pod host task)
  revision : IsAgentPod host task awaiting_revision (agent_pod_revision host task)
  resumed : IsAgentPod host task blocked_on_clarification (agent_pod_resume host task)

-- The phases in which a pass may create a pod.
abbrev pub Spawns : DevTaskPhase → Type 0
Spawns unset = Unit
Spawns awaiting_revision = Unit
Spawns blocked_on_clarification = Unit
Spawns _ = ⊥

-- What a pass may write: the objects of the task's sandbox, its status, and deletions in the
-- namespace that its status names, of the namespace itself only in a phase in which no pod is
-- created. It never creates a task and never updates a secret. Calls that
-- write nothing to the cluster are free.
abbrev pub Footprint : Host → DevTask → Call → Type 0
Footprint host task (update_status new) = Update task new
Footprint host task (create_namespace n) = n ≡ namespace_object task
Footprint host task (create_network_policy p) =
    p ≡ sandbox_policy host.getenv host.from_int (task_namespace task)
Footprint host task (create_secret s) = (creds : PipelineCreds) × (s ≡ task_secret task creds)
Footprint host task (create_pod p) = IsAgentPod host task task.status.phase p
Footprint host task (delete_namespace ns) =
    (ns ≡ task.status.namespace) × Owns task × (¬ Spawns task.status.phase)
Footprint host task (delete_pod ns pod) =
    (ns ≡ task.status.namespace) × (pod ≡ revision_pod_name) × Owns task
Footprint host task (update_secret s) = ⊥
Footprint host task (create_dev_task t) = ⊥
Footprint host task _ = Unit
