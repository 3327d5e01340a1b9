-- ===== src/World/Refine.antt =====
-- What a pass of `Reconcile` of devtask_controller.go may do to the stored objects, as an abstract
-- machine, and the refinement of that machine by the code.
use agentic_dev_pipeline.Prelude.{Option, inl, inr, refl, subst, sym, ◌≡◌}
use agentic_dev_pipeline.Text.{codes}
use agentic_dev_pipeline.Api.{DevTask, DevTaskPhase}
use agentic_dev_pipeline.Kube.{NetworkPolicy, Pod, Secret}
use agentic_dev_pipeline.Effects.{
  Call, Host, Prog, Reply, Result, create_dev_task, create_namespace, create_network_policy,
  create_pod, create_secret, delete_namespace, delete_pod, get_dev_task, list_dev_tasks,
  update_secret, update_status,
}
use agentic_dev_pipeline.Effects.Monitor.{Calls}
use agentic_dev_pipeline.Egress.{sandbox_policy}
use agentic_dev_pipeline.Credentials.{PipelineCreds}
use agentic_dev_pipeline.Sandbox.{namespace_object, task_namespace, task_secret, task_secret_name}
use agentic_dev_pipeline.Sandbox.Pods.{agent_pod, agent_pod_resume, agent_pod_revision, sandbox_pod}
use agentic_dev_pipeline.Reconcile.{reconcile_phase}
use agentic_dev_pipeline.Reconcile.Diagram.{Footprint, IsAgentPod, Owns, fresh, resumed, revision}
use agentic_dev_pipeline.Reconcile.Phases.{reconcile_phase-Footprint}
use agentic_dev_pipeline.Reconcile.Results.{Outcome}
use agentic_dev_pipeline.World.{
  ApiServer, Cleared, Created, Effect, IsLawful, IsWithin, Key, Object, Objects, Placed, Runs,
  Unchanged, finished, interrupted, namespace_at, pod_at, policy_at, secret_at, served,
  stored_namespace, stored_pod, stored_policy, stored_secret,
}
use agentic_dev_pipeline.World.Laws.{Created-cases}

-- The objects of a task's sandbox, each at its place.
pub data IsOwn (host : Host) (task : DevTask) : Key → Object → Type 0 where
  own_namespace :
      IsOwn host task
        (namespace_at (task_namespace task))
        (stored_namespace (namespace_object task))
  own_policy :
      IsOwn host task
        (policy_at (task_namespace task) (codes "sandbox-egress"))
        (stored_policy (sandbox_policy host.getenv host.from_int (task_namespace task)))
  own_secret :
      (creds : PipelineCreds)
      → IsOwn host task
          (secret_at (task_namespace task) (task_secret_name task))
          (stored_secret (task_secret task creds))
  own_pod :
      {p : Pod}
      → IsAgentPod host task task.status.phase p
      → IsOwn host task (pod_at (task_namespace task) p.name) (stored_pod p)

-- One step: nothing; an object of the sandbox in an empty slot; or, for a task that was started, any
-- loss within the namespace that its status names.
pub data Change (host : Host) (task : DevTask) (f g : Objects) : Type 0 where
  keep : Unchanged f g → Change host task f g
  store : {k : Key} {o : Object} → IsOwn host task k o → Placed k o f g → Change host task f g
  clear : Owns task → Cleared (IsWithin task.status.namespace) f g → Change host task f g

pub data Changes (host : Host) (task : DevTask) : Objects → Objects → Type 0 where
  still : {f : Objects} → Changes host task f f
  onward : {f g h : Objects} → Change host task f g → Changes host task g h → Changes host task f h

IsAgentPod-namespace :
    (host : Host) (task : DevTask) {q : DevTaskPhase} {p : Pod}
    → IsAgentPod host task q p
    → p.namespace ≡ task_namespace task
unfolding agent_pod agent_pod_revision agent_pod_resume sandbox_pod
IsAgentPod-namespace host task fresh = refl
IsAgentPod-namespace host task revision = refl
IsAgentPod-namespace host task resumed = refl

module _ (host : Host) (task : DevTask) (f g : Objects) where
  creation :
      (k : Key) (o : Object) (r : Result Unit)
      → IsOwn host task k o
      → Created k o r f g
      → Change host task f g
  creation k o r own h = elim (Created-cases k o f g r h) [ inl u ↦ keep u | inr p ↦ store own p ]

  policy-IsOwn :
      (p : NetworkPolicy)
      → p ≡ sandbox_policy host.getenv host.from_int (task_namespace task)
      → IsOwn host task (policy_at p.namespace p.name) (stored_policy p)
  unfolding sandbox_policy
  policy-IsOwn p e = rw e own_policy

  secret-IsOwn :
      (s : Secret) (creds : PipelineCreds)
      → s ≡ task_secret task creds
      → IsOwn host task (secret_at s.namespace s.name) (stored_secret s)
  unfolding task_secret
  secret-IsOwn s creds e = rw e (own_secret creds)

  pod-IsOwn :
      (p : Pod)
      → IsAgentPod host task task.status.phase p
      → IsOwn host task (pod_at p.namespace p.name) (stored_pod p)
  pod-IsOwn p e =
      subst (λ n. IsOwn host task (pod_at n p.name) (stored_pod p))
        (sym (IsAgentPod-namespace host task e)) (own_pod e)

  -- Each call of the footprint is one step.
  call_step :
      (c : Call) (r : Reply c) → Footprint host task c → Effect c r f g → Change host task f g
  unfolding namespace_object
  call_step (create_namespace n) r e h = creation _ _ r (rw e own_namespace) h
  call_step (create_network_policy p) r e h = creation _ _ r (policy-IsOwn p e) h
  call_step (create_secret s) r e h = creation _ _ r (secret-IsOwn s e.0 e.1) h
  call_step (create_pod p) r e h = creation _ _ r (pod-IsOwn p e) h
  call_step (delete_namespace ns) r e h = clear e.1 (subst (λ n. Cleared (IsWithin n) f g) e.0 h)
  call_step (delete_pod ns name) r e h = clear e.2 λ j. elim (h j) [
    | inl same ↦ inl same
    | inr gone ↦ inr (subst (λ k. IsWithin task.status.namespace k) (sym gone.0) e.0, gone.1)
  ]
  call_step (update_secret s) r e h = absurd e
  call_step (create_dev_task t) r e h = absurd e
  call_step (update_status t) r e h = keep h
  call_step (get_dev_task ns name) r e h = keep h
  call_step (list_dev_tasks ns) r e h = keep h
  call_step _ r e h = keep h

module _ (api : ApiServer) (lawful : IsLawful api) (host : Host) (task : DevTask) where
  run_refines :
      {A : Type 0} (p : Prog A) {s t : api.State} {x : Option A}
      → Calls (Footprint host task) p
      → Runs api s p x t
      → Changes host task (api.objects s) (api.objects t)
  run_refines p h interrupted = still
  run_refines _ h finished = still
  run_refines _ h (served {c} {k} r e run) =
      onward (call_step host task _ _ c r h.0 (lawful _ _ c r e)) (run_refines (k r) (h.1 r) run)

-- Every run of a pass over a task in any phase, to its end or stopped at any point, against an API
-- server whose calls have their documented effects, is a sequence of the steps of the abstract machine:
-- an object of the task's own sandbox is stored where there was none, or, for a task that was started
-- and has not given up its namespace, objects within the namespace that its status names are lost.
pub reconcile_phase-refines :
    (api : ApiServer)
    → IsLawful api
    → (host : Host) (task : DevTask) (s t : api.State) (x : Option Outcome)
    → Runs api s (reconcile_phase host task task.status.phase) x t
    → Changes host task (api.objects s) (api.objects t)
reconcile_phase-refines api lawful host task s t x run =
    run_refines api lawful host task _ (reconcile_phase-Footprint host task) run
