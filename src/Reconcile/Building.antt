-- ===== src/Reconcile/Building.antt =====
-- The monitor of the order in which devtask_controller.go builds a sandbox, and the two functions
-- that build one.
use agentic_dev_pipeline.Prelude.{Option, false, none, refl, some, ◌≡◌}
use agentic_dev_pipeline.Text.{Text}
use agentic_dev_pipeline.Api.{DevTask}
use agentic_dev_pipeline.Kube.{Namespace, NetworkPolicy, Pod, Secret}
use agentic_dev_pipeline.Effects.{
  Call, Error, Host, Prog, Reply, Result, attempt, branch, create_namespace, create_network_policy,
  create_pod, create_secret, delete_pod, err, ignore_already_exists, ok, ◌>>=◌,
}
use agentic_dev_pipeline.Effects.Kinds.{IsAside, IsCredential, IsCredential→IsAside}
use agentic_dev_pipeline.Effects.Monitor.{
  Calls-mono, Monitor, Neutral, Safe, Safe-attempt, Safe-weaken,
}
use agentic_dev_pipeline.Egress.{sandbox_policy}
use agentic_dev_pipeline.Credentials.{PipelineCreds, read_pipeline_credentials}
use agentic_dev_pipeline.Sandbox.{
  ensure_namespace, ensure_network_policy, ensure_pod, ensure_task_secret, namespace_object,
  task_namespace, task_secret,
}
use agentic_dev_pipeline.Sandbox.Pods.{agent_pod, agent_pod_resume, agent_pod_revision, sandbox_pod}
use agentic_dev_pipeline.Github.Reads.{read_pipeline_credentials-IsCredential}
use agentic_dev_pipeline.Reconcile.{reconcile_new, spawn_agent_sandbox, start_pod}
use agentic_dev_pipeline.Reconcile.Results.{Outcome, has_error}

-- What of a sandbox is known to exist, since its creation succeeded or it was there before.
pub record Built : Type 0 where
  pub namespace : Option Namespace
  pub policy : Option NetworkPolicy
  pub secret : Option Secret
  pub pod : Option Pod

abbrev pub nothing_built : Built
nothing_built = record { namespace = none; policy = none; secret = none; pod = none }

abbrev pub note : Result Unit → Built → Built → Built
note (ok _) new old = new
note (err e) new old = old

abbrev pub next_built : Built → (c : Call) → Reply c → Built
next_built s (create_namespace n) r =
    note (ignore_already_exists tt r) (record s { namespace = some n }) s
next_built s (create_network_policy p) r =
    note (ignore_already_exists tt r) (record s { policy = some p }) s
next_built s (create_secret c) r =
    note (ignore_already_exists tt r) (record s { secret = some c }) s
next_built s (create_pod p) r = note (ignore_already_exists tt r) (record s { pod = some p }) s
next_built s (delete_pod ns name) r = record s { pod = none }
next_built s _ r = s

-- A pod is created only in the task's namespace, behind the namespace, the network policy and the
-- secret of the task.
abbrev pub BuildGuard : Host → DevTask → Built → Call → Type 0
BuildGuard host task s (create_pod p) =
    (s.namespace ≡ some (namespace_object task))
    × (s.policy ≡ some (sandbox_policy host.getenv host.from_int (task_namespace task)))
    × ((creds : PipelineCreds) × (s.secret ≡ some (task_secret task creds)))
    × (p.namespace ≡ task_namespace task)
BuildGuard host task s _ = Unit

abbrev pub build_order : Host → DevTask → Monitor Built
build_order host task = record { guard = BuildGuard host task; next = next_built }

-- The objects of the task are known to exist.
pub record Raised (host : Host) (task : DevTask) (s : Built) : Type 0 where
  pub namespace_raised : s.namespace ≡ some (namespace_object task)
  pub policy_raised :
      s.policy ≡ some (sandbox_policy host.getenv host.from_int (task_namespace task))
  pub secret_raised : (creds : PipelineCreds) × (s.secret ≡ some (task_secret task creds))

-- What an outcome without an error says of the sandbox.
abbrev pub Raises : Host → DevTask → Pod → Built → Outcome → Type 0
Raises host task pod s o = has_error o ≡ false → Raised host task s × (s.pod ≡ some pod)

module _ (host : Host) (task : DevTask) where
  agent_pod-namespace : (agent_pod host task).namespace ≡ task_namespace task
  unfolding agent_pod sandbox_pod
  agent_pod-namespace = refl

  pub agent_pod_resume-namespace : (agent_pod_resume host task).namespace ≡ task_namespace task
  unfolding agent_pod_resume sandbox_pod
  agent_pod_resume-namespace = refl

  pub agent_pod_revision-namespace : (agent_pod_revision host task).namespace ≡ task_namespace task
  unfolding agent_pod_revision sandbox_pod
  agent_pod_revision-namespace = refl

  abbrev pub Ordered : {A : Type 0} → Built → Prog A → Type 0
  Ordered = Safe (build_order host task) (λ _ _. Unit)

  pub aside-Neutral : (s : Built) (c : Call) → IsAside c → Neutral (build_order host task) s c
  aside-Neutral s (create_pod p) h = absurd h
  aside-Neutral s (create_namespace n) h = absurd h
  aside-Neutral s (create_network_policy n) h = absurd h
  aside-Neutral s (create_secret n) h = absurd h
  aside-Neutral s (delete_pod ns name) h = absurd h
  aside-Neutral s _ h = (tt, λ r. refl)

-- The pod that ends the sandbox.
module _ (host : Host) (task : DevTask) (pod : Pod) where
  abbrev pub Raising : Built → Prog Outcome → Type 0
  Raising = Safe (build_order host task) (Raises host task pod)

  -- A creation that is noted, and what follows it.
  noted :
      (old new : Built) (x : Result Unit) (g : Error → Prog Outcome) (f : Unit → Prog Outcome)
      → ((e : Error) → Raising old (g e))
      → Raising new (f tt)
      → Raising (note x new old) (branch g f x)
  noted old new (ok tt) g f kg kf = kf
  noted old new (err e) g f kg kf = kg e

  start_pod-Raising :
      (s : Built) (text : Text)
      → Raised host task s
      → pod.namespace ≡ task_namespace task
      → Raising s (start_pod task pod text)
  unfolding start_pod ensure_pod ◌>>=◌ attempt
  start_pod-Raising s text h e = (
    (h.namespace_raised, h.policy_raised, h.secret_raised, e),
    λ r.
        noted s (record s { pod = some pod }) (ignore_already_exists tt r) _ _ (λ e ended. cc)
          (tt, λ t. (tt, λ u. λ ended. (raised, refl))),
  )
    where
      raised : Raised host task (record s { pod = some pod })
      raised = record {
        namespace_raised = h.namespace_raised;
        policy_raised = h.policy_raised;
        secret_raised = h.secret_raised;
      }

  -- A creation whose reply is noted, in front of the rest.
  create_namespace_step :
      (s : Built) (g : Error → Prog Outcome) (f : Unit → Prog Outcome)
      → ((e : Error) → Raising s (g e))
      → Raising (record s { namespace = some (namespace_object task) }) (f tt)
      → Raising s (attempt (ensure_namespace task) g f)
  unfolding ensure_namespace attempt ◌>>=◌
  create_namespace_step s g f kg kf = (tt, λ r. noted s _ (ignore_already_exists tt r) g f kg kf)

  create_policy_step :
      (s : Built) (g : Error → Prog Outcome) (f : Unit → Prog Outcome)
      → ((e : Error) → Raising s (g e))
      → Raising
          (record s {
            policy = some (sandbox_policy host.getenv host.from_int (task_namespace task));
          })
          (f tt)
      → Raising s (attempt (ensure_network_policy host task) g f)
  unfolding ensure_network_policy attempt ◌>>=◌
  create_policy_step s g f kg kf = (tt, λ r. noted s _ (ignore_already_exists tt r) g f kg kf)

  create_secret_step :
      (s : Built) (creds : PipelineCreds) (g : Error → Prog Outcome) (f : Unit → Prog Outcome)
      → ((e : Error) → Raising s (g e))
      → Raising (record s { secret = some (task_secret task creds) }) (f tt)
      → Raising s (attempt (ensure_task_secret task creds) g f)
  unfolding ensure_task_secret attempt ◌>>=◌
  create_secret_step s creds g f kg kf = (tt, λ r. noted s _ (ignore_already_exists tt r) g f kg kf)

  read_step :
      (s : Built) (g : Error → Prog Outcome) (f : PipelineCreds → Prog Outcome)
      → ((e : Error) → Raising s (g e))
      → ((creds : PipelineCreds) → Raising s (f creds))
      → Raising s (attempt read_pipeline_credentials g f)
  read_step s g f kg kf =
      Safe-attempt (build_order host task) (Raises host task pod) s read_pipeline_credentials g f
        (Calls-mono IsCredential (Neutral (build_order host task) s)
          (λ c h. aside-Neutral host task s c (IsCredential→IsAside c h)) read_pipeline_credentials
          read_pipeline_credentials-IsCredential)
        kg kf

  spawn_agent_sandbox-Raising :
      (text : Text)
      → pod.namespace ≡ task_namespace task
      → Raising nothing_built (spawn_agent_sandbox host task pod text)
  unfolding spawn_agent_sandbox
  spawn_agent_sandbox-Raising text h =
      read_step _ _ _ (λ e ended. cc)
        λ creds.
          create_namespace_step _ _ _ (λ e ended. cc)
            (create_policy_step _ _ _ (λ e ended. cc)
              (create_secret_step _ creds _ _ (λ e ended. cc)
                (start_pod-Raising _ text
                  (record {
                    namespace_raised = refl;
                    policy_raised = refl;
                    secret_raised = (creds, refl);
                  })
                  h)))

module _ (host : Host) (task : DevTask) where
  pub reconcile_new-Raising :
      Raising host task (agent_pod host task) nothing_built (reconcile_new host task)
  unfolding reconcile_new
  reconcile_new-Raising =
      create_namespace_step _ _ _ _ _ _ (λ e ended. cc)
        (create_policy_step _ _ _ _ _ _ (λ e ended. cc)
          (read_step _ _ _ _ _ _ (λ e ended. cc)
            λ creds.
              create_secret_step _ _ _ _ creds _ _ (λ e ended. cc)
                (start_pod-Raising _ _ _ _ _
                  (record {
                    namespace_raised = refl;
                    policy_raised = refl;
                    secret_raised = (creds, refl);
                  })
                  (agent_pod-namespace host task))))

  pub reconcile_new-Ordered : Ordered host task nothing_built (reconcile_new host task)
  reconcile_new-Ordered =
      Safe-weaken (build_order host task) _ _ (λ s o h. tt) _ _ reconcile_new-Raising

  pub spawn_agent_sandbox-Ordered :
      (pod : Pod) (text : Text)
      → pod.namespace ≡ task_namespace task
      → Ordered host task nothing_built (spawn_agent_sandbox host task pod text)
  spawn_agent_sandbox-Ordered pod text h =
      Safe-weaken (build_order host task) _ _ (λ s o h. tt) _ _
        (spawn_agent_sandbox-Raising host task pod text h)
