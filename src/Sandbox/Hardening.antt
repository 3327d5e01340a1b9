-- ===== src/Sandbox/Hardening.antt =====
-- What every pod of pod.go that the reconciler creates has in common.
use agentic_dev_pipeline.Prelude.{
  All, Bool, List, [], arith, false, if◌then◌else◌, inl, inr, refl, true, ◌++◌, ◌∷◌, ◌≡◌, ◌≢◌, ◌⊎◌,
}
use agentic_dev_pipeline.Text.{Text, codes}
use agentic_dev_pipeline.Api.{DevTask}
use agentic_dev_pipeline.Kube.{Container, EnvValue, Pod, StringMap, literal, secret_key}
use agentic_dev_pipeline.Effects.{Host}
use agentic_dev_pipeline.Egress.{egress_proxy_enabled, egress_proxy_url}
use agentic_dev_pipeline.Credentials.{PipelineCreds}
use agentic_dev_pipeline.Sandbox.{task_namespace, task_secret}
use agentic_dev_pipeline.Sandbox.Pods.{
  agent_container, agent_env, container_security, credential_env, init_container, no_proxy_hosts,
  proxy_env, sandbox_pod, secret_ref,
}

abbrev pub In : Text → List Text → Type 0
In t [] = ⊥
In t (x ∷ xs) = (t ≡ x) ⊎ In t xs

-- No escalation of privileges, a root file system that is read only, no capability.
abbrev pub IsLocked : Container → Type 0
IsLocked c =
    (c.security.allow_privilege_escalation ≡ false)
    × (c.security.read_only_root_filesystem ≡ true)
    × (c.security.drop_capabilities ≡ codes "ALL" ∷ [])

-- Each mount is of a volume of the pod.
abbrev pub MountsFrom : List Text → Container → Type 0
MountsFrom volumes c = All (λ m. In m.0 volumes) c.volume_mounts

-- A value that is taken from the secret of that name, by a key that the secret has, or one that is
-- written out in the pod and stands in the list.
abbrev pub ValueFrom : Text → List Text → List Text → EnvValue → Type 0
ValueFrom secret keys clear (secret_key name key) = (name ≡ secret) × In key keys
ValueFrom secret keys clear (literal v) = In v clear

abbrev pub keys_of : StringMap → List Text
keys_of [] = []
keys_of ((k, v) ∷ m) = k ∷ keys_of m

-- The texts that the environment of the agent's container holds in the clear.
abbrev pub open_values : Host → List Text
open_values host = egress_proxy_url host.getenv ∷ no_proxy_hosts ∷ []

-- A hardened pod of a task, and what its agent is given: of the credentials only references into the
-- task's own secret, by keys that the secret has whatever the credentials are.
pub record IsHardened (host : Host) (task : DevTask) (pod : Pod) : Type 0 where
  pub own_namespace : pod.namespace ≡ task_namespace task
  pub no_token : pod.automount_service_account_token ≡ false
  pub not_root : (pod.security.run_as_non_root ≡ true) × (pod.security.run_as_user ≢ 0)
  pub seccomp : pod.security.seccomp_profile ≡ codes "RuntimeDefault"
  pub once : (pod.restart_policy ≡ codes "Never") × (pod.active_deadline_seconds ≡ 1800)
  pub all_locked : All IsLocked (pod.init_containers ++ pod.containers)
  pub all_mounts : All (MountsFrom pod.volumes) (pod.init_containers ++ pod.containers)
  pub by_reference :
      (creds : PipelineCreds)
      → All
          (λ c.
            All
              (λ v.
                ValueFrom
                  (task_secret task creds).name
                  (keys_of (task_secret task creds).values)
                  (open_values host)
                  v.value)
              c.env)
          pod.containers

env_from_secret :
    (host : Host) (task : DevTask) (creds : PipelineCreds) (proxy : Bool)
    → All
        (λ v.
          ValueFrom
            (task_secret task creds).name
            (keys_of (task_secret task creds).values)
            (open_values host)
            v.value)
        (credential_env task ++ (if proxy then proxy_env (egress_proxy_url host.getenv) else []))
unfolding credential_env secret_ref task_secret proxy_env
env_from_secret host task creds true = (
  (refl, inl refl),
  (
    (refl, inl refl),
    (
      (refl, inr (inl refl)),
      (
        (refl, inr (inl refl)),
        (
          (refl, inr (inr (inl refl))),
          (
            (refl, inr (inr (inr (inl refl)))),
            (
              (refl, inr (inr (inr (inr (inl refl))))),
              (
                (refl, inr (inr (inr (inl refl)))),
                (
                  (refl, inr (inr (inr (inr (inl refl))))),
                  (
                    inl refl,
                    (inl refl, (inl refl, (inl refl, (inr (inl refl), (inr (inl refl), tt))))),
                  ),
                ),
              ),
            ),
          ),
        ),
      ),
    ),
  ),
)
env_from_secret host task creds false = (
  (refl, inl refl),
  (
    (refl, inl refl),
    (
      (refl, inr (inl refl)),
      (
        (refl, inr (inl refl)),
        (
          (refl, inr (inr (inl refl))),
          (
            (refl, inr (inr (inr (inl refl)))),
            (
              (refl, inr (inr (inr (inr (inl refl))))),
              ((refl, inr (inr (inr (inl refl)))), ((refl, inr (inr (inr (inr (inl refl))))), tt)),
            ),
          ),
        ),
      ),
    ),
  ),
)

agent_env-from_secret :
    (host : Host) (task : DevTask) (creds : PipelineCreds)
    → All
        (λ v.
          ValueFrom
            (task_secret task creds).name
            (keys_of (task_secret task creds).values)
            (open_values host)
            v.value)
        (agent_env host.getenv task)
unfolding agent_env
agent_env-from_secret host task creds =
    env_from_secret host task creds (egress_proxy_enabled host.getenv)

pub sandbox_pod-IsHardened :
    (host : Host) (task : DevTask) (name script : Text)
    → IsHardened host task (sandbox_pod host.getenv task name script)
unfolding sandbox_pod init_container agent_container container_security
sandbox_pod-IsHardened host task name script = record {
  own_namespace = refl;
  no_token = refl;
  not_root = (refl, omega arith);
  seccomp = refl;
  once = (refl, refl);
  all_locked = ((refl, refl, refl), ((refl, refl, refl), tt));
  all_mounts =
      ((inr (inl refl), tt), ((inl refl, (inr (inl refl), (inr (inr (inl refl)), tt))), tt));
  by_reference = λ creds. (agent_env-from_secret host task creds, tt);
}
