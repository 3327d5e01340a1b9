-- ===== src/World/Fencing.antt =====
-- How far a sandbox is raised by runs of the passes of devtask_controller.go that create pods, each of
-- which may fail or be stopped at any point, and be made again.
use agentic_dev_pipeline.Prelude.{Option, inl, inr, none, refl, some, subst, sym, ◌∙◌, ◌≡◌, ◌≢◌}
use agentic_dev_pipeline.Text.{Text, codes}
use agentic_dev_pipeline.Api.{DevTask}
use agentic_dev_pipeline.Kube.{NetworkPolicy, Pod}
use agentic_dev_pipeline.Effects.{
  Call, Host, Reply, Result, create_namespace, create_network_policy, create_pod, create_secret,
  delete_namespace, delete_pod, err, ignore_already_exists, ok, update_secret,
}
use agentic_dev_pipeline.Effects.Monitor.{Monitor}
use agentic_dev_pipeline.Egress.{sandbox_policy}
use agentic_dev_pipeline.Sandbox.{namespace_object, task_namespace, task_secret, task_secret_name}
use agentic_dev_pipeline.Reconcile.Building.{BuildGuard, Built, build_order, next_built, note}
use agentic_dev_pipeline.World.{
  Cleared, Created, Effect, Key, Object, Objects, Present, namespace_at, pod_at, policy_at,
  secret_at, secret_place,
}
use agentic_dev_pipeline.World.Laws.{
  Created-Present, Created-elsewhere, Created-keeps, Unchanged-Present,
}

abbrev pub policy_place : NetworkPolicy → Key
policy_place p = policy_at p.namespace p.name

abbrev pub pod_place : Pod → Key
pod_place p = pod_at p.namespace p.name

-- The namespace of the task is there, and in it a network policy and a secret of the task's names.
pub record Fence (task : DevTask) (f : Objects) : Type 0 where
  pub has_namespace : Present f (namespace_at (task_namespace task))
  pub has_policy : Present f (policy_at (task_namespace task) (codes "sandbox-egress"))
  pub has_secret : Present f (secret_at (task_namespace task) (task_secret_name task))

-- Every pod in the task's namespace stands behind the fence.
abbrev pub IsFenced : DevTask → Objects → Type 0
IsFenced task f = (name : Text) → Present f (pod_at (task_namespace task) name) → Fence task f

abbrev pub Stored : {A : Type 0} → (A → Key) → Objects → Option A → Type 0
Stored place f none = Unit
Stored place f (some a) = Present f (place a)

-- What is known to exist is stored.
pub record Holds (b : Built) (f : Objects) : Type 0 where
  pub namespaces : Stored (λ n. namespace_at n.name) f b.namespace
  pub policies : Stored policy_place f b.policy
  pub secrets : Stored secret_place f b.secret
  pub pods : Stored pod_place f b.pod

-- No namespace is deleted, and no secret is updated.
abbrev pub Builds : Call → Type 0
Builds (delete_namespace ns) = ⊥
Builds (update_secret s) = ⊥
Builds c = Unit

Stored-kept :
    {A : Type 0} (f g : Objects) (place : A → Key)
    → ((a : A) → Present f (place a) → Present g (place a))
    → (o : Option A) → Stored place f o
    → Stored place g o
Stored-kept f g place kept none h = tt
Stored-kept f g place kept (some a) h = kept a h

module _ (f g : Objects) (kept : (k : Key) → Present f k → Present g k) where
  Holds-kept : (b : Built) → Holds b f → Holds b g
  Holds-kept b h = record {
    namespaces = Stored-kept f g _ (λ n. kept _) b.namespace h.namespaces;
    policies = Stored-kept f g _ (λ p. kept _) b.policy h.policies;
    secrets = Stored-kept f g _ (λ s. kept _) b.secret h.secrets;
    pods = Stored-kept f g _ (λ p. kept _) b.pod h.pods;
  }

  Fence-kept : (task : DevTask) → Fence task f → Fence task g
  Fence-kept task h = record {
    has_namespace = kept _ h.has_namespace;
    has_policy = kept _ h.has_policy;
    has_secret = kept _ h.has_secret;
  }

  -- No pod is new.
  IsFenced-kept :
      (task : DevTask)
      → ((name : Text)
          → g (pod_at (task_namespace task) name) ≡ f (pod_at (task_namespace task) name))
      → IsFenced task f
      → IsFenced task g
  IsFenced-kept task same h name there =
      Fence-kept task (h name (there.0, sym (same name) ∙ there.1))

noted-Holds :
    (g : Objects) (new old : Built) (x : Result Unit)
    → (x ≡ ok tt → Holds new g)
    → Holds old g
    → Holds (note x new old) g
noted-Holds g new old (ok tt) hn ho = hn refl
noted-Holds g new old (err e) hn ho = ho

module _ (host : Host) (task : DevTask) where
  abbrev pub guarded : Monitor Built
  guarded = record (build_order host task) { guard = λ b c. BuildGuard host task b c × Builds c }

  module _ (f g : Objects) where
    -- The state of knowledge after a creation.
    Created-Holds :
        (b new : Built) (k : Key) (o : Object) (r : Result Unit)
        → Created k o r f g
        → Holds b f
        → (Present g k → Holds b g → Holds new g)
        → Holds (note (ignore_already_exists tt r) new b) g
    Created-Holds b new k o r h hb add =
        noted-Holds g new b (ignore_already_exists tt r)
          (λ e. add (Created-Present k o f g r h e) old) old
      where
        old : Holds b g
        old = Holds-kept f g (Created-keeps k o f g r h) b hb

    Created-IsFenced :
        (k : Key) (o : Object) (r : Result Unit)
        → Created k o r f g
        → ((name : Text) → pod_at (task_namespace task) name ≢ k)
        → IsFenced task f
        → IsFenced task g
    Created-IsFenced k o r h distinct =
        IsFenced-kept f g (Created-keeps k o f g r h) task
          (λ name. Created-elsewhere k o f g r h _ (distinct name))

    -- What a pod's creation asks for is stored.
    guard-Fence :
        (b : Built) (p : Pod) → BuildGuard host task b (create_pod p) → Holds b f → Fence task f
    unfolding namespace_object sandbox_policy task_secret
    guard-Fence b p e h = record {
      has_namespace = subst (Stored (λ n. namespace_at n.name) f) e.0 h.namespaces;
      has_policy = subst (Stored policy_place f) e.1 h.policies;
      has_secret = subst (Stored secret_place f) e.2.1 h.secrets;
    }

    -- A pod may be gone, and all else stays.
    module _ (ns name : Text) (gone : Cleared (λ j. j ≡ pod_at ns name) f g) where
      unless_pod : (k : Key) → k ≢ pod_at ns name → Present f k → Present g k
      unless_pod k n h = elim (gone k) [
        | inl same ↦ (h.0, same ∙ h.1)
        | inr lost ↦ absurd (n lost.0)
      ]

      was_there : (k : Key) → Present g k → Present f k
      was_there k h = elim (gone k) [
        | inl same ↦ (h.0, sym same ∙ h.1)
        | inr lost ↦ absurd (none_some (sym lost.1 ∙ h.1))
      ]
        where
          none_some : {o : Object} → ¬ (none ≡ some o)
          none_some e = cc

      pod_gone-Holds : (b : Built) → Holds b f → Holds (record b { pod = none }) g
      pod_gone-Holds b h = record {
        namespaces = Stored-kept f g _ (λ n. unless_pod _ (λ e. cc)) b.namespace h.namespaces;
        policies = Stored-kept f g _ (λ p. unless_pod _ (λ e. cc)) b.policy h.policies;
        secrets = Stored-kept f g _ (λ s. unless_pod _ (λ e. cc)) b.secret h.secrets;
        pods = tt;
      }

      pod_gone-IsFenced : IsFenced task f → IsFenced task g
      pod_gone-IsFenced h pod there =
          let old = h pod (was_there _ there) in
          record {
            has_namespace = unless_pod _ (λ e. cc) old.has_namespace;
            has_policy = unless_pod _ (λ e. cc) old.has_policy;
            has_secret = unless_pod _ (λ e. cc) old.has_secret;
          }

    pub keeps_both :
        (b : Built) (c : Call) (r : Reply c)
        → guarded.guard b c
        → Holds b f × IsFenced task f
        → Effect c r f g
        → Holds (next_built b c r) g × IsFenced task g
    keeps_both b (create_namespace n) r e j h = (
      Created-Holds b _ _ _ r h j.0 (λ there old. record {
        namespaces = there;
        policies = old.policies;
        secrets = old.secrets;
        pods = old.pods;
      }),
      Created-IsFenced _ _ r h (λ name e. cc) j.1,
    )
    keeps_both b (create_network_policy p) r e j h = (
      Created-Holds b _ _ _ r h j.0 (λ there old. record {
        namespaces = old.namespaces;
        policies = there;
        secrets = old.secrets;
        pods = old.pods;
      }),
      Created-IsFenced _ _ r h (λ name e. cc) j.1,
    )
    keeps_both b (create_secret s) r e j h = (
      Created-Holds b _ _ _ r h j.0 (λ there old. record {
        namespaces = old.namespaces;
        policies = old.policies;
        secrets = there;
        pods = old.pods;
      }),
      Created-IsFenced _ _ r h (λ name e. cc) j.1,
    )
    keeps_both b (create_pod p) r e j h = (
      Created-Holds b _ _ _ r h j.0 (λ there old. record {
        namespaces = old.namespaces;
        policies = old.policies;
        secrets = old.secrets;
        pods = there;
      }),
      λ name there. Fence-kept f g (Created-keeps _ _ f g r h) task (guard-Fence b p e.0 j.0),
    )
    keeps_both b (delete_namespace ns) r e j h = absurd e.1
    keeps_both b (delete_pod ns name) r e j h =
        (pod_gone-Holds ns name h b j.0, pod_gone-IsFenced ns name h j.1)
    keeps_both b (update_secret s) r e j h = absurd e.1
    keeps_both b _ r e j h = (
      Holds-kept f g (Unchanged-Present f g h) b j.0,
      IsFenced-kept f g (Unchanged-Present f g h) task (λ name. h _) j.1,
    )
