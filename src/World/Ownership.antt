-- ===== src/World/Ownership.antt =====
-- The network policy of a task's sandbox is the one of networkpolicy.go, through all passes.
use agentic_dev_pipeline.Prelude.{ap, inl, inr, none, refl, some, sym, ◌∙◌, ◌≡◌, ◌≢◌, ◌⊎◌}
use agentic_dev_pipeline.Text.{codes}
use agentic_dev_pipeline.Api.{DevTask}
use agentic_dev_pipeline.Effects.{Host}
use agentic_dev_pipeline.Egress.{sandbox_policy}
use agentic_dev_pipeline.Sandbox.{task_namespace, task_secret_name}
use agentic_dev_pipeline.World.{
  Key, Key-discrete, Object, Objects, Present, namespace_at, pod_at, policy_at, secret_at,
  stored_policy,
}
use agentic_dev_pipeline.World.Fencing.{IsFenced}
use agentic_dev_pipeline.World.Refine.{
  Change, Changes, IsOwn, clear, keep, onward, own_namespace, own_pod, own_policy, own_secret,
  still, store,
}

module _ (host : Host) (task : DevTask) where
  abbrev pub policy_slot : Key
  policy_slot = policy_at (task_namespace task) (codes "sandbox-egress")

  abbrev pub own_policy_object : Object
  own_policy_object = stored_policy (sandbox_policy host.getenv host.from_int (task_namespace task))

  -- Nothing but the task's own policy stands in its slot.
  abbrev pub OwnsPolicy : Objects → Type 0
  OwnsPolicy f = (f policy_slot ≡ none) ⊎ (f policy_slot ≡ some own_policy_object)

  slot-IsOwn :
      {k : Key} {o : Object} → IsOwn host task k o → k ≡ policy_slot → o ≡ own_policy_object
  slot-IsOwn own_policy e = refl
  slot-IsOwn own_namespace e = absurd (different e)
    where
      different : namespace_at (task_namespace task) ≢ policy_slot
      different h = cc
  slot-IsOwn (own_secret creds) e = absurd (different e)
    where
      different : secret_at (task_namespace task) (task_secret_name task) ≢ policy_slot
      different h = cc
  slot-IsOwn (own_pod {p} h) e = absurd (different e)
    where
      different : pod_at (task_namespace task) p.name ≢ policy_slot
      different h = cc

  same_slot : (f g : Objects) → g policy_slot ≡ f policy_slot → OwnsPolicy f → OwnsPolicy g
  same_slot f g e (inl h) = inl (e ∙ h)
  same_slot f g e (inr h) = inr (e ∙ h)

  Change-OwnsPolicy : (f g : Objects) → Change host task f g → OwnsPolicy f → OwnsPolicy g
  Change-OwnsPolicy f g (keep u) h = same_slot f g (u policy_slot) h
  Change-OwnsPolicy f g (store {k} {o} own p) h = elim (Key-discrete policy_slot k) [
    | yes e ↦ inr (ap g e ∙ p.is_stored ∙ ap (λ q. some q) (slot-IsOwn own (sym e)))
    | no n ↦ same_slot f g (p.others policy_slot n) h
  ]
  Change-OwnsPolicy f g (clear owns c) h = elim (c policy_slot) [
    | inl same ↦ same_slot f g same h
    | inr gone ↦ inl gone.1
  ]

  pub Changes-OwnsPolicy : (f g : Objects) → Changes host task f g → OwnsPolicy f → OwnsPolicy g
  Changes-OwnsPolicy f _ still h = h
  Changes-OwnsPolicy f g (onward {g = k} c cs) h =
      Changes-OwnsPolicy k g cs (Change-OwnsPolicy f k c h)

-- Where there is a pod in the task's namespace, there are the namespace, a network policy and a secret
-- of the task's names; and the network policy of that name, if there, is the task's own.
pub record IsGuarded (host : Host) (task : DevTask) (f : Objects) : Type 0 where
  pub fenced : IsFenced task f
  pub owned : OwnsPolicy host task f

module _ (host : Host) (task : DevTask) where
  pub Present-policy :
      (f : Objects)
      → OwnsPolicy host task f
      → Present f (policy_slot host task)
      → f (policy_slot host task) ≡ some (own_policy_object host task)
  Present-policy f (inl e) h = absurd (none_some (sym e ∙ h.1))
    where
      none_some : {o : Object} → ¬ (none ≡ some o)
      none_some e = cc
  Present-policy f (inr e) h = e
