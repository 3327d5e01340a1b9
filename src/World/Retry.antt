-- ===== src/World/Retry.antt =====
-- Passes of devtask_controller.go that raise a sandbox, fail or are stopped, and are made again.
use agentic_dev_pipeline.Prelude.{
  Option, ap, false, inl, inr, none, refl, some, subst, sym, ◌∙◌, ◌≡◌, ◌⊎◌,
}
use agentic_dev_pipeline.Api.{DevTask, unset}
use agentic_dev_pipeline.Effects.{Call, Host, Prog, delete_namespace, update_secret}
use agentic_dev_pipeline.Effects.Monitor.{Calls, Calls-mono, Safe}
use agentic_dev_pipeline.Egress.{sandbox_policy}
use agentic_dev_pipeline.Sandbox.{agent_pod_name, namespace_object, task_namespace, task_secret}
use agentic_dev_pipeline.Sandbox.Pods.{agent_pod, sandbox_pod}
use agentic_dev_pipeline.Reconcile.{reconcile_new, reconcile_phase}
use agentic_dev_pipeline.Reconcile.Building.{
  Built, Raised, Raises, build_order, nothing_built, reconcile_new-Raising,
}
use agentic_dev_pipeline.Reconcile.Diagram.{Footprint, Spawns}
use agentic_dev_pipeline.Reconcile.Order.{reconcile_phase-ordered}
use agentic_dev_pipeline.Reconcile.Phases.{reconcile_phase-Footprint}
use agentic_dev_pipeline.Reconcile.Results.{Outcome, has_error}
use agentic_dev_pipeline.World.{
  ApiServer, IsLawful, Key, Key-discrete, Object, Objects, Placed, Present, Runs, namespace_at,
  pod_at, secret_place,
}
use agentic_dev_pipeline.World.Fencing.{
  Builds, Fence, Holds, IsFenced, Stored, guarded, keeps_both, pod_place, policy_place,
}
use agentic_dev_pipeline.World.Laws.{Post, Runs-Safe, Safe-Calls}
use agentic_dev_pipeline.World.Ownership.{
  Changes-OwnsPolicy, IsGuarded, OwnsPolicy, own_policy_object, policy_slot, Present-policy,
}
use agentic_dev_pipeline.World.Refine.{
  Change, Changes, IsOwn, clear, keep, onward, reconcile_phase-refines, still, store,
}

-- Passes over the task before its status is written, each stopped at any point or run to its end.
pub data Attempts (api : ApiServer) (host : Host) (task : DevTask)
    : api.State → api.State → Type 0 where
  unattempted : {s : api.State} → Attempts api host task s s
  attempted :
      {s t u : api.State} {x : Option Outcome}
      → Attempts api host task s t
      → Runs api t (reconcile_phase host task task.status.phase) x u
      → Attempts api host task s u

-- Each object is as it was, or is new and the task's own.
abbrev pub Grows : Host → DevTask → Objects → Objects → Type 0
Grows host task f g =
    (k : Key) → (g k ≡ f k) ⊎ ((f k ≡ none) × ((o : Object) × IsOwn host task k o × (g k ≡ some o)))

module _ (host : Host) (task : DevTask) (is_fresh : task.status.phase ≡ unset) where
  Placed-cases :
      (f g : Objects) {k : Key} {o : Object}
      → IsOwn host task k o
      → Placed k o f g
      → (j : Key)
      → (g j ≡ f j) ⊎ ((f j ≡ none) × ((q : Object) × IsOwn host task j q × (g j ≡ some q)))
  Placed-cases f g {k} {o} own p j = elim (Key-discrete j k) [
    | yes e ↦ inr (
      ap f e ∙ p.was_absent,
      (o, subst (λ i. IsOwn host task i o) (sym e) own, ap g e ∙ p.is_stored),
    )
    | no n ↦ inl (p.others j n)
  ]

  Change-Grows : (f g : Objects) → Change host task f g → Grows host task f g
  Change-Grows f g (keep u) k = inl (u k)
  Change-Grows f g (store own p) k = Placed-cases f g own p k
  Change-Grows f g (clear owns c) k = absurd (owns.0 is_fresh)

  Grows-trans : (f g h : Objects) → Grows host task f g → Grows host task g h → Grows host task f h
  Grows-trans f g h a b k = elim (b k) [
    | inl same ↦ elim (a k) [
      | inl e ↦ inl (same ∙ e)
      | inr n ↦ inr (n.0, (n.1.0, n.1.1, same ∙ n.1.2))
    ]
    | inr n ↦ elim (a k) [
      | inl e ↦ inr (sym e ∙ n.0, n.1)
      | inr m ↦ absurd (none_some (sym n.0 ∙ m.1.2))
    ]
  ]
    where
      none_some : {o : Object} → ¬ (none ≡ some o)
      none_some e = cc

  Changes-Grows : {f g : Objects} → Changes host task f g → Grows host task f g
  Changes-Grows still k = inl refl
  Changes-Grows (onward c cs) k = Grows-trans _ _ _ (Change-Grows _ _ c) (Changes-Grows cs) k

-- The pod of a fresh task and what it stands behind.
pub record IsRaised (host : Host) (task : DevTask) (f : Objects) : Type 0 where
  pub fence : Fence task f
  pub own_policy : f (policy_slot host task) ≡ some (own_policy_object host task)
  pub has_pod : Present f (pod_at (task_namespace task) agent_pod_name)

-- A pass in a phase in which pods are created deletes no namespace.
module _ (host : Host) (task : DevTask) (spawning : Spawns task.status.phase) where
  builds : (c : Call) → Footprint host task c → Builds c
  builds (delete_namespace ns) h = h.2 spawning
  builds (update_secret s) h = h
  builds _ h = tt

  pass-Builds : Calls Builds (reconcile_phase host task task.status.phase)
  pass-Builds =
      Calls-mono (Footprint host task) Builds builds _ (reconcile_phase-Footprint host task)

module _ (api : ApiServer) (lawful : IsLawful api) (host : Host) (task : DevTask) where
  -- What a run from a fenced state leaves, and what its result says.
  run_keeps :
      (Q : Built → Outcome → Type 0) (p : Prog Outcome)
      → Safe (build_order host task) Q nothing_built p
      → Calls Builds p
      → (s t : api.State) (x : Option Outcome) → IsFenced task (api.objects s)
      → Runs api s p x t
      → (b : Built) × (Holds b (api.objects t) × IsFenced task (api.objects t)) × Post Q b x
  run_keeps Q p safe builds s t x fenced run =
      Runs-Safe api (guarded host task)
        (λ b u. Holds b (api.objects u) × IsFenced task (api.objects u))
        (λ b u v c r e j h. keeps_both host task _ _ b c r e j (lawful u v c r h)) Q nothing_built p
        (Safe-Calls (build_order host task) Builds Q nothing_built p safe builds)
        (record { namespaces = tt; policies = tt; secrets = tt; pods = tt }, fenced) run

-- Against an API server whose calls have their documented effects, and in each phase in which pods are
-- created (a fresh task, one to be revised, one that waits for a clarification): if at first, where there
-- is a pod in the task's namespace, there are also that namespace and in it a network policy and a
-- secret of the task's names, and the policy of that name, if there, is the one that the operator makes
-- for the task, then so it is after any number of passes over it that each fail or are stopped at any
-- point.
pub attempts-IsGuarded :
    (api : ApiServer)
    → IsLawful api
    → (host : Host) (task : DevTask) → Spawns task.status.phase
    → (s t : api.State) → IsGuarded host task (api.objects s)
    → Attempts api host task s t
    → IsGuarded host task (api.objects t)
attempts-IsGuarded api lawful host task spawning s _ guarded unattempted = guarded
attempts-IsGuarded api lawful host task spawning s _ guarded (attempted {t} {u} {x} before run) =
    let old = attempts-IsGuarded api lawful host task spawning s t guarded before in
    record {
      fenced =
          (run_keeps api lawful host task (λ _ _. Unit) _ (reconcile_phase-ordered host task)
            (pass-Builds host task spawning) t u x old.fenced run).1.1;
      owned =
          Changes-OwnsPolicy host task _ _ (reconcile_phase-refines api lawful host task t u x run)
            old.owned;
    }

module _ (api : ApiServer) (lawful : IsLawful api) (host : Host) (task : DevTask)
    (is_fresh : task.status.phase ≡ unset) where
  Attempts-Grows :
      {s t : api.State}
      → Attempts api host task s t
      → Grows host task (api.objects s) (api.objects t)
  Attempts-Grows unattempted = λ k. inl refl
  Attempts-Grows (attempted {t} {u} {x} before run) =
      Grows-trans host task is_fresh _ _ _ (Attempts-Grows before)
        (Changes-Grows host task is_fresh (reconcile_phase-refines api lawful host task t u x run))

  as_new :
      {s t : api.State} {x : Option Outcome}
      → Runs api s (reconcile_phase host task task.status.phase) x t
      → Runs api s (reconcile_new host task) x t
  unfolding reconcile_phase
  as_new {s} {t} {x} run = subst (λ p. Runs api s (reconcile_phase host task p) x t) is_fresh run

  fresh-Spawns : Spawns task.status.phase
  fresh-Spawns = subst Spawns (sym is_fresh) tt

  as_new-Builds : Calls Builds (reconcile_new host task)
  unfolding reconcile_phase
  as_new-Builds =
      subst (λ p. Calls Builds (reconcile_phase host task p)) is_fresh
        (pass-Builds host task fresh-Spawns)

  Raised-Holds :
      (b : Built) (f : Objects)
      → Raised host task b × (b.pod ≡ some (agent_pod host task))
      → Holds b f
      → OwnsPolicy host task f
      → IsRaised host task f
  unfolding namespace_object sandbox_policy task_secret agent_pod sandbox_pod
  Raised-Holds b f e h owned =
      let policy = subst (Stored policy_place f) e.0.policy_raised h.policies in
      record {
        fence = record {
          has_namespace =
              subst (Stored (λ n. namespace_at n.name) f) e.0.namespace_raised h.namespaces;
          has_policy = policy;
          has_secret = subst (Stored secret_place f) e.0.secret_raised.1 h.secrets;
        };
        own_policy = Present-policy host task f owned policy;
        has_pod = subst (Stored pod_place f) e.1 h.pods;
      }

-- Against an API server whose calls have their documented effects: if at first, where there is a pod in
-- the namespace of a fresh task, there are also that namespace and in it a network policy and a secret
-- of the task's names, and the policy of that name, if there, is the one that the operator makes for the
-- task, then after any number of passes over it that each fail or are stopped at any point, a pass that
-- ends without an error leaves a namespace, that policy, a secret and an agent pod of those names all in
-- place; and every object that differs from what it was at the start was absent then and is one of the
-- task's own.
pub retry-IsRaised :
    (api : ApiServer)
    → IsLawful api
    → (host : Host) (task : DevTask) → task.status.phase ≡ unset
    → (s t u : api.State) (o : Outcome) → IsGuarded host task (api.objects s)
    → Attempts api host task s t
    → Runs api t (reconcile_phase host task task.status.phase) (some o) u
    → has_error o ≡ false
    → IsRaised host task (api.objects u) × Grows host task (api.objects s) (api.objects u)
retry-IsRaised api lawful host task is_fresh s t u o guarded before run ended = (
  Raised-Holds api lawful host task is_fresh last.0 (api.objects u) (last.2 ended) last.1.0
      (all (attempted before run)).owned,
  Attempts-Grows api lawful host task is_fresh (attempted before run),
)
  where
    all : {v : api.State} → Attempts api host task s v → IsGuarded host task (api.objects v)
    all {v} work =
        attempts-IsGuarded api lawful host task (fresh-Spawns api lawful host task is_fresh) s v
          guarded work

    last :
        (b : Built) × (Holds b (api.objects u) × IsFenced task (api.objects u))
        × Raises host task (agent_pod host task) b o
    last =
        run_keeps api lawful host task (Raises host task (agent_pod host task))
          (reconcile_new host task) (reconcile_new-Raising host task)
          (as_new-Builds api lawful host task is_fresh) t u (some o) (all before).fenced
          (as_new api lawful host task is_fresh run)
