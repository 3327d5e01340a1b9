-- ===== src/World/Recovery.antt =====
-- A pass over a fresh task of devtask_controller.go in which the services do not fail, whatever failed
-- before.
use agentic_dev_pipeline.Prelude.{Option, none, refl, some, subst, sym, ◌≡◌}
use agentic_dev_pipeline.Text.{Text}
use agentic_dev_pipeline.Api.{DevTask, unset}
use agentic_dev_pipeline.Kube.{Pod}
use agentic_dev_pipeline.Effects.{
  Call, Error, Host, Prog, Reply, Result, attempt, create_namespace, create_network_policy,
  create_pod, create_secret, ignore_already_exists, now, ok, perform, ret, update_status, ◌>>=◌,
}
use agentic_dev_pipeline.Egress.{sandbox_policy}
use agentic_dev_pipeline.Credentials.{PipelineCreds, read_pipeline_credentials}
use agentic_dev_pipeline.Sandbox.{
  ensure_namespace, ensure_network_policy, ensure_pod, ensure_task_secret, namespace_object,
  task_namespace, task_secret,
}
use agentic_dev_pipeline.Reconcile.{reconcile_new, reconcile_phase, start_pod}
use agentic_dev_pipeline.Reconcile.Results.{finish, mark_building, outcome_of, seconds}
use agentic_dev_pipeline.Samples.Memory.{after}
use agentic_dev_pipeline.World.{ApiServer, IsLawful, Runs, finished, served}
use agentic_dev_pipeline.World.Fencing.{guarded}
use agentic_dev_pipeline.World.Ownership.{IsGuarded}
use agentic_dev_pipeline.World.Retry.{Attempts, IsRaised, retry-IsRaised}

-- A reply that a creation takes for a success.
abbrev pub IsSettled : Result Unit → Type 0
IsSettled r = ignore_already_exists tt r ≡ ok tt

-- The reply lets the pass go on.
abbrev pub Accepts : (c : Call) → Reply c → Type 0
Accepts (create_namespace n) r = IsSettled r
Accepts (create_network_policy p) r = IsSettled r
Accepts (create_secret s) r = IsSettled r
Accepts (create_pod p) r = IsSettled r
Accepts (update_status t) r = r ≡ ok tt
Accepts c r = Unit

-- The services are up: in every state each call can be answered so, and the credentials can be read.
pub record IsResponsive (api : ApiServer) : Type 0 where
  pub answers :
      (s : api.State) (c : Call)
      → (r : Reply c) × (t : api.State) × api.Serves s c r t × Accepts c r
  pub readable :
      (s : api.State)
      → (creds : PipelineCreds) × (t : api.State) × Runs api s read_pipeline_credentials
          (some (ok creds))
          t

module _ (api : ApiServer) where
  -- A program that succeeds, and what follows it.
  Runs-attempt :
      {A B : Type 0} (p : Prog (Result A)) (g : Error → Prog B) (f : A → Prog B) (a : A)
      {s t u : api.State} {x : Option B}
      → Runs api s p (some (ok a)) t
      → Runs api t (f a) x u
      → Runs api s (attempt p g f) x u
  unfolding attempt ◌>>=◌
  Runs-attempt _ g f a finished after = after
  Runs-attempt _ g f a (served {c} {k} r e run) after =
      served r e (Runs-attempt (k r) g f a run after)

  settled :
      (t : api.State) (r : Result Unit)
      → IsSettled r
      → Runs api t (ret (ignore_already_exists tt r)) (some (ok tt)) t
  settled t r h = subst (λ z. Runs api t (ret z) (some (ok tt)) t) (sym h) finished

module _ (api : ApiServer) (up : IsResponsive api) (host : Host) (task : DevTask) where
  -- That the program can be run to that result.
  abbrev Reaches : {A : Type 0} → api.State → Prog A → A → Type 0
  Reaches s p a = (t : api.State) × Runs api s p (some a) t

  reach :
      {A B : Type 0} (s : api.State) (p : Prog (Result A)) (g : Error → Prog B) (f : A → Prog B)
      (a : A) (b : B)
      → Reaches s p (ok a)
      → ((t : api.State) → Reaches t (f a) b)
      → Reaches s (attempt p g f) b
  reach s p g f a b h k = ((k h.0).0, Runs-attempt api p g f a h.1 (k h.0).1)

  namespace-Reaches : (s : api.State) → Reaches s (ensure_namespace task) (ok tt)
  unfolding ensure_namespace ◌>>=◌
  namespace-Reaches s =
      let (r, t, e, h) = up.answers s (create_namespace (namespace_object task)) in
      (t, served r e (settled api t r h))

  policy-Reaches : (s : api.State) → Reaches s (ensure_network_policy host task) (ok tt)
  unfolding ensure_network_policy ◌>>=◌
  policy-Reaches s =
      let (r, t, e, h) =
        up.answers s (
          create_network_policy (sandbox_policy host.getenv host.from_int (task_namespace task))) in
      (t, served r e (settled api t r h))

  secret-Reaches :
      (creds : PipelineCreds) (s : api.State) → Reaches s (ensure_task_secret task creds) (ok tt)
  unfolding ensure_task_secret ◌>>=◌
  secret-Reaches creds s =
      let (r, t, e, h) = up.answers s (create_secret (task_secret task creds)) in
      (t, served r e (settled api t r h))

  pod-Reaches : (pod : Pod) (s : api.State) → Reaches s (ensure_pod pod) (ok tt)
  unfolding ensure_pod ◌>>=◌
  pod-Reaches pod s =
      let (r, t, e, h) = up.answers s (create_pod pod) in (t, served r e (settled api t r h))

  -- The clock and the status.
  status-Reaches :
      (text : Text) (s : api.State)
      → Reaches s
          (perform now >>= λ t. finish (seconds 30) (mark_building t text task))
          (outcome_of (seconds 30) (ok tt))
  unfolding ◌>>=◌
  status-Reaches text s =
      let (clock, t, e, h) = up.answers s now in
      let (r, u, f, k) = up.answers t (update_status (mark_building clock text task)) in
      (
        u,
        served clock e (
            served r f (
              subst
                (λ z.
                  Runs api u (ret (outcome_of (seconds 30) z))
                    (some (outcome_of (seconds 30) (ok tt))) u)
                (sym k) finished)),
      )

  reconcile_new-Reaches :
      (s : api.State) → Reaches s (reconcile_new host task) (outcome_of (seconds 30) (ok tt))
  unfolding reconcile_new start_pod
  reconcile_new-Reaches s = reach s _ _ _ tt _ (namespace-Reaches s) λ t.
      reach t _ _ _ tt _ (policy-Reaches t) λ u.
        let (creds, v, run) = up.readable u in
        reach u _ _ _ creds _ (v, run)
          λ w.
            reach w _ _ _ tt _ (secret-Reaches creds w)
              λ y. reach y _ _ _ tt _ (pod-Reaches _ y) λ z. status-Reaches _ z

-- Against an API server whose calls have their documented effects and that can answer each call with
-- success in every state, where the credentials can be read: if at first, where there is a pod in the
-- namespace of a fresh task, there are also that namespace and in it a network policy and a secret of
-- the task's names, and the policy of that name, if there, is the one that the operator makes for the
-- task, then after any number of passes over it that each fail or are stopped at any point, a pass can
-- run to an outcome without an error, which asks for the next pass after 30 seconds, and then a
-- namespace, that policy, a secret and an agent pod of those names are all in place.
pub recovery-IsRaised :
    (api : ApiServer)
    → IsLawful api
    → IsResponsive api
    → (host : Host) (task : DevTask) → task.status.phase ≡ unset
    → (s t : api.State) → IsGuarded host task (api.objects s)
    → Attempts api host task s t
    → (u : api.State) × Runs api t
        (reconcile_phase host task task.status.phase)
        (some (record { requeue_after = 30_000_000_000; error = none }))
        u
      × IsRaised host task (api.objects u)
unfolding reconcile_phase
recovery-IsRaised api lawful up host task is_fresh s t guarded before =
    let (u, run) = reconcile_new-Reaches api up host task t in
    let whole =
      subst
        (λ p. Runs api t (reconcile_phase host task p) (some (outcome_of (seconds 30) (ok tt))) u)
        (sym is_fresh) run in
    (u, whole, (retry-IsRaised api lawful host task is_fresh s t u _ guarded before whole refl).0)
