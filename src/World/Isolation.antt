-- ===== src/World/Isolation.antt =====
-- A pass over one task leaves the sandboxes of all other tasks.
use agentic_dev_pipeline.Prelude.{List, Option, ap, inl, inr, refl, subst, sym, ℕ, ◌∙◌, ◌≡◌, ◌≢◌}
use agentic_dev_pipeline.Text.{Text}
use agentic_dev_pipeline.Api.{DevTask}
use agentic_dev_pipeline.Effects.{
  Call, Host, LoopEvent, Reply, create_namespace, create_network_policy, create_pod, create_secret,
  delete_namespace, delete_pod, update_secret,
}
use agentic_dev_pipeline.Sandbox.{task_namespace}
use agentic_dev_pipeline.Sandbox.Names.{same_sandbox_iff}
use agentic_dev_pipeline.Poller.{max_concurrent_tasks, poller_goroutine}
use agentic_dev_pipeline.Poller.Cap.{poller-capped}
use agentic_dev_pipeline.Poller.Tally.{Tally, cap_gate, nothing_known}
use agentic_dev_pipeline.Reconcile.{reconcile_phase}
use agentic_dev_pipeline.Reconcile.Diagram.{Owns}
use agentic_dev_pipeline.Reconcile.Lifecycle.{Life, Life-Sound, Owns-home, Sound}
use agentic_dev_pipeline.Reconcile.Results.{Outcome}
use agentic_dev_pipeline.World.{
  ApiServer, Effect, IsLawful, IsWithin, Key, Object, Objects, Runs, Unchanged, namespace_at,
  pod_at, policy_at, secret_at,
}
use agentic_dev_pipeline.World.Laws.{Runs-Safe}
use agentic_dev_pipeline.World.Refine.{
  Change, Changes, IsOwn, clear, keep, onward, own_namespace, own_pod, own_policy, own_secret,
  reconcile_phase-refines, still, store,
}

own-IsWithin :
    (host : Host) (task : DevTask) {k : Key} {o : Object}
    → IsOwn host task k o
    → IsWithin (task_namespace task) k
own-IsWithin host task own_namespace = refl
own-IsWithin host task own_policy = refl
own-IsWithin host task (own_secret creds) = refl
own-IsWithin host task (own_pod e) = refl

IsWithin-unique : (m n : Text) (k : Key) → IsWithin m k → IsWithin n k → m ≡ n
IsWithin-unique m n (namespace_at j) h e = sym h ∙ e
IsWithin-unique m n (policy_at j name) h e = sym h ∙ e
IsWithin-unique m n (secret_at j name) h e = sym h ∙ e
IsWithin-unique m n (pod_at j name) h e = sym h ∙ e

module _ (host : Host) (task : DevTask) (k : Key) where
  module _ (mine : ¬ IsWithin (task_namespace task) k)
      (named : ¬ (Owns task × IsWithin task.status.namespace k)) where
    Change-leaves : {f g : Objects} → Change host task f g → g k ≡ f k
    Change-leaves (keep u) = u k
    Change-leaves (store own p) =
        p.others k
          λ e. mine (subst (IsWithin (task_namespace task)) (sym e) (own-IsWithin host task own))
    Change-leaves (clear owns c) = elim (c k) [
      | inl same ↦ same
      | inr gone ↦ absurd (named (owns, gone.0))
    ]

    Changes-leave : {f g : Objects} → Changes host task f g → g k ≡ f k
    Changes-leave still = refl
    Changes-leave (onward c cs) = Changes-leave cs ∙ Change-leaves c

-- One run of a pass over a task with any life leaves what is in the namespace of another number.
reconcile_phase-isolated :
    (api : ApiServer)
    → IsLawful api
    → (host : Host) (repo : Text) (issue : ℕ) (task : DevTask) → Life host repo issue task
    → (s t : api.State) (x : Option Outcome)
    → Runs api s (reconcile_phase host task task.status.phase) x t
    → (stranger : DevTask) → stranger.spec.issue_number ≢ issue
    → (k : Key) → IsWithin (task_namespace stranger) k
    → api.objects t k ≡ api.objects s k
reconcile_phase-isolated api lawful host repo issue task life s t x run stranger distinct k within =
    Changes-leave host task k elsewhere (λ h. elsewhere (subst (λ n. IsWithin n k) (home h.0) h.1))
      (reconcile_phase-refines api lawful host task s t x run)
  where
    sound : Sound repo issue task
    sound = Life-Sound host repo issue task life

    home : Owns task → task.status.namespace ≡ task_namespace task
    home owns = Owns-home task sound.homed owns

    elsewhere : ¬ IsWithin (task_namespace task) k
    elsewhere h = distinct (
        (same_sandbox_iff stranger task).0.0 (IsWithin-unique _ _ k within h)
        ∙ ap (λ s. s.issue_number) sound.specified)

-- The calls of the poller leave every object.
poll_call :
    (limit : ℕ) (known : Tally) (f g : Objects) (c : Call) (r : Reply c)
    → (cap_gate limit).guard known c
    → Effect c r f g
    → Unchanged f g
poll_call limit known f g (create_namespace n) r h e = absurd h
poll_call limit known f g (delete_namespace n) r h e = absurd h
poll_call limit known f g (create_network_policy p) r h e = absurd h
poll_call limit known f g (create_secret s) r h e = absurd h
poll_call limit known f g (update_secret s) r h e = absurd h
poll_call limit known f g (create_pod p) r h e = absurd h
poll_call limit known f g (delete_pod ns name) r h e = absurd h
poll_call limit known f g _ r h e = e

-- What the operator does for others: passes over tasks with any life and another issue number, and
-- rounds of polling, each run to its end or stopped at any point, in any order.
pub data OthersWork (api : ApiServer) (host : Host) (issue : ℕ)
    : api.State → api.State → Type 0 where
  no_work : {s : api.State} → OthersWork api host issue s s
  work_pass :
      {s t u : api.State} {repo : Text} {n : ℕ} {task : DevTask} {x : Option Outcome}
      → OthersWork api host issue s t
      → Life host repo n task
      → issue ≢ n
      → Runs api t (reconcile_phase host task task.status.phase) x u
      → OthersWork api host issue s u
  work_poll :
      {s t u : api.State} {x : Option Unit} (repos : List Text) (events : List LoopEvent)
      → OthersWork api host issue s t
      → Runs api t (poller_goroutine host repos events) x u
      → OthersWork api host issue s u

module _ (api : ApiServer) (lawful : IsLawful api) (host : Host) where
  poll-isolated :
      (repos : List Text) (events : List LoopEvent) {s t : api.State} {x : Option Unit}
      → Runs api s (poller_goroutine host repos events) x t
      → Unchanged (api.objects s) (api.objects t)
  poll-isolated repos events {s} run =
      (Runs-Safe api (cap_gate limit) (λ b u. Unchanged (api.objects s) (api.objects u))
        (λ b u v c r h kept e k. poll_call limit b _ _ c r h (lawful u v c r e) k ∙ kept k)
        (λ _ _. Unit) nothing_known (poller_goroutine host repos events)
        (poller-capped host repos events nothing_known) (λ k. refl) run).1
    where
      limit : ℕ
      limit = max_concurrent_tasks host.getenv

-- Against an API server whose calls have their documented effects: whatever the operator does for tasks
-- with other issue numbers, each of any life since its creation by the poller, and however often it
-- polls, in any order and each time to the end or stopped at any point, every stored object in the
-- namespace of a task stays as it is.
pub others-isolated :
    (api : ApiServer)
    → IsLawful api
    → (host : Host) (mine : DevTask) (s t : api.State)
    → OthersWork api host mine.spec.issue_number s t
    → (k : Key) → IsWithin (task_namespace mine) k
    → api.objects t k ≡ api.objects s k
others-isolated api lawful host mine s _ no_work k within = refl
others-isolated api lawful host mine s _
      (work_pass {t} {u} {repo} {n} {task} {x} before life distinct run) k within =
    reconcile_phase-isolated api lawful host repo n task life t u x run mine distinct k within
    ∙ others-isolated api lawful host mine s t before k within
others-isolated api lawful host mine s _ (work_poll {t} repos events before run) k within =
    poll-isolated api lawful host repos events run k
    ∙ others-isolated api lawful host mine s t before k within
