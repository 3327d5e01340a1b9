-- ===== src/Reconcile/Lifecycle.antt =====
-- The life of a task, from the object that the poller creates through passes of `Reconcile` of
-- devtask_controller.go, each over the status that an earlier pass wrote.
use agentic_dev_pipeline.Prelude.{[], ap, inl, inr, none, refl, sym, ℕ, ◌++◌, ◌∙◌, ◌≡◌, ◌≢◌, ◌⊎◌}
use agentic_dev_pipeline.Text.{Text, codes}
use agentic_dev_pipeline.Text.Decimal.{itoa}
use agentic_dev_pipeline.Api.{DevTask, failed, unset}
use agentic_dev_pipeline.Effects.{
  Call, Host, Prog, Reply, call, delete_namespace, delete_pod, update_status,
}
use agentic_dev_pipeline.Effects.Monitor.{Calls, Calls-mono}
use agentic_dev_pipeline.Sandbox.{task_namespace}
use agentic_dev_pipeline.Poller.{new_task, task_name}
use agentic_dev_pipeline.Reconcile.{reconcile_phase}
use agentic_dev_pipeline.Reconcile.Diagram.{Footprint, Home, Owns}
use agentic_dev_pipeline.Reconcile.Phases.{reconcile_phase-Footprint}

-- The program can write that status, for some replies up to there.
pub data Writes {A : Type 0} (new : DevTask) : Prog A → Type 0 where
  here : {k : Reply (update_status new) → Prog A} → Writes new (call (update_status new) k)
  later : {c : Call} {k : Reply c → Prog A} (r : Reply c) → Writes new (k r) → Writes new (call c k)

pub data Life (host : Host) (repo : Text) (issue : ℕ) : DevTask → Type 0 where
  born : Life host repo issue (new_task repo issue)
  pass :
      {t u : DevTask}
      → Life host repo issue t
      → Writes u (reconcile_phase host t t.status.phase)
      → Life host repo issue u

-- The namespace in the status is the task's own, or none where the task is fresh or failed.
abbrev pub IsHomed : DevTask → Type 0
IsHomed t =
    (t.status.namespace ≡ task_namespace t)
    ⊎ (((t.status.phase ≡ unset) ⊎ (t.status.phase ≡ failed)) × (t.status.namespace ≡ []))

-- A failed task that names a namespace has the time of its failure, so that its namespace will expire.
abbrev pub IsAccounted : DevTask → Type 0
IsAccounted t = t.status.phase ≡ failed → (t.status.failed_at ≢ none) ⊎ (t.status.namespace ≡ [])

pub record Sound (repo : Text) (issue : ℕ) (t : DevTask) : Type 0 where
  pub named : t.name ≡ task_name repo issue
  pub specified : t.spec ≡ record { issue_number = issue; repo = repo }
  pub homed : IsHomed t
  pub accounted : IsAccounted t

Writes-Calls :
    {A : Type 0} (P : Call → Type 0) {new : DevTask} (p : Prog A)
    → Calls P p
    → Writes new p
    → P (update_status new)
Writes-Calls P _ h here = h.0
Writes-Calls P _ h (later {k} r w) = Writes-Calls P (k r) (h.1 r) w

pub Owns-home : (t : DevTask) → IsHomed t → Owns t → t.status.namespace ≡ task_namespace t
Owns-home t (inl e) owns = e
Owns-home t (inr (inl e, n)) owns = absurd (owns.0 e)
Owns-home t (inr (inr e, n)) owns = absurd (owns.1 e n)

same_home : (old new : DevTask) → new.spec ≡ old.spec → task_namespace old ≡ task_namespace new
unfolding task_namespace
same_home old new e = ap (λ s. codes "devtask-" ++ itoa s.issue_number) (sym e)

Home-IsHomed : (old new : DevTask) → new.spec ≡ old.spec → IsHomed old → Home old new → IsHomed new
Home-IsHomed old new e h (inl own) = inl (own ∙ same_home old new e)
Home-IsHomed old new e h (inr (inl (owns, kept))) =
    inl (kept ∙ Owns-home old h owns ∙ same_home old new e)
Home-IsHomed old new e h (inr (inr (gone, none_left))) = inr (inr gone, none_left)

-- In every state of its life, whatever the services reply, a task has the name and the spec that the
-- poller gave it; its status names the task's own namespace, or none while the task is fresh or
-- failed; and a failed task that names a namespace has the time of its failure.
pub Life-Sound :
    (host : Host) (repo : Text) (issue : ℕ) (t : DevTask)
    → Life host repo issue t
    → Sound repo issue t
Life-Sound host repo issue _ born =
    unfold new_task in
    record { named = refl; specified = refl; homed = inr (inl refl, refl); accounted = λ h. cc }
Life-Sound host repo issue u (pass {t} life w) =
    let old = Life-Sound host repo issue t life in
    let step = Writes-Calls (Footprint host t) _ (reconcile_phase-Footprint host t) w in
    record {
      named = step.same_name ∙ old.named;
      specified = step.same_spec ∙ old.specified;
      homed = Home-IsHomed t u step.same_spec old.homed step.home;
      accounted = step.accounted;
    }

-- Deletions in the task's own namespace, or of it.
abbrev pub DeletesOwn : DevTask → Call → Type 0
DeletesOwn t (delete_namespace ns) = ns ≡ task_namespace t
DeletesOwn t (delete_pod ns pod) = ns ≡ task_namespace t
DeletesOwn t _ = Unit

own_deletion :
    (host : Host) (t : DevTask) → IsHomed t → (c : Call) → Footprint host t c → DeletesOwn t c
own_deletion host t h (delete_namespace ns) (e, owns, calm) = e ∙ Owns-home t h owns
own_deletion host t h (delete_pod ns pod) (e, p, owns) = e ∙ Owns-home t h owns
own_deletion host t h _ f = tt

-- In every state of its life, whatever the services reply, a pass over a task deletes no namespace but
-- the task's own, and pods only in there; never a namespace of the empty name.
pub Life-DeletesOwn :
    (host : Host) (repo : Text) (issue : ℕ) (t : DevTask)
    → Life host repo issue t
    → Calls (DeletesOwn t) (reconcile_phase host t t.status.phase)
Life-DeletesOwn host repo issue t life =
    Calls-mono (Footprint host t) (DeletesOwn t)
      (own_deletion host t (Life-Sound host repo issue t life).homed) _
      (reconcile_phase-Footprint host t)
