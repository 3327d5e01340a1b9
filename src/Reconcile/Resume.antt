-- ===== src/Reconcile/Resume.antt =====
-- A blocked task of devtask_controller.go is resumed only by a trusted comment.
use agentic_dev_pipeline.Prelude.{
  Bool, List, Option, false, if◌then◌else◌, none, refl, some, true, ◌≡◌,
}
use agentic_dev_pipeline.Text.{codes}
use agentic_dev_pipeline.Api.{DevTask}
use agentic_dev_pipeline.Kube.{Comment}
use agentic_dev_pipeline.Effects.{
  Call, Host, Prog, Reply, Result, attempt, call, err, list_comments, ok, out_of_pages, panic, ret,
  ◌>>=◌,
}
use agentic_dev_pipeline.Effects.Kinds.{
  CallKind, CredentialKind, IsCredential, cluster_write, comment_write, credential_read, kind,
  pull_write,
}
use agentic_dev_pipeline.Effects.Monitor.{
  Calls, Monitor, Neutral, Safe, Safe-bind-branch, Safe-of_Calls,
}
use agentic_dev_pipeline.Sandbox.Pods.{agent_pod_resume}
use agentic_dev_pipeline.Github.{human_replied_after_clarification, last_is_trusted}
use agentic_dev_pipeline.Github.Clients.{InRepo, with_client-Safe}
use agentic_dev_pipeline.Github.Trust.{EndsTrusted, last_is_trusted_iff}
use agentic_dev_pipeline.Reconcile.{reconcile_blocked, spawn_agent_sandbox}
use agentic_dev_pipeline.Reconcile.Results.{done, seconds}

-- The comments that a pass listed first.
abbrev pub first_listing : Option (List Comment) → (c : Call) → Reply c → Option (List Comment)
first_listing (some cs) c r = some cs
first_listing none (list_comments c n) (ok cs) = some cs
first_listing none (list_comments c n) (err e) = none
first_listing none _ r = none

abbrev pub ReadTrusted : Option (List Comment) → Type 0
ReadTrusted none = ⊥
ReadTrusted (some cs) = EndsTrusted cs

abbrev pub WriteGuard : Option (List Comment) → CallKind → Type 0
WriteGuard s cluster_write = ReadTrusted s
WriteGuard s comment_write = ReadTrusted s
WriteGuard s pull_write = ReadTrusted s
WriteGuard s _ = Unit

-- The comments are those of the task's own issue, in the task's repository.
abbrev pub ListingGuard : DevTask → Option (List Comment) → Call → Type 0
ListingGuard task none (list_comments c n) = InRepo task c × (n ≡ task.spec.issue_number)
ListingGuard task none _ = Unit
ListingGuard task (some cs) _ = Unit

-- Nothing is written to the cluster or to GitHub before comments of the task's issue were listed that
-- end with a trusted one.
abbrev pub trust_gate : DevTask → Monitor (Option (List Comment))
trust_gate task = record {
  guard = λ s c. WriteGuard s (kind c) × ListingGuard task s c;
  next = first_listing;
}

credential_guard : (k : CallKind) → CredentialKind k → WriteGuard none k
credential_guard credential_read h = tt
credential_guard _ h = absurd h

open_guard : (cs : List Comment) → EndsTrusted cs → (k : CallKind) → WriteGuard (some cs) k
open_guard cs h cluster_write = h
open_guard cs h comment_write = h
open_guard cs h pull_write = h
open_guard cs h _ = tt

-- What was read decides the state.
abbrev Replied : Option (List Comment) → Result Bool → Type 0
Replied s (ok b) = (cs : List Comment) × (s ≡ some cs) × (last_is_trusted cs ≡ b)
Replied s (err e) = Unit

module _ (task : DevTask) where
  credential-Neutral : (c : Call) → IsCredential c → Neutral (trust_gate task) none c
  credential-Neutral (list_comments c n) h = absurd h
  credential-Neutral c h = ((credential_guard (kind c) h, tt), λ r. refl)

  last_comment-Replied :
      Safe (trust_gate task) Replied none (human_replied_after_clarification task)
  unfolding human_replied_after_clarification attempt ◌>>=◌
  last_comment-Replied =
      with_client-Safe (trust_gate task) Replied none credential-Neutral task _ (λ e. tt)
        λ client own. ((tt, (own, refl)), elim [ err e ↦ tt | ok cs ↦ (cs, refl, refl) ])

  any_call :
      {A : Type 0} (cs : List Comment)
      → EndsTrusted cs
      → (p : Prog A) → Calls (Neutral (trust_gate task) (some cs)) p
  any_call cs h (ret a) = tt
  any_call cs h panic = tt
  any_call cs h out_of_pages = tt
  any_call cs h (call c k) = (((open_guard cs h (kind c), tt), λ r. refl), λ r. any_call cs h (k r))

-- Whatever the services reply, a pass over a task that waits for a clarification writes nothing to the
-- cluster or to GitHub (no namespace, policy, secret, pod or status) unless the first comments it has
-- listed are those of the task's own issue, in the task's repository, and end with one by an owner,
-- member or collaborator who is no bot.
pub reconcile_blocked-trusted :
    (host : Host) (task : DevTask)
    → Safe (trust_gate task) (λ _ _. Unit) none (reconcile_blocked host task)
unfolding reconcile_blocked
reconcile_blocked-trusted host task =
    Safe-bind-branch (trust_gate task) Replied (λ _ _. Unit) none _ _ _ (last_comment-Replied task)
      (λ t e h. tt) go
  where
    go :
        (t : Option (List Comment)) (b : Bool)
        → Replied t (ok b)
        → Safe
            (trust_gate task)
            (λ _ _. Unit)
            t
            (if b
              then spawn_agent_sandbox host task
                  (agent_pod_resume host task)
                  (codes "resuming after clarification")
              else done (seconds 60))
    go t true (cs, at, trusted) = rw at (
        Safe-of_Calls (trust_gate task) (some cs) _
          (any_call task cs ((last_is_trusted_iff cs).0 trusted) _))
    go t false h = tt
