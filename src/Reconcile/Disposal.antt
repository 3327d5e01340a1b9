-- ===== src/Reconcile/Disposal.antt =====
-- The letting go of a sandbox by a status that devtask_controller.go writes, and the steps of a pass
-- around the deletion of its namespace.
use agentic_dev_pipeline.Prelude.{
  Bool, Option, [], false, if◌then◌else◌, inl, inr, refl, some, true, ℕ, ◌∷◌, ◌≡◌, ◌⊎◌,
}
use agentic_dev_pipeline.Text.{Text}
use agentic_dev_pipeline.Api.{DevTask, DevTaskPhase, blocked_on_clarification, completed}
use agentic_dev_pipeline.Effects.{
  Call, Error, Prog, Reply, Result, attempt, delete_namespace, ignore_not_found, now, perform,
  update_status, ◌>>=◌,
}
use agentic_dev_pipeline.Effects.Kinds.{
  IsAside, IsCredential, IsCredential→IsAside, IsLookup, IsLookup→IsAside, IsTalk, IsTalk→IsAside,
}
use agentic_dev_pipeline.Effects.Monitor.{
  Calls, Calls-mono, Monitor, Safe, Safe-bind, Safe-bind-branch, Safe-of_guard,
}
use agentic_dev_pipeline.Credentials.{read_pipeline_credentials}
use agentic_dev_pipeline.Sandbox.{remove_namespace}
use agentic_dev_pipeline.Github.Reads.{read_pipeline_credentials-IsCredential}
use agentic_dev_pipeline.Reconcile.Results.{Outcome, finish}

-- The namespace of which the pass has last asked the deletion, whatever the reply was: the code looks
-- at the reply only where the time to live is over.
abbrev pub next_deleted : Option Text → (c : Call) → Reply c → Option Text
next_deleted s (delete_namespace ns) r = some ns
next_deleted s _ r = s

-- The deletion of the namespace that the task's status names was asked for.
abbrev pub Deleted : DevTask → Option Text → Type 0
Deleted task s = s ≡ some task.status.namespace

-- A status without a namespace: there was none, or it was deleted.
abbrev pub NamespaceGuard : DevTask → Option Text → Text → Type 0
NamespaceGuard task s [] = (task.status.namespace ≡ []) ⊎ Deleted task s
NamespaceGuard task s (c ∷ ns) = Unit

-- The phases in which no agent works on the sandbox any more, and the others.
abbrev pub ReleaseGuard : DevTask → Option Text → DevTaskPhase → Text → Type 0
ReleaseGuard task s completed ns = Deleted task s
ReleaseGuard task s blocked_on_clarification ns = Deleted task s
ReleaseGuard task s _ ns = NamespaceGuard task s ns

abbrev pub DisposalGuard : DevTask → Option Text → Call → Type 0
DisposalGuard task s (update_status new) = ReleaseGuard task s new.status.phase new.status.namespace
DisposalGuard task s _ = Unit

abbrev pub disposal : DevTask → Monitor (Option Text)
disposal task = record { guard = DisposalGuard task; next = next_deleted }

-- All calls but the writing of a status.
abbrev pub IsSilent : Call → Type 0
IsSilent (update_status new) = ⊥
IsSilent _ = Unit

IsAside→IsSilent : (c : Call) → IsAside c → IsSilent c
IsAside→IsSilent (update_status new) h = absurd h
IsAside→IsSilent _ h = tt

pub asides-IsSilent : {A : Type 0} (p : Prog A) → Calls IsAside p → Calls IsSilent p
asides-IsSilent p h = Calls-mono IsAside IsSilent IsAside→IsSilent p h

pub talk-IsSilent : {A : Type 0} (p : Prog A) → Calls IsTalk p → Calls IsSilent p
talk-IsSilent p h = Calls-mono IsTalk IsSilent (λ c t. IsAside→IsSilent c (IsTalk→IsAside c t)) p h

pub lookup-IsSilent : {A : Type 0} (p : Prog A) → Calls IsLookup p → Calls IsSilent p
lookup-IsSilent p h =
    Calls-mono IsLookup IsSilent (λ c t. IsAside→IsSilent c (IsLookup→IsAside c t)) p h

pub credentials-IsSilent : Calls IsSilent read_pipeline_credentials
credentials-IsSilent =
    Calls-mono IsCredential IsSilent (λ c h. IsAside→IsSilent c (IsCredential→IsAside c h))
      read_pipeline_credentials read_pipeline_credentials-IsCredential

module _ (task : DevTask) where
  silent_guard : (s : Option Text) (c : Call) → IsSilent c → DisposalGuard task s c
  silent_guard s (update_status new) h = absurd h
  silent_guard s _ h = tt

  abbrev pub Disposes : Prog Outcome → Type 0
  Disposes p = (s : Option Text) → Safe (disposal task) (λ _ _. Unit) s p

  -- A program that writes no status, in front of the rest.
  pub behind_silent :
      {A : Type 0} (p : Prog A) (f : A → Prog Outcome)
      → Calls IsSilent p
      → ((a : A) → Disposes (f a))
      → Disposes (p >>= f)
  behind_silent p f h k s =
      Safe-bind (disposal task) (λ _ _. Unit) (λ _ _. Unit) s p f
        (Safe-of_guard (disposal task) IsSilent silent_guard s p h) (λ t a u. k a t)

  pub on_result :
      {A : Type 0} (p : Prog (Result A)) (g : Error → Prog Outcome) (f : A → Prog Outcome)
      → Calls IsSilent p
      → ((e : Error) → Disposes (g e))
      → ((a : A) → Disposes (f a))
      → Disposes (attempt p g f)
  on_result p g f h kg kf s =
      Safe-bind-branch (disposal task) (λ _ _. Unit) (λ _ _. Unit) s p g f
        (Safe-of_guard (disposal task) IsSilent silent_guard s p h) (λ t e u. kg e t)
        (λ t a u. kf a t)

  pub on_test :
      (b : Bool) (p q : Prog Outcome) → Disposes p → Disposes q → Disposes (if b then p else q)
  on_test true p q hp hq = hp
  on_test false p q hp hq = hq

  -- The deletion in front of the rest, its reply looked at or not.
  pub deleting :
      (f : Result Unit → Prog Outcome)
      → ((r : Result Unit) → Safe (disposal task) (λ _ _. Unit) (some task.status.namespace) (f r))
      → Disposes (remove_namespace task.status.namespace >>= f)
  unfolding remove_namespace ◌>>=◌
  deleting f k s = (tt, λ r. k (ignore_not_found tt r))

  pub held_namespace : (s : Option Text) → NamespaceGuard task s task.status.namespace
  held_namespace s = by_text task.status.namespace refl
    where
      by_text : (ns : Text) → task.status.namespace ≡ ns → NamespaceGuard task s ns
      by_text [] e = inl e
      by_text (c ∷ ns) e = tt

  pub finish-Disposes :
      (s : Option Text) (delay : ℕ) (new : DevTask)
      → ReleaseGuard task s new.status.phase new.status.namespace
      → Safe (disposal task) (λ _ _. Unit) s (finish delay new)
  unfolding ◌>>=◌
  finish-Disposes s delay new h = (h, λ r. tt)

  pub now-Disposes :
      (s : Option Text) (f : ℕ → Prog Outcome)
      → ((t : ℕ) → Safe (disposal task) (λ _ _. Unit) s (f t))
      → Safe (disposal task) (λ _ _. Unit) s (perform now >>= f)
  unfolding ◌>>=◌
  now-Disposes s f k = (tt, k)

  -- Behind the deletion a status without a namespace is allowed in every phase.
  pub after_deletion : (p : DevTaskPhase) → ReleaseGuard task (some task.status.namespace) p []
  after_deletion completed = refl
  after_deletion blocked_on_clarification = refl
  after_deletion _ = inr refl
