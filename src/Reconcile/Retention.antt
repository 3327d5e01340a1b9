-- ===== src/Reconcile/Retention.antt =====
-- How long `Reconcile` of devtask_controller.go keeps the namespace of a failed task.
use agentic_dev_pipeline.Prelude.{
  Bool-cases, Option, [], arith, false, inl, inr, ltb, none, refl, some, true, ℕ, ◌+◌, ◌-◌, ◌<◌,
  ◌∷◌, ◌≡◌, ◌≢◌, ◌≤◌, ◌⊎◌,
}
use agentic_dev_pipeline.Text.{Text}
use agentic_dev_pipeline.Api.{DevTask, failed}
use agentic_dev_pipeline.Effects.{
  Call, Host, Reply, Result, delete_namespace, err, ignore_not_found, is_not_found, now, ok, ret,
  update_status, ◌>>=◌,
}
use agentic_dev_pipeline.Effects.Monitor.{Monitor, Safe, Safe-bind-branch}
use agentic_dev_pipeline.Sandbox.{remove_namespace}
use agentic_dev_pipeline.Reconcile.{expire, reconcile_failed, reconcile_phase}
use agentic_dev_pipeline.Reconcile.Results.{
  Outcome, failed_namespace_ttl, finish, has_error, seconds,
}

-- What a pass knows of the namespace: nothing, the time, or that it is gone.
pub data Cleanup : Type 0 where
  untimed : Cleanup
  timed removed : ℕ → Cleanup

-- An error of the kind not found counts as removed too.
abbrev pub after_removal : ℕ → Result Unit → Cleanup
after_removal t (ok u) = removed t
after_removal t (err e) = elim (is_not_found e) [ true ↦ removed t | false ↦ timed t ]

abbrev pub next_cleanup : Cleanup → (c : Call) → Reply c → Cleanup
next_cleanup s now t = timed t
next_cleanup (timed t) (delete_namespace ns) r = after_removal t r
next_cleanup s _ r = s

abbrev pub without_namespace : DevTask → DevTask
without_namespace task = record task { status = record task.status { namespace = [] } }

-- The namespace is removed once its time is over, and the status forgets it once it is removed.
abbrev pub CleanupGuard : DevTask → ℕ → Cleanup → Call → Type 0
CleanupGuard task over untimed now = Unit
CleanupGuard task over (timed t) (delete_namespace ns) = (over ≤ t) × (ns ≡ task.status.namespace)
CleanupGuard task over (removed t) (update_status new) = new ≡ without_namespace task
CleanupGuard task over _ _ = ⊥

abbrev pub cleanup : DevTask → ℕ → Monitor Cleanup
cleanup task over = record { guard = CleanupGuard task over; next = next_cleanup }

-- A pass that keeps the namespace comes back when its time is over, or a minute after a removal that
-- failed.
abbrev pub Retained : ℕ → Cleanup → Outcome → Type 0
Retained over untimed o = ⊥
Retained over (timed t) o =
    ((t < over) × (o ≡ record { requeue_after = over - t; error = none }))
    ⊎ ((over ≤ t) × (o.requeue_after ≡ seconds 60) × (has_error o ≡ true))
Retained over (removed t) o = (over ≤ t) × (o.requeue_after ≡ 0)

module _ (task : DevTask) (over : ℕ) where
  forgotten :
      (t : ℕ)
      → over ≤ t
      → Safe (cleanup task over) (Retained over) (removed t) (finish 0 (without_namespace task))
  unfolding ◌>>=◌
  forgotten t h = (refl, elim [ ok u ↦ (h, refl) | err e ↦ (h, refl) ])

  abbrev Tried : ℕ → Cleanup → Result Unit → Type 0
  Tried t s (ok u) = s ≡ removed t
  Tried t s (err e) = s ≡ timed t

  remove_namespace-Tried :
      (t : ℕ)
      → over ≤ t
      → Safe (cleanup task over) (Tried t) (timed t) (remove_namespace task.status.namespace)
  unfolding remove_namespace ◌>>=◌
  remove_namespace-Tried t h = ((h, refl), reply)
    where
      reply :
          (r : Result Unit)
          → Safe (cleanup task over) (Tried t) (after_removal t r) (ret (ignore_not_found tt r))
      reply (ok u) = refl
      reply (err e) =
          elim (is_not_found e)
            as (λ b.
              Tried t (elim b [ true ↦ removed t | false ↦ timed t ])
                (elim b [ true ↦ ok tt | false ↦ err e ])) [ true ↦ refl | false ↦ refl ]

  at_time :
      (ttl since : ℕ)
      → over ≡ since + ttl
      → Safe (cleanup task over) (Retained over) untimed (expire ttl task since)
  unfolding expire ◌>>=◌
  at_time ttl since sum = (
    tt,
    λ t. elim (Bool-cases (ltb t (since + ttl))) [
      | inl e ↦ rw e (inl (ground arith, rw sum refl))
      | inr e ↦ rw e (
          Safe-bind-branch (cleanup task over) (Tried t) (Retained over) (timed t) _ _ _
            (remove_namespace-Tried t (ground arith))
            (λ s x r. rw r (inr (ground arith, refl, refl)))
            (λ s x r. rw r (forgotten t (ground arith))))
    ],
  )

-- The namespace of a failed task outlives the failure by the time to live. A pass over a failed task
-- that has a namespace and a time of failure makes no call but these: it reads the clock; if the time
-- to live is over it deletes the namespace that the status names; if that succeeds, or finds none, it
-- writes the status with the namespace cleared. It asks to come back exactly when the time to live is
-- over, or a minute after a deletion that failed, with its error.
pub reconcile_phase-retains :
    (host : Host) (task : DevTask) (since : ℕ)
    → task.status.namespace ≢ []
    → task.status.failed_at ≡ some since
    → Safe
        (cleanup task (since + failed_namespace_ttl host))
        (Retained (since + failed_namespace_ttl host))
        untimed
        (reconcile_phase host task failed)
unfolding reconcile_phase
reconcile_phase-retains host task since named at = by_case task.status.namespace named _ at
  where
    by_case :
        (ns : Text)
        → ns ≢ []
        → (failed_at : Option ℕ) → failed_at ≡ some since
        → Safe
            (cleanup task (since + failed_namespace_ttl host))
            (Retained (since + failed_namespace_ttl host))
            untimed
            (reconcile_failed (failed_namespace_ttl host) task ns failed_at)
    by_case [] h failed_at e = absurd (h refl)
    by_case (c ∷ ns) h failed_at e = rw e (at_time task _ (failed_namespace_ttl host) since refl)
