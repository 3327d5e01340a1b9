-- ===== src/Reconcile/Progress.antt =====
-- No task is left behind by a pass of `Reconcile` of devtask_controller.go.
use agentic_dev_pipeline.Prelude.{
  Bool, Bool-cases, List, Option, [], arith, false, if◌then◌else◌, inl, inr, ltb, none, refl, some,
  true, ℕ, ◌+◌, ◌-◌, ◌<◌, ◌∷◌, ◌≡◌, ◌⊎◌,
}
use agentic_dev_pipeline.Text.{Text}
use agentic_dev_pipeline.Api.{
  DevTask, DevTaskPhase, awaiting_review, awaiting_revision, blocked_on_clarification, building,
  completed, failed, pending, running, unset,
}
use agentic_dev_pipeline.Kube.{Pod, PodPhase, PullRequest, pod_failed, pod_running, pod_succeeded}
use agentic_dev_pipeline.Effects.{
  Call, Error, Host, Prog, Reply, Result, attempt, call, err, is_not_found, now, ok, out_of_pages,
  panic, perform, ret, update_status, ◌>>=◌,
}
use agentic_dev_pipeline.Effects.Monitor.{Monitor, Safe, Safe-bind, Safe-bind-branch}
use agentic_dev_pipeline.Diff.Evaluate.{DiffViolation}
use agentic_dev_pipeline.Reconcile.{
  after_failed_pod, after_merge_check, after_policy, check_pr, expire, handle_pod_succeeded,
  mark_running, on_pod_phase, reconcile_active_pod, reconcile_blocked, reconcile_failed,
  reconcile_new, reconcile_phase, reconcile_review, reconcile_revision, spawn_agent_sandbox,
  start_pod,
}
use agentic_dev_pipeline.Reconcile.Results.{Outcome, done, finish, has_error, seconds, stop}

-- Whether the status was written with success, which makes the API server notify the controller.
abbrev pub is_ok : Result Unit → Bool
is_ok (ok u) = true
is_ok (err e) = false

abbrev pub next_written : Bool → (c : Call) → Reply c → Bool
next_written s (update_status t) r = is_ok r
next_written s _ r = s

abbrev pub status_writes : Monitor Bool
status_writes = record { guard = λ s c. Unit; next = next_written }

-- The task is at rest: completed, or failed with no namespace to remove or no time of failure.
abbrev pub AtRest : DevTask → Type 0
AtRest task =
    (task.status.phase ≡ completed)
    ⊎ ((task.status.phase ≡ failed)
        × ((task.status.namespace ≡ []) ⊎ (task.status.failed_at ≡ none)))

-- Another pass is due: after a delay, by an error, or by a written status.
abbrev pub ComesBack : DevTask → Bool → Outcome → Type 0
ComesBack task written o =
    (0 < o.requeue_after) ⊎ (has_error o ≡ true) ⊎ (written ≡ true) ⊎ AtRest task

any_program : {A : Type 0} (s : Bool) (p : Prog A) → Safe status_writes (λ t a. Unit) s p
any_program s (ret a) = tt
any_program s panic = tt
any_program s out_of_pages = tt
any_program s (call c k) = (tt, λ r. any_program (next_written s c r) (k r))

module _ (host : Host) (task : DevTask) where
  abbrev Goes : Prog Outcome → Type 0
  Goes p = (s : Bool) → Safe status_writes (ComesBack task) s p

  after : {A : Type 0} (p : Prog A) (f : A → Prog Outcome) → ((a : A) → Goes (f a)) → Goes (p >>= f)
  after p f k s =
      Safe-bind status_writes (λ t a. Unit) (ComesBack task) s p f (any_program s p)
        (λ t a u. k a t)

  either :
      {A : Type 0} (p : Prog (Result A)) (g : Error → Prog Outcome) (f : A → Prog Outcome)
      → ((e : Error) → Goes (g e))
      → ((a : A) → Goes (f a))
      → Goes (attempt p g f)
  either p g f kg kf s =
      Safe-bind-branch status_writes (λ t a. Unit) (ComesBack task) s p g f (any_program s p)
        (λ t e u. kg e t) (λ t a u. kf a t)

  choose : (b : Bool) (p q : Prog Outcome) → Goes p → Goes q → Goes (if b then p else q)
  choose true p q hp hq = hp
  choose false p q hp hq = hq

  finish-Goes : (delay : ℕ) (new : DevTask) → Goes (finish delay new)
  unfolding ◌>>=◌
  finish-Goes delay new s = (tt, elim [ ok u ↦ inr (inr (inl refl)) | err e ↦ inr (inl refl) ])

  stop-Goes : (delay : ℕ) (e : Error) → Goes (stop delay e)
  stop-Goes delay e s = inr (inl refl)

  wait : (n : ℕ) → 0 < n → Goes (done n)
  wait n h s = inl h

  now-Goes : (f : ℕ → Prog Outcome) → ((t : ℕ) → Goes (f t)) → Goes (perform now >>= f)
  now-Goes f k = after (perform now) f k

  start_pod-Goes : (pod : Pod) (text : Text) → Goes (start_pod task pod text)
  unfolding start_pod
  start_pod-Goes pod text =
      either _ _ _ (λ e s. inr (inl refl)) (λ _. now-Goes _ (λ t. finish-Goes (seconds 30) _))

  reconcile_new-Goes : Goes (reconcile_new host task)
  unfolding reconcile_new
  reconcile_new-Goes =
      either _ _ _ (λ e s. inr (inl refl))
        λ _.
          either _ _ _ (λ e s. inr (inl refl))
            λ _.
              either _ _ _ (λ e s. inr (inl refl))
                λ creds. either _ _ _ (λ e s. inr (inl refl)) λ _. start_pod-Goes _ _

  spawn_agent_sandbox-Goes :
      (pod : Pod) (text : Text) → Goes (spawn_agent_sandbox host task pod text)
  unfolding spawn_agent_sandbox
  spawn_agent_sandbox-Goes pod text =
      either _ _ _ (λ e s. inr (inl refl))
        λ creds.
          either _ _ _ (λ e s. inr (inl refl))
            λ _.
              either _ _ _ (λ e s. inr (inl refl))
                λ _. either _ _ _ (λ e s. inr (inl refl)) λ _. start_pod-Goes _ _

  after_policy-Goes :
      (pr : PullRequest) (verdict : Option (List DiffViolation))
      → Goes (after_policy task pr verdict)
  unfolding after_policy
  after_policy-Goes pr none = λ s. tt
  after_policy-Goes pr (some []) =
      either _ _ _ (λ e. stop-Goes (seconds 30) e) (λ _. finish-Goes (seconds 120) _)
  after_policy-Goes pr (some (v ∷ vs)) =
      either _ _ _ (λ e. stop-Goes (seconds 30) e)
        λ _. after _ _ λ _. now-Goes _ λ t. finish-Goes 0 _

  check_pr-Goes : (found : Option PullRequest) → Goes (check_pr host task found)
  unfolding check_pr
  check_pr-Goes none = now-Goes _ λ t. finish-Goes _ _
  check_pr-Goes (some pr) =
      either _ _ _ (λ e. stop-Goes (seconds 30) e)
        λ files. either _ _ _ (λ e. stop-Goes (seconds 30) e) λ body. after_policy-Goes pr _

  after_failed_pod-Goes : (r : Result Bool) → Goes (after_failed_pod host task r)
  unfolding after_failed_pod
  after_failed_pod-Goes (ok true) = after _ _ λ _. finish-Goes (seconds 60) _
  after_failed_pod-Goes (ok false) = now-Goes _ λ t. finish-Goes _ _
  after_failed_pod-Goes (err e) = now-Goes _ λ t. finish-Goes _ _

  mark_running-Goes : (p : DevTaskPhase) → Goes (mark_running p task)
  mark_running-Goes running = wait (seconds 30) (omega arith)
  mark_running-Goes _ = finish-Goes (seconds 30) _

  on_pod_phase-Goes : (p : PodPhase) → Goes (on_pod_phase host task p)
  unfolding on_pod_phase handle_pod_succeeded
  on_pod_phase-Goes pod_running = mark_running-Goes task.status.phase
  on_pod_phase-Goes pod_succeeded = either _ _ _ (λ e. stop-Goes (seconds 30) e) check_pr-Goes
  on_pod_phase-Goes pod_failed = after _ _ after_failed_pod-Goes
  on_pod_phase-Goes _ = wait (seconds 30) (omega arith)

  reconcile_active_pod-Goes : Goes (reconcile_active_pod host task)
  unfolding reconcile_active_pod
  reconcile_active_pod-Goes =
      either _ _ _
        (λ e.
          choose (is_not_found e) _ _ (wait (seconds 30) (omega arith)) (stop-Goes (seconds 30) e))
        on_pod_phase-Goes

  after_merge_check-Goes : (merged : Bool) → Goes (after_merge_check task merged)
  unfolding after_merge_check
  after_merge_check-Goes true = after _ _ λ _. finish-Goes 0 _
  after_merge_check-Goes false =
      either _ _ _ (λ e. wait (seconds 120) (omega arith))
        λ needed. choose needed _ _ (finish-Goes 0 _) (wait (seconds 120) (omega arith))

  expire-Goes : (ttl since : ℕ) → Goes (expire ttl task since)
  unfolding expire
  expire-Goes ttl since = now-Goes _ λ t. elim (Bool-cases (ltb t (since + ttl))) [
    | inl e ↦ rw e (wait (since + ttl - t) (ground arith))
    | inr e ↦ rw e (either _ _ _ (λ x. stop-Goes (seconds 60) x) (λ _. finish-Goes 0 _))
  ]

  reconcile_failed-Goes :
      (ttl : ℕ) (ns : Text) (since : Option ℕ)
      → task.status.phase ≡ failed
      → task.status.namespace ≡ ns
      → task.status.failed_at ≡ since
      → Goes (reconcile_failed ttl task ns since)
  reconcile_failed-Goes ttl [] since p n f = λ s. inr (inr (inr (inr (p, inl n))))
  reconcile_failed-Goes ttl (c ∷ ns) none p n f = λ s. inr (inr (inr (inr (p, inr f))))
  reconcile_failed-Goes ttl (c ∷ ns) (some since) p n f = expire-Goes ttl since

  phase-Goes : (p : DevTaskPhase) → task.status.phase ≡ p → Goes (reconcile_phase host task p)
  unfolding reconcile_phase reconcile_review reconcile_revision reconcile_blocked
  phase-Goes unset e = reconcile_new-Goes
  phase-Goes building e = reconcile_active_pod-Goes
  phase-Goes running e = reconcile_active_pod-Goes
  phase-Goes awaiting_review e =
      either _ _ _ (λ x. wait (seconds 120) (omega arith)) after_merge_check-Goes
  phase-Goes awaiting_revision e = after _ _ λ _. after _ _ λ _. spawn_agent_sandbox-Goes _ _
  phase-Goes blocked_on_clarification e =
      either _ _ _ (λ x. wait (seconds 60) (omega arith))
        λ replied.
          choose replied _ _ (spawn_agent_sandbox-Goes _ _) (wait (seconds 60) (omega arith))
  phase-Goes completed e = λ s. inr (inr (inr (inl e)))
  phase-Goes failed e = reconcile_failed-Goes _ _ _ e refl refl
  phase-Goes pending e = wait (seconds 30) (omega arith)

-- Whatever the services reply, a pass that ends brings another one: it asks for a delay that is not 0,
-- or returns an error, or has written the status with success; unless the task is at rest, completed
-- or failed with no namespace left or no time of failure recorded.
pub reconcile_phase-ComesBack :
    (host : Host) (task : DevTask)
    → Safe status_writes (ComesBack task) false (reconcile_phase host task task.status.phase)
reconcile_phase-ComesBack host task = phase-Goes host task task.status.phase refl false
