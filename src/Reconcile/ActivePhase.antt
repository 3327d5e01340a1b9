-- ===== src/Reconcile/ActivePhase.antt =====
-- A pass of `Reconcile` of devtask_controller.go over a task whose agent is at work keeps to the
-- footprint of the diagram.
use agentic_dev_pipeline.Prelude.{
  Bool, List, Option, [], false, inl, inr, none, refl, some, true, ℕ, ◌∷◌, ◌≡◌,
}
use agentic_dev_pipeline.Text.{Text}
use agentic_dev_pipeline.Api.{DevTask, DevTaskPhase, blocked_on_clarification, building, running}
use agentic_dev_pipeline.Kube.{PodPhase, PullRequest, pod_failed, pod_running, pod_succeeded}
use agentic_dev_pipeline.Effects.{Host, Result, attempt, err, is_not_found, now, ok, perform, ◌>>=◌}
use agentic_dev_pipeline.Effects.Kinds.{IsLookup, IsLookup→IsAside}
use agentic_dev_pipeline.Effects.Monitor.{Calls-attempt, Calls-bind, Calls-branch, Calls-mono}
use agentic_dev_pipeline.Diff.Evaluate.{DiffViolation}
use agentic_dev_pipeline.Sandbox.{find_pod}
use agentic_dev_pipeline.Github.Reads.{
  ensure_pr_comment_on_issue-IsTalk, find_pr_for_task-IsLookup, get_issue_body-IsAside,
  has_recent_clarification_comment-IsTalk, if-Calls, list_pr_files-IsAside,
  reject_pr_for_diff_policy-IsAside,
}
use agentic_dev_pipeline.Reconcile.{
  after_failed_pod, after_policy, check_pr, handle_pod_succeeded, mark_running, on_pod_phase,
  reconcile_active_pod,
}
use agentic_dev_pipeline.Reconcile.Diagram.{
  Footprint, IsLive, Owns, ask, building_live, deliver, give_up, observe, running_live,
}
use agentic_dev_pipeline.Reconcile.Results.{finish, mark_failed, seconds}
use agentic_dev_pipeline.Reconcile.Spawning.{
  Within, aside, aside_Footprint, finish-Within, live-Owns, live-calm, mark_failed-Update, or_stop,
  remove_namespace-Within, talk, with_phase-Update,
}

module _ (host : Host) (task : DevTask) (live : IsLive task.status.phase) where
  owned : Owns task
  owned = live-Owns host task task.status.phase refl live

  mark_running-Within :
      (p : DevTaskPhase) → IsLive p → task.status.phase ≡ p → Within host task (mark_running p task)
  unfolding ◌>>=◌
  mark_running-Within _ building_live e = finish-Within host task (seconds 30) _ (
      with_phase-Update host task running _ (rw e observe) (λ h. cc)
        (live-Owns host task building e building_live))
  mark_running-Within _ running_live e = tt

  give_up-Within :
      (delay : ℕ) (text : Text)
      → Within host task (perform now >>= λ t. finish delay (mark_failed t text task))
  unfolding ◌>>=◌
  give_up-Within delay text =
      (tt, λ t. finish-Within host task delay _ (mark_failed-Update host task t text live))

  after_policy-Within :
      (pr : PullRequest) (verdict : Option (List DiffViolation))
      → Within host task (after_policy task pr verdict)
  unfolding after_policy ◌>>=◌
  after_policy-Within pr none = tt
  after_policy-Within pr (some []) =
      or_stop host task _ _ _
        (talk host task _ (ensure_pr_comment_on_issue-IsTalk task pr.html_url))
        λ _. finish-Within host task (seconds 120) _ (record {
          edge = deliver live;
          same_name = refl;
          same_namespace = refl;
          same_spec = refl;
          accounted = λ h. cc;
          same_pull = inl refl;
          home = inr (inl (owned, refl));
        })
  after_policy-Within pr (some (v ∷ vs)) =
      or_stop host task _ _ _
        (aside host task _ (reject_pr_for_diff_policy-IsAside task pr.number (v ∷ vs)))
        λ _.
          Calls-bind (Footprint host task) _ _
            (remove_namespace-Within host task owned (live-calm host task _ live))
            λ _. (
              tt,
              λ t. finish-Within host task 0 _ (record {
                edge = unfold mark_failed in give_up live;
                same_name = unfold mark_failed in refl;
                same_namespace = unfold mark_failed in refl;
                same_spec = unfold mark_failed in refl;
                accounted = λ h. inr refl;
                same_pull = unfold mark_failed in inr refl;
                home = inr (inr (unfold mark_failed in refl, refl));
              }),
            )

  check_pr-Within : (found : Option PullRequest) → Within host task (check_pr host task found)
  unfolding check_pr
  check_pr-Within none = give_up-Within _ _
  check_pr-Within (some pr) =
      or_stop host task _ _ _ (aside host task _ (list_pr_files-IsAside task host pr.number))
        λ files.
          or_stop host task _ _ _ (aside host task _ (get_issue_body-IsAside task))
            λ body. after_policy-Within pr _

  handle_pod_succeeded-Within : Within host task (handle_pod_succeeded host task)
  unfolding handle_pod_succeeded
  handle_pod_succeeded-Within =
      or_stop host task _ _ _
        (Calls-mono IsLookup (Footprint host task)
          (λ c h. aside_Footprint host task c (IsLookup→IsAside c h)) _
          (find_pr_for_task-IsLookup task))
        λ found. check_pr-Within found

  after_failed_pod-Within :
      (clarified : Result Bool) → Within host task (after_failed_pod host task clarified)
  unfolding after_failed_pod
  after_failed_pod-Within (ok true) =
      Calls-bind (Footprint host task) _ _
        (remove_namespace-Within host task owned (live-calm host task _ live))
        λ _.
          finish-Within host task _ _
            (with_phase-Update host task blocked_on_clarification _ (ask live) (λ h. cc) owned)
  after_failed_pod-Within (ok false) = give_up-Within _ _
  after_failed_pod-Within (err e) = give_up-Within _ _

  on_pod_phase-Within : (p : PodPhase) → Within host task (on_pod_phase host task p)
  unfolding on_pod_phase
  on_pod_phase-Within pod_running = mark_running-Within task.status.phase live refl
  on_pod_phase-Within pod_succeeded = handle_pod_succeeded-Within
  on_pod_phase-Within pod_failed =
      Calls-bind (Footprint host task) _ _
        (talk host task _ (has_recent_clarification_comment-IsTalk task)) after_failed_pod-Within
  on_pod_phase-Within _ = tt

  find_pod-Within : (ns : Text) → Within host task (find_pod ns)
  unfolding find_pod attempt ◌>>=◌
  find_pod-Within ns =
      (tt, λ r. Calls-branch (Footprint host task) r _ _ (λ e. (tt, λ _. tt)) (λ p. tt))

  pub reconcile_active_pod-Within : Within host task (reconcile_active_pod host task)
  unfolding reconcile_active_pod
  reconcile_active_pod-Within =
      Calls-attempt (Footprint host task) _ _ _ (find_pod-Within task.status.namespace)
        (λ e. if-Calls (Footprint host task) (is_not_found e) _ _ tt tt) on_pod_phase-Within
