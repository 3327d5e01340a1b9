-- ===== src/Reconcile.antt =====
-- operator/internal/controller/devtask_controller.go: the reconciler, a state machine over the phase
-- of a task. A pass ends with a delay after which it is wanted again (0 for none) and an error.
pub mod Results
pub mod Diagram
pub mod Spawning
pub mod ActivePhase
pub mod Phases
pub mod Pods
pub mod Building
pub mod Order
pub mod Review
pub mod Gate
pub mod Resume
pub mod Retention
pub mod Disposal
pub mod Leaks
pub mod Progress
pub mod Lifecycle
use agentic_dev_pipeline.Prelude.{
  Bool, List, Option, [], false, if◌then◌else◌, ltb, none, some, true, ℕ, ◌++◌, ◌+◌, ◌-◌, ◌∷◌,
}
use agentic_dev_pipeline.Text.{Text, codes}
use agentic_dev_pipeline.Api.{
  DevTask, DevTaskPhase, awaiting_review, awaiting_revision, blocked_on_clarification, building,
  completed, failed, pending, running, unset,
}
use agentic_dev_pipeline.Kube.{Pod, PodPhase, PullRequest, pod_failed, pod_running, pod_succeeded}
use agentic_dev_pipeline.Effects.{
  Host, Prog, Result, attempt, get_dev_task, is_not_found, message, now, ok, panic, perform, wrap,
  ◌>>=◌,
}
use agentic_dev_pipeline.Diff.Evaluate.{DiffViolation, evaluate_diff, reason_text}
use agentic_dev_pipeline.Diff.Policy.{load_diff_policy}
use agentic_dev_pipeline.Credentials.{read_pipeline_credentials}
use agentic_dev_pipeline.Sandbox.{
  delete_revision_pod, ensure_namespace, ensure_network_policy, ensure_pod, ensure_task_secret,
  find_pod, remove_namespace,
}
use agentic_dev_pipeline.Sandbox.Pods.{agent_pod, agent_pod_resume, agent_pod_revision}
use agentic_dev_pipeline.Github.{
  ensure_pr_comment_on_issue, find_pr_for_task, get_issue_body, has_recent_clarification_comment,
  human_replied_after_clarification, is_pr_merged_or_closed, list_pr_files, pr_has_label,
  reject_pr_for_diff_policy, remove_pr_label,
}
use agentic_dev_pipeline.Reconcile.Results.{
  Outcome, done, failed_namespace_ttl, finish, mark_building, mark_failed, seconds, stop,
  with_phase,
}

-- The last steps that a new task and a respawn share: the pod, the clock, the status.
unfoldable pub start_pod : DevTask → Pod → Text → Prog Outcome
start_pod task pod text =
    attempt (ensure_pod pod) (λ e. stop 0 (wrap (codes "ensure pod: ") e))
      λ _. perform now >>= λ t. finish (seconds 30) (mark_building t text task)

-- The branch for a fresh task.
unfoldable pub reconcile_new : Host → DevTask → Prog Outcome
unfolding start_pod
reconcile_new host task =
    attempt (ensure_namespace task) (λ e. stop 0 (wrap (codes "ensure namespace: ") e))
      λ _.
        attempt (ensure_network_policy host task)
          (λ e. stop 0 (wrap (codes "ensure network policy: ") e))
          λ _.
            attempt read_pipeline_credentials
              (λ e. stop (seconds 30) (wrap (codes "read credentials: ") e))
              λ creds.
                attempt (ensure_task_secret task creds)
                  (λ e. stop 0 (wrap (codes "ensure task secret: ") e))
                  λ _.
                    start_pod task (agent_pod host task) (codes "envbuilder building devcontainer")

pub spawn_agent_sandbox : Host → DevTask → Pod → Text → Prog Outcome
unfolding start_pod
spawn_agent_sandbox host task pod text =
    attempt read_pipeline_credentials (λ e. stop (seconds 30) (wrap (codes "read credentials: ") e))
      λ creds.
        attempt (ensure_namespace task) (λ e. stop 0 (wrap (codes "ensure namespace: ") e))
          λ _.
            attempt (ensure_network_policy host task)
              (λ e. stop 0 (wrap (codes "ensure network policy: ") e))
              λ _.
                attempt (ensure_task_secret task creds)
                  (λ e. stop 0 (wrap (codes "ensure task secret: ") e)) λ _. start_pod task pod text

-- `handlePodSucceeded` behind the diff policy, none where its parse panics. The rejection ignores
-- the result of `deleteNamespace`.
pub after_policy : DevTask → PullRequest → Option (List DiffViolation) → Prog Outcome
unfolding mark_failed
after_policy task pr none = panic
after_policy task pr (some []) =
    attempt (ensure_pr_comment_on_issue task pr.html_url) (λ e. stop (seconds 30) e)
      λ _. finish (seconds 120) (record task {
        status = record task.status {
          phase = awaiting_review;
          pr_number = pr.number;
          message = codes "agent completed";
        };
      })
after_policy task pr (some (v ∷ vs)) =
    attempt (reject_pr_for_diff_policy task pr.number (v ∷ vs)) (λ e. stop (seconds 30) e)
      λ _. remove_namespace task.status.namespace >>= λ _. perform now >>= λ t.
        let failure = mark_failed t (codes "diff policy: " ++ reason_text v.reason) task in
        finish 0 (record failure { status = record failure.status { namespace = [] } })

abbrev pub no_pr_message : Text
no_pr_message = codes "agent pod exited 0 but no PR was opened on the canonical branch"

-- `handlePodSucceeded` behind `findPRForTask`.
pub check_pr : Host → DevTask → Option PullRequest → Prog Outcome
unfolding after_policy
check_pr host task none =
    perform now >>= λ t. finish (failed_namespace_ttl host) (mark_failed t no_pr_message task)
check_pr host task (some pr) =
    attempt (list_pr_files host task pr.number) (λ e. stop (seconds 30) e)
      λ files.
        attempt (get_issue_body task) (λ e. stop (seconds 30) e)
          λ body.
            after_policy task pr
              (evaluate_diff host.quote host.lower files body (load_diff_policy host.getenv))

pub handle_pod_succeeded : Host → DevTask → Prog Outcome
unfolding check_pr
handle_pod_succeeded host task =
    attempt (find_pr_for_task task) (λ e. stop (seconds 30) e) λ found. check_pr host task found

-- A failed pod, behind the look at the comments; an error there counts as no clarification.
pub after_failed_pod : Host → DevTask → Result Bool → Prog Outcome
unfolding mark_failed
after_failed_pod host task (ok true) = remove_namespace task.status.namespace >>= λ _.
    finish (seconds 60)
      (with_phase blocked_on_clarification (codes "agent requested clarification") task)
after_failed_pod host task _ = perform now >>= λ t.
    finish (failed_namespace_ttl host) (mark_failed t (codes "agent pod failed") task)

abbrev pub mark_running : DevTaskPhase → DevTask → Prog Outcome
mark_running running task = done (seconds 30)
mark_running _ task = finish (seconds 30) (with_phase running (codes "agent running") task)

-- The switch of `reconcileActivePod`.
pub on_pod_phase : Host → DevTask → PodPhase → Prog Outcome
unfolding handle_pod_succeeded after_failed_pod
on_pod_phase host task pod_running = mark_running task.status.phase task
on_pod_phase host task pod_succeeded = handle_pod_succeeded host task
on_pod_phase host task pod_failed =
    has_recent_clarification_comment task >>= λ clarified. after_failed_pod host task clarified
on_pod_phase host task _ = done (seconds 30)

pub reconcile_active_pod : Host → DevTask → Prog Outcome
unfolding on_pod_phase
reconcile_active_pod host task =
    attempt (find_pod task.status.namespace)
      (λ e. if is_not_found e then done (seconds 30) else stop (seconds 30) e)
      λ phase. on_pod_phase host task phase

-- The branch for a pull request under review, behind the look whether it is merged or closed.
pub after_merge_check : DevTask → Bool → Prog Outcome
after_merge_check task true = remove_namespace task.status.namespace >>= λ _.
    finish 0 (with_phase completed (codes "PR merged or closed, namespace deleted") task)
after_merge_check task false =
    attempt (pr_has_label task (codes "needs-revision")) (λ e. done (seconds 120))
      λ needs_revision.
        if needs_revision
        then finish 0 (with_phase awaiting_revision (codes "reviewer requested changes") task)
        else done (seconds 120)

pub reconcile_review : DevTask → Prog Outcome
unfolding after_merge_check
reconcile_review task =
    attempt (is_pr_merged_or_closed task) (λ e. done (seconds 120))
      λ merged. after_merge_check task merged

-- Both results are dropped: the first error is logged, the second ignored.
pub reconcile_revision : Host → DevTask → Prog Outcome
unfolding spawn_agent_sandbox
reconcile_revision host task = remove_pr_label task (codes "needs-revision") >>= λ _.
    delete_revision_pod task.status.namespace >>= λ _.
    spawn_agent_sandbox host task (agent_pod_revision host task)
      (codes "addressing review feedback")

pub reconcile_blocked : Host → DevTask → Prog Outcome
unfolding spawn_agent_sandbox
reconcile_blocked host task =
    attempt (human_replied_after_clarification task) (λ e. done (seconds 60))
      λ replied.
        if replied
        then spawn_agent_sandbox host task (agent_pod_resume host task)
            (codes "resuming after clarification")
        else done (seconds 60)

-- A failed task that failed at `since`. The test `elapsed < ttl` is written without a difference,
-- since the clock may stand before `since`.
pub expire : ℕ → DevTask → ℕ → Prog Outcome
expire ttl task since = perform now >>= λ t.
    if ltb t (since + ttl)
    then done (since + ttl - t)
    else attempt (remove_namespace task.status.namespace) (λ e. stop (seconds 60) e)
        λ _. finish 0 (record task { status = record task.status { namespace = [] } })

abbrev pub reconcile_failed : ℕ → DevTask → Text → Option ℕ → Prog Outcome
reconcile_failed ttl task [] since = done 0
reconcile_failed ttl task (c ∷ ns) none = done 0
reconcile_failed ttl task (c ∷ ns) (some since) = expire ttl task since

-- The switch of `Reconcile` over the phase.
unfoldable pub reconcile_phase : Host → DevTask → DevTaskPhase → Prog Outcome
unfolding reconcile_new reconcile_active_pod reconcile_review reconcile_revision reconcile_blocked
    expire
reconcile_phase host task unset = reconcile_new host task
reconcile_phase host task building = reconcile_active_pod host task
reconcile_phase host task running = reconcile_active_pod host task
reconcile_phase host task awaiting_review = reconcile_review task
reconcile_phase host task awaiting_revision = reconcile_revision host task
reconcile_phase host task blocked_on_clarification = reconcile_blocked host task
reconcile_phase host task completed = done 0
reconcile_phase host task failed =
    reconcile_failed (failed_namespace_ttl host) task task.status.namespace task.status.failed_at
reconcile_phase host task pending = done (seconds 30)

-- `Reconcile` of the request for the object of that namespace and name.
unfoldable pub reconcile : Host → Text → Text → Prog Outcome
unfolding reconcile_phase
reconcile host ns name =
    attempt (perform (get_dev_task ns name)) (λ e. if is_not_found e then done 0 else stop 0 e)
      λ task. reconcile_phase host task task.status.phase
