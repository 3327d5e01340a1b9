-- ===== src/Poller.antt =====
-- The polling of operator/internal/controller/github_poller.go: labelled issues become tasks, under a
-- cap on the active ones.
pub mod Tally
pub mod Cap
pub mod Keys
use agentic_dev_pipeline.Prelude.{
  Bool, List, Option, [], false, if◌then◌else◌, ltb, none, some, suc, true, ℕ, ◌++◌, ◌+◌, ◌∷◌,
}
use agentic_dev_pipeline.Text.{Text, codes}
use agentic_dev_pipeline.Text.Decimal.{itoa}
use agentic_dev_pipeline.Text.Search.{split2}
use agentic_dev_pipeline.Api.{DevTask, DevTaskPhase, completed, empty_status, failed}
use agentic_dev_pipeline.Kube.{Issue}
use agentic_dev_pipeline.Effects.{
  Host, LoopEvent, Prog, RepoClient, Result, attempt, cancelled, create_dev_task, err, fail,
  get_dev_task, is_not_found, list_dev_tasks, list_issues, message, ok, perform, ret, succeed, tick,
  wrap, ◌>>=◌,
}
use agentic_dev_pipeline.Diff.Policy.{positive_env}
use agentic_dev_pipeline.Credentials.{read_pipeline_credentials, system_namespace}
use agentic_dev_pipeline.Sandbox.{repo_name}

pub max_concurrent_tasks : (Text → Text) → ℕ
unfolding positive_env
max_concurrent_tasks getenv = positive_env 3 (getenv (codes "MAX_CONCURRENT_TASKS"))

abbrev pub is_active : DevTaskPhase → Bool
is_active completed = false
is_active failed = false
is_active _ = true

-- The loop of `countActiveDevTasks`.
pub count_active : List DevTask → ℕ
count_active [] = 0
count_active (t ∷ ts) = if is_active t.status.phase then suc (count_active ts) else count_active ts

pub count_active_dev_tasks : Prog (Result ℕ)
unfolding count_active
count_active_dev_tasks =
    attempt (perform (list_dev_tasks system_namespace)) fail λ items. succeed (count_active items)

pub task_name : Text → ℕ → Text
task_name repo issue = repo_name repo ++ (b'-' ∷ itoa issue)

-- The object that `ensureDevTask` creates.
unfoldable pub new_task : Text → ℕ → DevTask
new_task repo issue = record {
  name = task_name repo issue;
  namespace = system_namespace;
  spec = record { issue_number = issue; repo = repo };
  status = empty_status;
}

-- The part of `ensureDevTask` behind the look-up; true where a task was created.
pub create_if_absent : Text → ℕ → Bool → Result DevTask → Prog (Result Bool)
create_if_absent repo issue allow_create (ok existing) = succeed false
create_if_absent repo issue allow_create (err e) =
    if is_not_found e
    then (if allow_create
        then attempt (perform (create_dev_task (new_task repo issue))) fail (λ _. succeed true)
        else succeed false)
    else fail e

pub ensure_dev_task : Text → ℕ → Bool → Prog (Result Bool)
unfolding create_if_absent
ensure_dev_task repo issue allow_create = do
  found ← perform (get_dev_task system_namespace (task_name repo issue))
  create_if_absent repo issue allow_create found

-- The count after one issue: an error is logged, and the loop goes on.
abbrev pub after_issue : ℕ → Result Bool → ℕ
after_issue active (ok true) = active + 1
after_issue active (ok false) = active
after_issue active (err e) = active

-- The loop over the issues, over its variable `active`.
pub poll_issues : Text → ℕ → ℕ → List Issue → Prog (Result Unit)
unfolding ensure_dev_task
poll_issues repo limit active [] = succeed tt
poll_issues repo limit active (issue ∷ issues) =
    if issue.is_pull_request
    then poll_issues repo limit active issues
    else ensure_dev_task repo issue.number (ltb active limit) >>= λ created.
        poll_issues repo limit (after_issue active created) issues

-- The part of `pollRepo` behind the split of the repository.
pub poll_parts : Host → Text → Text → Text × Option Text → Prog (Result Unit)
unfolding poll_issues count_active_dev_tasks max_concurrent_tasks
poll_parts host repo token (owner, none) =
    fail (
      message (codes "invalid repo format " ++ (host.quote repo ++ codes " (expected owner/name)")))
poll_parts host repo token (owner, some name) =
    let client : RepoClient = record { token = token; owner = owner; name = name } in
    attempt (perform (list_issues client (codes "ready-for-development") (codes "open")))
      (λ e. fail (wrap (codes "list issues: ") e))
      λ issues.
        attempt count_active_dev_tasks (λ e. fail (wrap (codes "count active devtasks: ") e))
          λ active. poll_issues repo (max_concurrent_tasks host.getenv) active issues

pub poll_repo : Host → Text → Prog (Result Unit)
unfolding poll_parts
poll_repo host repo =
    attempt read_pipeline_credentials fail
      λ creds. poll_parts host repo creds.github_token (split2 b'/' repo)

-- One tick of the ticker in `StartGitHubPoller`: an error is logged, and the next repository follows.
pub poll_tick : Host → List Text → Prog Unit
poll_tick host [] = ret tt
poll_tick host (repo ∷ repos) = poll_repo host repo >>= λ _. poll_tick host repos

-- The goroutine of `StartGitHubPoller`, over what its `select` takes.
pub poller_goroutine : Host → List Text → List LoopEvent → Prog Unit
unfolding poll_tick
poller_goroutine host repos [] = ret tt
poller_goroutine host repos (cancelled ∷ events) = ret tt
poller_goroutine host repos (tick ∷ events) =
    poll_tick host repos >>= λ _. poller_goroutine host repos events
