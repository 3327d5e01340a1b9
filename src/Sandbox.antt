-- ===== src/Sandbox.antt =====
-- operator/internal/controller/namespace.go, pod.go and the task secret of secrets.go: the objects
-- of a task's sandbox, and the operations that create and delete them.
pub mod Pods
pub mod Prompts
pub mod Scripts
pub mod Hardening
pub mod Names
use agentic_dev_pipeline.Prelude.{Option, [], none, some, ◌++◌, ◌∷◌}
use agentic_dev_pipeline.Text.{Text, codes}
use agentic_dev_pipeline.Text.Decimal.{itoa}
use agentic_dev_pipeline.Text.Search.{split2}
use agentic_dev_pipeline.Api.{DevTask}
use agentic_dev_pipeline.Kube.{Namespace, Pod, PodPhase, Secret}
use agentic_dev_pipeline.Effects.{
  Host, Prog, Result, attempt, create_namespace, create_network_policy, create_pod, create_secret,
  delete_namespace, delete_pod, get_pod, ignore_already_exists, ignore_not_found, perform, ret,
  succeed, ◌>>=◌,
}
use agentic_dev_pipeline.Egress.{sandbox_policy}
use agentic_dev_pipeline.Credentials.{PipelineCreds}

unfoldable pub task_namespace : DevTask → Text
task_namespace task = codes "devtask-" ++ itoa task.spec.issue_number

pub task_secret_name : DevTask → Text
task_secret_name task = codes "devtask-" ++ (itoa task.spec.issue_number ++ codes "-creds")

-- `repoName`: what follows the first slash, or the whole name
abbrev name_part : Text → Text × Option Text → Text
name_part repo (owner, none) = repo
name_part repo (owner, some name) = name

unfoldable pub repo_name : Text → Text
repo_name repo = name_part repo (split2 b'/' repo)

-- The object of `ensureNamespace`.
unfoldable pub namespace_object : DevTask → Namespace
namespace_object task = record {
  name = task_namespace task;
  labels =
      (codes "app.kubernetes.io/managed-by", codes "agentic-dev-pipeline")
      ∷ (codes "devpipeline.local/task", task.name)
      ∷ [];
}

unfoldable pub ensure_namespace : DevTask → Prog (Result Unit)
ensure_namespace task = do
  r ← perform (create_namespace (namespace_object task))
  ret (ignore_already_exists tt r)

unfoldable pub remove_namespace : Text → Prog (Result Unit)
remove_namespace ns = do r ← perform (delete_namespace ns); ret (ignore_not_found tt r)

unfoldable pub revision_pod_name : Text
revision_pod_name = codes "agent-rev"

unfoldable pub agent_pod_name : Text
agent_pod_name = codes "agent"

unfoldable pub delete_revision_pod : Text → Prog (Result Unit)
delete_revision_pod ns = do
  r ← perform (delete_pod ns revision_pod_name)
  ret (ignore_not_found tt r)

unfoldable pub ensure_network_policy : Host → DevTask → Prog (Result Unit)
ensure_network_policy host task = do
  r ←
      perform
        (create_network_policy (sandbox_policy host.getenv host.from_int (task_namespace task)))
  ret (ignore_already_exists tt r)

-- The object of `ensureTaskSecret`.
unfoldable pub task_secret : DevTask → PipelineCreds → Secret
task_secret task creds = record {
  name = task_secret_name task;
  namespace = task_namespace task;
  values =
      (codes "github-token", creds.github_token)
      ∷ (codes "claude-token", creds.claude_token)
      ∷ (codes "claude-auth-mode", creds.claude_auth_mode)
      ∷ (codes "git-author-name", creds.git_author_name)
      ∷ (codes "git-author-email", creds.git_author_email)
      ∷ [];
}

unfoldable pub ensure_task_secret : DevTask → PipelineCreds → Prog (Result Unit)
ensure_task_secret task creds = do
  r ← perform (create_secret (task_secret task creds))
  ret (ignore_already_exists tt r)

unfoldable pub ensure_pod : Pod → Prog (Result Unit)
ensure_pod pod = do r ← perform (create_pod pod); ret (ignore_already_exists tt r)

-- `getPod`: the revision pod where it can be read, else the agent pod
unfoldable pub find_pod : Text → Prog (Result PodPhase)
find_pod ns =
    attempt (perform (get_pod ns revision_pod_name)) (λ e. perform (get_pod ns agent_pod_name))
      succeed
