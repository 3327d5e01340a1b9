-- ===== src/Sandbox/Pods.antt =====
-- operator/internal/controller/pod.go: the pods of a task, for a fresh start, a resumption after a
-- clarification and a revision after a review.
use agentic_dev_pipeline.Prelude.{List, [], false, if◌then◌else◌, true, ◌++◌, ◌∷◌}
use agentic_dev_pipeline.Text.{Text, codes}
use agentic_dev_pipeline.Api.{DevTask}
use agentic_dev_pipeline.Kube.{Container, ContainerSecurity, EnvVar, Pod, literal, secret_key}
use agentic_dev_pipeline.Effects.{Host}
use agentic_dev_pipeline.Egress.{egress_proxy_enabled, egress_proxy_url, or_default}
use agentic_dev_pipeline.Sandbox.{
  agent_pod_name, repo_name, revision_pod_name, task_namespace, task_secret_name,
}
use agentic_dev_pipeline.Sandbox.Prompts.{agent_prompt, resume_prompt, revision_prompt}
use agentic_dev_pipeline.Sandbox.Scripts.{agent_script, resume_script, revision_script}

unfoldable pub agent_image : (Text → Text) → Text
agent_image getenv =
    or_default (getenv (codes "AGENT_IMAGE")) (codes "localhost:5000/devcontainer:latest")

unfoldable pub secret_ref : DevTask → Text → Text → EnvVar
secret_ref task name key = record { name = name; value = secret_key (task_secret_name task) key }

-- The variables of the agent's container that come from the task's secret.
unfoldable pub credential_env : DevTask → List EnvVar
credential_env task =
    secret_ref task (codes "GITHUB_PERSONAL_ACCESS_TOKEN") (codes "github-token")
    ∷ secret_ref task (codes "GITHUB_TOKEN") (codes "github-token")
    ∷ secret_ref task (codes "CLAUDE_CODE_OAUTH_TOKEN") (codes "claude-token")
    ∷ secret_ref task (codes "ANTHROPIC_API_KEY") (codes "claude-token")
    ∷ secret_ref task (codes "CLAUDE_AUTH_MODE") (codes "claude-auth-mode")
    ∷ secret_ref task (codes "GIT_AUTHOR_NAME") (codes "git-author-name")
    ∷ secret_ref task (codes "GIT_AUTHOR_EMAIL") (codes "git-author-email")
    ∷ secret_ref task (codes "GIT_COMMITTER_NAME") (codes "git-author-name")
    ∷ secret_ref task (codes "GIT_COMMITTER_EMAIL") (codes "git-author-email")
    ∷ []

abbrev pub no_proxy_hosts : Text
no_proxy_hosts = codes "localhost,127.0.0.1,.svc,.cluster.local,10.0.0.0/8"

-- What the egress mode appends.
unfoldable pub proxy_env : Text → List EnvVar
proxy_env proxy =
    record { name = codes "HTTPS_PROXY"; value = literal proxy }
    ∷ record { name = codes "https_proxy"; value = literal proxy }
    ∷ record { name = codes "HTTP_PROXY"; value = literal proxy }
    ∷ record { name = codes "http_proxy"; value = literal proxy }
    ∷ record { name = codes "NO_PROXY"; value = literal no_proxy_hosts }
    ∷ record { name = codes "no_proxy"; value = literal no_proxy_hosts }
    ∷ []

unfoldable pub agent_env : (Text → Text) → DevTask → List EnvVar
agent_env getenv task =
    credential_env task
    ++ (if egress_proxy_enabled getenv then proxy_env (egress_proxy_url getenv) else [])

unfoldable pub container_security : ContainerSecurity
container_security = record {
  allow_privilege_escalation = false;
  read_only_root_filesystem = true;
  drop_capabilities = codes "ALL" ∷ [];
}

-- The container that writes the script, and the one that runs it.
unfoldable pub init_container : Text → Container
init_container script = record {
  name = codes "write-script";
  image = codes "busybox:1.37.0";
  command =
      codes "sh"
      ∷ codes "-c"
      ∷ codes "printf '%s' \"$SCRIPT\" > /tmp/run-agent.sh && chmod +x /tmp/run-agent.sh"
      ∷ [];
  env = record { name = codes "SCRIPT"; value = literal script } ∷ [];
  security = container_security;
  resources = record {
    request_cpu = codes "10m";
    request_memory = codes "16Mi";
    limit_cpu = codes "100m";
    limit_memory = codes "64Mi";
  };
  volume_mounts = (codes "tmp", codes "/tmp") ∷ [];
}

unfoldable pub agent_container : (Text → Text) → DevTask → Container
agent_container getenv task = record {
  name = codes "agent";
  image = agent_image getenv;
  command = codes "/bin/bash" ∷ codes "/tmp/run-agent.sh" ∷ [];
  env = agent_env getenv task;
  security = container_security;
  resources = record {
    request_cpu = codes "250m";
    request_memory = codes "1Gi";
    limit_cpu = codes "2";
    limit_memory = codes "2Gi";
  };
  volume_mounts =
      (codes "workdir", codes "/workspaces")
      ∷ (codes "tmp", codes "/tmp")
      ∷ (codes "home", codes "/home/node")
      ∷ [];
}

-- The pod that all three kinds share, of its name and its script.
unfoldable pub sandbox_pod : (Text → Text) → DevTask → Text → Text → Pod
sandbox_pod getenv task name script = record {
  name = name;
  namespace = task_namespace task;
  labels = (codes "devpipeline.local/task", task.name) ∷ [];
  restart_policy = codes "Never";
  active_deadline_seconds = 1800;
  automount_service_account_token = false;
  security = record {
    run_as_user = 1000;
    run_as_group = 1000;
    fs_group = 1000;
    run_as_non_root = true;
    seccomp_profile = codes "RuntimeDefault";
  };
  init_containers = init_container script ∷ [];
  containers = agent_container getenv task ∷ [];
  volumes = codes "workdir" ∷ codes "tmp" ∷ codes "home" ∷ [];
}

unfoldable pub agent_pod : Host → DevTask → Pod
agent_pod host task =
    let issue = task.spec.issue_number in
    let repo = task.spec.repo in
    sandbox_pod host.getenv task agent_pod_name
      (agent_script issue repo (repo_name repo) (host.quote (agent_prompt issue repo)))

-- `agentPodResume` and `agentPodRevision` take the pod of `agentPod` and put in their script; the
-- second also its name.
unfoldable pub agent_pod_resume : Host → DevTask → Pod
agent_pod_resume host task =
    let issue = task.spec.issue_number in
    let repo = task.spec.repo in
    sandbox_pod host.getenv task agent_pod_name
      (resume_script issue repo (repo_name repo) (host.quote (resume_prompt issue repo)))

unfoldable pub agent_pod_revision : Host → DevTask → Pod
agent_pod_revision host task =
    let repo = task.spec.repo in
    let pr = task.status.pr_number in
    sandbox_pod host.getenv task revision_pod_name (
      revision_script pr repo (repo_name repo)
        (host.quote (revision_prompt pr task.spec.issue_number repo)))
