-- ===== src/Samples/Inputs.antt =====
-- An environment, a repository, tasks and the replies of services.
use agentic_dev_pipeline.Prelude.{
  [], false, if◌then◌else◌, none, some, suc, zero, ℕ, ◌%◌, ◌==◌, ◌^◌, ◌∷◌,
}
use agentic_dev_pipeline.Text.{Text, codes, text_eq}
use agentic_dev_pipeline.Text.Rune.{lower_byte}
use agentic_dev_pipeline.Api.{DevTask, DevTaskPhase, empty_status}
use agentic_dev_pipeline.Kube.{Comment, PullRequest, Secret}
use agentic_dev_pipeline.Effects.{
  Host, create_comment, create_dev_task, create_namespace, create_network_policy, create_pod,
  create_secret, delete_namespace, delete_pod, edit_pull, err, get_dev_task, get_issue, get_pod,
  get_pull, get_secret, list_comments, list_dev_tasks, list_files, list_issues, list_pulls,
  load_transport, lock_transports, mint_token, new_transport, not_found, now, ok, other,
  remove_label, store_transport, unlock_transports, update_secret, update_status,
}
use agentic_dev_pipeline.Effects.Answer.{Services}
use agentic_dev_pipeline.Diff.Evaluate.{CommitFile}

-- The table of `unicode.ToLower` at the ASCII letters and at U+023A.
abbrev pub sample_lower : ℕ → ℕ
sample_lower c = if c == 0x23A then 0x2C65 else lower_byte c

abbrev pub no_env : Text → Text
no_env name = []

-- The 32 bits of a number, as in the conversion to a Go `int32`.
abbrev pub sample_from_int : ℕ → ℕ
sample_from_int n = n % 2 ^ 32

abbrev pub sample_host : Host
sample_host = record {
  getenv = no_env;
  quote = λ t. t;
  lower = sample_lower;
  parse_duration = λ t. none;
  max_pages = 3;
  from_int = sample_from_int;
}

abbrev pub sample_repo : Text
sample_repo = b'o' ∷ b'/' ∷ b'r' ∷ []

abbrev pub sample_namespace : Text
sample_namespace = b'd' ∷ b'7' ∷ []

abbrev pub task_in : DevTaskPhase → DevTask
task_in p = record {
  name = b't' ∷ [];
  namespace = b'n' ∷ [];
  spec = record { issue_number = 7; repo = sample_repo };
  status = record empty_status { phase = p; namespace = sample_namespace; failed_at = some 5 };
}

abbrev pub readme : CommitFile
readme = record { filename = b'd' ∷ []; additions = 2; deletions = 1 }

abbrev pub manifest : CommitFile
manifest = record { filename = codes "web/go.mod"; additions = 3; deletions = 0 }

abbrev pub pipeline_secret : Secret
pipeline_secret = record {
  name = codes "pipeline-creds";
  namespace = codes "devpipeline-system";
  values = (codes "github-token", b'g' ∷ []) ∷ (codes "claude-token", b'c' ∷ []) ∷ [];
}

abbrev pub human_comment : Comment
human_comment = record {
  body = b'y' ∷ [];
  user_type = codes "User";
  user_login = b'a' ∷ [];
  author_association = codes "OWNER";
}

abbrev pub sample_pull : PullRequest
sample_pull = record {
  number = 9;
  head_ref = codes "claude/issue-7-slug";
  merged = false;
  state = codes "open";
  html_url = b'u' ∷ [];
  labels = [];
}

-- The App's secret is absent, and the files of each pull request stand on two pages.
abbrev pub sample_services : Services
sample_services (get_secret ns name) =
    if text_eq name (codes "pipeline-creds") then ok pipeline_secret else err not_found
sample_services (list_files client n zero) = ok (readme ∷ [], 1)
sample_services (list_files client n (suc page)) = ok (manifest ∷ [], 0)
sample_services (load_transport key) = none
sample_services lock_transports = tt
sample_services unlock_transports = tt
sample_services (store_transport key tr) = tt
sample_services now = 0
sample_services (get_dev_task ns name) = err not_found
sample_services (list_dev_tasks ns) = err other
sample_services (get_pod ns name) = err not_found
sample_services (list_issues c label state) = err other
sample_services (get_pull c n) = err other
sample_services (list_pulls c state) = err other
sample_services (list_comments c n) = err other
sample_services (get_issue c n) = err other
sample_services (new_transport app inst pem) = err other
sample_services (mint_token tr) = err other
sample_services (create_dev_task t) = err other
sample_services (update_status t) = err other
sample_services (create_namespace n) = err other
sample_services (delete_namespace n) = err other
sample_services (create_network_policy p) = err other
sample_services (create_secret s) = err other
sample_services (update_secret s) = err other
sample_services (create_pod p) = err other
sample_services (delete_pod ns p) = err other
sample_services (create_comment c n t) = err other
sample_services (remove_label c n t) = err other
sample_services (edit_pull c n t) = err other
