-- ===== src/Samples/Operator.antt =====
-- The theorems on names, ports, comments, branches and listings at concrete inputs.
use agentic_dev_pipeline.Prelude.{
  [], arith, if◌then◌else◌, none, refl, some, true, ℕ, ◌++◌, ◌↔◌, ◌∷◌, ◌≡◌,
}
use agentic_dev_pipeline.Text.{codes, text_eq}
use agentic_dev_pipeline.Text.Decimal.{digits_value}
use agentic_dev_pipeline.Text.Search.{split2}
use agentic_dev_pipeline.Api.{failed, running}
use agentic_dev_pipeline.Kube.{egress_policy, ingress_policy, tcp}
use agentic_dev_pipeline.Effects.{attempt, is_not_found, ok, ◌>>=◌}
use agentic_dev_pipeline.Effects.Answer.{answer, returned}
use agentic_dev_pipeline.Egress.{egress_proxy_enabled, egress_proxy_port, sandbox_policy}
use agentic_dev_pipeline.Egress.Port.{egress_proxy_port-port_of, port_of}
use agentic_dev_pipeline.Egress.Rules.{Destination, PolicyAdmits, Reaches, sandbox_policy-admits}
use agentic_dev_pipeline.Credentials.{
  PipelineCreds, app_key_secret_name, creds_of, read_pipeline_credentials, transport_key, value_at,
}
use agentic_dev_pipeline.Credentials.Locks.{transport_key_iff}
use agentic_dev_pipeline.Sandbox.{repo_name, task_namespace, task_secret_name}
use agentic_dev_pipeline.Sandbox.Names.{same_sandbox_iff}
use agentic_dev_pipeline.Github.{first_for, last_is_trusted, list_pr_files}
use agentic_dev_pipeline.Github.Branches.{FirstFor, first_for-FirstFor}
use agentic_dev_pipeline.Github.Pages.{last, list_pr_files-Listing, more}
use agentic_dev_pipeline.Github.Trust.{EndsTrusted, last_is_trusted_iff}
use agentic_dev_pipeline.Poller.{task_name}
use agentic_dev_pipeline.Poller.Keys.{task_name_iff}
use agentic_dev_pipeline.Triage.{with_github_token}
use agentic_dev_pipeline.Triage.Rotation.{with_github_token-value_at}
use agentic_dev_pipeline.Samples.Inputs.{
  human_comment, manifest, no_env, pipeline_secret, readme, sample_from_int, sample_host,
  sample_namespace, sample_pull, sample_repo, sample_services, task_in,
}

last_is_trusted_iff_example :
    (last_is_trusted (human_comment ∷ []) ≡ true) ↔ EndsTrusted (human_comment ∷ [])
last_is_trusted_iff_example = last_is_trusted_iff (human_comment ∷ [])

first_for-FirstFor_example : FirstFor 7 (sample_pull ∷ []) (first_for 7 (sample_pull ∷ []))
first_for-FirstFor_example = first_for-FirstFor 7 (sample_pull ∷ [])

abbrev sample_creds : PipelineCreds
sample_creds = creds_of pipeline_secret

sample_read : answer sample_services read_pipeline_credentials ≡ returned (ok sample_creds)
unfolding answer read_pipeline_credentials attempt ◌>>=◌ text_eq codes is_not_found
    app_key_secret_name
sample_read = refl

sample_split : split2 b'/' sample_repo ≡ (b'o' ∷ [], some (b'r' ∷ []))
unfolding split2
sample_split = refl

list_pr_files-Listing_example :
    answer sample_services (list_pr_files sample_host (task_in running) 9)
    ≡ returned (ok ((readme ∷ []) ++ (manifest ∷ [])))
list_pr_files-Listing_example =
    list_pr_files-Listing sample_services sample_host (task_in running) 9 2 sample_creds (b'o' ∷ [])
      (b'r' ∷ []) ((readme ∷ []) ++ (manifest ∷ [])) sample_read sample_split
      (more refl (last refl)) (omega arith)

abbrev issue : ℕ
issue = 7

abbrev app : ℕ
app = 12

same_sandbox_iff_example :
    ((task_namespace (task_in running) ≡ task_namespace (task_in failed)) ↔ (issue ≡ issue))
    × ((task_secret_name (task_in running) ≡ task_secret_name (task_in failed)) ↔ (issue ≡ issue))
same_sandbox_iff_example = same_sandbox_iff (task_in running) (task_in failed)

task_name_iff_example :
    (task_name sample_repo 7 ≡ task_name (b'p' ∷ b'/' ∷ b'r' ∷ []) 7)
    ↔ ((repo_name sample_repo ≡ repo_name (b'p' ∷ b'/' ∷ b'r' ∷ [])) × (issue ≡ issue))
task_name_iff_example = task_name_iff sample_repo (b'p' ∷ b'/' ∷ b'r' ∷ []) 7 7

transport_key_iff_example :
    (transport_key issue app ≡ transport_key app issue) ↔ ((issue ≡ app) × (app ≡ issue))
transport_key_iff_example = transport_key_iff issue app app issue

egress_proxy_port-port_of_example :
    egress_proxy_port no_env ≡ port_of (digits_value (no_env (codes "EGRESS_PROXY_PORT")))
egress_proxy_port-port_of_example = egress_proxy_port-port_of no_env

abbrev outside : Destination
outside = record { labels = none; protocol = tcp; port = 443 }

sandbox_policy-admits_example :
    ((sandbox_policy no_env sample_from_int sample_namespace).ingress_rules ≡ [])
    × ((sandbox_policy no_env sample_from_int sample_namespace).policy_types
        ≡ ingress_policy ∷ egress_policy ∷ [])
    × (PolicyAdmits (sandbox_policy no_env sample_from_int sample_namespace) outside
        ↔ Reaches no_env (egress_proxy_enabled no_env) outside)
sandbox_policy-admits_example =
    sandbox_policy-admits no_env sample_from_int (λ n. refl) sample_namespace outside

with_github_token-value_at_example :
    ((with_github_token (b'n' ∷ []) pipeline_secret).name ≡ pipeline_secret.name)
    × ((with_github_token (b'n' ∷ []) pipeline_secret).namespace ≡ pipeline_secret.namespace)
    × (value_at (codes "claude-token") (with_github_token (b'n' ∷ []) pipeline_secret).values ≡ (
        if text_eq (codes "github-token") (codes "claude-token")
        then b'n' ∷ []
        else value_at (codes "claude-token") pipeline_secret.values))
with_github_token-value_at_example =
    with_github_token-value_at (b'n' ∷ []) pipeline_secret (codes "claude-token")
