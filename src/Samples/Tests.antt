-- ===== src/Samples/Tests.antt =====
-- Tests of the definitions, the cases of diff_policy_test.go, egress_test.go and pod_test.go among them.
use agentic_dev_pipeline.Prelude.{List, Option, [], false, none, refl, some, true, ◌∷◌, ◌≡◌}
use agentic_dev_pipeline.Text.{Text, codes}
use agentic_dev_pipeline.Text.Decimal.{itoa}
use agentic_dev_pipeline.Text.PathMatch.{base, path_match}
use agentic_dev_pipeline.Text.Rune.{is_ascii, lower_byte, utf8}
use agentic_dev_pipeline.Text.Search.{has_prefix}
use agentic_dev_pipeline.Api.{awaiting_revision, unset}
use agentic_dev_pipeline.Effects.{
  already_exists, attempt, is_already_exists, is_not_found, wrap, ◌>>=◌,
}
use agentic_dev_pipeline.Effects.Answer.{answer, returned}
use agentic_dev_pipeline.Diff.Approval.{marker, parse_approved_globs}
use agentic_dev_pipeline.Diff.Evaluate.{
  CommitFile, DiffViolation, check_caps, check_file, evaluate_diff, files_violation,
  lines_violation, reason_text, restricted_violation, risky_violation,
}
use agentic_dev_pipeline.Diff.Glob.{glob_match, match_any, matched_by_any}
use agentic_dev_pipeline.Diff.Policy.{
  default_diff_policy, default_restricted_paths, default_risky_paths,
}
use agentic_dev_pipeline.Egress.{egress_proxy_enabled, egress_proxy_namespace, egress_proxy_port}
use agentic_dev_pipeline.Sandbox.{
  agent_pod_name, namespace_object, repo_name, revision_pod_name, task_namespace,
}
use agentic_dev_pipeline.Sandbox.Pods.{agent_image, agent_pod, agent_pod_revision, sandbox_pod}
use agentic_dev_pipeline.Sandbox.Prompts.{
  agent_prompt, concat_texts, resume_prompt, revision_prompt, untrusted_input_preamble,
}
use agentic_dev_pipeline.Sandbox.Scripts.{agent_script, resume_script, revision_script}
use agentic_dev_pipeline.Reconcile.{reconcile}
use agentic_dev_pipeline.Reconcile.Results.{failed_namespace_ttl, seconds}
use agentic_dev_pipeline.Triage.{triage_namespace}
use agentic_dev_pipeline.Samples.Inputs.{
  no_env, sample_host, sample_lower, sample_repo, sample_services, task_in,
}

abbrev changed : Text → CommitFile
changed name = record { filename = name; additions = 2; deletions = 1 }

-- The reasons of the violations and their paths, in the default policy.
abbrev reasons : List DiffViolation → List (Text × Text)
reasons [] = []
reasons (v ∷ vs) = (reason_text v.reason, v.path) ∷ reasons vs

abbrev verdict : List CommitFile → Text → Option (List (Text × Text))
verdict files body =
    elim (evaluate_diff sample_host.quote sample_lower files body default_diff_policy) [
      | none ↦ none
      | some vs ↦ some (reasons vs)
    ]

-- The cases of `TestEvaluateDiff`.
verdicts :
    (verdict (changed (codes "README.md") ∷ changed (codes "docs/guide.md") ∷ []) (codes "")
      ≡ some ([]))
    × (verdict (changed (codes ".github/workflows/release.yml") ∷ []) (codes "")
        ≡ some ((codes "restricted-path", codes ".github/workflows/release.yml") ∷ []))
    × (verdict (changed (codes "Dockerfile") ∷ []) (codes "")
        ≡ some ((codes "restricted-path", codes "Dockerfile") ∷ []))
    × (verdict (changed (codes "package.json") ∷ []) (codes "")
        ≡ some ((codes "risky-path", codes "package.json") ∷ []))
    × (verdict
          (changed (codes "package.json") ∷ [])
          (codes "Please bump the dep.\n\napprove-risky-paths: package.json")
        ≡ some ([]))
    × (verdict
          (changed (codes "package.json") ∷ changed (codes "package-lock.json") ∷ [])
          (codes "approve-risky-paths: package*.json")
        ≡ some ([]))
    × (verdict
          (changed (codes ".github/workflows/ci.yml") ∷ [])
          (codes "approve-risky-paths: .github/**")
        ≡ some ((codes "restricted-path", codes ".github/workflows/ci.yml") ∷ []))
    × (verdict (changed (codes "services/api/Dockerfile") ∷ []) (codes "")
        ≡ some ((codes "risky-path", codes "services/api/Dockerfile") ∷ []))
unfolding evaluate_diff check_file match_any matched_by_any default_diff_policy path_match base
    codes reason_text restricted_violation risky_violation parse_approved_globs
    default_restricted_paths default_risky_paths glob_match marker is_ascii lower_byte
verdicts = (refl, refl, refl, refl, refl, refl, refl, refl)

-- Cases of `TestGlobMatch`.
globs :
    (glob_match (codes ".github/**") (codes ".githubfoo/x") ≡ false)
    × (glob_match (codes "**/Dockerfile") (codes "sub/Dockerfile") ≡ true)
    × (glob_match (codes "**/Dockerfile") (codes "Dockerfile.dev") ≡ false)
    × (glob_match (codes "package*.json") (codes "package-lock.json") ≡ true)
    × (glob_match (codes "package*.json") (codes "sub/package.json") ≡ false)
unfolding glob_match path_match base codes
globs = (refl, refl, refl, refl, refl)

default_egress :
    (egress_proxy_enabled no_env ≡ false)
    × (egress_proxy_namespace no_env ≡ codes "egress-proxy")
    × (egress_proxy_port no_env ≡ 3128)
unfolding egress_proxy_enabled egress_proxy_namespace egress_proxy_port
default_egress = (refl, refl, refl)

fresh_pod :
    ((agent_pod sample_host (task_in unset)).name ≡ codes "agent")
    × ((agent_pod_revision sample_host (task_in awaiting_revision)).name ≡ codes "agent-rev")
unfolding agent_pod agent_pod_revision sandbox_pod agent_pod_name revision_pod_name
fresh_pod = (refl, refl)

default_image : agent_image no_env ≡ codes "localhost:5000/devcontainer:latest"
unfolding agent_image
default_image = refl

scripts_begin :
    (has_prefix (agent_script 7 sample_repo (repo_name sample_repo) []) (codes "#!/bin/bash")
      ≡ true)
    × (has_prefix (resume_script 7 sample_repo (repo_name sample_repo) []) (codes "#!/bin/bash")
        ≡ true)
    × (has_prefix (revision_script 9 sample_repo (repo_name sample_repo) []) (codes "#!/bin/bash")
        ≡ true)
unfolding agent_script resume_script revision_script concat_texts utf8 codes has_prefix repo_name
scripts_begin = (refl, refl, refl)

prompts_warn :
    (has_prefix (agent_prompt 7 sample_repo) (codes "SECURITY:") ≡ true)
    × (has_prefix (resume_prompt 7 sample_repo) (codes "SECURITY:") ≡ true)
    × (has_prefix (revision_prompt 9 7 sample_repo) (codes "SECURITY:") ≡ true)
unfolding agent_prompt resume_prompt revision_prompt untrusted_input_preamble concat_texts utf8
    codes has_prefix
prompts_warn = (refl, refl, refl)

namespace_named : (namespace_object (task_in unset)).name ≡ codes "devtask-7"
unfolding namespace_object task_namespace codes itoa
namespace_named = refl

default_ttl : failed_namespace_ttl sample_host ≡ seconds 3600
unfolding failed_namespace_ttl
default_ttl = refl

triage_default : triage_namespace no_env ≡ codes "agentic-dev-pipeline-triage"
unfolding triage_namespace
triage_default = refl

wrapped_conflict : is_already_exists (wrap (codes "ensure pod: ") already_exists) ≡ true
unfolding is_already_exists
wrapped_conflict = refl

-- A request for an object that is gone ends without an error.
gone :
    answer sample_services (reconcile sample_host (b'n' ∷ []) (b't' ∷ []))
    ≡ returned (record { requeue_after = 0; error = none })
unfolding answer reconcile attempt ◌>>=◌ is_not_found
gone = refl

caps_exceeded :
    (reasons (check_caps default_diff_policy 26 801)
      ≡ (codes "too-many-files", []) ∷ (codes "too-many-lines", []) ∷ [])
    × ((files_violation 26 25).detail ≡ codes "PR changes 26 files, exceeding the limit of 25")
    × ((lines_violation 801 800).detail ≡ codes "PR changes 801 lines, exceeding the limit of 800")
unfolding check_caps default_diff_policy files_violation lines_violation reason_text itoa codes
caps_exceeded = (refl, refl, refl)

path_matches :
    (path_match (codes "*.md") (codes "x.md") ≡ true)
    × (path_match (codes "*.md") (codes "docs/x.md") ≡ false)
    × (path_match (codes "a[b-d]?") (codes "acz") ≡ true)
    × (path_match (codes "**c") (codes "abcbc") ≡ true)
    × (path_match (codes "*[^x]*b") (codes "a/b") ≡ false)
    × (path_match (codes "[a") (codes "a") ≡ false)
unfolding path_match codes
path_matches = (refl, refl, refl, refl, refl, refl)
