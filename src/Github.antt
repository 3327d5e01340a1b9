-- ===== src/Github.antt =====
-- The functions of operator/internal/controller/github_poller.go that read and write a task's issue
-- and pull request.
pub mod Reads
pub mod Clients
pub mod Branches
pub mod Pages
pub mod Trust
use agentic_dev_pipeline.Prelude.{
  ℕ, zero, suc, Bool, true, false, ◌||◌, ◌&&◌, List, [], ◌∷◌, ◌++◌, Option, none, some, ◌==◌,
  if◌then◌else◌,
}
use agentic_dev_pipeline.Text.{Text, codes, text_eq}
use agentic_dev_pipeline.Text.Search.{has_prefix, contains, split2}
use agentic_dev_pipeline.Text.Decimal.{itoa}
use agentic_dev_pipeline.Api.{DevTask}
use agentic_dev_pipeline.Kube.{PullRequest, Comment}
use agentic_dev_pipeline.Diff.Evaluate.{CommitFile, DiffViolation}
use agentic_dev_pipeline.Effects.{
  Error, Result, ok, err, Host, RepoClient, Prog, ret, panic, out_of_pages, perform, ◌>>=◌, branch,
  attempt, succeed, fail, get_pull, list_pulls, list_comments, create_comment, remove_label,
  list_files, get_issue, edit_pull,
}
use agentic_dev_pipeline.Credentials.{PipelineCreds, read_pipeline_credentials}

-- `parts[0]` and `parts[1]` of the split repository: Go panics where there is no slash.
abbrev pub client_of : {A : Type 0} → Text → Text × Option Text → (RepoClient → Prog A) → Prog A
client_of token (owner, none) k = panic
client_of token (owner, some name) k = k (record { token = token; owner = owner; name = name })

-- The start of each function here: the credentials, the parts of the repository, the client.
pub with_client : {A : Type 0} → DevTask → (RepoClient → Prog (Result A)) → Prog (Result A)
with_client task k =
    attempt read_pipeline_credentials fail
      λ creds. client_of creds.github_token (split2 b'/' task.spec.repo) k

-- `claude/issue-N`, the older branch name
pub legacy_branch : ℕ → Text
legacy_branch issue = codes "claude/issue-" ++ itoa issue

pub is_task_branch : ℕ → Text → Bool
unfolding legacy_branch
is_task_branch issue ref =
    has_prefix ref (legacy_branch issue ++ codes "-") || text_eq ref (legacy_branch issue)

-- The loop over the open pull requests; `none` for a nil pull request.
pub first_for : ℕ → List PullRequest → Option PullRequest
unfolding is_task_branch
first_for issue [] = none
first_for issue (pr ∷ prs) =
    if is_task_branch issue pr.head_ref then some pr else first_for issue prs

pub find_pr_for_task : DevTask → Prog (Result (Option PullRequest))
unfolding first_for
find_pr_for_task task = with_client task λ client.
    if task.status.pr_number == 0
    then attempt (perform (list_pulls client (codes "open"))) fail
        (λ prs. succeed (first_for task.spec.issue_number prs))
    else attempt (perform (get_pull client task.status.pr_number)) fail (λ pr. succeed (some pr))

-- `pr.GetMerged() || pr.GetState() == "closed"`, and false for nil
pub is_done : Option PullRequest → Bool
is_done none = false
is_done (some pr) = pr.merged || text_eq pr.state (codes "closed")

pub is_pr_merged_or_closed : DevTask → Prog (Result Bool)
unfolding find_pr_for_task is_done
is_pr_merged_or_closed task = attempt (find_pr_for_task task) fail λ pr. succeed (is_done pr)

pub mentions_pr : List Comment → Bool
mentions_pr [] = false
mentions_pr (c ∷ cs) = if contains c.body (codes "PR: https://") then true else mentions_pr cs

pub ensure_pr_comment_on_issue : DevTask → Text → Prog (Result Unit)
unfolding mentions_pr
ensure_pr_comment_on_issue task [] = succeed tt
ensure_pr_comment_on_issue task (c ∷ url) = with_client task λ client.
    attempt (perform (list_comments client task.spec.issue_number)) fail λ comments.
      if mentions_pr comments
      then succeed tt
      else perform (create_comment client task.spec.issue_number (codes "PR: " ++ (c ∷ url)))

pub asks_clarification : List Comment → Bool
asks_clarification [] = false
asks_clarification (c ∷ cs) =
    if has_prefix c.body (codes "/clarification:") then true else asks_clarification cs

pub has_recent_clarification_comment : DevTask → Prog (Result Bool)
unfolding asks_clarification
has_recent_clarification_comment task = with_client task λ client.
    attempt (perform (list_comments client task.spec.issue_number)) fail
      λ comments. succeed (asks_clarification comments)

-- `trustedAuthorAssociations[association]`
pub is_trusted_association : Text → Bool
is_trusted_association a =
    text_eq a (codes "OWNER") || (text_eq a (codes "MEMBER") || text_eq a (codes "COLLABORATOR"))

pub is_bot : Comment → Bool
is_bot c =
    text_eq c.user_type (codes "Bot")
    || (text_eq c.user_login (codes "github-actions[bot]")
        || text_eq c.user_login (codes "app/github-actions"))

-- The tests on the last of the comments, false if there is none.
pub last_is_trusted : List Comment → Bool
unfolding is_bot is_trusted_association
last_is_trusted [] = false
last_is_trusted (c ∷ []) = if is_bot c then false else is_trusted_association c.author_association
last_is_trusted (c ∷ d ∷ cs) = last_is_trusted (d ∷ cs)

unfoldable pub human_replied_after_clarification : DevTask → Prog (Result Bool)
unfolding last_is_trusted
human_replied_after_clarification task = with_client task λ client.
    attempt (perform (list_comments client task.spec.issue_number)) fail
      λ comments. succeed (last_is_trusted comments)

pub has_label : Text → List Text → Bool
has_label label [] = false
has_label label (l ∷ ls) = if text_eq l label then true else has_label label ls

pub pr_has_label : DevTask → Text → Prog (Result Bool)
unfolding has_label
pr_has_label task label =
    if task.status.pr_number == 0
    then succeed false
    else with_client task λ client.
      attempt (perform (get_pull client task.status.pr_number)) fail
        λ pr. succeed (has_label label pr.labels)

pub remove_pr_label : DevTask → Text → Prog (Result Unit)
remove_pr_label task label =
    if task.status.pr_number == 0
    then succeed tt
    else with_client task λ client. perform (remove_label client task.status.pr_number label)

-- The loop of `listPRFiles` over its variables `all` and `opts.Page`, on a bound of pages.
unfoldable pub list_pages :
    ℕ → RepoClient → ℕ → List CommitFile → ℕ → Prog (Result (List CommitFile))
list_pages zero client n all page = out_of_pages
list_pages (suc rounds) client n all page = perform (list_files client n page) >>= elim [
  | err e ↦ fail e
  | ok (files, zero) ↦ succeed (all ++ files)
  | ok (files, suc k) ↦ list_pages rounds client n (all ++ files) (suc k)
]

unfoldable pub list_pr_files : Host → DevTask → ℕ → Prog (Result (List CommitFile))
unfolding list_pages
list_pr_files host task n = with_client task λ client. list_pages host.max_pages client n [] 0

unfoldable pub get_issue_body : DevTask → Prog (Result Text)
get_issue_body task = with_client task λ client.
    attempt (perform (get_issue client task.spec.issue_number)) fail λ issue. succeed issue.body

-- The text that the string builder of `rejectPRForDiffPolicy` holds.
pub violation_lines : List DiffViolation → Text
violation_lines [] = []
violation_lines (v ∷ vs) = codes "- " ++ (v.detail ++ (codes "\n" ++ violation_lines vs))

pub rejection_text : List DiffViolation → Text
unfolding violation_lines
rejection_text violations =
    codes
      "Automated diff policy rejected this PR. The agent's changes were not forwarded for review:\n\n"
    ++ (violation_lines violations
        ++ codes
            "\nThis PR has been closed. Adjust the issue (or its `approve-risky-paths:` token) and re-trigger if appropriate.")

unfoldable pub reject_pr_for_diff_policy : DevTask → ℕ → List DiffViolation → Prog (Result Unit)
unfolding rejection_text
reject_pr_for_diff_policy task n violations = with_client task λ client.
    attempt (perform (create_comment client n (rejection_text violations))) fail
      λ _. perform (edit_pull client n (codes "closed"))
