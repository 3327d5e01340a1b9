-- ===== src/Github/Reads.antt =====
-- What kinds of calls the functions of secrets.go, github_poller.go and `getPod` of pod.go make.
use agentic_dev_pipeline.Prelude.{
  Bool, List, Option, [], false, if◌then◌else◌, none, some, suc, true, zero, ℕ, ◌++◌, ◌==◌, ◌∷◌,
}
use agentic_dev_pipeline.Text.{Text}
use agentic_dev_pipeline.Text.Search.{split2}
use agentic_dev_pipeline.Api.{DevTask}
use agentic_dev_pipeline.Effects.{
  Call, Host, Prog, RepoClient, Result, attempt, err, get_pod, ok, ◌>>=◌, ◌>>◌,
}
use agentic_dev_pipeline.Effects.Kinds.{
  IsAside, IsCredential, IsCredential→IsAside, IsCredential→IsLookup, IsCredential→IsTalk, IsLookup,
  IsTalk,
}
use agentic_dev_pipeline.Effects.Monitor.{Calls, Calls-attempt, Calls-branch, Calls-mono}
use agentic_dev_pipeline.Diff.Evaluate.{CommitFile, DiffViolation}
use agentic_dev_pipeline.Credentials.{
  checked_token, github_app_token, installation_token, read_pipeline_credentials, store_made,
  transport_for,
}
use agentic_dev_pipeline.Sandbox.{find_pod}
use agentic_dev_pipeline.Github.{
  client_of, ensure_pr_comment_on_issue, find_pr_for_task, get_issue_body,
  has_recent_clarification_comment, human_replied_after_clarification, is_pr_merged_or_closed,
  list_pages, list_pr_files, mentions_pr, pr_has_label, reject_pr_for_diff_policy, remove_pr_label,
  with_client,
}

store_made-IsCredential : (key : Text) (r : Result ℕ) → Calls IsCredential (store_made key r)
unfolding store_made ◌>>◌
store_made-IsCredential key (ok tr) = (tt, λ _. (tt, λ _. tt))
store_made-IsCredential key (err e) = (tt, λ _. tt)

transport_for-IsCredential :
    (key : Text) (a i : ℕ) (pem : Text) (o : Option ℕ)
    → Calls IsCredential (transport_for key a i pem o)
unfolding transport_for ◌>>◌
transport_for-IsCredential key a i pem (some tr) = (tt, λ _. tt)
transport_for-IsCredential key a i pem none = (tt, λ r. store_made-IsCredential key r)

installation_token-IsCredential :
    (a i : ℕ) (pem : Text) → Calls IsCredential (installation_token a i pem)
unfolding installation_token ◌>>◌
installation_token-IsCredential a i pem = (
  tt,
  λ _. (
    tt,
    λ o.
        Calls-attempt IsCredential _ _ _ (transport_for-IsCredential _ a i pem o) (λ e. tt)
          (λ tr. (tt, λ _. tt)),
  ),
)

checked_token-IsCredential :
    (a i : Option ℕ) (pem : Text) → Calls IsCredential (checked_token a i pem)
unfolding checked_token
checked_token-IsCredential (some a) (some i) (c ∷ pem) =
    installation_token-IsCredential a i (c ∷ pem)
checked_token-IsCredential (some a) (some i) [] = tt
checked_token-IsCredential _ _ _ = tt

github_app_token-IsCredential : Calls IsCredential github_app_token
github_app_token-IsCredential =
    unfold github_app_token in
    (Calls-attempt IsCredential _ _ _ (tt, λ _. tt) (λ e. tt)
      (λ s. checked_token-IsCredential _ _ _))

pub read_pipeline_credentials-IsCredential : Calls IsCredential read_pipeline_credentials
read_pipeline_credentials-IsCredential =
    unfold read_pipeline_credentials in
    (Calls-attempt IsCredential _ _ _ (tt, λ _. tt) (λ e. tt)
      (λ s. Calls-attempt IsCredential _ _ _ github_app_token-IsCredential (λ e. tt) (λ t. tt)))

client_of-Calls :
    {A : Type 0} (P : Call → Type 0) (token : Text) (parts : Text × Option Text)
    (k : RepoClient → Prog A)
    → ((c : RepoClient) → Calls P (k c))
    → Calls P (client_of token parts k)
client_of-Calls P token (owner, none) k h = tt
client_of-Calls P token (owner, some name) k h = h _

-- Predicates that hold of every call that reads credentials.
module _ {A : Type 0} (P : Call → Type 0) (credentials : (c : Call) → IsCredential c → P c) where
  pub with_client-Calls :
      (task : DevTask) (k : RepoClient → Prog (Result A))
      → ((c : RepoClient) → Calls P (k c))
      → Calls P (with_client task k)
  with_client-Calls task k h =
      unfold with_client in
      (Calls-attempt P _ _ _
        (Calls-mono IsCredential P credentials _ read_pipeline_credentials-IsCredential) (λ e. tt)
        (λ creds. client_of-Calls P creds.github_token (split2 b'/' task.spec.repo) k h))

pub if-Calls :
    {A : Type 0} (P : Call → Type 0) (b : Bool) (p q : Prog A)
    → Calls P p
    → Calls P q
    → Calls P (if b then p else q)
if-Calls P true p q hp hq = hp
if-Calls P false p q hp hq = hq

pub find_pr_for_task-IsLookup : (task : DevTask) → Calls IsLookup (find_pr_for_task task)
find_pr_for_task-IsLookup task =
    unfold find_pr_for_task in
    (with_client-Calls IsLookup IsCredential→IsLookup task _ λ c.
      if-Calls IsLookup (task.status.pr_number == 0) _ _
        (Calls-attempt IsLookup _ _ _ (tt, λ _. tt) (λ e. tt) (λ prs. tt))
        (Calls-attempt IsLookup _ _ _ (tt, λ _. tt) (λ e. tt) (λ pr. tt)))

pub is_pr_merged_or_closed-IsLookup :
    (task : DevTask) → Calls IsLookup (is_pr_merged_or_closed task)
is_pr_merged_or_closed-IsLookup task =
    unfold is_pr_merged_or_closed in
    (Calls-attempt IsLookup _ _ _ (find_pr_for_task-IsLookup task) (λ e. tt) (λ pr. tt))

list_pages-IsAside :
    (rounds : ℕ) (client : RepoClient) (n : ℕ) (all : List CommitFile) (page : ℕ)
    → Calls IsAside (list_pages rounds client n all page)
unfolding list_pages ◌>>=◌
list_pages-IsAside zero client n all page = tt
list_pages-IsAside (suc rounds) client n all page = (
  tt,
  elim [
    | err e ↦ tt
    | ok (files, zero) ↦ tt
    | ok (files, suc k) ↦ list_pages-IsAside rounds client n (all ++ files) (suc k)
  ],
)

-- The functions that read or write comments, labels, files and the state of a pull request.
module _ (task : DevTask) where
  pub has_recent_clarification_comment-IsTalk : Calls IsTalk (has_recent_clarification_comment task)
  has_recent_clarification_comment-IsTalk =
      unfold has_recent_clarification_comment in
      (with_client-Calls IsTalk IsCredential→IsTalk task _
        λ c. Calls-attempt IsTalk _ _ _ (tt, λ _. tt) (λ e. tt) (λ cs. tt))

  pub human_replied_after_clarification-IsTalk :
      Calls IsTalk (human_replied_after_clarification task)
  human_replied_after_clarification-IsTalk =
      unfold human_replied_after_clarification in
      (with_client-Calls IsTalk IsCredential→IsTalk task _
        λ c. Calls-attempt IsTalk _ _ _ (tt, λ _. tt) (λ e. tt) (λ cs. tt))

  pub ensure_pr_comment_on_issue-IsTalk :
      (url : Text) → Calls IsTalk (ensure_pr_comment_on_issue task url)
  ensure_pr_comment_on_issue-IsTalk [] = unfold ensure_pr_comment_on_issue in tt
  ensure_pr_comment_on_issue-IsTalk (u ∷ url) =
      unfold ensure_pr_comment_on_issue in
      (with_client-Calls IsTalk IsCredential→IsTalk task _ λ c.
        Calls-attempt IsTalk _ _ _ (tt, λ _. tt) (λ e. tt)
          λ cs. if-Calls IsTalk (mentions_pr cs) _ _ tt (tt, λ _. tt))

  pub pr_has_label-IsTalk : (label : Text) → Calls IsTalk (pr_has_label task label)
  pr_has_label-IsTalk label =
      unfold pr_has_label in
      (if-Calls IsTalk (task.status.pr_number == 0) _ _ tt (
        with_client-Calls IsTalk IsCredential→IsTalk task _
          λ c. Calls-attempt IsTalk _ _ _ (tt, λ _. tt) (λ e. tt) (λ pr. tt)))

  pub remove_pr_label-IsTalk : (label : Text) → Calls IsTalk (remove_pr_label task label)
  remove_pr_label-IsTalk label =
      unfold remove_pr_label in
      (if-Calls IsTalk (task.status.pr_number == 0) _ _ tt
        (with_client-Calls IsTalk IsCredential→IsTalk task _ λ c. (tt, λ _. tt)))

  pub reject_pr_for_diff_policy-IsAside :
      (n : ℕ) (vs : List DiffViolation) → Calls IsAside (reject_pr_for_diff_policy task n vs)
  reject_pr_for_diff_policy-IsAside n vs =
      unfold reject_pr_for_diff_policy in
      (with_client-Calls IsAside IsCredential→IsAside task _
        λ c. Calls-attempt IsAside _ _ _ (tt, λ _. tt) (λ e. tt) (λ _. (tt, λ _. tt)))

  pub get_issue_body-IsAside : Calls IsAside (get_issue_body task)
  get_issue_body-IsAside =
      unfold get_issue_body in
      (with_client-Calls IsAside IsCredential→IsAside task _
        λ c. Calls-attempt IsAside _ _ _ (tt, λ _. tt) (λ e. tt) (λ issue. tt))

  pub list_pr_files-IsAside : (host : Host) (n : ℕ) → Calls IsAside (list_pr_files host task n)
  list_pr_files-IsAside host n =
      unfold list_pr_files in
      (with_client-Calls IsAside IsCredential→IsAside task _
        λ c. list_pages-IsAside host.max_pages c n [] 0)

pub find_pod-Calls :
    (P : Call → Type 0) (ns : Text) → ((n p : Text) → P (get_pod n p)) → Calls P (find_pod ns)
unfolding find_pod attempt ◌>>=◌
find_pod-Calls P ns h = (h _ _, λ r. Calls-branch P r _ _ (λ e. (h _ _, λ _. tt)) (λ p. tt))
