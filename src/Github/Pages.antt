-- ===== src/Github/Pages.antt =====
-- The paging of `listPRFiles` of github_poller.go against services that answer each page in one way.
use agentic_dev_pipeline.Prelude.{
  List, [], ap, append_assoc, arith, some, suc, zero, ℕ, ◌++◌, ◌∙◌, ◌≡◌, ◌≤◌,
}
use agentic_dev_pipeline.Text.{Text}
use agentic_dev_pipeline.Text.Search.{split2}
use agentic_dev_pipeline.Api.{DevTask}
use agentic_dev_pipeline.Effects.{Host, RepoClient, Result, list_files, ok, ◌>>=◌}
use agentic_dev_pipeline.Effects.Answer.{Services, answer, answer-attempt, returned}
use agentic_dev_pipeline.Diff.Evaluate.{CommitFile}
use agentic_dev_pipeline.Credentials.{PipelineCreds, read_pipeline_credentials}
use agentic_dev_pipeline.Github.{client_of, list_pages, list_pr_files, with_client}

-- A listing that ends: from the page on, in that many rounds, it yields those files.
pub data Listing (pages : ℕ → Result (List CommitFile × ℕ)) : ℕ → ℕ → List CommitFile → Type 0 where
  last :
      {page : ℕ} {files : List CommitFile} → pages page ≡ ok (files, 0) → Listing pages page 1 files
  more :
      {page next rounds : ℕ} {files rest : List CommitFile}
      → pages page ≡ ok (files, suc next)
      → Listing pages (suc next) rounds rest
      → Listing pages page (suc rounds) (files ++ rest)

list_pages-Listing :
    (services : Services) (client : RepoClient) (n page rounds bound : ℕ)
    (all files : List CommitFile)
    → Listing (λ p. services (list_files client n p)) page rounds files
    → rounds ≤ bound
    → answer services (list_pages bound client n all page) ≡ returned (ok (all ++ files))
unfolding answer list_pages ◌>>=◌
list_pages-Listing services client n page _ zero all files (last e) h = absurd (omega arith)
list_pages-Listing services client n page _ (suc bound) all files (last e) h = rw e
list_pages-Listing services client n page _ zero all _ (more e l) h = absurd (omega arith)
list_pages-Listing services client n page _ (suc bound) all _
      (more {next} {rounds} {files} {rest} e l) h =
    rw e (
      list_pages-Listing services client n (suc next) rounds bound (all ++ files) rest l
        (omega arith)
      ∙ ap (λ fs. returned (ok fs)) (append_assoc all files rest))

-- Where the credentials are read and the repository has a slash, a listing of the files of a pull
-- request that ends within the bound of the model is returned whole, page after page in order.
pub list_pr_files-Listing :
    (services : Services) (host : Host) (task : DevTask) (n rounds : ℕ) (creds : PipelineCreds)
    (owner name : Text) (files : List CommitFile)
    → answer services read_pipeline_credentials ≡ returned (ok creds)
    → split2 b'/' task.spec.repo ≡ (owner, some name)
    → Listing
        (λ p.
          services
            (list_files (record { token = creds.github_token; owner = owner; name = name }) n p))
        0
        rounds
        files
    → rounds ≤ host.max_pages
    → answer services (list_pr_files host task n) ≡ returned (ok files)
unfolding list_pr_files with_client
list_pr_files-Listing services host task n rounds creds owner name files read slash l h =
    answer-attempt services read_pipeline_credentials _ _ creds read
    ∙ ap
        (λ parts.
          answer services
            (client_of creds.github_token parts (λ c. list_pages host.max_pages c n [] 0)))
        slash
    ∙ list_pages-Listing services _ n 0 rounds host.max_pages [] files l h
