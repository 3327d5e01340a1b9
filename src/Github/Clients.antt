-- ===== src/Github/Clients.antt =====
-- The start that the functions of github_poller.go share, under a monitor that lets credentials be
-- read.
use agentic_dev_pipeline.Prelude.{Option, none, refl, some, subst, ◌++◌, ◌∷◌, ◌≡◌}
use agentic_dev_pipeline.Text.{Text}
use agentic_dev_pipeline.Text.Search.{split2}
use agentic_dev_pipeline.Text.Separators.{Joined, split2-Joined}
use agentic_dev_pipeline.Api.{DevTask}
use agentic_dev_pipeline.Effects.{Call, Error, Prog, RepoClient, Result, err, fail}
use agentic_dev_pipeline.Effects.Kinds.{IsCredential}
use agentic_dev_pipeline.Effects.Monitor.{Calls-mono, Monitor, Neutral, Safe, Safe-attempt}
use agentic_dev_pipeline.Credentials.{read_pipeline_credentials}
use agentic_dev_pipeline.Github.{client_of, with_client}
use agentic_dev_pipeline.Github.Reads.{read_pipeline_credentials-IsCredential}

-- The client addresses the repository of the task.
abbrev pub InRepo : DevTask → RepoClient → Type 0
InRepo task c = task.spec.repo ≡ c.owner ++ (b'/' ∷ c.name)

module _ {S A : Type 0} (m : Monitor S) (Q : S → Result A → Type 0) (s : S)
    (reads : (c : Call) → IsCredential c → Neutral m s c) (task : DevTask) where
  client_of-Safe :
      (token : Text) (parts : Text × Option Text) (k : RepoClient → Prog (Result A))
      → split2 b'/' task.spec.repo ≡ parts
      → ((c : RepoClient) → InRepo task c → Safe m Q s (k c))
      → Safe m Q s (client_of token parts k)
  client_of-Safe token (owner, none) k e h = tt
  client_of-Safe token (owner, some name) k e h =
      h _ (subst (Joined b'/' task.spec.repo) e (split2-Joined b'/' task.spec.repo))

  pub with_client-Safe :
      (k : RepoClient → Prog (Result A))
      → ((e : Error) → Q s (err e))
      → ((c : RepoClient) → InRepo task c → Safe m Q s (k c))
      → Safe m Q s (with_client task k)
  unfolding with_client
  with_client-Safe k g h =
      Safe-attempt m Q s read_pipeline_credentials fail _
        (Calls-mono IsCredential (Neutral m s) reads read_pipeline_credentials
          read_pipeline_credentials-IsCredential)
        g (λ creds. client_of-Safe creds.github_token (split2 b'/' task.spec.repo) k refl h)
