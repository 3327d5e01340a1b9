-- ===== src/Credentials.antt =====
-- operator/internal/controller/secrets.go and github_app.go: the pipeline's credentials, with the
-- installation token of the GitHub App where one is configured.
pub mod Lookup
pub mod Locks
pub mod Source
use agentic_dev_pipeline.Prelude.{
  ℕ, zero, suc, Bool, true, false, List, [], ◌∷◌, ◌++◌, Option, none, some, if◌then◌else◌, ℤ, pos,
  negsuc,
}
use agentic_dev_pipeline.Text.{Text, codes, text_eq}
use agentic_dev_pipeline.Text.Decimal.{itoa, parse_int, trim_space}
use agentic_dev_pipeline.Kube.{Secret, StringMap}
use agentic_dev_pipeline.Effects.{
  Error, not_found, message, wrap, is_not_found, Result, ok, err, Prog, ret, perform, ◌>>=◌, ◌>>◌,
  succeed, fail, branch, attempt, ignore_not_found, get_secret, lock_transports, unlock_transports,
  load_transport, store_transport, new_transport, mint_token,
}

unfoldable pub system_namespace : Text
system_namespace = codes "devpipeline-system"

unfoldable pub app_key_secret_name : Text
app_key_secret_name = codes "pipeline-app-key"

pub record PipelineCreds : Type 0 where
  pub github_token : Text
  pub claude_token : Text
  pub claude_auth_mode : Text
  pub git_author_name : Text
  pub git_author_email : Text

-- `m[key]` of a Go map: the empty value for a key that is not there
unfoldable pub value_at : Text → StringMap → Text
value_at key [] = []
value_at key ((k, v) ∷ m) = if text_eq k key then v else value_at key m

-- `fmt.Sprintf("%d/%d", appID, installationID)`
pub transport_key : ℕ → ℕ → Text
transport_key app_id installation_id = itoa app_id ++ (b'/' ∷ itoa installation_id)

-- The end of the critical section of `installationToken`: the lock is given back on every way out.
unfoldable pub store_made : Text → Result ℕ → Prog (Result ℕ)
store_made key (ok tr) = do perform (store_transport key tr); perform unlock_transports; succeed tr
store_made key (err e) = do
  perform unlock_transports
  fail (wrap (codes "init github app transport: ") e)

-- A cached transport, or a new one that is stored.
unfoldable pub transport_for : Text → ℕ → ℕ → Text → Option ℕ → Prog (Result ℕ)
unfolding store_made
transport_for key app_id installation_id pem (some tr) = do perform unlock_transports; succeed tr
transport_for key app_id installation_id pem none = do
  made ← perform (new_transport app_id installation_id pem)
  store_made key made

unfoldable pub installation_token : ℕ → ℕ → Text → Prog (Result Text)
unfolding transport_for
installation_token app_id installation_id pem = do
  let key = transport_key app_id installation_id
  perform lock_transports
  cached ← perform (load_transport key)
  attempt (transport_for key app_id installation_id pem cached) fail λ tr. perform (mint_token tr)

-- The checks of `githubAppToken` on the secret's values; a number that is not positive is refused.
abbrev pub positive : Option ℤ → Option ℕ
positive (some (pos (suc n))) = some (suc n)
positive _ = none

pub parse_id : Text → Option ℕ
unfolding parse_int trim_space
parse_id v = positive (parse_int (trim_space v))

abbrev pub incomplete : Error
incomplete = message (
    app_key_secret_name
    ++ codes " secret present but incomplete (need app-id, installation-id, private-key)")

unfoldable pub checked_token : Option ℕ → Option ℕ → Text → Prog (Result Text)
unfolding installation_token
checked_token (some app) (some inst) (c ∷ pem) = installation_token app inst (c ∷ pem)
checked_token _ _ _ = fail incomplete

-- The empty token stands for an absent secret.
unfoldable pub github_app_token : Prog (Result Text)
unfolding checked_token parse_id value_at
github_app_token =
    attempt (perform (get_secret system_namespace app_key_secret_name))
      (λ e. ret (ignore_not_found [] (err e)))
      λ app_key.
        checked_token (parse_id (value_at (codes "app-id") app_key.values))
          (parse_id (value_at (codes "installation-id") app_key.values))
          (value_at (codes "private-key") app_key.values)

pub creds_of : Secret → PipelineCreds
unfolding value_at
creds_of secret = record {
  github_token = value_at (codes "github-token") secret.values;
  claude_token = value_at (codes "claude-token") secret.values;
  claude_auth_mode = value_at (codes "claude-auth-mode") secret.values;
  git_author_name = value_at (codes "git-author-name") secret.values;
  git_author_email = value_at (codes "git-author-email") secret.values;
}

-- A token that is not empty replaces the one of the secret.
abbrev pub with_token : PipelineCreds → Text → PipelineCreds
with_token creds [] = creds
with_token creds (c ∷ token) = record creds { github_token = c ∷ token }

unfoldable pub read_pipeline_credentials : Prog (Result PipelineCreds)
unfolding github_app_token creds_of
read_pipeline_credentials =
    attempt (perform (get_secret system_namespace (codes "pipeline-creds")))
      (λ e. fail (wrap (codes "read pipeline-creds secret: ") e))
      λ secret. attempt github_app_token fail λ token. succeed (with_token (creds_of secret) token)
