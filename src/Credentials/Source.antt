-- ===== src/Credentials/Source.antt =====
-- Which credentials `readPipelineCredentials` of secrets.go returns, over all replies.
use agentic_dev_pipeline.Prelude.{
  Bool, Option, [], false, inl, inr, none, refl, some, true, ℕ, ◌++◌, ◌∷◌, ◌≡◌, ◌≢◌, ◌⊎◌,
}
use agentic_dev_pipeline.Text.{Text, codes, text_eq}
use agentic_dev_pipeline.Text.Decimal.{itoa}
use agentic_dev_pipeline.Kube.{Secret}
use agentic_dev_pipeline.Effects.{
  Call, Error, Reply, Result, attempt, err, get_secret, is_not_found, load_transport, mint_token,
  new_transport, ok, perform, store_transport, ◌>>=◌, ◌>>◌,
}
use agentic_dev_pipeline.Effects.Kinds.{CredentialKind, kind}
use agentic_dev_pipeline.Effects.Monitor.{Monitor, Safe, Safe-bind-branch}
use agentic_dev_pipeline.Credentials.{
  PipelineCreds, app_key_secret_name, checked_token, creds_of, github_app_token, installation_token,
  parse_id, read_pipeline_credentials, store_made, system_namespace, transport_for, transport_key,
  with_token,
}
use agentic_dev_pipeline.Credentials.Lookup.{HasValue, value_at-HasValue}

-- What was learnt: the secret `pipeline-creds`, the App's secret, whether that was found to be absent,
-- the transport that was found in the cache or else made, and the token minted.
pub record Learnt : Type 0 where
  pub base : Option Secret
  pub app : Option Secret
  pub no_app : Bool
  pub transport : Option ℕ
  pub minted : Option Text

abbrev pub nothing_learnt : Learnt
nothing_learnt = record { base = none; app = none; no_app = false; transport = none; minted = none }

abbrev pub secret_of : Result Secret → Option Secret
secret_of (ok secret) = some secret
secret_of (err e) = none

abbrev pub is_absent : Result Secret → Bool
is_absent (ok secret) = false
is_absent (err e) = is_not_found e

-- The two secrets are told apart by their names.
abbrev pub learn_secret : Bool → Result Secret → Learnt → Learnt
learn_secret true r s = record s { base = secret_of r }
learn_secret false r s = record s { app = secret_of r; no_app = is_absent r }

abbrev pub next_learnt : Learnt → (c : Call) → Reply c → Learnt
next_learnt s (get_secret ns name) r = learn_secret (text_eq name (codes "pipeline-creds")) r s
next_learnt s (load_transport key) found = record s { transport = found }
next_learnt s (new_transport app_id installation_id pem) (ok new_one) = record s {
  transport = some new_one;
}
next_learnt s (new_transport app_id installation_id pem) (err e) = s
next_learnt s (mint_token transport) (ok token) = record s { minted = some token }
next_learnt s (mint_token transport) (err e) = s
next_learnt s _ r = s

-- The number that the value of the key spells, none if it is not a positive one.
abbrev pub NumberAt : Text → Secret → Option ℕ → Type 0
NumberAt key secret n = (v : Text) × HasValue key secret.values v × (parse_id v ≡ n)

-- The App, the installation and the private key are those of the App's secret that was read.
pub record OfApp (app : Option Secret) (app_id installation_id : ℕ) (pem : Text) : Type 0 where
  pub key : Secret
  pub was_read : app ≡ some key
  pub app_number : NumberAt (codes "app-id") key (some app_id)
  pub installation_number : NumberAt (codes "installation-id") key (some installation_id)
  pub private_key : HasValue (codes "private-key") key.values pem

-- Only the two secrets of the operator's own namespace are read, and the transport is made, or looked
-- up under the key, of the App's secret; that transport mints the token.
abbrev pub SourceGuard : Learnt → Call → Type 0
SourceGuard s (get_secret ns name) =
    (ns ≡ codes "devpipeline-system")
    × ((name ≡ codes "pipeline-creds") ⊎ (name ≡ codes "pipeline-app-key"))
SourceGuard s (load_transport key) =
    (app_id : ℕ) × (installation_id : ℕ) × (pem : Text) × OfApp s.app app_id installation_id pem
    × (key ≡ itoa app_id ++ (b'/' ∷ itoa installation_id))
SourceGuard s (new_transport app_id installation_id pem) = OfApp s.app app_id installation_id pem
SourceGuard s (store_transport key new_one) = s.transport ≡ some new_one
SourceGuard s (mint_token transport) = s.transport ≡ some transport
SourceGuard s c = CredentialKind (kind c)

abbrev pub source : Monitor Learnt
source = record { guard = SourceGuard; next = next_learnt }

-- The token that comes with an answer: none without an App, else the minted one.
abbrev pub TokenFrom : Learnt → Text → Type 0
TokenFrom s token = ((s.no_app ≡ true) × (token ≡ [])) ⊎ (s.minted ≡ some token)

-- The GitHub token of the credentials is the token that came, and the secret's own where that is empty.
abbrev pub GithubToken : Learnt → Secret → Text → Type 0
GithubToken s secret used =
    (token : Text) × TokenFrom s token
    × (((token ≢ []) × (used ≡ token))
        ⊎ ((token ≡ []) × HasValue (codes "github-token") secret.values used))

pub record SourcedFrom (s : Learnt) (creds : PipelineCreds) : Type 0 where
  pub secret : Secret
  pub was_read : s.base ≡ some secret
  pub github : GithubToken s secret creds.github_token
  pub claude : HasValue (codes "claude-token") secret.values creds.claude_token
  pub mode : HasValue (codes "claude-auth-mode") secret.values creds.claude_auth_mode
  pub author : HasValue (codes "git-author-name") secret.values creds.git_author_name
  pub email : HasValue (codes "git-author-email") secret.values creds.git_author_email

abbrev pub Sourced : Learnt → Result PipelineCreds → Type 0
Sourced s (err e) = Unit
Sourced s (ok creds) = SourcedFrom s creds

with_token-Sourced :
    (s : Learnt) (secret : Secret) (token : Text)
    → s.base ≡ some secret
    → TokenFrom s token
    → SourcedFrom s (with_token (creds_of secret) token)
unfolding creds_of
with_token-Sourced s secret [] b from = record {
  secret = secret;
  was_read = b;
  github = ([], from, inr (refl, value_at-HasValue _ secret.values));
  claude = value_at-HasValue _ secret.values;
  mode = value_at-HasValue _ secret.values;
  author = value_at-HasValue _ secret.values;
  email = value_at-HasValue _ secret.values;
}
with_token-Sourced s secret (c ∷ token) b from = record {
  secret = secret;
  was_read = b;
  github = (c ∷ token, from, inl (λ e. cc, refl));
  claude = value_at-HasValue _ secret.values;
  mode = value_at-HasValue _ secret.values;
  author = value_at-HasValue _ secret.values;
  email = value_at-HasValue _ secret.values;
}

module _ (secret key : Secret) where
  abbrev at_hand : Option ℕ → Learnt
  at_hand found = record {
    base = some secret;
    app = some key;
    no_app = false;
    transport = found;
    minted = none;
  }

  abbrev Token : Learnt → Result Text → Type 0
  Token s (err e) = Unit
  Token s (ok token) = (s.base ≡ some secret) × TokenFrom s token

  abbrev Ready : Learnt → Result ℕ → Type 0
  Ready s (err e) = Unit
  Ready s (ok transport) = s ≡ at_hand (some transport)

  transport_for-Ready :
      (name : Text) (app inst : ℕ) (pem : Text) (found : Option ℕ)
      → OfApp (some key) app inst pem
      → Safe source Ready (at_hand found) (transport_for name app inst pem found)
  unfolding transport_for store_made ◌>>=◌ ◌>>◌
  transport_for-Ready name app inst pem (some transport) own = (tt, λ r. refl)
  transport_for-Ready name app inst pem none own =
      (own, elim [ ok transport ↦ (refl, λ r. (tt, λ u. refl)) | err e ↦ (tt, λ r. tt) ])

  mint-Token :
      (transport : ℕ) (s : Learnt)
      → s ≡ at_hand (some transport)
      → Safe source Token s (perform (mint_token transport))
  mint-Token transport s e = rw e (refl, elim [ ok token ↦ (refl, inr refl) | err x ↦ tt ])

  installation_token-Token :
      (app inst : ℕ) (pem : Text)
      → OfApp (some key) app inst pem
      → Safe source Token (at_hand none) (installation_token app inst pem)
  unfolding installation_token transport_key ◌>>=◌ ◌>>◌
  installation_token-Token app inst pem own = (
    tt,
    λ _. (
      (app, inst, pem, own, refl),
      λ found.
          Safe-bind-branch source Ready Token (at_hand found) _ _ _
            (transport_for-Ready _ app inst pem found own) (λ t e h. tt)
            (λ t transport ready. mint-Token transport t ready),
    ),
  )

  checked_token-Token :
      (a i : Option ℕ) (pem : Text)
      → NumberAt (codes "app-id") key a
      → NumberAt (codes "installation-id") key i
      → HasValue (codes "private-key") key.values pem
      → Safe source Token (at_hand none) (checked_token a i pem)
  unfolding checked_token
  checked_token-Token (some a) (some i) (c ∷ pem) na ni own =
      installation_token-Token a i (c ∷ pem) (record {
        key = key;
        was_read = refl;
        app_number = na;
        installation_number = ni;
        private_key = own;
      })
  checked_token-Token (some a) (some i) [] na ni own = tt
  checked_token-Token _ _ _ na ni own = tt

module _ (secret : Secret) where
  -- An error other than an absent secret is passed on.
  absent_app :
      (e : Error) (b : Bool)
      → is_not_found e ≡ b
      → Token secret secret
          (record {
            base = some secret;
            app = none;
            no_app = is_not_found e;
            transport = none;
            minted = none;
          })
          (elim b [ true ↦ ok [] | false ↦ err e ])
  absent_app e true h = (refl, inl (h, refl))
  absent_app e false h = tt

  github_app_token-Token :
      Safe source
        (Token secret secret)
        (record { base = some secret; app = none; no_app = false; transport = none; minted = none })
        github_app_token
  unfolding github_app_token attempt ◌>>=◌ system_namespace app_key_secret_name text_eq codes
  github_app_token-Token = (
    (refl, inr refl),
    elim [
      | ok key ↦
          checked_token-Token secret key _ _ _ (_, value_at-HasValue _ key.values, refl)
            (_, value_at-HasValue _ key.values, refl) (value_at-HasValue _ key.values)
      | err e ↦ absent_app e (is_not_found e) refl
    ],
  )

-- Whatever the services reply, credentials that are read hold the values of the secret `pipeline-creds`
-- of the operator's namespace under their keys, save that the GitHub token is the one minted for the
-- App, where that is not empty; the secret's own token is used only where the App's secret was found
-- to be absent or the minted token is empty. The transport that mints is made of the two numbers
-- and the private key of the App's secret, or looked up under these numbers, and no other secret is
-- read: an App's secret that cannot be read or used is an error.
pub read_pipeline_credentials-Sourced : Safe source Sourced nothing_learnt read_pipeline_credentials
unfolding read_pipeline_credentials attempt ◌>>=◌ system_namespace text_eq codes
read_pipeline_credentials-Sourced = (
  (refl, inl refl),
  elim [
    | err e ↦ tt
    | ok secret ↦
        Safe-bind-branch source (Token secret secret) Sourced _ github_app_token _ _
          (github_app_token-Token secret) (λ t e h. tt)
          (λ t token (b, from). with_token-Sourced t secret token b from)
  ],
)
