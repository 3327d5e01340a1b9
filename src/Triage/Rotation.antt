-- ===== src/Triage/Rotation.antt =====
-- What triage_token.go changes: one key of one secret.
use agentic_dev_pipeline.Prelude.{
  Bool, List, Option, [], arith, false, if◌then◌else◌, inl, inr, none, refl, some, true, ℕ, ◌∷◌,
  ◌≡◌, ◌≢◌, ◌⊎◌,
}
use agentic_dev_pipeline.Text.{Text, codes, text_eq, text_eq_iff}
use agentic_dev_pipeline.Kube.{Secret, StringMap}
use agentic_dev_pipeline.Effects.{
  Call, Error, Host, LoopEvent, Reply, Result, attempt, cancelled, err, fail, get_secret,
  is_not_found, mint_token, ok, ret, succeed, tick, update_secret, ◌>>=◌, ◌>>◌,
}
use agentic_dev_pipeline.Effects.Kinds.{CredentialKind, kind}
use agentic_dev_pipeline.Effects.Monitor.{Monitor, Safe, Safe-bind, Safe-bind-branch, Safe-then}
use agentic_dev_pipeline.Credentials.{
  app_key_secret_name, checked_token, github_app_token, installation_token, store_made,
  system_namespace, transport_for, value_at,
}
use agentic_dev_pipeline.Triage.{
  put, refresh, refresh_on_ticks, refresh_with, refresher_goroutine, triage_namespace,
  upsert_triage_github_token, with_github_token,
}

value_at-put :
    (key wanted v : Text) (m : StringMap)
    → value_at wanted (put key v m) ≡ (if text_eq key wanted then v else value_at wanted m)
unfolding value_at put
value_at-put key wanted v [] = refl
value_at-put key wanted v ((k, w) ∷ m) = ground (
  arith,
  text_eq_iff k key,
  text_eq_iff key wanted,
  text_eq_iff k wanted,
  value_at-put key wanted v m,
)

-- Writing the token leaves the name and the namespace of the secret and every other key, the Claude
-- token and the mode among them, as they were.
pub with_github_token-value_at :
    (token : Text) (secret : Secret) (key : Text)
    → ((with_github_token token secret).name ≡ secret.name)
      × ((with_github_token token secret).namespace ≡ secret.namespace)
      × (value_at key (with_github_token token secret).values
          ≡ (if text_eq (codes "github-token") key then token else value_at key secret.values))
unfolding with_github_token
with_github_token-value_at token secret key =
    (refl, refl, value_at-put (codes "github-token") key token secret.values)

-- What a refresh has learnt: the token minted, and the secret of the triage job, which is the only one
-- that is read by the name `pipeline-creds`. Any other secret that is read, that is the App's key, is
-- where a refresh begins, and all that was learnt before is forgotten.
pub record Fresh : Type 0 where
  pub minted : Option Text
  pub current : Option Secret

abbrev pub nothing_fresh : Fresh
nothing_fresh = record { minted = none; current = none }

abbrev pub note_secret : Bool → Result Secret → Fresh → Fresh
note_secret true (ok secret) s = record s { current = some secret }
note_secret true (err e) s = record s { current = none }
note_secret false r s = nothing_fresh

abbrev pub next_fresh : Fresh → (c : Call) → Reply c → Fresh
next_fresh s (get_secret ns name) r = note_secret (text_eq name (codes "pipeline-creds")) r s
next_fresh s (mint_token transport) (ok token) = record s { minted = some token }
next_fresh s (mint_token transport) (err e) = s
next_fresh s _ r = s

-- The one write: the secret that was read, with a token that was minted and is not empty.
abbrev pub RotationGuard : Host → Fresh → Call → Type 0
RotationGuard host s (update_secret new) =
    (old : Secret) × (token : Text) × (s.current ≡ some old)
    × (s.minted ≡ some token)
    × (token ≢ [])
    × (new ≡ with_github_token token old)
RotationGuard host s (get_secret ns name) =
    ((ns ≡ codes "devpipeline-system") × (name ≡ codes "pipeline-app-key"))
    ⊎ ((ns ≡ triage_namespace host.getenv) × (name ≡ codes "pipeline-creds"))
RotationGuard host s c = CredentialKind (kind c)

abbrev pub rotation : Host → Monitor Fresh
rotation host = record { guard = RotationGuard host; next = next_fresh }

module _ (host : Host) where
  -- A token that is not empty was minted.
  abbrev Minted : Fresh → Result Text → Type 0
  Minted s (err e) = Unit
  Minted s (ok []) = Unit
  Minted s (ok (c ∷ token)) = s.minted ≡ some (c ∷ token)

  transport_kept :
      (key : Text) (app inst : ℕ) (pem : Text) (s : Fresh) (found : Option ℕ)
      → Safe (rotation host) (λ t a. t ≡ s) s (transport_for key app inst pem found)
  unfolding transport_for store_made ◌>>=◌ ◌>>◌
  transport_kept key app inst pem s (some transport) = (tt, λ r. refl)
  transport_kept key app inst pem s none =
      (tt, elim [ ok transport ↦ (tt, λ r. (tt, λ u. refl)) | err e ↦ (tt, λ r. refl) ])

  minted_reply :
      (s : Fresh) (transport : ℕ) (r : Result Text)
      → Minted (next_fresh s (mint_token transport) r) r
  minted_reply s transport (err e) = tt
  minted_reply s transport (ok []) = tt
  minted_reply s transport (ok (c ∷ token)) = refl

  installation_token-Minted :
      (app inst : ℕ) (pem : Text) (s : Fresh)
      → Safe (rotation host) Minted s (installation_token app inst pem)
  unfolding installation_token ◌>>=◌ ◌>>◌
  installation_token-Minted app inst pem s = (
    tt,
    λ _. (
      tt,
      λ found.
          Safe-then (rotation host) Minted s _ _ _ (transport_kept _ app inst pem s found) (λ e. tt)
            λ transport. (tt, minted_reply s transport),
    ),
  )

  checked_token-Minted :
      (a i : Option ℕ) (pem : Text) (s : Fresh)
      → Safe (rotation host) Minted s (checked_token a i pem)
  unfolding checked_token
  checked_token-Minted (some a) (some i) (c ∷ pem) s = installation_token-Minted a i (c ∷ pem) s
  checked_token-Minted (some a) (some i) [] s = tt
  checked_token-Minted _ _ _ s = tt

  no_app : (s : Fresh) (e : Error) (b : Bool) → Minted s (elim b [ true ↦ ok [] | false ↦ err e ])
  no_app s e true = tt
  no_app s e false = tt

  github_app_token-Minted : (s : Fresh) → Safe (rotation host) Minted s github_app_token
  unfolding github_app_token attempt ◌>>=◌ system_namespace app_key_secret_name text_eq codes
  github_app_token-Minted s = (
    inl (refl, refl),
    elim [
      | ok key ↦ checked_token-Minted _ _ _ _
      | err e ↦ no_app nothing_fresh e (is_not_found e)
    ],
  )

  nothing_written :
      (s : Fresh) (e : Error) (b : Bool)
      → Safe
          (rotation host)
          (λ t a. Unit)
          s
          ((if b then succeed tt else fail {A = Unit {0}} e) >>= λ _. ret tt)
  unfolding ◌>>=◌
  nothing_written s e true = tt
  nothing_written s e false = tt

  write_token :
      (c : ℕ) (token : Text) (s : Fresh)
      → s.minted ≡ some (c ∷ token)
      → Safe (rotation host) (λ t a. Unit) s (refresh_with host (c ∷ token))
  unfolding upsert_triage_github_token attempt ◌>>=◌ text_eq codes
  write_token c token s h = (
    inr (refl, refl),
    elim [
      | ok secret ↦ ((secret, c ∷ token, refl, h, (λ e. cc), refl), λ r. tt)
      | err e ↦ nothing_written _ e (is_not_found e)
    ],
  )

refresh-rotates : (host : Host) (s : Fresh) → Safe (rotation host) (λ s a. Unit) s (refresh host)
unfolding refresh
refresh-rotates host s =
    Safe-bind-branch (rotation host) (Minted host) (λ s a. Unit) s github_app_token _ _
      (github_app_token-Minted host s) (λ t e h. tt) (go host)
  where
    go :
        (host : Host) (s : Fresh) (token : Text)
        → Minted host s (ok token)
        → Safe (rotation host) (λ s a. Unit) s (refresh_with host token)
    go host s [] h = tt
    go host s (c ∷ token) h = write_token host c token s h

ticks-rotate :
    (host : Host) (events : List LoopEvent) (s : Fresh)
    → Safe (rotation host) (λ s a. Unit) s (refresh_on_ticks host events)
unfolding refresh_on_ticks
ticks-rotate host [] s = tt
ticks-rotate host (cancelled ∷ events) s = tt
ticks-rotate host (tick ∷ events) s =
    Safe-bind (rotation host) (λ s a. Unit) (λ s a. Unit) s (refresh host) _
      (refresh-rotates host s) λ t r u. ticks-rotate host events t

-- Whatever the services reply, and in whatever order ticks come until the refresher is cancelled, its
-- goroutine writes nothing but the triage job's secret, as it was read in the triage namespace since the
-- App's key was last read, with a token that was minted for the App since then and is not empty in
-- place of the old one: without an App, or without that secret, it writes nothing.
pub refresher-rotates :
    (host : Host) (events : List LoopEvent) (s : Fresh)
    → Safe (rotation host) (λ s a. Unit) s (refresher_goroutine host events)
unfolding refresher_goroutine
refresher-rotates host events s =
    Safe-bind (rotation host) (λ s a. Unit) (λ s a. Unit) s (refresh host) _
      (refresh-rotates host s) λ t r u. ticks-rotate host events t
