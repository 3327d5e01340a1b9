-- ===== src/Triage.antt =====
-- operator/internal/controller/triage_token.go: the GitHub token of the triage job's secret.
pub mod Rotation
use agentic_dev_pipeline.Prelude.{List, [], if◌then◌else◌, ◌∷◌}
use agentic_dev_pipeline.Text.{Text, codes, text_eq}
use agentic_dev_pipeline.Kube.{Secret, StringMap}
use agentic_dev_pipeline.Effects.{
  Host, LoopEvent, Prog, Result, attempt, cancelled, fail, get_secret, is_not_found, perform, ret,
  succeed, tick, update_secret, ◌>>=◌,
}
use agentic_dev_pipeline.Egress.{or_default}
use agentic_dev_pipeline.Credentials.{github_app_token}

unfoldable pub triage_namespace : (Text → Text) → Text
triage_namespace getenv =
    or_default (getenv (codes "TRIAGE_NAMESPACE")) (codes "agentic-dev-pipeline-triage")

-- `m[key] = v` of a Go map
pub put : Text → Text → StringMap → StringMap
put key v [] = (key, v) ∷ []
put key v ((k, w) ∷ m) = if text_eq k key then (k, v) ∷ m else (k, w) ∷ put key v m

pub with_github_token : Text → Secret → Secret
unfolding put
with_github_token token secret = record secret {
  values = put (codes "github-token") token secret.values;
}

pub upsert_triage_github_token : Host → Text → Prog (Result Unit)
unfolding with_github_token
upsert_triage_github_token host token =
    attempt (perform (get_secret (triage_namespace host.getenv) (codes "pipeline-creds")))
      (λ e. if is_not_found e then succeed tt else fail e)
      λ secret. perform (update_secret (with_github_token token secret))

-- The closure `refresh`: an error is logged, and the empty token means that there is no App.
abbrev pub refresh_with : Host → Text → Prog Unit
refresh_with host [] = ret tt
refresh_with host (c ∷ token) = upsert_triage_github_token host (c ∷ token) >>= λ _. ret tt

pub refresh : Host → Prog Unit
unfolding upsert_triage_github_token
refresh host = attempt github_app_token (λ e. ret tt) λ token. refresh_with host token

-- The loop of the goroutine of `StartTriageTokenRefresher`, over what its `select` takes.
pub refresh_on_ticks : Host → List LoopEvent → Prog Unit
unfolding refresh
refresh_on_ticks host [] = ret tt
refresh_on_ticks host (cancelled ∷ events) = ret tt
refresh_on_ticks host (tick ∷ events) = refresh host >>= λ _. refresh_on_ticks host events

-- That goroutine, which refreshes once at its start.
pub refresher_goroutine : Host → List LoopEvent → Prog Unit
unfolding refresh_on_ticks
refresher_goroutine host events = refresh host >>= λ _. refresh_on_ticks host events
