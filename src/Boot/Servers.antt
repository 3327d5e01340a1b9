-- ===== src/Boot/Servers.antt =====
-- How main.go secures its two servers.
use agentic_dev_pipeline.Prelude.{Bool, List, [], false, if◌then◌else◌, refl, true, ◌∷◌, ◌≡◌}
use agentic_dev_pipeline.Text.{Text}
use agentic_dev_pipeline.Boot.{
  Certificate, Flags, TlsConfig, TlsOption, certificate_of, disable_http2, http1, manager_options,
  metrics_options, no_certificate, tls_options, webhook_options,
}

-- The options applied to a configuration one after the other.
abbrev pub apply_options : List TlsOption → TlsConfig → TlsConfig
apply_options [] c = c
apply_options (o ∷ os) c = apply_options os (o c)

-- A server's certificate is set as a whole or not at all, by whether its directory is given.
abbrev pub IsWhole : Certificate → Text → Text → Text → Type 0
IsWhole found [] name key = found ≡ no_certificate
IsWhole found (c ∷ path) name key = found ≡ record { directory = c ∷ path; name = name; key = key }

certificate_of-IsWhole :
    (path name key : Text) → IsWhole (certificate_of path name key) path name key
unfolding certificate_of
certificate_of-IsWhole [] name key = refl
certificate_of-IsWhole (c ∷ path) name key = refl

-- The protocols that are left to a server.
abbrev pub Protocols : Bool → List TlsOption → Type 0
Protocols true os = (c : TlsConfig) → apply_options os c ≡ c
Protocols false os = (c : TlsConfig) → (apply_options os c).next_protos ≡ http1

tls_options-Protocols : (enabled : Bool) → Protocols enabled (tls_options enabled)
unfolding disable_http2
tls_options-Protocols true = λ c. refl
tls_options-Protocols false = λ c. refl

-- For all flags: unless HTTP/2 is enabled, the options of the metrics server and of the webhook server
-- leave any TLS configuration with HTTP/1.1 as its only protocol, and if it is enabled they leave it as
-- it is; the metrics endpoint has the filter that authenticates and authorizes exactly if it is served
-- securely; each certificate is that of its own three flags, or not set where the directory is empty;
-- and leader election is as the flag says.
pub manager_options-secured :
    (flags : Flags)
    → Protocols flags.enable_http2 (manager_options flags).metrics.tls_opts
      × Protocols flags.enable_http2 (manager_options flags).webhook.tls_opts
      × ((manager_options flags).metrics.has_filter
          ≡ (manager_options flags).metrics.secure_serving)
      × IsWhole
          (manager_options flags).metrics.certificate
          flags.metrics_cert_path
          flags.metrics_cert_name
          flags.metrics_cert_key
      × IsWhole
          (manager_options flags).webhook.certificate
          flags.webhook_cert_path
          flags.webhook_cert_name
          flags.webhook_cert_key
      × ((manager_options flags).leader_election ≡ flags.enable_leader_election)
unfolding manager_options metrics_options webhook_options
manager_options-secured flags = (
  tls_options-Protocols flags.enable_http2,
  tls_options-Protocols flags.enable_http2,
  if-same flags.secure_metrics,
  certificate_of-IsWhole _ _ _,
  certificate_of-IsWhole _ _ _,
  refl,
)
  where
    if-same : (b : Bool) → (if b then true else false) ≡ b
    if-same true = refl
    if-same false = refl
