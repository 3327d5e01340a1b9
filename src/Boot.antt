-- ===== src/Boot.antt =====
-- operator/cmd/main.go, the manager binary, with SetupWithManager of
-- operator/internal/controller/devtask_controller.go: the flags, the options of the servers, and the
-- steps from the configuration to the running manager.
pub mod Trace
pub mod Servers
pub mod Repos
use agentic_dev_pipeline.Prelude.{Bool, List, [], false, if◌then◌else◌, true, ℕ, ◌∷◌}
use agentic_dev_pipeline.Text.{Text, codes}
use agentic_dev_pipeline.Text.Search.{split}
use agentic_dev_pipeline.Effects.{Result, err, ok}

-- The flags behind `flag.Parse`.
pub record Flags : Type 0 where
  pub metrics_address : Text
  pub probe_address : Text
  pub enable_leader_election : Bool
  pub secure_metrics : Bool
  pub webhook_cert_path : Text
  pub webhook_cert_name : Text
  pub webhook_cert_key : Text
  pub metrics_cert_path : Text
  pub metrics_cert_name : Text
  pub metrics_cert_key : Text
  pub enable_http2 : Bool

abbrev pub default_flags : Flags
default_flags = record {
  metrics_address = codes "0";
  probe_address = codes ":8081";
  enable_leader_election = false;
  secure_metrics = true;
  webhook_cert_path = [];
  webhook_cert_name = codes "tls.crt";
  webhook_cert_key = codes "tls.key";
  metrics_cert_path = [];
  metrics_cert_name = codes "tls.crt";
  metrics_cert_key = codes "tls.key";
  enable_http2 = false;
}

-- `tls.Config`, with the one field that is set.
pub record TlsConfig : Type 0 where
  pub next_protos : List Text

-- A function that changes a configuration in place.
abbrev pub TlsOption : Type 0
TlsOption = TlsConfig → TlsConfig

abbrev pub http1 : List Text
http1 = codes "http/1.1" ∷ []

pub disable_http2 : TlsOption
disable_http2 c = record c { next_protos = http1 }

abbrev pub tls_options : Bool → List TlsOption
tls_options true = []
tls_options false = disable_http2 ∷ []

-- `CertDir`, `CertName` and `KeyName` of a server's options.
pub record Certificate : Type 0 where
  pub directory : Text
  pub name : Text
  pub key : Text

abbrev pub no_certificate : Certificate
no_certificate = record { directory = []; name = []; key = [] }

pub certificate_of : Text → Text → Text → Certificate
certificate_of [] name key = no_certificate
certificate_of (c ∷ path) name key = record { directory = c ∷ path; name = name; key = key }

pub record WebhookOptions : Type 0 where
  pub tls_opts : List TlsOption
  pub certificate : Certificate

-- `has_filter`: the filter provider that authenticates and authorizes is set.
pub record MetricsOptions : Type 0 where
  pub bind_address : Text
  pub secure_serving : Bool
  pub tls_opts : List TlsOption
  pub has_filter : Bool
  pub certificate : Certificate

-- `ctrl.Options`; the webhook server is made of its options. The scheme is left out.
pub record ManagerOptions : Type 0 where
  pub metrics : MetricsOptions
  pub webhook : WebhookOptions
  pub health_probe_bind_address : Text
  pub leader_election : Bool
  pub leader_election_id : Text

pub webhook_options : Flags → WebhookOptions
unfolding certificate_of
webhook_options flags = record {
  tls_opts = tls_options flags.enable_http2;
  certificate =
      certificate_of flags.webhook_cert_path flags.webhook_cert_name flags.webhook_cert_key;
}

pub metrics_options : Flags → MetricsOptions
unfolding certificate_of
metrics_options flags = record {
  bind_address = flags.metrics_address;
  secure_serving = flags.secure_metrics;
  tls_opts = tls_options flags.enable_http2;
  has_filter = if flags.secure_metrics then true else false;
  certificate =
      certificate_of flags.metrics_cert_path flags.metrics_cert_name flags.metrics_cert_key;
}

pub manager_options : Flags → ManagerOptions
unfolding webhook_options metrics_options
manager_options flags = record {
  metrics = metrics_options flags;
  webhook = webhook_options flags;
  health_probe_bind_address = flags.probe_address;
  leader_election = flags.enable_leader_election;
  leader_election_id = codes "2e2007e6.devpipeline.local";
}

-- What `main` calls. `complete_controller` is the builder's `Complete` for a controller of that name
-- over the tasks.
pub data BootCall : Type 0 where
  get_config : BootCall
  new_manager : ManagerOptions → BootCall
  complete_controller add_healthz_check add_readyz_check : Text → BootCall
  setup_signal_handler : BootCall
  start_github_poller : List Text → BootCall
  start_triage_token_refresher : BootCall
  start_manager : BootCall

abbrev pub BootReply : BootCall → Type 0
BootReply setup_signal_handler = Unit
BootReply (start_github_poller repos) = Unit
BootReply start_triage_token_refresher = Unit
BootReply _ = Result Unit

-- The process ends with a status, or calls and goes on by the reply.
pub data Boot : Type 0 where
  exit : ℕ → Boot
  proceed : (c : BootCall) → (BootReply c → Boot) → Boot

-- `if err != nil { os.Exit(1) }`, and `GetConfigOrDie`, which does the same.
abbrev pub or_exit : Boot → Result Unit → Boot
or_exit rest (ok u) = rest
or_exit rest (err e) = exit 1

-- `SetupWithManager`, with what `main` does behind it.
unfoldable pub setup_with_manager : Boot → Boot
setup_with_manager rest = proceed (complete_controller (codes "devtask")) (or_exit rest)

-- From the value of PIPELINE_REPOS on.
pub start_on : Text → Boot
start_on [] = exit 1
start_on (c ∷ r) = proceed setup_signal_handler λ _.
    proceed (start_github_poller (split b',' (c ∷ r)))
      λ _. proceed start_triage_token_refresher λ _. proceed start_manager (or_exit (exit 0))

unfoldable pub main : (Text → Text) → Flags → Boot
unfolding setup_with_manager start_on
main getenv flags = proceed get_config (
    or_exit (
      proceed (new_manager (manager_options flags)) (
        or_exit (
          setup_with_manager (
            proceed (add_healthz_check (codes "healthz")) (
              or_exit (
                proceed (add_readyz_check (codes "readyz"))
                  (or_exit (start_on (getenv (codes "PIPELINE_REPOS")))))))))))
