-- ===== src/Samples/Startup.antt =====
-- The start of the manager binary at concrete flags and environments.
use agentic_dev_pipeline.Prelude.{All, Bool, [], arith, false, if◌then◌else◌, refl, true, ◌∷◌, ◌≡◌}
use agentic_dev_pipeline.Text.{Text, codes, text_eq}
use agentic_dev_pipeline.Text.Separators.{Lacks}
use agentic_dev_pipeline.Effects.{err, ok, other}
use agentic_dev_pipeline.Boot.{
  BootCall, BootReply, add_healthz_check, add_readyz_check, complete_controller, default_flags,
  get_config, main, manager_options, new_manager, no_certificate, setup_signal_handler,
  setup_with_manager, start_github_poller, start_manager, start_triage_token_refresher,
}
use agentic_dev_pipeline.Boot.Repos.{join}
use agentic_dev_pipeline.Boot.Servers.{Protocols, manager_options-secured}
use agentic_dev_pipeline.Boot.Trace.{main-trace, trace}

abbrev two_repos : Text
two_repos = codes "o/r,o/s"

abbrev repos_env : Text → Text
repos_env name = if text_eq name (codes "PIPELINE_REPOS") then two_repos else []

-- Every call succeeds but the readiness check, or every call does.
abbrev replies : Bool → (c : BootCall) → BootReply c
replies ready get_config = ok tt
replies ready (new_manager o) = ok tt
replies ready (complete_controller t) = ok tt
replies ready (add_healthz_check t) = ok tt
replies ready (add_readyz_check t) = if ready then ok tt else err other
replies ready setup_signal_handler = tt
replies ready (start_github_poller repos) = tt
replies ready start_triage_token_refresher = tt
replies ready start_manager = ok tt

not_ready : trace (replies false) (main repos_env default_flags) ≡ (
  get_config
      ∷ new_manager (manager_options default_flags)
      ∷ complete_controller (codes "devtask")
      ∷ add_healthz_check (codes "healthz")
      ∷ add_readyz_check (codes "readyz")
      ∷ [],
  1,
)
unfolding trace main setup_with_manager
not_ready = refl

no_commas : All (Lacks b',') (codes "o/r" ∷ codes "o/s" ∷ [])
unfolding codes
no_commas = (
  (
    λ e. absurd (omega (arith, e)),
    (λ e. absurd (omega (arith, e)), (λ e. absurd (omega (arith, e)), tt)),
  ),
  (
    (
      λ e. absurd (omega (arith, e)),
      (λ e. absurd (omega (arith, e)), (λ e. absurd (omega (arith, e)), tt)),
    ),
    tt,
  ),
)

main-trace_example : trace (replies true) (main repos_env default_flags) ≡ (
  get_config
      ∷ new_manager (manager_options default_flags)
      ∷ complete_controller (codes "devtask")
      ∷ add_healthz_check (codes "healthz")
      ∷ add_readyz_check (codes "readyz")
      ∷ setup_signal_handler
      ∷ start_github_poller (codes "o/r" ∷ codes "o/s" ∷ [])
      ∷ start_triage_token_refresher
      ∷ start_manager
      ∷ [],
  0,
)
unfolding text_eq codes join
main-trace_example =
    main-trace (replies true) repos_env default_flags (codes "o/r" ∷ codes "o/s" ∷ [])
      ((λ e. cc), no_commas, refl)

manager_options-secured_example :
    Protocols false (manager_options default_flags).metrics.tls_opts
    × Protocols false (manager_options default_flags).webhook.tls_opts
    × ((manager_options default_flags).metrics.has_filter
        ≡ (manager_options default_flags).metrics.secure_serving)
    × ((manager_options default_flags).metrics.certificate ≡ no_certificate)
    × ((manager_options default_flags).webhook.certificate ≡ no_certificate)
    × ((manager_options default_flags).leader_election ≡ false)
manager_options-secured_example = manager_options-secured default_flags
