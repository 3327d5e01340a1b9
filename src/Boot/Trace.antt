-- ===== src/Boot/Trace.antt =====
-- The calls of main.go in their order, with every failure.
use agentic_dev_pipeline.Prelude.{
  Bool, List, [], ap, false, if◌then◌else◌, refl, subst, true, ℕ, ◌||◌, ◌∷◌, ◌≡◌,
}
use agentic_dev_pipeline.Text.{Text, codes}
use agentic_dev_pipeline.Text.Search.{split}
use agentic_dev_pipeline.Effects.{Result, err, ok}
use agentic_dev_pipeline.Boot.{
  Boot, BootCall, BootReply, Flags, ManagerOptions, add_healthz_check, add_readyz_check,
  complete_controller, exit, get_config, main, manager_options, new_manager, or_exit, proceed,
  setup_signal_handler, setup_with_manager, start_github_poller, start_manager, start_on,
  start_triage_token_refresher,
}
use agentic_dev_pipeline.Boot.Repos.{IsSplit, split_iff}

-- The calls that a process makes, and its exit status, against services that answer each call.
unfoldable pub trace : ((c : BootCall) → BootReply c) → Boot → List BootCall × ℕ
trace answers (exit n) = ([], n)
trace answers (proceed c k) = let (cs, n) = trace answers (k (answers c)) in (c ∷ cs, n)

abbrev is_err : Result Unit → Bool
is_err (ok u) = false
is_err (err e) = true

abbrev pub fails : (c : BootCall) → BootReply c → Bool
fails setup_signal_handler r = false
fails (start_github_poller repos) r = false
fails start_triage_token_refresher r = false
fails get_config r = is_err r
fails (new_manager o) r = is_err r
fails (complete_controller t) r = is_err r
fails (add_healthz_check t) r = is_err r
fails (add_readyz_check t) r = is_err r
fails start_manager r = is_err r

module _ (answers : (c : BootCall) → BootReply c) where
  -- The calls up to the first that fails, that one included.
  abbrev pub until_failure : List BootCall → List BootCall
  until_failure [] = []
  until_failure (c ∷ cs) = c ∷ (if fails c (answers c) then [] else until_failure cs)

  abbrev pub any_fails : List BootCall → Bool
  any_fails [] = false
  any_fails (c ∷ cs) = fails c (answers c) || any_fails cs

-- What is started once the manager is set up, by the value of PIPELINE_REPOS and its repositories.
abbrev pub late_stages : Text → List Text → List BootCall
late_stages [] repos = []
late_stages (c ∷ r) repos =
    setup_signal_handler
    ∷ start_github_poller repos
    ∷ start_triage_token_refresher
    ∷ start_manager
    ∷ []

-- The list from the readiness check on, from the health check on, and so forth.
abbrev from_readyz : List BootCall → List BootCall
from_readyz late = add_readyz_check (codes "readyz") ∷ late

abbrev from_healthz : List BootCall → List BootCall
from_healthz late = add_healthz_check (codes "healthz") ∷ from_readyz late

abbrev from_controller : List BootCall → List BootCall
from_controller late = complete_controller (codes "devtask") ∷ from_healthz late

abbrev pub stages : Flags → Text → List Text → List BootCall
stages flags value repos =
    get_config ∷ new_manager (manager_options flags) ∷ from_controller (late_stages value repos)

abbrev no_repos : Text → Bool
no_repos [] = true
no_repos (c ∷ r) = false

abbrev pub exit_status : Bool → ℕ
exit_status true = 1
exit_status false = 0

module _ (answers : (c : BootCall) → BootReply c) where
  -- The process makes those calls up to the first failure, and its status is that of any failure.
  abbrev Follows : Bool → List BootCall → Boot → Type 0
  Follows lacking cs p =
      trace answers p ≡ (until_failure answers cs, exit_status (any_fails answers cs || lacking))

  -- What follows a call that may fail.
  checked :
      (rest : Boot) (cs : List BootCall) (lacking : Bool) (r : Result Unit)
      → Follows lacking cs rest
      → trace answers (or_exit rest r) ≡ (
        if is_err r then [] else until_failure answers cs,
        exit_status ((is_err r || any_fails answers cs) || lacking),
      )
  unfolding trace
  checked rest cs lacking (ok u) h = h
  checked rest cs lacking (err e) h = refl

  abbrev in_front : BootCall → List BootCall × ℕ → List BootCall × ℕ
  in_front c t = (c ∷ t.0, t.1)

  late-Follows : (r : Text) → Follows (no_repos r) (late_stages r (split b',' r)) (start_on r)
  unfolding start_on trace
  late-Follows [] = refl
  late-Follows (c ∷ r) = ap (in_front setup_signal_handler) (
      ap (in_front (start_github_poller (split b',' (c ∷ r)))) (
        ap (in_front start_triage_token_refresher)
          (ap (in_front start_manager) (checked (exit 0) [] false (answers start_manager) refl))))

  main-Follows :
      (getenv : Text → Text) (flags : Flags)
      → Follows
          (no_repos (getenv (codes "PIPELINE_REPOS")))
          (stages flags
            (getenv (codes "PIPELINE_REPOS"))
            (split b',' (getenv (codes "PIPELINE_REPOS"))))
          (main getenv flags)
  unfolding main setup_with_manager trace
  main-Follows getenv flags = ap (in_front get_config) (
      checked _ (new_manager options ∷ from_controller late) lacking (answers get_config) (
        ap (in_front (new_manager options)) (
          checked _ (from_controller late) lacking (answers (new_manager options)) (
            ap (in_front (complete_controller (codes "devtask"))) (
              checked _ (from_healthz late) lacking
                (answers (complete_controller (codes "devtask")))
                (ap (in_front (add_healthz_check (codes "healthz"))) (
                  checked _ (from_readyz late) lacking
                    (answers (add_healthz_check (codes "healthz")))
                    (ap (in_front (add_readyz_check (codes "readyz"))) (
                      checked _ late lacking (answers (add_readyz_check (codes "readyz")))
                        (late-Follows value))))))))))
    where
      value : Text
      value = getenv (codes "PIPELINE_REPOS")

      late : List BootCall
      late = late_stages value (split b',' value)

      options : ManagerOptions
      options = manager_options flags

      lacking : Bool
      lacking = no_repos value

-- Whatever each call replies, the process makes the calls of one list, in its order, up to the first
-- that fails: the configuration, the manager with the options of the flags, the controller, the two
-- health checks, and then, only if PIPELINE_REPOS is not empty, the signal handler, the poller with those
-- repositories, none with a comma, that the value is with commas between them, the refresher of the
-- triage token, and last the manager's start. Its exit status is 1 if any of these fails or
-- PIPELINE_REPOS is empty, and 0 otherwise.
pub main-trace :
    (answers : (c : BootCall) → BootReply c) (getenv : Text → Text) (flags : Flags)
    (repos : List Text)
    → IsSplit (getenv (codes "PIPELINE_REPOS")) repos
    → trace answers (main getenv flags) ≡ (
      until_failure answers (stages flags (getenv (codes "PIPELINE_REPOS")) repos),
      exit_status (
          any_fails answers (stages flags (getenv (codes "PIPELINE_REPOS")) repos)
          || no_repos (getenv (codes "PIPELINE_REPOS"))),
    )
main-trace answers getenv flags repos h =
    subst
      (λ rs.
        Follows answers (no_repos (getenv (codes "PIPELINE_REPOS")))
          (stages flags (getenv (codes "PIPELINE_REPOS")) rs) (main getenv flags))
      ((split_iff (getenv (codes "PIPELINE_REPOS")) repos).1 h) (main-Follows answers getenv flags)
