-- ===== src/Reconcile/Spawning.antt =====
-- The steps of devtask_controller.go that build a sandbox or write a status write no more than the
-- footprint of the diagram.
use agentic_dev_pipeline.Prelude.{inl, inr, refl, sym, ℕ, ◌∙◌, ◌≡◌, ◌≢◌}
use agentic_dev_pipeline.Text.{Text}
use agentic_dev_pipeline.Api.{DevTask, DevTaskPhase, building, failed, running, unset}
use agentic_dev_pipeline.Kube.{Pod}
use agentic_dev_pipeline.Effects.{
  Call, Error, Host, Prog, Result, attempt, create_dev_task, create_namespace,
  create_network_policy, create_pod, create_secret, delete_namespace, delete_pod,
  ignore_already_exists, ret, update_secret, update_status, ◌>>=◌,
}
use agentic_dev_pipeline.Effects.Kinds.{
  IsAside, IsCredential, IsCredential→IsAside, IsTalk, IsTalk→IsAside,
}
use agentic_dev_pipeline.Effects.Monitor.{Calls, Calls-attempt, Calls-branch, Calls-mono}
use agentic_dev_pipeline.Credentials.{PipelineCreds, read_pipeline_credentials}
use agentic_dev_pipeline.Sandbox.{
  ensure_namespace, ensure_network_policy, ensure_pod, ensure_task_secret, remove_namespace,
}
use agentic_dev_pipeline.Github.Reads.{read_pipeline_credentials-IsCredential}
use agentic_dev_pipeline.Reconcile.{reconcile_new, spawn_agent_sandbox, start_pod}
use agentic_dev_pipeline.Reconcile.Diagram.{
  Footprint, IsAgentPod, IsLive, Owns, Spawns, Update, building_live, fresh, give_up, launch,
  running_live, ◌⟶◌,
}
use agentic_dev_pipeline.Reconcile.Results.{Outcome, finish, mark_building, mark_failed, with_phase}

module _ (host : Host) (task : DevTask) where
  abbrev pub Within : {A : Type 0} → Prog A → Type 0
  Within = Calls (Footprint host task)

  pub aside_Footprint : (c : Call) → IsAside c → Footprint host task c
  aside_Footprint (update_status new) h = absurd h
  aside_Footprint (create_namespace n) h = absurd h
  aside_Footprint (create_network_policy p) h = absurd h
  aside_Footprint (create_secret s) h = absurd h
  aside_Footprint (create_pod p) h = absurd h
  aside_Footprint (delete_namespace ns) h = absurd h
  aside_Footprint (delete_pod ns pod) h = absurd h
  aside_Footprint (update_secret s) h = absurd h
  aside_Footprint (create_dev_task t) h = absurd h
  aside_Footprint _ h = tt

  pub aside : {A : Type 0} (p : Prog A) → Calls IsAside p → Within p
  aside p h = Calls-mono IsAside (Footprint host task) aside_Footprint p h

  pub talk : {A : Type 0} (p : Prog A) → Calls IsTalk p → Within p
  talk p h =
      Calls-mono IsTalk (Footprint host task) (λ c t. aside_Footprint c (IsTalk→IsAside c t)) p h

  pub finish-Within : (delay : ℕ) (new : DevTask) → Update task new → Within (finish delay new)
  unfolding ◌>>=◌
  finish-Within delay new u = (u, λ r. tt)

  pub mark_building-Update :
      (t : ℕ) (text : Text) → task.status.phase ⟶ building → Update task (mark_building t text task)
  unfolding mark_building
  mark_building-Update t text e = record {
    edge = e;
    same_name = refl;
    same_namespace = refl;
    same_spec = refl;
    accounted = λ h. cc;
    same_pull = inr refl;
    home = inl refl;
  }

  -- An update of the phase and the message alone.
  pub with_phase-Update :
      (p : DevTaskPhase) (text : Text)
      → task.status.phase ⟶ p
      → p ≢ failed
      → Owns task
      → Update task (with_phase p text task)
  with_phase-Update p text e n owns = record {
    edge = e;
    same_name = refl;
    same_namespace = refl;
    same_spec = refl;
    accounted = λ h. absurd (n h);
    same_pull = inr refl;
    home = inr (inl (owns, refl));
  }

  pub started-Owns : (p : DevTaskPhase) → task.status.phase ≡ p → p ≢ unset → p ≢ failed → Owns task
  started-Owns p e n m = (λ h. n (sym e ∙ h), λ h. absurd (m (sym e ∙ h)))

  pub live-Owns : (p : DevTaskPhase) → task.status.phase ≡ p → IsLive p → Owns task
  live-Owns _ e building_live = started-Owns building e (λ h. cc) (λ h. cc)
  live-Owns _ e running_live = started-Owns running e (λ h. cc) (λ h. cc)

  pub live-calm : (p : DevTaskPhase) → IsLive p → ¬ Spawns p
  live-calm _ building_live h = h
  live-calm _ running_live h = h

  pub mark_failed-Update :
      (t : ℕ) (text : Text) → IsLive task.status.phase → Update task (mark_failed t text task)
  unfolding mark_failed
  mark_failed-Update t text e = record {
    edge = give_up e;
    same_name = refl;
    same_namespace = refl;
    same_spec = refl;
    accounted = λ h. inl (λ n. cc);
    same_pull = inr refl;
    home = inr (inl (live-Owns task.status.phase refl e, refl));
  }

  pub start_pod-Within :
      (pod : Pod) (text : Text)
      → IsAgentPod host task task.status.phase pod
      → task.status.phase ⟶ building
      → Within (start_pod task pod text)
  unfolding start_pod ensure_pod ◌>>=◌ attempt
  start_pod-Within pod text h e = (
    h,
    λ r.
        Calls-branch (Footprint host task) (ignore_already_exists tt r) _ _ (λ _. tt)
          (λ _. (tt, λ t. (mark_building-Update t text e, λ _. tt))),
  )

  pub ensure_namespace-Within : Within (ensure_namespace task)
  unfolding ensure_namespace ◌>>=◌
  ensure_namespace-Within = (refl, λ r. tt)

  pub ensure_network_policy-Within : Within (ensure_network_policy host task)
  unfolding ensure_network_policy ◌>>=◌
  ensure_network_policy-Within = (refl, λ r. tt)

  pub ensure_task_secret-Within : (creds : PipelineCreds) → Within (ensure_task_secret task creds)
  unfolding ensure_task_secret ◌>>=◌
  ensure_task_secret-Within creds = ((creds, refl), λ r. tt)

  pub remove_namespace-Within :
      Owns task → ¬ Spawns task.status.phase → Within (remove_namespace task.status.namespace)
  unfolding remove_namespace ◌>>=◌
  remove_namespace-Within owns calm = ((refl, owns, calm), λ r. tt)

  pub credentials-Within : Within read_pipeline_credentials
  credentials-Within =
      Calls-mono IsCredential (Footprint host task)
        (λ c h. aside_Footprint c (IsCredential→IsAside c h)) read_pipeline_credentials
        read_pipeline_credentials-IsCredential

  -- The steps that a new task and a respawn make in different orders.
  pub or_stop :
      {A : Type 0} (g : Error → Outcome) (p : Prog (Result A)) (f : A → Prog Outcome)
      → Within p
      → ((a : A) → Within (f a))
      → Within (attempt p (λ e. ret (g e)) f)
  or_stop g p f h k = Calls-attempt (Footprint host task) p _ f h (λ _. tt) k

  pub reconcile_new-Within : task.status.phase ≡ unset → Within (reconcile_new host task)
  unfolding reconcile_new
  reconcile_new-Within e = or_stop _ _ _ ensure_namespace-Within λ _.
      or_stop _ _ _ ensure_network_policy-Within λ _. or_stop _ _ _ credentials-Within λ creds.
        or_stop _ _ _ (ensure_task_secret-Within creds)
          λ _. start_pod-Within _ _ (rw e fresh) (rw e launch)

  pub spawn_agent_sandbox-Within :
      (pod : Pod) (text : Text)
      → IsAgentPod host task task.status.phase pod
      → task.status.phase ⟶ building
      → Within (spawn_agent_sandbox host task pod text)
  unfolding spawn_agent_sandbox
  spawn_agent_sandbox-Within pod text h e = or_stop _ _ _ credentials-Within λ creds.
      or_stop _ _ _ ensure_namespace-Within λ _.
        or_stop _ _ _ ensure_network_policy-Within
          λ _. or_stop _ _ _ (ensure_task_secret-Within creds) λ _. start_pod-Within pod text h e
