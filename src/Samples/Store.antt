-- ===== src/Samples/Store.antt =====
-- The theorems on runs against an API server, at the one that keeps the objects in memory.
use agentic_dev_pipeline.Prelude.{Option, [], arith, inl, none, refl, some, sym, ◌≡◌}
use agentic_dev_pipeline.Text.{codes, text_eq}
use agentic_dev_pipeline.Api.{unset}
use agentic_dev_pipeline.Kube.{NetworkPolicy}
use agentic_dev_pipeline.Effects.{
  Call, already_exists, attempt, create_namespace, create_network_policy, create_pod, create_secret,
  err, is_already_exists, is_not_found, not_found, ok, update_status, ◌>>=◌,
}
use agentic_dev_pipeline.Egress.{sandbox_policy}
use agentic_dev_pipeline.Credentials.{
  PipelineCreds, app_key_secret_name, github_app_token, read_pipeline_credentials,
}
use agentic_dev_pipeline.Sandbox.{
  ensure_namespace, ensure_network_policy, ensure_pod, ensure_task_secret, namespace_object,
  task_namespace,
}
use agentic_dev_pipeline.Poller.{new_task}
use agentic_dev_pipeline.Reconcile.{reconcile_new, reconcile_phase, start_pod}
use agentic_dev_pipeline.Reconcile.Lifecycle.{born}
use agentic_dev_pipeline.Reconcile.Results.{Outcome}
use agentic_dev_pipeline.Samples.Inputs.{
  no_env, pipeline_secret, sample_from_int, sample_host, sample_repo,
}
use agentic_dev_pipeline.Samples.Memory.{
  after, fresh_task, memory, memory-IsLawful, no_objects, put-again, put_reply, stores,
}
use agentic_dev_pipeline.World.{
  Key-discrete, Object, Objects, Runs, finished, interrupted, namespace_at, served,
  stored_namespace, stored_policy,
}
use agentic_dev_pipeline.World.Fencing.{IsFenced, policy_place}
use agentic_dev_pipeline.World.Isolation.{
  OthersWork, no_work, others-isolated, work_pass, work_poll,
}
use agentic_dev_pipeline.World.Ownership.{IsGuarded}
use agentic_dev_pipeline.World.Recovery.{Accepts, IsResponsive, IsSettled, recovery-IsRaised}
use agentic_dev_pipeline.World.Refine.{Changes, reconcile_phase-refines}
use agentic_dev_pipeline.World.Retry.{
  Attempts, Grows, IsRaised, attempted, attempts-IsGuarded, retry-IsRaised, unattempted,
}

abbrev waiting : Outcome
waiting = record { requeue_after = 30_000_000_000; error = none }

abbrev sample_policy : NetworkPolicy
sample_policy = sandbox_policy no_env sample_from_int (task_namespace fresh_task)

abbrev with_namespace : Objects
with_namespace = after no_objects (create_namespace (namespace_object fresh_task))

-- A pass that is stopped behind the network policy, and one that finds the two objects there.
two_passes :
    (t u : Objects) × Attempts memory sample_host fresh_task no_objects t
    × Runs memory t (reconcile_phase sample_host fresh_task unset) (some waiting) u
unfolding reconcile_phase reconcile_new ensure_namespace ensure_network_policy
    read_pipeline_credentials github_app_token ensure_task_secret start_pod ensure_pod attempt ◌>>=◌
    new_task is_not_found is_already_exists Key-discrete text_eq codes app_key_secret_name
two_passes = (
  _,
  _,
  attempted unattempted (served (ok tt) (refl, refl) (served (ok tt) (refl, refl) interrupted)),
  served (err already_exists)
      (
        sym (
            put-again (namespace_at (namespace_object fresh_task).name)
              (stored_namespace (namespace_object fresh_task)) no_objects),
        refl,
      )
      (served (err already_exists)
        (
          sym (put-again (policy_place sample_policy) (stored_policy sample_policy) with_namespace),
          refl,
        )
        (served (ok pipeline_secret) (refl, refl)
          (served (err not_found) (refl, refl)
            (served (ok tt) (refl, refl)
              (served (ok tt) (refl, refl)
                (served 0 (refl, refl) (served (ok tt) (refl, refl) finished))))))),
)

none-IsFenced : IsFenced fresh_task no_objects
none-IsFenced name there = absurd (none_some there.1)
  where
    none_some : {o : Object} → ¬ (none ≡ some o)
    none_some e = cc

nothing_there : IsGuarded sample_host fresh_task no_objects
nothing_there = record { fenced = none-IsFenced; owned = inl refl }

reconcile_phase-refines_example : Changes sample_host fresh_task two_passes.0 two_passes.1
unfolding new_task
reconcile_phase-refines_example =
    reconcile_phase-refines memory memory-IsLawful sample_host fresh_task two_passes.0 two_passes.1
      (some waiting) two_passes.3

-- The second pass, and a poller that is stopped before it makes a call.
others : OthersWork memory sample_host 8 two_passes.0 two_passes.1
unfolding new_task
others =
    work_poll [] [] (work_pass no_work born (λ e. absurd (omega arith)) two_passes.3) interrupted

others-isolated_example :
    two_passes.1 (namespace_at (task_namespace (new_task sample_repo 8)))
    ≡ two_passes.0 (namespace_at (task_namespace (new_task sample_repo 8)))
unfolding new_task
others-isolated_example =
    others-isolated memory memory-IsLawful sample_host (new_task sample_repo 8) two_passes.0
      two_passes.1 others (namespace_at (task_namespace (new_task sample_repo 8))) refl

attempts-IsGuarded_example : IsGuarded sample_host fresh_task two_passes.0
unfolding new_task
attempts-IsGuarded_example =
    attempts-IsGuarded memory memory-IsLawful sample_host fresh_task tt no_objects two_passes.0
      nothing_there two_passes.2

retry-IsRaised_example :
    IsRaised sample_host fresh_task two_passes.1
    × Grows sample_host fresh_task no_objects two_passes.1
unfolding new_task
retry-IsRaised_example =
    retry-IsRaised memory memory-IsLawful sample_host fresh_task refl no_objects two_passes.0
      two_passes.1 waiting nothing_there two_passes.2 two_passes.3 refl

put_reply-IsSettled : (q : Option Object) → IsSettled (put_reply q)
unfolding is_already_exists
put_reply-IsSettled none = refl
put_reply-IsSettled (some q) = refl

stores-Accepts : (s : Objects) (c : Call) → Accepts c (stores s c)
stores-Accepts s (create_namespace n) = put_reply-IsSettled _
stores-Accepts s (create_network_policy p) = put_reply-IsSettled _
stores-Accepts s (create_secret c) = put_reply-IsSettled _
stores-Accepts s (create_pod p) = put_reply-IsSettled _
stores-Accepts s (update_status t) = refl
stores-Accepts s _ = tt

reading :
    (s : Objects)
    → (creds : PipelineCreds) × (t : Objects) × Runs memory s read_pipeline_credentials
        (some (ok creds))
        t
unfolding read_pipeline_credentials github_app_token attempt ◌>>=◌ is_not_found text_eq codes
    app_key_secret_name
reading s =
    (_, _, served (ok pipeline_secret) (refl, refl) (served (err not_found) (refl, refl) finished))

memory-IsResponsive : IsResponsive memory
memory-IsResponsive = record {
  answers = λ s c. (stores s c, after s c, (refl, refl), stores-Accepts s c);
  readable = reading;
}

recovery-IsRaised_example :
    (u : Objects) × Runs memory two_passes.0
      (reconcile_phase sample_host fresh_task unset)
      (some waiting)
      u
    × IsRaised sample_host fresh_task u
unfolding new_task
recovery-IsRaised_example =
    recovery-IsRaised memory memory-IsLawful memory-IsResponsive sample_host fresh_task refl
      no_objects two_passes.0 nothing_there two_passes.2
