-- ===== src/Reconcile/Results.antt =====
-- What a pass of `Reconcile` of devtask_controller.go ends with, and the statuses that it writes.
use agentic_dev_pipeline.Prelude.{
  Bool, Option, [], false, none, pos, some, suc, true, ℕ, ℤ, ◌*◌, ◌∷◌,
}
use agentic_dev_pipeline.Text.{Text, codes}
use agentic_dev_pipeline.Api.{DevTask, DevTaskPhase, building, failed}
use agentic_dev_pipeline.Effects.{
  Error, Host, Prog, Result, err, ok, perform, ret, update_status, ◌>>=◌,
}
use agentic_dev_pipeline.Sandbox.{task_namespace}

-- `ctrl.Result` and the error beside it.
pub record Outcome : Type 0 where
  pub requeue_after : ℕ
  pub error : Option Error

abbrev pub has_error : Outcome → Bool
has_error o = elim o.error [ none ↦ false | some e ↦ true ]

abbrev pub seconds : ℕ → ℕ
seconds n = n * 1_000_000_000

abbrev pub done : ℕ → Prog Outcome
done delay = ret (record { requeue_after = delay; error = none })

abbrev pub stop : ℕ → Error → Prog Outcome
stop delay e = ret (record { requeue_after = delay; error = some e })

abbrev pub outcome_of : ℕ → Result Unit → Outcome
outcome_of delay (ok _) = record { requeue_after = delay; error = none }
outcome_of delay (err e) = record { requeue_after = delay; error = some e }

-- `return ctrl.Result{RequeueAfter: delay}, r.Status().Update(ctx, task)`
abbrev pub finish : ℕ → DevTask → Prog Outcome
finish delay task = perform (update_status task) >>= λ r. ret (outcome_of delay r)

-- `loadFailedNamespaceTTL`: an hour, or what the environment says.
abbrev pub positive_duration : Option ℤ → ℕ
positive_duration (some (pos (suc n))) = suc n
positive_duration _ = seconds 3600

abbrev pub ttl_of : (Text → Option ℤ) → Text → ℕ
ttl_of parse [] = seconds 3600
ttl_of parse (c ∷ v) = positive_duration (parse (c ∷ v))

unfoldable pub failed_namespace_ttl : Host → ℕ
failed_namespace_ttl host = ttl_of host.parse_duration (host.getenv (codes "FAILED_NAMESPACE_TTL"))

-- `markFailed` at the time `t`.
unfoldable pub mark_failed : ℕ → Text → DevTask → DevTask
mark_failed t text task = record task {
  status = record task.status { phase = failed; message = text; failed_at = some t };
}

-- The status that a spawned sandbox leaves.
unfoldable pub mark_building : ℕ → Text → DevTask → DevTask
mark_building t text task = record task {
  status = record task.status {
    phase = building;
    namespace = task_namespace task;
    started_at = some t;
    message = text;
  };
}

abbrev pub with_phase : DevTaskPhase → Text → DevTask → DevTask
with_phase p text task = record task { status = record task.status { phase = p; message = text } }
