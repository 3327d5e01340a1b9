-- ===== src/Api.antt =====
-- operator/api/v1alpha1/devtask_types.go: the custom resource that the operator drives. Times are
-- nanoseconds; an empty `pr_number` or `namespace` is 0 or the empty text, as in Go.
pub mod Copies
pub mod Aliasing
pub mod Independence
use agentic_dev_pipeline.Prelude.{ℕ, Option, none, []}
use agentic_dev_pipeline.Text.{Text}

-- `unset` is the phase of a fresh object, the empty string.
pub data DevTaskPhase : Type 0 where
  unset pending building running awaiting_review awaiting_revision : DevTaskPhase
  blocked_on_clarification failed completed : DevTaskPhase

pub record DevTaskSpec : Type 0 where
  pub issue_number : ℕ
  pub repo : Text

pub record DevTaskStatus : Type 0 where
  pub phase : DevTaskPhase
  pub namespace : Text
  pub pr_number : ℕ
  pub started_at : Option ℕ
  pub failed_at : Option ℕ
  pub message : Text

pub record DevTask : Type 0 where
  pub name : Text
  pub namespace : Text
  pub spec : DevTaskSpec
  pub status : DevTaskStatus

abbrev pub empty_status : DevTaskStatus
empty_status = record {
  phase = unset;
  namespace = [];
  pr_number = 0;
  started_at = none;
  failed_at = none;
  message = [];
}
