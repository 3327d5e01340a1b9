-- ===== src/Diff.antt =====
-- operator/internal/controller/diff_policy.go: what a pull request of the agent may change. The
-- definitions are in `Glob`, `Policy`, `Approval` and `Evaluate`; the other modules prove.
pub mod Asking
pub mod Bodies
pub mod Glob
pub mod Policy
pub mod Approval
pub mod Evaluate
pub mod Surface
pub mod Overrides
pub mod Tokens
pub mod Panic
pub mod Verdict
