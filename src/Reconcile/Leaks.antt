-- ===== src/Reconcile/Leaks.antt =====
-- No pass of `Reconcile` of devtask_controller.go lets go of a sandbox without a deletion of its
-- namespace.
use agentic_dev_pipeline.Text.{Text}
