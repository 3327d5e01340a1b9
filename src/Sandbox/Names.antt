-- ===== src/Sandbox/Names.antt =====
-- The names of a task's namespace and secret, of namespace.go and secrets.go.
use agentic_dev_pipeline.Prelude.{ap, refl, ℕ, ◌++◌, ◌↔◌, ◌≡◌}
use agentic_dev_pipeline.Text.{Text, codes}
use agentic_dev_pipeline.Text.Decimal.{is_digit, itoa}
use agentic_dev_pipeline.Text.Itoa.{itoa-injective}
use agentic_dev_pipeline.Text.Separators.{append-cancel, itoa-Lacks, split_at_first}
use agentic_dev_pipeline.Api.{DevTask}
use agentic_dev_pipeline.Sandbox.{task_namespace, task_secret_name}

prefix_eq : (p : Text) (m n : ℕ) → p ++ itoa m ≡ p ++ itoa n → m ≡ n
prefix_eq p m n h = itoa-injective m n (append-cancel p (itoa m) (itoa n) h)

-- Two tasks have one namespace exactly if they have one issue number, of whatever repositories the
-- issues are; and exactly then their secrets have one name.
pub same_sandbox_iff :
    (s t : DevTask)
    → ((task_namespace s ≡ task_namespace t) ↔ (s.spec.issue_number ≡ t.spec.issue_number))
      × ((task_secret_name s ≡ task_secret_name t) ↔ (s.spec.issue_number ≡ t.spec.issue_number))
unfolding task_namespace task_secret_name
same_sandbox_iff s t =
    let m = s.spec.issue_number in
    let n = t.spec.issue_number in
    (
      (prefix_eq (codes "devtask-") m n, λ e. ap (λ k. codes "devtask-" ++ itoa k) e),
      (
        λ h.
            itoa-injective m n
              (split_at_first b'-' (itoa m) (itoa n) (codes "creds") (codes "creds")
                (itoa-Lacks b'-' m (unfold is_digit in refl))
                (itoa-Lacks b'-' n (unfold is_digit in refl))
                (append-cancel (codes "devtask-") _ _ (unfold codes in h))).0,
        λ e. ap (λ k. codes "devtask-" ++ (itoa k ++ codes "-creds")) e,
      ),
    )
