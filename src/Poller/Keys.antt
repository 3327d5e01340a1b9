-- ===== src/Poller/Keys.antt =====
-- The names under which github_poller.go keeps tasks.
use agentic_dev_pipeline.Prelude.{ap₂, refl, ℕ, ◌++◌, ◌↔◌, ◌∷◌, ◌≡◌}
use agentic_dev_pipeline.Text.{Text}
use agentic_dev_pipeline.Text.Decimal.{is_digit, itoa}
use agentic_dev_pipeline.Text.Itoa.{itoa-injective}
use agentic_dev_pipeline.Text.Separators.{Lacks, itoa-Lacks, split_at_last}
use agentic_dev_pipeline.Sandbox.{repo_name}
use agentic_dev_pipeline.Poller.{task_name}

dash_lacked : (n : ℕ) → Lacks b'-' (itoa n)
dash_lacked n = itoa-Lacks b'-' n (unfold is_digit in refl)

-- Two issues have one task name exactly if their numbers are equal and their repositories have one
-- name behind the first slash, whoever owns them.
pub task_name_iff :
    (r s : Text) (i j : ℕ)
    → (task_name r i ≡ task_name s j) ↔ ((repo_name r ≡ repo_name s) × (i ≡ j))
unfolding task_name
task_name_iff r s i j = (
  λ h.
      let (repo, number) =
        split_at_last b'-' (repo_name r) (repo_name s) (itoa i) (itoa j) (dash_lacked i)
          (dash_lacked j) h in
      (repo, itoa-injective i j number),
  λ (e, k). ap₂ (λ x n. x ++ (b'-' ∷ itoa n)) e k,
)
