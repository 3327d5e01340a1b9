-- ===== src/Github/Branches.antt =====
-- The branches that `findPRForTask` of github_poller.go takes for those of an issue.
use agentic_dev_pipeline.Prelude.{
  All, Bool-cases, List, Option, [], ap, append_assoc, inl, inr, none, or_iff, refl, some, sym,
  true, ℕ, ◌++◌, ◌↔◌, ◌∙◌, ◌∷◌, ◌≡◌, ◌⊎◌,
}
use agentic_dev_pipeline.Text.{Text, codes, text_eq_iff}
use agentic_dev_pipeline.Text.Decimal.{is_digit, itoa}
use agentic_dev_pipeline.Text.Itoa.{itoa-injective}
use agentic_dev_pipeline.Text.Search.{has_prefix, has_prefix_iff}
use agentic_dev_pipeline.Text.Separators.{
  Lacks, append-cancel, itoa-Lacks, not-Lacks, split_at_first,
}
use agentic_dev_pipeline.Kube.{PullRequest}
use agentic_dev_pipeline.Github.{first_for, is_task_branch, legacy_branch}

-- `claude/issue-N`, with nothing or with a dash and a slug behind it.
abbrev pub BranchOf : ℕ → Text → Type 0
BranchOf n ref =
    ((slug : Text) × (ref ≡ codes "claude/issue-" ++ (itoa n ++ (b'-' ∷ slug))))
    ⊎ (ref ≡ codes "claude/issue-" ++ itoa n)

dash_lacked : (n : ℕ) → Lacks b'-' (itoa n)
dash_lacked n = itoa-Lacks b'-' n (unfold is_digit in refl)

slug_shape :
    (n : ℕ) (slug : Text)
    → (legacy_branch n ++ codes "-") ++ slug ≡ codes "claude/issue-" ++ (itoa n ++ (b'-' ∷ slug))
unfolding legacy_branch codes
slug_shape n slug =
    append_assoc (codes "claude/issue-" ++ itoa n) (codes "-") slug
    ∙ append_assoc (codes "claude/issue-") (itoa n) (b'-' ∷ slug)

slug_iff :
    (n : ℕ) (ref : Text)
    → (has_prefix ref (legacy_branch n ++ codes "-") ≡ true)
      ↔ ((slug : Text) × (ref ≡ codes "claude/issue-" ++ (itoa n ++ (b'-' ∷ slug))))
slug_iff n ref =
    let (there, back) = has_prefix_iff ref (legacy_branch n ++ codes "-") in
    (
      λ h. let (slug, e) = there h in (slug, e ∙ slug_shape n slug),
      λ (slug, e). back (slug, e ∙ sym (slug_shape n slug)),
    )

branch_iff : (n : ℕ) (ref : Text) → (is_task_branch n ref ≡ true) ↔ BranchOf n ref
unfolding is_task_branch
branch_iff n ref = or_iff _ _ (slug_iff n ref) (text_eq_iff ref (legacy_branch n))

-- No branch belongs to two issues.
pub BranchOf-unique : (m n : ℕ) (ref : Text) → BranchOf m ref → BranchOf n ref → m ≡ n
BranchOf-unique m n ref (inr e) (inr d) =
    itoa-injective m n (append-cancel (codes "claude/issue-") _ _ (sym e ∙ d))
BranchOf-unique m n ref (inr e) (inl (slug, d)) = absurd (
    not-Lacks b'-' (itoa n) slug (itoa m) (dash_lacked m)
      (append-cancel (codes "claude/issue-") _ _ (sym e ∙ d)))
BranchOf-unique m n ref (inl (slug, e)) (inr d) = absurd (
    not-Lacks b'-' (itoa m) slug (itoa n) (dash_lacked n)
      (append-cancel (codes "claude/issue-") _ _ (sym d ∙ e)))
BranchOf-unique m n ref (inl (slug, e)) (inl (tag, d)) =
    itoa-injective m n
      (split_at_first b'-' (itoa m) (itoa n) slug tag (dash_lacked m) (dash_lacked n)
        (append-cancel (codes "claude/issue-") _ _ (sym e ∙ d))).0

-- The pull request that is found: the first in the list whose branch belongs to the issue.
abbrev pub FirstFor : ℕ → List PullRequest → Option PullRequest → Type 0
FirstFor n prs none = All (λ pr. ¬ BranchOf n pr.head_ref) prs
FirstFor n prs (some pr) =
    (before : List PullRequest) × (after : List PullRequest) × (prs ≡ before ++ (pr ∷ after))
    × All (λ other. ¬ BranchOf n other.head_ref) before
    × BranchOf n pr.head_ref
    × ((m : ℕ) → BranchOf m pr.head_ref → m ≡ n)

FirstFor-skip :
    (n : ℕ) (pr : PullRequest) (prs : List PullRequest) (found : Option PullRequest)
    → ¬ BranchOf n pr.head_ref
    → FirstFor n prs found
    → FirstFor n (pr ∷ prs) found
FirstFor-skip n pr prs none h f = (h, f)
FirstFor-skip n pr prs (some found) h (before, after, e, other_issues, own, only) =
    (pr ∷ before, after, ap (λ xs. pr ∷ xs) e, (h, other_issues), own, only)

-- Of the open pull requests the first on a branch of the issue is found, that branch is of no other
-- issue, and none is found exactly if no branch in the list is of the issue.
pub first_for-FirstFor : (n : ℕ) (prs : List PullRequest) → FirstFor n prs (first_for n prs)
unfolding first_for
first_for-FirstFor n [] = tt
first_for-FirstFor n (pr ∷ prs) = elim (Bool-cases (is_task_branch n pr.head_ref)) [
  | inl e ↦
      let own = (branch_iff n pr.head_ref).0 e in
      rw e ([], prs, refl, tt, own, λ m other. BranchOf-unique m n pr.head_ref other own)
  | inr e ↦ rw e (
      FirstFor-skip n pr prs (first_for n prs) (λ own. cc (e, (branch_iff n pr.head_ref).1 own))
        (first_for-FirstFor n prs))
]
