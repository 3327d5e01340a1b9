-- ===== src/Diff/Evaluate.antt =====
-- `DiffViolation` and `evaluateDiff` of operator/internal/controller/diff_policy.go.
use agentic_dev_pipeline.Prelude.{
  ℕ, ◌+◌, ◌%◌, List, [], ◌∷◌, ◌++◌, Option, none, some, ltb, if◌then◌else◌, length, int_modulus,
  int_gt,
}
use agentic_dev_pipeline.Text.{Text, codes}
use agentic_dev_pipeline.Text.Decimal.{itoa}
use agentic_dev_pipeline.Diff.Glob.{match_any, matched_by_any}
use agentic_dev_pipeline.Diff.Policy.{DiffPolicy}
use agentic_dev_pipeline.Diff.Approval.{parse_approved_globs}

-- What the code reads of a `gh.CommitFile`, by its getters.
pub record CommitFile : Type 0 where
  pub filename : Text
  pub additions : ℕ
  pub deletions : ℕ

-- The machine tags of `Reason`, and the texts that they stand for.
pub data Reason : Type 0 where
  restricted_path risky_path too_many_files too_many_lines : Reason

unfoldable pub reason_text : Reason → Text
reason_text restricted_path = codes "restricted-path"
reason_text risky_path = codes "risky-path"
reason_text too_many_files = codes "too-many-files"
reason_text too_many_lines = codes "too-many-lines"

pub record DiffViolation : Type 0 where
  pub reason : Reason
  pub path : Text
  pub detail : Text

-- `quote` is the verb `%q` of Go's `fmt`.
module _ (quote : Text → Text) where
  unfoldable pub restricted_violation : Text → Text → DiffViolation
  restricted_violation p pat = record {
    reason = restricted_path;
    path = p;
    detail =
        p
        ++ (codes " is a restricted path (matched "
            ++ (quote pat ++ codes ") and may never be modified by the agent"));
  }

  unfoldable pub risky_violation : Text → Text → DiffViolation
  risky_violation p pat = record {
    reason = risky_path;
    path = p;
    detail =
        p
        ++ (codes " is a risky path (matched "
            ++ (quote pat
                ++ (codes "); add 'approve-risky-paths: "
                    ++ (pat ++ codes "' to the issue body to allow it"))));
  }

  -- The body of the loop over the files, without the count of lines.
  unfoldable pub check_file : DiffPolicy → List Text → CommitFile → List DiffViolation
  check_file policy approved f = elim (match_any policy.restricted_paths f.filename) [
    | some pat ↦ restricted_violation f.filename pat ∷ []
    | none ↦ elim (match_any policy.risky_paths f.filename) [
      | none ↦ []
      | some pat ↦
          if matched_by_any approved f.filename then [] else risky_violation f.filename pat ∷ []
    ]
  ]

  -- The loop, over its variables `violations` and `totalLines`, a Go `int` that wraps.
  unfoldable pub check_files :
      DiffPolicy → List Text → List DiffViolation → ℕ → List CommitFile → List DiffViolation × ℕ
  unfolding check_file
  check_files policy approved violations total [] = (violations, total)
  check_files policy approved violations total (f ∷ fs) =
      check_files policy approved (violations ++ check_file policy approved f)
        ((total + (f.additions + f.deletions) % int_modulus) % int_modulus) fs

unfoldable pub files_violation : ℕ → ℕ → DiffViolation
files_violation n limit = record {
  reason = too_many_files;
  path = [];
  detail =
      codes "PR changes " ++ (itoa n ++ (codes " files, exceeding the limit of " ++ itoa limit));
}

unfoldable pub lines_violation : ℕ → ℕ → DiffViolation
lines_violation n limit = record {
  reason = too_many_lines;
  path = [];
  detail =
      codes "PR changes " ++ (itoa n ++ (codes " lines, exceeding the limit of " ++ itoa limit));
}

-- The two size caps.
unfoldable pub check_caps : DiffPolicy → ℕ → ℕ → List DiffViolation
check_caps policy count total =
    (if ltb policy.max_files count then files_violation count policy.max_files ∷ [] else [])
    ++ (if int_gt total policy.max_lines then lines_violation total policy.max_lines ∷ [] else [])

-- None where `parseApprovedGlobs` panics.
unfoldable pub evaluate_diff :
    (Text → Text) → (ℕ → ℕ) → List CommitFile → Text → DiffPolicy → Option (List DiffViolation)
unfolding check_files check_caps
evaluate_diff quote lower files issue_body policy = elim (parse_approved_globs lower issue_body) [
  | none ↦ none
  | some approved ↦
      let (violations, total) = check_files quote policy approved [] 0 files in
      some (violations ++ check_caps policy (length files) total)
]
