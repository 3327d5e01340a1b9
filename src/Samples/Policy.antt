-- ===== src/Samples/Policy.antt =====
-- The theorems on the diff policy at concrete files and bodies.
use agentic_dev_pipeline.Prelude.{
  All, List, [], arith, length, none, refl, some, true, ℕ, ◌++◌, ◌<◌, ◌↔◌, ◌∷◌, ◌≡◌, ◌≤◌,
}
use agentic_dev_pipeline.Text.{Text, codes}
use agentic_dev_pipeline.Text.Decimal.{itoa}
use agentic_dev_pipeline.Text.Rune.{is_ascii, lower_byte}
use agentic_dev_pipeline.Diff.Approval.{is_separator, marker, parse_approved_globs}
use agentic_dev_pipeline.Diff.Asking.{asked_line-allows}
use agentic_dev_pipeline.Diff.Evaluate.{check_file, evaluate_diff, risky_violation}
use agentic_dev_pipeline.Diff.Glob.{glob_match, match_any, matched_by_any}
use agentic_dev_pipeline.Diff.Overrides.{IsCap, load_diff_policy-IsCap, load_diff_policy-itoa}
use agentic_dev_pipeline.Diff.Panic.{capitals, parse_approved_globs-capitals}
use agentic_dev_pipeline.Diff.Policy.{
  default_diff_policy, default_restricted_paths, default_risky_paths, load_diff_policy,
}
use agentic_dev_pipeline.Diff.Surface.{
  IsNamed, IsRestricted, IsRestricted-iff, Some, manifest_names, risky_iff,
}
use agentic_dev_pipeline.Diff.Tokens.{IsField, Parsed, parse_approved_globs-ascii}
use agentic_dev_pipeline.Diff.Verdict.{FileAllowed, evaluate_diff-passes, total_lines}
use agentic_dev_pipeline.Samples.Inputs.{manifest, no_env, readme, sample_host, sample_lower}

abbrev approving : Text
approving = codes "approve-risky-paths: go.mod"

abbrev approved_go : List Text
approved_go = codes "go.mod" ∷ []

approving_parsed : parse_approved_globs sample_lower approving ≡ some approved_go
unfolding parse_approved_globs codes marker is_ascii lower_byte
approving_parsed = refl

evaluate_diff-passes_example :
    (evaluate_diff sample_host.quote sample_lower
        (readme ∷ manifest ∷ [])
        approving
        (load_diff_policy no_env)
      ≡ some [])
    ↔ (All (FileAllowed approved_go) (readme ∷ manifest ∷ [])
        × (length (readme ∷ manifest ∷ []) ≤ (load_diff_policy no_env).max_files)
        × (total_lines (readme ∷ manifest ∷ []) ≤ (load_diff_policy no_env).max_lines))
evaluate_diff-passes_example =
    evaluate_diff-passes sample_host.quote sample_lower no_env (readme ∷ manifest ∷ []) approving
      approved_go approving_parsed (omega arith)

IsRestricted-iff_example :
    (matched_by_any default_restricted_paths (codes "deploy/x") ≡ true)
    ↔ IsRestricted (codes "deploy/x")
IsRestricted-iff_example = IsRestricted-iff (codes "deploy/x")

risky_iff_example :
    (matched_by_any default_risky_paths (codes "web/go.mod") ≡ true)
    ↔ Some (λ n. IsNamed n (codes "web/go.mod")) manifest_names
risky_iff_example = risky_iff (codes "web/go.mod")

parse_approved_globs-ascii_example :
    Parsed (All (IsField is_separator)) (parse_approved_globs sample_lower approving)
parse_approved_globs-ascii_example =
    parse_approved_globs-ascii sample_lower approving (unfold is_ascii codes in refl)

-- The text that the message asks for in an issue's body, between other lines.
asked_line-allows_example :
    (lead : Text) × (line : Text) × (globs : List Text) × ((risky_violation sample_host.quote
        (codes "web/go.mod")
        (codes "**/go.mod")).detail
      ≡ lead ++ (codes "; add '" ++ (line ++ codes "' to the issue body to allow it")))
    × (parse_approved_globs sample_lower
          (codes "Please." ++ (10 ∷ (line ++ (10 ∷ codes "Thanks."))))
        ≡ some globs)
    × (check_file sample_host.quote (load_diff_policy no_env) globs manifest ≡ [])
unfolding check_file load_diff_policy match_any glob_match codes default_restricted_paths
    default_risky_paths matched_by_any
asked_line-allows_example =
    asked_line-allows sample_host.quote sample_lower no_env [] manifest
      (risky_violation sample_host.quote (codes "web/go.mod") (codes "**/go.mod")) refl
      (unfold risky_violation in refl) (codes "Please.") (codes "Thanks.") (unfold is_ascii in refl)
      (unfold is_ascii in refl)

sample_lower-ascii : (c : ℕ) → c < 0x80 → sample_lower c ≡ lower_byte c
sample_lower-ascii c h = ground arith

parse_approved_globs-capitals_example :
    parse_approved_globs sample_lower (capitals 1 ++ marker) ≡ none
parse_approved_globs-capitals_example =
    parse_approved_globs-capitals sample_lower sample_lower-ascii refl 0

load_diff_policy-IsCap_example :
    IsCap (load_diff_policy no_env).max_files × IsCap (load_diff_policy no_env).max_lines
load_diff_policy-IsCap_example = load_diff_policy-IsCap no_env

abbrev some_env : Text → Text
some_env name = itoa 40

load_diff_policy-itoa_example :
    load_diff_policy some_env ≡ record default_diff_policy { max_files = 40; max_lines = 40 }
load_diff_policy-itoa_example =
    load_diff_policy-itoa some_env 39 39 refl refl (omega arith) (omega arith)
