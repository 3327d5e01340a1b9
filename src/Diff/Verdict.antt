-- ===== src/Diff/Verdict.antt =====
-- When `evaluateDiff` of diff_policy.go lets a pull request pass under the policy that the operator
-- loads.
use agentic_dev_pipeline.Prelude.{
  ℕ, ◌+◌, ◌%◌, ◌^◌, ◌≤◌, ◌<◌, Bool, true, false, ◌≡◌, refl, sym, ap, ap₂, ◌∙◌, ◌↔◌, List, [], ◌∷◌,
  ◌++◌, some, arith, All, append_assoc, append-nil, length, int_modulus,
}
use native.Mathlib.Nat.{zero-add}
use agentic_dev_pipeline.Text.{Text}
use agentic_dev_pipeline.Diff.Glob.{matched_by_any}
use agentic_dev_pipeline.Diff.Policy.{
  DiffPolicy, load_diff_policy, default_diff_policy, default_restricted_paths, default_risky_paths,
}
use agentic_dev_pipeline.Diff.Approval.{parse_approved_globs}
use agentic_dev_pipeline.Diff.Evaluate.{
  CommitFile, DiffViolation, check_file, check_files, check_caps, evaluate_diff,
}
use agentic_dev_pipeline.Diff.Surface.{
  IsRestricted, IsNamed, Some, manifest_names, IsRestricted-iff, risky_iff,
}

-- The changed lines of the files, as a number that does not wrap.
abbrev pub total_lines : List CommitFile → ℕ
total_lines [] = 0
total_lines (f ∷ fs) = f.additions + f.deletions + total_lines fs

-- No restricted path, and a manifest only with an approval that matches it.
abbrev pub FileAllowed : List Text → CommitFile → Type 0
FileAllowed approved f =
    (¬ IsRestricted f.filename)
    × (Some (λ n. IsNamed n f.filename) manifest_names → matched_by_any approved f.filename ≡ true)

some_inj {ℓ} : {A : Type ℓ} {x y : A} → some x ≡ some y → x ≡ y
some_inj h = cc

nil_iff {ℓ} : {A : Type ℓ} (xs ys : List A) → ((xs ++ ys) ≡ []) ↔ ((xs ≡ []) × (ys ≡ []))
nil_iff [] ys = (λ h. (refl, h), λ h. h.1)
nil_iff (x ∷ xs) ys = (λ h. cc, λ h. cc)

module _ (quote : Text → Text) (policy : DiffPolicy) (approved : List Text) where
  abbrev file_violations : List CommitFile → List DiffViolation
  file_violations [] = []
  file_violations (f ∷ fs) = check_file quote policy approved f ++ file_violations fs

  -- The accumulators of the loop.
  check_files-violations :
      (violations : List DiffViolation) (total : ℕ) (fs : List CommitFile)
      → (check_files quote policy approved violations total fs).0 ≡ violations ++ file_violations fs
  unfolding check_files
  check_files-violations violations total [] = sym (append-nil violations)
  check_files-violations violations total (f ∷ fs) =
      check_files-violations (violations ++ check_file quote policy approved f)
        ((total + (f.additions + f.deletions) % int_modulus) % int_modulus) fs
      ∙ append_assoc violations (check_file quote policy approved f) (file_violations fs)

  check_files-total :
      (violations : List DiffViolation) (total : ℕ) (fs : List CommitFile)
      → total + total_lines fs < int_modulus
      → (check_files quote policy approved violations total fs).1 ≡ total + total_lines fs
  unfolding check_files
  check_files-total violations total [] h = omega arith
  check_files-total violations total (f ∷ fs) h =
      check_files-total (violations ++ check_file quote policy approved f)
        ((total + (f.additions + f.deletions) % int_modulus) % int_modulus) fs (omega arith)
      ∙ omega arith

  file_violations_iff :
      {P : CommitFile → Type 0} (fs : List CommitFile)
      → ((f : CommitFile) → (check_file quote policy approved f ≡ []) ↔ P f)
      → (file_violations fs ≡ []) ↔ All P fs
  file_violations_iff [] e = (λ h. tt, λ h. refl)
  file_violations_iff (f ∷ fs) e =
      let (split, join) = nil_iff (check_file quote policy approved f) (file_violations fs) in
      let (there, back) = file_violations_iff fs e in
      (λ h. ((e f).0 (split h).0, there (split h).1), λ h. join ((e f).1 h.0, back h.1))

  check_file_iff :
      (f : CommitFile)
      → (check_file quote policy approved f ≡ []) ↔ (
          (matched_by_any policy.restricted_paths f.filename ≡ false)
          × (matched_by_any policy.risky_paths f.filename ≡ true
              → matched_by_any approved f.filename ≡ true))
  unfolding check_file matched_by_any
  check_file_iff f = (λ h. (ground arith, λ r. ground arith), λ (a, b). ground (arith, b))

not_true : (b : Bool) → ¬ (b ≡ true) → b ≡ false
not_true true h = absurd (h refl)
not_true false h = refl

check_caps_iff :
    (policy : DiffPolicy) (count total : ℕ)
    → total < 2 ^ 63
    → (check_caps policy count total ≡ [])
      ↔ ((count ≤ policy.max_files) × (total ≤ policy.max_lines))
unfolding check_caps
check_caps_iff policy count total h = (λ e. ground arith, λ e. ground arith)

-- The test of the code on one file, read through the meaning of the shipped patterns.
FileAllowed-iff :
    (approved : List Text) (f : CommitFile)
    → ((matched_by_any default_restricted_paths f.filename ≡ false)
        × (matched_by_any default_risky_paths f.filename ≡ true
            → matched_by_any approved f.filename ≡ true))
      ↔ FileAllowed approved f
FileAllowed-iff approved f = (
  λ (a, b). (λ r. cc (a, (IsRestricted-iff f.filename).1 r), λ m. b ((risky_iff f.filename).1 m)),
  λ (a, b). (
    not_true _ (λ e. a ((IsRestricted-iff f.filename).0 e)),
    λ m. b ((risky_iff f.filename).0 m),
  ),
)

-- The loaded policy has the shipped patterns, whatever the environment holds.
check_loaded :
    (quote getenv : Text → Text) (approved : List Text) (f : CommitFile)
    → (check_file quote (load_diff_policy getenv) approved f ≡ []) ↔ FileAllowed approved f
unfolding load_diff_policy default_diff_policy
check_loaded quote getenv approved f =
    let (a, b) = check_file_iff quote (load_diff_policy getenv) approved f in
    let (c, d) = FileAllowed-iff approved f in (λ h. c (a h), λ h. b (d h))

module _ (quote : Text → Text) (lower : ℕ → ℕ) (files : List CommitFile) (body : Text)
    {approved : List Text} (parsed : parse_approved_globs lower body ≡ some approved)
    (few : total_lines files < 2 ^ 63) where
  -- What `evaluateDiff` returns: the violations of the files in order, then those of the caps.
  evaluate_diff_lem :
      (policy : DiffPolicy)
      → evaluate_diff quote lower files body policy
        ≡ some (
            file_violations quote policy approved files
            ++ check_caps policy (length files) (total_lines files))
  unfolding evaluate_diff
  evaluate_diff_lem policy =
      rw (parsed, evaluate_diff)
        (ap₂ (λ v t. some (v ++ check_caps policy (length files) t))
          (check_files-violations quote policy approved [] 0 files)
          (check_files-total quote policy approved [] 0 files (omega arith)
            ∙ zero-add (total_lines files)))

-- Under the loaded policy, for an issue body that parses and less than 2^63 changed lines, no
-- violation is found exactly when no file is restricted, each manifest is matched by an approved
-- glob, and both caps are kept; whatever the environment holds.
pub evaluate_diff-passes :
    (quote : Text → Text) (lower : ℕ → ℕ) (getenv : Text → Text) (files : List CommitFile)
    (body : Text) (approved : List Text)
    → parse_approved_globs lower body ≡ some approved
    → total_lines files < 2 ^ 63
    → (evaluate_diff quote lower files body (load_diff_policy getenv) ≡ some []) ↔ (
        All (FileAllowed approved) files
        × (length files ≤ (load_diff_policy getenv).max_files)
        × (total_lines files ≤ (load_diff_policy getenv).max_lines))
evaluate_diff-passes quote lower getenv files body approved parsed few =
    let policy = load_diff_policy getenv in
    let (split, join) =
      nil_iff (file_violations quote policy approved files)
        (check_caps policy (length files) (total_lines files)) in
    let (sound, complete) =
      file_violations_iff quote policy approved files (λ f. check_loaded quote getenv approved f) in
    let (within, fits) = check_caps_iff policy (length files) (total_lines files) few in
    let e = evaluate_diff_lem quote lower files body parsed few policy in
    (
      λ h. let n = split (some_inj (sym e ∙ h)) in let (c, l) = within n.1 in (sound n.0, c, l),
      λ (a, c, l). e ∙ ap some (join (complete a, fits (c, l))),
    )
