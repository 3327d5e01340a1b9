-- ===== src/Diff/Asking.antt =====
-- What the message of a risky path in diff_policy.go asks for, and what `parseApprovedGlobs` and the
-- policy make of it.
use agentic_dev_pipeline.Prelude.{
  &&-true, Bool, Bool-cases, List, Option, [], ap, append_assoc, arith, false, if◌then◌else◌, inl,
  inr, ltb, none, not, refl, some, subst, sym, true, ℕ, ◌&&◌, ◌++◌, ◌==◌, ◌∙◌, ◌∷◌, ◌≡◌, ◌≢◌,
}
use agentic_dev_pipeline.Text.{Text, codes}
use agentic_dev_pipeline.Text.Rune.{is_ascii}
use agentic_dev_pipeline.Text.Separators.{Lacks}
use agentic_dev_pipeline.Diff.Approval.{is_separator, marker, parse_approved_globs}
use agentic_dev_pipeline.Diff.Bodies.{IsPlain, parse_approved_globs-line}
use agentic_dev_pipeline.Diff.Evaluate.{
  CommitFile, DiffViolation, check_file, restricted_violation, risky_path, risky_violation,
}
use agentic_dev_pipeline.Diff.Glob.{glob_match, match_any, matched_by_any}
use agentic_dev_pipeline.Diff.Policy.{
  DiffPolicy, default_diff_policy, default_risky_paths, load_diff_policy,
}
use agentic_dev_pipeline.Diff.Tokens.{IsClean}

plain_byte : ℕ → Bool
unfolding is_separator
plain_byte c = ltb c 0x80 && not (is_separator c) && not (c == 10)

plain_bytes : Text → Bool
unfolding plain_byte
plain_bytes [] = true
plain_bytes (c ∷ w) = plain_byte c && plain_bytes w

plain_test : Text → Bool
unfolding plain_bytes
plain_test [] = false
plain_test (c ∷ w) = plain_bytes (c ∷ w)

plain_byte-parts :
    (c : ℕ) → plain_byte c ≡ true → (ltb c 0x80 ≡ true) × (is_separator c ≡ false) × (c ≢ 10)
unfolding plain_byte
plain_byte-parts c h =
    let (first, a) = (&&-true (ltb c 0x80 && not (is_separator c)) (not (c == 10))).0 h in
    let (low, b) = (&&-true (ltb c 0x80) (not (is_separator c))).0 first in
    (low, ground arith, λ e. ground arith)

plain_bytes-parts :
    (w : Text) → plain_bytes w ≡ true → IsClean is_separator w × (is_ascii w ≡ true) × Lacks 10 w
unfolding plain_bytes is_ascii
plain_bytes-parts [] h = (tt, refl, tt)
plain_bytes-parts (c ∷ w) h =
    let (a, b) = (&&-true (plain_byte c) (plain_bytes w)).0 h in
    let (low, clean, other_byte) = plain_byte-parts c a in
    let (rest_clean, rest_ascii, rest_line) = plain_bytes-parts w b in
    ((clean, rest_clean), rw (low, rest_ascii) refl, (other_byte, rest_line))

plain_test-IsPlain : (w : Text) → plain_test w ≡ true → IsPlain w
unfolding plain_test
plain_test-IsPlain [] h = cc
plain_test-IsPlain (c ∷ w) h =
    let (clean, ascii, one_line) = plain_bytes-parts (c ∷ w) h in
    record { nonempty = λ e. cc; clean = clean; ascii = ascii; one_line = one_line }

all_plain : List Text → Bool
unfolding plain_test
all_plain [] = true
all_plain (w ∷ ws) = plain_test w && all_plain ws

-- A pattern that is found is one of the list, and matches.
match_any-found :
    (pats : List Text) (p pat : Text)
    → all_plain pats ≡ true
    → match_any pats p ≡ some pat
    → IsPlain pat × (glob_match pat p ≡ true)
unfolding match_any all_plain
match_any-found [] p pat a h = cc
match_any-found (x ∷ pats) p pat a h =
    let (plain, rest) = (&&-true (plain_test x) (all_plain pats)).0 a in
    elim (Bool-cases (glob_match x p)) [
      | inl e ↦
          let same : x ≡ pat = ground arith in
          (
            subst IsPlain same (plain_test-IsPlain x plain),
            subst (λ q. glob_match q p ≡ true) same e,
          )
      | inr e ↦ match_any-found pats p pat rest (ground arith)
    ]

matched_by_any-member :
    (xs ys : List Text) (pat p : Text)
    → glob_match pat p ≡ true
    → matched_by_any (xs ++ (pat ∷ ys)) p ≡ true
unfolding matched_by_any match_any
matched_by_any-member [] ys pat p h = ground arith
matched_by_any-member (x ∷ xs) ys pat p h = ground (arith, matched_by_any-member xs ys pat p h)

default_risky-plain : all_plain default_risky_paths ≡ true
unfolding all_plain default_risky_paths codes
default_risky-plain = refl

regroup : (a b c d e : Text) → a ++ (b ++ (c ++ (d ++ e))) ≡ (a ++ (b ++ (c ++ d))) ++ e
regroup a b c d e = sym (
    append_assoc a (b ++ (c ++ d)) e
    ∙ ap (λ t. a ++ t) (append_assoc b (c ++ d) e ∙ ap (λ t. b ++ t) (append_assoc c d e)))

module _ (quote : Text → Text) (p : Text) where
  -- The message quotes the marker, a space and the pattern.
  message_line :
      (pat : Text)
      → (risky_violation quote p pat).detail
        ≡ (p ++ (codes " is a risky path (matched " ++ (quote pat ++ codes ")")))
          ++ (codes "; add '"
              ++ ((marker ++ (b' ' ∷ pat)) ++ codes "' to the issue body to allow it"))
  unfolding risky_violation marker codes
  message_line pat =
      regroup p (codes " is a risky path (matched ") (quote pat) (codes ")")
        (codes "; add '" ++ ((marker ++ (b' ' ∷ pat)) ++ codes "' to the issue body to allow it"))

  -- The cases of the test of one file.
  refused_as_risky :
      (restricted risky : Option Text) (approved : Bool) (v : DiffViolation)
      → (elim restricted [
        | some pat ↦ restricted_violation quote p pat ∷ []
        | none ↦ elim risky [
          | none ↦ []
          | some pat ↦ if approved then [] else risky_violation quote p pat ∷ []
        ]
      ])
        ≡ v ∷ []
      → v.reason ≡ risky_path
      → (pat : Text) × (restricted ≡ none) × (risky ≡ some pat) × (risky_violation quote p pat ≡ v)
  refused_as_risky (some pat) risky approved v h r = absurd (unfold restricted_violation in cc)
  refused_as_risky none none approved v h r = absurd cc
  refused_as_risky none (some pat) true v h r = absurd cc
  refused_as_risky none (some pat) false v h r = (pat, refl, refl, cc)

allowed :
    (quote : Text → Text) (policy : DiffPolicy) (globs : List Text) (f : CommitFile) (pat : Text)
    → match_any policy.restricted_paths f.filename ≡ none
    → match_any policy.risky_paths f.filename ≡ some pat
    → matched_by_any globs f.filename ≡ true
    → check_file quote policy globs f ≡ []
unfolding check_file
allowed quote policy globs f pat a b c = ground arith

-- Where the operator's policy refuses a file as risky, the violation's message names a line, between
-- `; add '` and `' to the issue body to allow it`. With that line on a line of its own in the issue
-- body, between any texts of ASCII bytes, the body is parsed and the policy no longer refuses
-- the file.
pub asked_line-allows :
    (quote : Text → Text) (lower : ℕ → ℕ) (getenv : Text → Text) (approved : List Text)
    (f : CommitFile) (v : DiffViolation)
    → check_file quote (load_diff_policy getenv) approved f ≡ v ∷ []
    → v.reason ≡ risky_path
    → (before after : Text) → is_ascii before ≡ true
    → is_ascii after ≡ true
    → (lead : Text) × (line : Text) × (globs : List Text) × (v.detail
        ≡ lead ++ (codes "; add '" ++ (line ++ codes "' to the issue body to allow it")))
      × (parse_approved_globs lower (before ++ (10 ∷ (line ++ (10 ∷ after)))) ≡ some globs)
      × (check_file quote (load_diff_policy getenv) globs f ≡ [])
unfolding check_file load_diff_policy default_diff_policy
asked_line-allows quote lower getenv approved f v h r before after a b =
    let (pat, none_restricted, found, same) = refused_as_risky quote f.filename _ _ _ v h r in
    let (plain, matches) =
      match_any-found default_risky_paths f.filename pat default_risky-plain found in
    let (front, back, parsed) = parse_approved_globs-line lower pat before after plain a b in
    (
      _,
      marker ++ (b' ' ∷ pat),
      front ++ (pat ∷ back),
      ap (λ w. w.detail) (sym same) ∙ message_line quote f.filename pat,
      parsed,
      allowed quote (load_diff_policy getenv) (front ++ (pat ∷ back)) f pat none_restricted found
          (matched_by_any-member front back pat f.filename matches),
    )
