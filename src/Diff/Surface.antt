-- ===== src/Diff/Surface.antt =====
-- What the patterns of the shipped policy of diff_policy.go mean, without globs.
use agentic_dev_pipeline.Prelude.{
  Bool, List, [], arith, false, or_iff, refl, true, ◌++◌, ◌||◌, ◌↔◌, ◌∙◌, ◌∷◌, ◌≡◌, ◌⊎◌,
}
use agentic_dev_pipeline.Text.{Text, codes, text_eq, text_eq_iff}
use agentic_dev_pipeline.Text.Search.{has_prefix, has_prefix_iff, has_suffix, has_suffix_iff}
use agentic_dev_pipeline.Diff.Glob.{glob_match, matched_by_any, slash_text}
use agentic_dev_pipeline.Diff.Policy.{default_restricted_paths, default_risky_paths}

-- `p` is the directory `d`, or a path under it.
abbrev pub IsUnder : Text → Text → Type 0
IsUnder d p = (p ≡ d) ⊎ ((r : Text) × (p ≡ (d ++ slash_text) ++ r))

-- The last part of `p` is `n`, at the top or in some directory.
abbrev pub IsNamed : Text → Text → Type 0
IsNamed n p = (p ≡ n) ⊎ ((r : Text) × (p ≡ r ++ (slash_text ++ n)))

-- `P` holds of one of the items.
abbrev pub Some : (Text → Type 0) → List Text → Type 0
Some P [] = ⊥
Some P (x ∷ xs) = P x ⊎ Some P xs

abbrev pub any_of : (Text → Bool) → List Text → Bool
any_of f [] = false
any_of f (x ∷ xs) = f x || any_of f xs

or_iff_last : {P : Type 0} (a : Bool) → (a ≡ true) ↔ P → ((a || false) ≡ true) ↔ P
or_iff_last true e = e
or_iff_last false e = e

false_iff : (false ≡ true) ↔ ⊥
false_iff = (λ h. cc, λ h. absurd h)

any_of_iff :
    {P : Text → Type 0} (f : Text → Bool) (xs : List Text)
    → ((x : Text) → (f x ≡ true) ↔ P x)
    → (any_of f xs ≡ true) ↔ Some P xs
any_of_iff f [] e = false_iff
any_of_iff f (x ∷ xs) e = or_iff (f x) (any_of f xs) (e x) (any_of_iff f xs e)

pub matched_by_any-any_of :
    (pats : List Text) (p : Text) → matched_by_any pats p ≡ any_of (λ pat. glob_match pat p) pats
unfolding matched_by_any
matched_by_any-any_of [] p = refl
matched_by_any-any_of (pat ∷ pats) p = ground (arith, matched_by_any-any_of pats p)

IsUnder-iff : (d p : Text) → ((text_eq p d || has_prefix p (d ++ slash_text)) ≡ true) ↔ IsUnder d p
IsUnder-iff d p = or_iff _ _ (text_eq_iff p d) (has_prefix_iff p (d ++ slash_text))

named : Text → Text → Bool
named p n = text_eq p n || has_suffix p (slash_text ++ n)

named_iff : (p n : Text) → (named p n ≡ true) ↔ IsNamed n p
unfolding named
named_iff p n = or_iff _ _ (text_eq_iff p n) (has_suffix_iff p (slash_text ++ n))

-- The paths that no agent may touch.
abbrev pub IsRestricted : Text → Type 0
IsRestricted p =
    IsUnder (codes ".github") p
    ⊎ IsUnder (codes ".devcontainer") p
    ⊎ (p ≡ codes "Dockerfile")
    ⊎ (p ≡ codes ".mcp.json")
    ⊎ IsUnder (codes "operator") p
    ⊎ IsUnder (codes "deploy") p

-- Build and install manifests, whose code runs during a build.
pub manifest_names : List Text
manifest_names =
    codes "package.json"
    ∷ codes "package-lock.json"
    ∷ codes "yarn.lock"
    ∷ codes "pnpm-lock.yaml"
    ∷ codes "Dockerfile"
    ∷ codes "Makefile"
    ∷ codes "pyproject.toml"
    ∷ codes "setup.py"
    ∷ codes "Gemfile"
    ∷ codes "Cargo.toml"
    ∷ codes "go.mod"
    ∷ []

restricted_tests : Text → Bool
restricted_tests p =
    (text_eq p (codes ".github") || has_prefix p (codes ".github" ++ slash_text))
    || ((text_eq p (codes ".devcontainer") || has_prefix p (codes ".devcontainer" ++ slash_text))
        || (text_eq p (codes "Dockerfile")
            || (text_eq p (codes ".mcp.json")
                || ((text_eq p (codes "operator") || has_prefix p (codes "operator" ++ slash_text))
                    || ((text_eq p (codes "deploy") || has_prefix p (codes "deploy" ++ slash_text))
                        || false)))))

matched-restricted_tests :
    (p : Text) → any_of (λ pat. glob_match pat p) default_restricted_paths ≡ restricted_tests p
unfolding glob_match default_restricted_paths restricted_tests codes
matched-restricted_tests p = refl

-- A path is refused by the restricted patterns exactly when it is one of the two files, or one of the
-- four directories or under it.
pub IsRestricted-iff :
    (p : Text) → (matched_by_any default_restricted_paths p ≡ true) ↔ IsRestricted p
unfolding restricted_tests
IsRestricted-iff p =
    rw (matched_by_any-any_of default_restricted_paths p, matched-restricted_tests p)
      (or_iff _ _ (IsUnder-iff _ p) (
        or_iff _ _ (IsUnder-iff _ p) (
          or_iff _ _ (text_eq_iff p _) (
            or_iff _ _ (text_eq_iff p _)
              (or_iff _ _ (IsUnder-iff _ p) (or_iff_last _ (IsUnder-iff _ p)))))))

-- Each name beside its variant at any depth.
doubled_tests : Text → List Text → Bool → Bool
doubled_tests p [] rest = rest
doubled_tests p (n ∷ ns) rest = text_eq p n || (named p n || doubled_tests p ns rest)

doubled : (p : Text) (ns : List Text) (r : Bool) → doubled_tests p ns r ≡ (any_of (named p) ns || r)
unfolding doubled_tests named
doubled p [] r = refl
doubled p (n ∷ ns) r = ground (arith, doubled p ns r)

before_docker : List Text
before_docker =
    codes "package.json"
    ∷ codes "package-lock.json"
    ∷ codes "yarn.lock"
    ∷ codes "pnpm-lock.yaml"
    ∷ []

after_docker : List Text
after_docker =
    codes "Makefile"
    ∷ codes "pyproject.toml"
    ∷ codes "setup.py"
    ∷ codes "Gemfile"
    ∷ codes "Cargo.toml"
    ∷ codes "go.mod"
    ∷ []

risky_tests : Text → Bool
risky_tests p =
    doubled_tests p before_docker
      (named p (codes "Dockerfile") || doubled_tests p after_docker false)

glob-risky_tests : (p : Text) → any_of (λ pat. glob_match pat p) default_risky_paths ≡ risky_tests p
unfolding glob_match default_risky_paths codes named risky_tests doubled_tests before_docker
    after_docker
glob-risky_tests p = refl

any_of-append :
    (f : Text → Bool) (xs ys : List Text) → any_of f (xs ++ ys) ≡ (any_of f xs || any_of f ys)
any_of-append f [] ys = refl
any_of-append f (x ∷ xs) ys = ground (arith, any_of-append f xs ys)

split_names : manifest_names ≡ before_docker ++ (codes "Dockerfile" ∷ after_docker)
unfolding manifest_names before_docker after_docker
split_names = refl

or_false : (a : Bool) → (a || false) ≡ a
or_false true = refl
or_false false = refl

matched-named :
    (p : Text)
    → any_of (λ pat. glob_match pat p) default_risky_paths ≡ any_of (named p) manifest_names
matched-named p =
    glob-risky_tests p ∙ unfold risky_tests in simp (doubled, or_false, split_names, any_of-append)

-- A path is risky exactly when its last part is the name of a manifest, at whatever depth it lies.
pub risky_iff :
    (p : Text)
    → (matched_by_any default_risky_paths p ≡ true) ↔ Some (λ n. IsNamed n p) manifest_names
risky_iff p =
    rw (matched_by_any-any_of default_risky_paths p, matched-named p)
      (any_of_iff (named p) manifest_names (named_iff p))
