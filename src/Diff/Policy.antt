-- ===== src/Diff/Policy.antt =====
-- `DiffPolicy`, its shipped baseline and its environment overrides, of
-- operator/internal/controller/diff_policy.go.
use agentic_dev_pipeline.Prelude.{ℕ, zero, suc, List, [], ◌∷◌, Option, none, some, ℤ, pos, negsuc}
use agentic_dev_pipeline.Text.{Text, codes}
use agentic_dev_pipeline.Text.Decimal.{parse_int}

pub record DiffPolicy : Type 0 where
  pub restricted_paths : List Text
  pub risky_paths : List Text
  pub max_files : ℕ
  pub max_lines : ℕ

unfoldable pub default_restricted_paths : List Text
default_restricted_paths =
    codes ".github/**"
    ∷ codes ".devcontainer/**"
    ∷ codes "Dockerfile"
    ∷ codes ".mcp.json"
    ∷ codes "operator/**"
    ∷ codes "deploy/**"
    ∷ []

unfoldable pub default_risky_paths : List Text
default_risky_paths =
    codes "package.json"
    ∷ codes "**/package.json"
    ∷ codes "package-lock.json"
    ∷ codes "**/package-lock.json"
    ∷ codes "yarn.lock"
    ∷ codes "**/yarn.lock"
    ∷ codes "pnpm-lock.yaml"
    ∷ codes "**/pnpm-lock.yaml"
    ∷ codes "**/Dockerfile"
    ∷ codes "Makefile"
    ∷ codes "**/Makefile"
    ∷ codes "pyproject.toml"
    ∷ codes "**/pyproject.toml"
    ∷ codes "setup.py"
    ∷ codes "**/setup.py"
    ∷ codes "Gemfile"
    ∷ codes "**/Gemfile"
    ∷ codes "Cargo.toml"
    ∷ codes "**/Cargo.toml"
    ∷ codes "go.mod"
    ∷ codes "**/go.mod"
    ∷ []

unfoldable pub default_diff_policy : DiffPolicy
default_diff_policy = record {
  restricted_paths = default_restricted_paths;
  risky_paths = default_risky_paths;
  max_files = 25;
  max_lines = 800;
}

-- `strconv.Atoi(v)` guarded by `err == nil && n > 0`
abbrev pub positive_or : ℕ → Option ℤ → ℕ
positive_or n none = n
positive_or n (some (negsuc m)) = n
positive_or n (some (pos zero)) = n
positive_or n (some (pos (suc m))) = suc m

-- The test `v != ""` in front of it: an unset variable reads as the empty text.
unfoldable pub positive_env : ℕ → Text → ℕ
unfolding parse_int
positive_env n [] = n
positive_env n (c ∷ v) = positive_or n (parse_int (c ∷ v))

-- The environment is a function from names to values.
unfoldable pub load_diff_policy : (Text → Text) → DiffPolicy
unfolding positive_env default_diff_policy
load_diff_policy getenv = record default_diff_policy {
  max_files = positive_env 25 (getenv (codes "MAX_FILES_CHANGED"));
  max_lines = positive_env 800 (getenv (codes "MAX_LINES_CHANGED"));
}
