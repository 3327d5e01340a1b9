-- ===== src/Diff/Overrides.antt =====
-- The overrides of the caps by the environment, of `loadDiffPolicy` of diff_policy.go.
use agentic_dev_pipeline.Prelude.{
  Bool, Bool-cases, Option, [], ap, arith, false, if◌then◌else◌, inl, inr, ltb, ltb→lt, negsuc,
  none, pos, refl, some, suc, sym, true, zero, ℕ, ℤ, ◌<◌, ◌==◌, ◌^◌, ◌∙◌, ◌∷◌, ◌≡◌,
}
use agentic_dev_pipeline.Text.{Text, codes}
use agentic_dev_pipeline.Text.Decimal.{digits_value, in_range_neg, in_range_pos, itoa, parse_int}
use agentic_dev_pipeline.Text.Itoa.{itoa-cons, parse_int-itoa}
use agentic_dev_pipeline.Diff.Policy.{
  default_diff_policy, load_diff_policy, positive_env, positive_or,
}

abbrev pub IsCap : ℕ → Type 0
IsCap n = (0 < n) × (n < 2 ^ 63)

-- A parsed number that is not negative fits 63 bits.
abbrev Fits : Option ℤ → Type 0
Fits none = Unit
Fits (some (pos n)) = n < 2 ^ 63
Fits (some (negsuc n)) = Unit

in_range_pos-Fits : (o : Option ℕ) → Fits (in_range_pos o)
unfolding in_range_pos
in_range_pos-Fits none = tt
in_range_pos-Fits (some n) = elim (Bool-cases (ltb n (2 ^ 63))) [
  | inl e ↦ rw e (ltb→lt n (2 ^ 63) e)
  | inr e ↦ rw e tt
]

in_range_neg-Fits : (o : Option ℕ) → Fits (in_range_neg o)
unfolding in_range_neg
in_range_neg-Fits none = tt
in_range_neg-Fits (some zero) = omega arith
in_range_neg-Fits (some (suc n)) = elim (Bool-cases (ltb n (2 ^ 63))) [
  | inl e ↦ rw e tt
  | inr e ↦ rw e tt
]

if-Fits : (b : Bool) (x y : Option ℤ) → Fits x → Fits y → Fits (if b then x else y)
if-Fits true x y h k = h
if-Fits false x y h k = k

parse_int-Fits : (s : Text) → Fits (parse_int s)
unfolding parse_int
parse_int-Fits [] = tt
parse_int-Fits (c ∷ s) = if-Fits (c == b'-') _ _ (in_range_neg-Fits (digits_value s)) (
    if-Fits (c == b'+') _ _ (in_range_pos-Fits (digits_value s))
      (in_range_pos-Fits (digits_value (c ∷ s))))

positive_or-IsCap : (n : ℕ) (o : Option ℤ) → IsCap n → Fits o → IsCap (positive_or n o)
positive_or-IsCap n none h f = h
positive_or-IsCap n (some (negsuc m)) h f = h
positive_or-IsCap n (some (pos zero)) h f = h
positive_or-IsCap n (some (pos (suc m))) h f = (omega arith, f)

pub positive_env-IsCap : (n : ℕ) (v : Text) → IsCap n → IsCap (positive_env n v)
unfolding positive_env
positive_env-IsCap n [] h = h
positive_env-IsCap n (c ∷ v) h = positive_or-IsCap n _ h (parse_int-Fits (c ∷ v))

positive_env-itoa : (n m : ℕ) → suc m < 2 ^ 63 → positive_env n (itoa (suc m)) ≡ suc m
unfolding positive_env
positive_env-itoa n m h =
    let (c, s, e, d) = itoa-cons (suc m) in
    ap (positive_env n) e ∙ ap (positive_or n) (sym (ap parse_int e) ∙ parse_int-itoa (suc m) h)

-- Whatever the environment holds, both caps of the loaded policy are positive and fit a signed 64-bit
-- number: no value of a variable turns a cap off.
pub load_diff_policy-IsCap :
    (getenv : Text → Text)
    → IsCap (load_diff_policy getenv).max_files × IsCap (load_diff_policy getenv).max_lines
unfolding load_diff_policy
load_diff_policy-IsCap getenv = (
  positive_env-IsCap 25 (getenv (codes "MAX_FILES_CHANGED")) (omega arith, omega arith),
  positive_env-IsCap 800 (getenv (codes "MAX_LINES_CHANGED")) (omega arith, omega arith),
)

-- Caps printed in decimals into the two variables are the caps of the policy that is loaded, beside the
-- shipped patterns, where they are positive and fit a signed 64-bit number.
pub load_diff_policy-itoa :
    (getenv : Text → Text) (files lines : ℕ)
    → getenv (codes "MAX_FILES_CHANGED") ≡ itoa (suc files)
    → getenv (codes "MAX_LINES_CHANGED") ≡ itoa (suc lines)
    → suc files < 2 ^ 63
    → suc lines < 2 ^ 63
    → load_diff_policy getenv
      ≡ record default_diff_policy { max_files = suc files; max_lines = suc lines }
unfolding load_diff_policy
load_diff_policy-itoa getenv files lines f l hf hl =
    rw (f, l, positive_env-itoa 25 files hf, positive_env-itoa 800 lines hl) refl
