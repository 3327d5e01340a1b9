-- ===== src/Diff/Glob.antt =====
-- `globMatch`, `matchAny` and `matchedByAny` of operator/internal/controller/diff_policy.go.
use agentic_dev_pipeline.Prelude.{
  Bool, true, false, ◌||◌, ◌&&◌, List, [], ◌∷◌, ◌++◌, Option, none, some, if◌then◌else◌,
}
use agentic_dev_pipeline.Text.{Text, text_eq}
use agentic_dev_pipeline.Text.Search.{has_prefix, has_suffix, cut_prefix, cut_suffix, contains}
use agentic_dev_pipeline.Text.PathMatch.{base, path_match}

abbrev pub slash_text : Text
slash_text = b'/' ∷ []

abbrev pub star_text : Text
star_text = b'*' ∷ []

-- `/**` and `**/`
abbrev pub below : Text
below = b'/' ∷ b'*' ∷ b'*' ∷ []

abbrev pub anywhere : Text
anywhere = b'*' ∷ b'*' ∷ b'/' ∷ []

-- The branch for `<prefix>/**`.
under_dir : Text → Text → Bool
unfolding text_eq has_prefix
under_dir prefix p = text_eq p prefix || has_prefix p (prefix ++ slash_text)

-- The branch for `**/<suffix>`.
at_any_depth : Text → Text → Bool
unfolding text_eq has_suffix contains
at_any_depth suffix p =
    if contains suffix star_text && path_match suffix (base p)
    then true
    else text_eq p suffix || has_suffix p (slash_text ++ suffix)

-- The branches for one segment with a star, and for an exact path.
one_segment : Text → Text → Bool
unfolding text_eq contains
one_segment pattern p =
    if contains pattern star_text then path_match pattern p else text_eq p pattern

unfoldable pub glob_match : Text → Text → Bool
unfolding under_dir at_any_depth one_segment cut_suffix cut_prefix
glob_match pattern p = elim (cut_suffix pattern below) [
  | some prefix ↦ under_dir prefix p
  | none ↦ elim (cut_prefix pattern anywhere) [
    | some suffix ↦ at_any_depth suffix p
    | none ↦ one_segment pattern p
  ]
]

-- The first pattern that matches; none where Go returns `"", false`.
unfoldable pub match_any : List Text → Text → Option Text
match_any [] p = none
match_any (pat ∷ pats) p = if glob_match pat p then some pat else match_any pats p

unfoldable pub matched_by_any : List Text → Text → Bool
unfolding match_any
matched_by_any pats p = elim (match_any pats p) [ none ↦ false | some pat ↦ true ]
