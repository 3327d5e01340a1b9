-- ===== src/Diff/Approval.antt =====
-- `parseApprovedGlobs` of operator/internal/controller/diff_policy.go.
use agentic_dev_pipeline.Prelude.{
  ℕ, ◌+◌, Bool, ◌||◌, List, [], ◌∷◌, ◌++◌, Option, none, some, ◌==◌, ltb, if◌then◌else◌, length,
  drop,
}
use agentic_dev_pipeline.Text.{Text, codes}
use agentic_dev_pipeline.Text.Search.{index, split, fields_func}
use agentic_dev_pipeline.Text.Rune.{to_lower}

unfoldable pub marker : Text
unfolding codes
marker = codes "approve-risky-paths:"

-- The separators of the tokens: a space, a tab, a comma, a backquote.
unfoldable pub is_separator : ℕ → Bool
is_separator r = r == b' ' || r == 9 || r == b',' || r == b'`'

-- `line[i:]`; none where Go panics because `i` is past the end
unfoldable pub slice_from : ℕ → Text → Option Text
slice_from i line = if ltb (length line) i then none else some (drop i line)

-- `FieldsFunc` returns no empty field, so the test `tok != ""` keeps each.
pub tokens : Option Text → Option (List Text)
unfolding fields_func is_separator
tokens none = none
tokens (some rest) = some (fields_func is_separator rest)

-- The tokens behind the marker, from the result of `strings.Index`.
unfoldable pub globs_at : Option ℕ → Text → Option (List Text)
unfolding tokens slice_from marker
globs_at none line = some []
globs_at (some idx) line = tokens (slice_from (idx + length marker) line)

-- One line: the position is found in the lowered line and used in the line itself.
unfoldable pub line_globs : (ℕ → ℕ) → Text → Option (List Text)
unfolding to_lower index globs_at
line_globs lower line = globs_at (index (to_lower lower line) marker) line

abbrev pub append_globs : Option (List Text) → Option (List Text) → Option (List Text)
append_globs none more = none
append_globs (some globs) none = none
append_globs (some globs) (some more) = some (globs ++ more)

unfoldable pub globs_of_lines : (ℕ → ℕ) → List Text → Option (List Text)
unfolding line_globs
globs_of_lines lower [] = some []
globs_of_lines lower (line ∷ lines) =
    append_globs (line_globs lower line) (globs_of_lines lower lines)

-- None where a line makes Go panic. `lower` is the table of `unicode.ToLower`.
unfoldable pub parse_approved_globs : (ℕ → ℕ) → Text → Option (List Text)
unfolding globs_of_lines split
parse_approved_globs lower issue_body = globs_of_lines lower (split 10 issue_body)
