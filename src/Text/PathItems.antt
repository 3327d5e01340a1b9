-- ===== src/Text/PathItems.antt =====
-- The patterns of `Match` of Go's package `path`, read into items.
use agentic_dev_pipeline.Prelude.{
  ℕ, zero, suc, ◌-◌, Bool, false, ◌&&◌, ◌||◌, List, [], ◌∷◌, ◌==◌, if◌then◌else◌, length, drop,
  Option, none, some,
}
use agentic_dev_pipeline.Text.Base.{Text}
use agentic_dev_pipeline.Text.Rune.{rune_error, decode_rune}

pub data PathItem : Type 0 where
  star any_rune : PathItem
  byte : ℕ → PathItem
  class : Bool → List (ℕ × ℕ) → PathItem

-- `getEsc`: one rune of a class, escaped or not, and the pattern after it, which is not empty
unescaped : Text → Option (ℕ × Text)
unfolding decode_rune
unescaped [] = none
unescaped (b ∷ s) =
    let (r, width) = decode_rune b s in
    if r == rune_error && width == 1
    then none
    else elim (drop (width - 1) s) [ [] ↦ none | c ∷ t ↦ some (r, c ∷ t) ]

get_esc : Text → Option (ℕ × Text)
unfolding unescaped
get_esc [] = none
get_esc (b ∷ s) =
    if b == b'-' || b == b']' then none else if b == b'\\' then unescaped s else unescaped (b ∷ s)

-- The upper end of a range: the text behind `lo` begins with a dash, or the range is one rune.
range_end : ℕ → Text → Option (ℕ × Text)
unfolding get_esc
range_end lo [] = none
range_end lo (b ∷ s) = if b == b'-' then get_esc s else some (lo, b ∷ s)

one_range : Text → Option ((ℕ × ℕ) × Text)
unfolding range_end
one_range p = elim (get_esc p) [
  | none ↦ none
  | some (lo, q) ↦ elim (range_end lo q) [ none ↦ none | some (hi, t) ↦ some ((lo, hi), t) ]
]

abbrev closes : List (ℕ × ℕ) → Text → Bool
closes ranges [] = false
closes [] (b ∷ s) = false
closes (r ∷ rs) (b ∷ s) = b == b']'

-- The ranges of a class up to its bracket, on fuel, the latest first.
class_ranges : ℕ → List (ℕ × ℕ) → Text → Option (List (ℕ × ℕ) × Text)
unfolding one_range
class_ranges zero ranges p = none
class_ranges (suc f) ranges p =
    if closes ranges p
    then some (ranges, drop 1 p)
    else elim (one_range p) [ none ↦ none | some (r, q) ↦ class_ranges f (r ∷ ranges) q ]

abbrev is_negated : Text → Bool
is_negated [] = false
is_negated (b ∷ s) = b == b'^'

class_body : Text → Option (PathItem × Text)
unfolding class_ranges
class_body p =
    let negated = is_negated p in
    elim (class_ranges (length p) [] (if negated then drop 1 p else p)) [
      | none ↦ none
      | some (ranges, rest) ↦ some (class negated ranges, rest)
    ]

-- The first item of the pattern `b ∷ s`, and the pattern after it.
next_item : ℕ → Text → Option (PathItem × Text)
unfolding class_body
next_item b s =
    if b == b'*'
    then some (star, s)
    else if b == b'?'
    then some (any_rune, s)
    else if b == b'['
    then class_body s
    else if b == b'\\'
    then elim s [ [] ↦ none | c ∷ t ↦ some (byte c, t) ]
    else some (byte b, s)

-- The items of a pattern, on fuel; none for `ErrBadPattern`.
unfoldable pub path_items : ℕ → Text → Option (List PathItem)
unfolding next_item
path_items f [] = some []
path_items zero (b ∷ s) = none
path_items (suc f) (b ∷ s) = elim (next_item b s) [
  | none ↦ none
  | some (item, rest) ↦ elim (path_items f rest) [ none ↦ none | some items ↦ some (item ∷ items) ]
]
