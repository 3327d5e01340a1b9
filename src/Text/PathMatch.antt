-- ===== src/Text/PathMatch.antt =====
-- `Base` and `Match` of Go's package `path`. A pattern is read into items, and the items are matched
-- chunk by chunk as `Match` does; where the pattern is not well formed, `Match` never answers true.
use agentic_dev_pipeline.Prelude.{
  ℕ, zero, suc, ◌-◌, Bool, true, false, not, ◌&&◌, ◌||◌, List, [], ◌∷◌, ◌==◌, leb, if◌then◌else◌,
  length, drop, Option, none, some,
}
use agentic_dev_pipeline.Text.Base.{Text}
use agentic_dev_pipeline.Text.Rune.{decode_rune}
use agentic_dev_pipeline.Text.PathItems.{PathItem, star, any_rune, byte, class, path_items}

-- `strip_slashes` drops the slashes at the end; `last_part` is what follows the last slash.
strip_slashes : Text → Text
strip_slashes [] = []
strip_slashes (c ∷ s) =
    let rest = strip_slashes s in
    elim rest [ [] ↦ if c == b'/' then [] else c ∷ [] | d ∷ t ↦ c ∷ d ∷ t ]

has_slash : Text → Bool
has_slash [] = false
has_slash (c ∷ s) = c == b'/' || has_slash s

last_part : Text → Text
unfolding has_slash
last_part [] = []
last_part (c ∷ s) =
    let rest = last_part s in if has_slash s then rest else if c == b'/' then s else c ∷ s

abbrev or_slash : Text → Text
or_slash [] = b'/' ∷ []
or_slash (c ∷ s) = c ∷ s

-- `path.Base`
unfoldable pub base : Text → Text
unfolding strip_slashes last_part
base [] = b'.' ∷ []
base (c ∷ s) = or_slash (last_part (strip_slashes (c ∷ s)))

in_ranges : ℕ → List (ℕ × ℕ) → Bool
in_ranges r [] = false
in_ranges r ((lo, hi) ∷ rs) = (leb lo r && leb r hi) || in_ranges r rs

-- One item against the first byte or rune of `c ∷ s`, and what is left of the name. A question mark
-- matches no slash; a class may.
match_item : PathItem → ℕ → Text → Option Text
unfolding decode_rune in_ranges
match_item star c s = none
match_item any_rune c s = if c == b'/' then none else some (drop ((decode_rune c s).1 - 1) s)
match_item (byte b) c s = if c == b then some s else none
match_item (class negated ranges) c s =
    let inside = in_ranges (decode_rune c s).0 ranges in
    if (if negated then not inside else inside)
    then some (drop ((decode_rune c s).1 - 1) s)
    else none

-- `matchChunk`: a run of items without a star
match_chunk : List PathItem → Text → Option Text
unfolding match_item
match_chunk [] s = some s
match_chunk (item ∷ items) [] = none
match_chunk (item ∷ items) (c ∷ s) = elim (match_item item c s) [
  | none ↦ none
  | some t ↦ match_chunk items t
]

-- The last chunk must exhaust the name.
abbrev usable : List PathItem → Option Text → Option Text
usable items none = none
usable [] (some []) = some []
usable [] (some (c ∷ t)) = none
usable (item ∷ items) (some t) = some t

abbrev or_else : Option Text → Option Text → Option Text
or_else none later = later
or_else (some t) later = some t

-- The first place behind skipped bytes, none of them a slash, where the chunk matches.
skip_match : List PathItem → List PathItem → Text → Option Text
unfolding match_chunk
skip_match chunk items [] = none
skip_match chunk items (c ∷ s) =
    let later = skip_match chunk items s in
    if c == b'/' then none else or_else (usable items (match_chunk chunk s)) later

-- The stars in front, the chunk up to the next star, and what follows the chunk.
drop_stars : List PathItem → List PathItem
drop_stars (star ∷ items) = drop_stars items
drop_stars items = items

first_chunk : List PathItem → List PathItem
first_chunk [] = []
first_chunk (star ∷ items) = []
first_chunk (item ∷ items) = item ∷ first_chunk items

after_chunk : List PathItem → List PathItem
after_chunk [] = []
after_chunk (star ∷ items) = star ∷ items
after_chunk (item ∷ items) = after_chunk items

abbrev is_star : PathItem → Bool
is_star star = true
is_star _ = false

abbrev is_empty {ℓ} : {A : Type ℓ} → List A → Bool
is_empty [] = true
is_empty (a ∷ xs) = false

-- The chunk at the start of the name or, behind a star, at the first place further on.
place_chunk : Bool → List PathItem → List PathItem → Text → Option Text
unfolding skip_match
place_chunk starred chunk items name =
    or_else (usable items (match_chunk chunk name))
      (if starred then skip_match chunk items name else none)

-- The loop of `Match`, on fuel: each round takes at least one item. It does not try a later place for
-- a chunk that has found one.
match_items : ℕ → List PathItem → Text → Bool
unfolding has_slash drop_stars first_chunk after_chunk place_chunk
match_items f [] name = is_empty name
match_items zero (item ∷ items) name = false
match_items (suc f) (item ∷ items) name =
    let pattern = drop_stars (item ∷ items) in
    if is_star item && is_empty pattern
    then not (has_slash name)
    else elim (place_chunk (is_star item) (first_chunk pattern) (after_chunk pattern) name) [
      | none ↦ false
      | some t ↦ match_items f (after_chunk pattern) t
    ]

-- The first result of `path.Match`, which is false beside an error.
unfoldable pub path_match : Text → Text → Bool
unfolding path_items match_items
path_match pattern name = elim (path_items (length pattern) pattern) [
  | none ↦ false
  | some items ↦ match_items (length items) items name
]
