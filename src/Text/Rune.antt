-- ===== src/Text/Rune.antt =====
-- UTF-8 as Go's `unicode/utf8` reads and writes it, and `strings.ToLower`. The table of
-- `unicode.ToLower` is the parameter `lower`.
use Prim.Native.Char.{code}
use Prim.Native.String.{String}
use agentic_dev_pipeline.Prelude.{
  ℕ, zero, suc, ◌+◌, ◌-◌, ◌*◌, ◌/◌, ◌%◌, Bool, true, ◌&&◌, ◌||◌, [], ◌∷◌, ◌++◌, map, leb, ltb,
  if◌then◌else◌,
}
use agentic_dev_pipeline.Text.Base.{Text}

abbrev pub rune_error : ℕ
rune_error = 0xFFFD

is_between : ℕ → ℕ → ℕ → Bool
is_between lo hi b = leb lo b && leb b hi

-- The range of the second byte after a given first byte of a sequence of three or of four.
second_of_three : ℕ → ℕ → Bool
unfolding is_between
second_of_three b c =
    if leb b 0xE0
    then is_between 0xA0 0xBF c
    else if leb b 0xEC
    then is_between 0x80 0xBF c
    else if leb b 0xED
    then is_between 0x80 0x9F c
    else is_between 0x80 0xBF c

second_of_four : ℕ → ℕ → Bool
unfolding is_between
second_of_four b c =
    if leb b 0xF0
    then is_between 0x90 0xBF c
    else if leb b 0xF3
    then is_between 0x80 0xBF c
    else is_between 0x80 0x8F c

decode2 : ℕ → Text → ℕ × ℕ
unfolding is_between
decode2 b [] = (rune_error, 1)
decode2 b (c ∷ s) =
    if is_between 0x80 0xBF c then ((b - 0xC0) * 64 + (c - 0x80), 2) else (rune_error, 1)

decode3 : ℕ → Text → ℕ × ℕ
unfolding second_of_three
decode3 b (c ∷ d ∷ s) =
    if second_of_three b c && is_between 0x80 0xBF d
    then ((b - 0xE0) * 4096 + (c - 0x80) * 64 + (d - 0x80), 3)
    else (rune_error, 1)
decode3 b _ = (rune_error, 1)

decode4 : ℕ → Text → ℕ × ℕ
unfolding second_of_four
decode4 b (c ∷ d ∷ e ∷ s) =
    if second_of_four b c && is_between 0x80 0xBF d && is_between 0x80 0xBF e
    then ((b - 0xF0) * 262144 + (c - 0x80) * 4096 + (d - 0x80) * 64 + (e - 0x80), 4)
    else (rune_error, 1)
decode4 b _ = (rune_error, 1)

-- `utf8.DecodeRuneInString` of the text `b ∷ s`: the rune and its width
unfoldable pub decode_rune : ℕ → Text → ℕ × ℕ
unfolding decode2 decode3 decode4
decode_rune b s =
    if ltb b 0x80
    then (b, 1)
    else if ltb b 0xC2
    then (rune_error, 1)
    else if ltb b 0xE0
    then decode2 b s
    else if ltb b 0xF0
    then decode3 b s
    else if ltb b 0xF5
    then decode4 b s
    else (rune_error, 1)

-- `utf8.AppendRune`
pub encode_rune : ℕ → Text
encode_rune r =
    if ltb r 0x80
    then r ∷ []
    else if ltb r 0x800
    then (0xC0 + r / 64) ∷ (0x80 + r % 64) ∷ []
    else if (leb 0xD800 r && leb r 0xDFFF) || ltb 0x10FFFF r
    then 0xEF ∷ 0xBF ∷ 0xBD ∷ []
    else if ltb r 0x10000
    then (0xE0 + r / 4096) ∷ (0x80 + r / 64 % 64) ∷ (0x80 + r % 64) ∷ []
    else (0xF0 + r / 262144) ∷ (0x80 + r / 4096 % 64) ∷ (0x80 + r / 64 % 64) ∷ (0x80 + r % 64) ∷ []

-- `strings.Map` with a mapping that drops no rune; `skip` bytes belong to a rune already mapped.
unfoldable pub map_runes : (ℕ → ℕ) → ℕ → Text → Text
unfolding decode_rune encode_rune
map_runes f skip [] = []
map_runes f (suc skip) (b ∷ s) = map_runes f skip s
map_runes f zero (b ∷ s) =
    let (r, width) = decode_rune b s in encode_rune (f r) ++ map_runes f (width - 1) s

unfoldable pub is_ascii : Text → Bool
is_ascii [] = true
is_ascii (b ∷ s) = ltb b 0x80 && is_ascii s

unfoldable pub lower_byte : ℕ → ℕ
lower_byte b = if leb b'A' b && leb b b'Z' then b + 32 else b

-- `strings.ToLower`
unfoldable pub to_lower : (ℕ → ℕ) → Text → Text
unfolding is_ascii lower_byte map_runes
to_lower lower s = if is_ascii s then map lower_byte s else map_runes lower 0 s

-- The bytes of a literal that is not all ASCII.
unfoldable pub utf8 : String → Text
unfolding encode_rune
utf8 String.[] = []
utf8 (String.◌∷◌ c s) = encode_rune (code c) ++ utf8 s
