-- ===== src/Text/Decimal.antt =====
-- Decimal numbers in texts: `%d` of Go's `fmt` for a number that is not negative, `strconv.Atoi` and
-- `strconv.ParseInt(s, 10, 64)`, and `strings.TrimSpace`.
use agentic_dev_pipeline.Prelude.{
  ℕ, zero, suc, ◌+◌, ◌-◌, ◌*◌, ◌/◌, ◌%◌, ◌^◌, ◌<◌, Bool, true, ◌&&◌, ◌||◌, ◌≡◌, ◌∙◌, arith, [], ◌∷◌,
  ◌==◌, leb, ltb, if◌then◌else◌, Option, none, some, inl, inr, Bool-cases, ℤ, pos, negsuc,
}
use agentic_dev_pipeline.Text.Base.{Text}
use agentic_dev_pipeline.Text.Rune.{decode_rune}

unfoldable pub is_digit : ℕ → Bool
is_digit c = leb b'0' c && leb c b'9'

-- The digits of `n` in front of `out`, on fuel.
unfoldable pub emit : ℕ → ℕ → Text → Text
emit zero n out = out
emit (suc f) n out =
    let rest = emit f (n / 10) ((b'0' + n % 10) ∷ out) in
    if ltb n 10 then (b'0' + n) ∷ out else rest

-- `fmt.Sprintf("%d", n)`
unfoldable pub itoa : ℕ → Text
unfolding emit
itoa n = emit (suc n) n []

-- The value of a text of digits after the value `n`.
unfoldable pub digits_from : ℕ → Text → Option ℕ
unfolding is_digit
digits_from n [] = some n
digits_from n (c ∷ s) = if is_digit c then digits_from (n * 10 + (c - b'0')) s else none

unfoldable pub digits_value : Text → Option ℕ
unfolding digits_from
digits_value [] = none
digits_value (c ∷ s) = digits_from 0 (c ∷ s)

-- A magnitude above the limit of 64 bits is an error.
unfoldable pub in_range_pos : Option ℕ → Option ℤ
in_range_pos none = none
in_range_pos (some n) = if ltb n (2 ^ 63) then some (pos n) else none

unfoldable pub in_range_neg : Option ℕ → Option ℤ
in_range_neg none = none
in_range_neg (some zero) = some (pos 0)
in_range_neg (some (suc n)) = if ltb n (2 ^ 63) then some (negsuc n) else none

-- `strconv.Atoi`, and `strconv.ParseInt` in base 10 at 64 bits; none for an error
unfoldable pub parse_int : Text → Option ℤ
unfolding digits_value in_range_pos in_range_neg
parse_int [] = none
parse_int (c ∷ s) =
    if c == b'-'
    then in_range_neg (digits_value s)
    else if c == b'+'
    then in_range_pos (digits_value s)
    else in_range_pos (digits_value (c ∷ s))

-- `unicode.IsSpace`
is_space : ℕ → Bool
is_space r =
    (leb 9 r && leb r 13)
    || r == b' '
    || r == 0x85
    || r == 0xA0
    || r == 0x1680
    || (leb 0x2000 r && leb r 0x200A)
    || r == 0x2028
    || r == 0x2029
    || r == 0x202F
    || r == 0x205F
    || r == 0x3000

-- `strings.TrimLeft` by that test; `skip` bytes belong to a space already seen.
trim_left : ℕ → Text → Text
unfolding is_space decode_rune
trim_left skip [] = []
trim_left (suc skip) (b ∷ s) = trim_left skip s
trim_left zero (b ∷ s) =
    let (r, width) = decode_rune b s in
    let rest = trim_left (width - 1) s in if is_space r then rest else b ∷ s

-- Whether the text holds nothing but spaces.
all_spaces : ℕ → Text → Bool
unfolding is_space decode_rune
all_spaces skip [] = true
all_spaces (suc skip) (b ∷ s) = all_spaces skip s
all_spaces zero (b ∷ s) = let (r, width) = decode_rune b s in is_space r && all_spaces (width - 1) s

trim_right : Text → Text
unfolding all_spaces
trim_right [] = []
trim_right (b ∷ s) = let rest = b ∷ trim_right s in if all_spaces 0 (b ∷ s) then [] else rest

-- `strings.TrimSpace`
unfoldable pub trim_space : Text → Text
unfolding trim_left trim_right
trim_space s = trim_right (trim_left 0 s)

-- Printing is read back, in front of any further digits.
pub digits_from-emit :
    (f n : ℕ) (out : Text) → n < f → digits_from 0 (emit f n out) ≡ digits_from n out
unfolding emit
digits_from-emit zero n out h = absurd (omega arith)
digits_from-emit (suc f) n out h = elim (Bool-cases (ltb n 10)) [
  | inl small ↦ rw small (unfold digits_from is_digit in ground arith)
  | inr big ↦ rw big (
      digits_from-emit f (n / 10) ((b'0' + n % 10) ∷ out) (ground arith)
      ∙ unfold digits_from is_digit in ground arith)
]
