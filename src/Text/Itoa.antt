-- ===== src/Text/Itoa.antt =====
-- Laws of the decimal numbers that `fmt` prints: they are read back, and are made of digits.
use agentic_dev_pipeline.Prelude.{
  All, Bool-cases, [], ap, arith, false, inl, inr, ltb, pos, some, suc, sym, true, zero, ℕ, ◌%◌,
  ◌+◌, ◌/◌, ◌<◌, ◌==◌, ◌^◌, ◌∙◌, ◌∷◌, ◌≡◌,
}
use agentic_dev_pipeline.Text.{Text}
use agentic_dev_pipeline.Text.Decimal.{
  digits_from, digits_from-emit, digits_value, emit, in_range_pos, is_digit, itoa, parse_int,
}

abbrev pub IsDigits : Text → Type 0
IsDigits s = All (λ c. is_digit c ≡ true) s

digit-IsDigit : (n : ℕ) → n < 10 → is_digit (b'0' + n) ≡ true
unfolding is_digit
digit-IsDigit n h = ground arith

-- There is a first digit, and all bytes are digits.
emit-IsDigits :
    (f n : ℕ) (out : Text)
    → IsDigits out
    → (c : ℕ) × (s : Text) × (emit (suc f) n out ≡ c ∷ s) × IsDigits (c ∷ s)
unfolding emit
emit-IsDigits zero n out h = elim (Bool-cases (ltb n 10)) [
  | inl e ↦ (b'0' + n, out, rw e, (digit-IsDigit n (ground arith), h))
  | inr e ↦ (b'0' + n % 10, out, rw e, (digit-IsDigit (n % 10) (omega arith), h))
]
emit-IsDigits (suc f) n out h = elim (Bool-cases (ltb n 10)) [
  | inl e ↦ (b'0' + n, out, rw e, (digit-IsDigit n (ground arith), h))
  | inr e ↦
      rw e
        (emit-IsDigits f (n / 10) ((b'0' + n % 10) ∷ out) (digit-IsDigit (n % 10) (omega arith), h))
]

pub itoa-cons : (n : ℕ) → (c : ℕ) × (s : Text) × (itoa n ≡ c ∷ s) × IsDigits (c ∷ s)
unfolding itoa
itoa-cons n = emit-IsDigits n n [] tt

pub itoa-IsDigits : (n : ℕ) → IsDigits (itoa n)
itoa-IsDigits n = let (c, s, e, h) = itoa-cons n in rw e h

pub digits_value-itoa : (n : ℕ) → digits_value (itoa n) ≡ some n
digits_value-itoa n =
    let (c, s, e, h) = itoa-cons n in
    let value : digits_from 0 (itoa n) ≡ some n =
      unfold itoa digits_from in digits_from-emit (suc n) n [] (omega arith) in
    rw e (unfold digits_value in (rw e at value))

pub itoa-injective : (m n : ℕ) → itoa m ≡ itoa n → m ≡ n
itoa-injective m n h = cc (digits_value-itoa m, digits_value-itoa n)

-- A text that begins with a digit has no sign.
unsigned :
    (c : ℕ) (s : Text) → is_digit c ≡ true → parse_int (c ∷ s) ≡ in_range_pos (digits_value (c ∷ s))
unfolding parse_int is_digit
unsigned c s h =
    let minus : (c == b'-') ≡ false = ground arith in
    let plus : (c == b'+') ≡ false = ground arith in rw (minus, plus)

fits : (n : ℕ) → n < 2 ^ 63 → in_range_pos (some n) ≡ some (pos n)
unfolding in_range_pos
fits n h = ground arith

-- A printed number that fits is parsed to itself.
pub parse_int-itoa : (n : ℕ) → n < 2 ^ 63 → parse_int (itoa n) ≡ some (pos n)
parse_int-itoa n h =
    let (c, s, e, d) = itoa-cons n in
    ap parse_int e
    ∙ unsigned c s d.0
    ∙ ap in_range_pos (sym (ap digits_value e) ∙ digits_value-itoa n)
    ∙ fits n h
