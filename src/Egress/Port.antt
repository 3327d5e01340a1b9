-- ===== src/Egress/Port.antt =====
-- The port of the egress proxy, of egress.go: the hand-written number parser against the value of a
-- text of digits.
use agentic_dev_pipeline.Prelude.{
  Bool-cases, Option, [], arith, false, if◌then◌else◌, inl, inr, int_gt, int_modulus, ltb, none,
  refl, some, true, ℕ, ◌%◌, ◌*◌, ◌+◌, ◌-◌, ◌||◌, ◌∷◌, ◌≡◌,
}
use agentic_dev_pipeline.Text.{Text, codes}
use agentic_dev_pipeline.Text.Decimal.{digits_from, digits_value, is_digit}
use agentic_dev_pipeline.Egress.{atoi_from, atoi_or_zero, egress_proxy_port}

-- The value of the digits, as a Go `int` that wraps; 0 where a byte is no digit.
abbrev pub wrapped : Option ℕ → ℕ
wrapped none = 0
wrapped (some n) = n % int_modulus

atoi_from-digits_from :
    (n : ℕ) (s : Text) → atoi_from (n % int_modulus) s ≡ wrapped (digits_from n s)
unfolding atoi_from digits_from is_digit
atoi_from-digits_from n [] = refl
atoi_from-digits_from n (c ∷ s) = elim (Bool-cases (is_digit c)) [
  | inl e ↦
      let low : ltb c b'0' ≡ false = ground arith in
      let high : ltb b'9' c ≡ false = ground arith in
      let step : (n % int_modulus * 10 + (c - b'0')) % int_modulus
          ≡ (n * 10 + (c - b'0')) % int_modulus =
        omega arith in
      rw (low, high, step, e) (atoi_from-digits_from (n * 10 + (c - b'0')) s)
  | inr e ↦ let other : (ltb c b'0' || ltb b'9' c) ≡ true = ground arith in rw (other, e)
]

-- The parser returns the value of a text of digits modulo 2^64, and 0 for any other text that is not
-- empty.
pub atoi_or_zero-wrapped :
    (c : ℕ) (s : Text) → atoi_or_zero (c ∷ s) ≡ wrapped (digits_value (c ∷ s))
unfolding atoi_or_zero digits_value
atoi_or_zero-wrapped c s = atoi_from-digits_from 0 (c ∷ s)

-- The port that a value of the environment stands for.
abbrev pub port_of : Option ℕ → ℕ
port_of none = 3128
port_of (some n) = if int_gt (n % int_modulus) 0 then n % int_modulus else 3128

test_of : (o : Option ℕ) → (if int_gt (wrapped o) 0 then wrapped o else 3128) ≡ port_of o
test_of none = refl
test_of (some n) = refl

by_value :
    (v : Text)
    → (elim v [
      | [] ↦ 3128
      | c ∷ s ↦ let n = atoi_or_zero (c ∷ s) in if int_gt n 0 then n else 3128
    ])
      ≡ port_of (digits_value v)
by_value [] = unfold digits_value in refl
by_value (c ∷ s) = rw (atoi_or_zero-wrapped c s) (test_of (digits_value (c ∷ s)))

-- The port is the number that `EGRESS_PROXY_PORT` spells in digits, taken modulo 2^64 and read as a
-- signed number, where that is positive, and 3128 in every other case, the empty value included.
pub egress_proxy_port-port_of :
    (getenv : Text → Text)
    → egress_proxy_port getenv ≡ port_of (digits_value (getenv (codes "EGRESS_PROXY_PORT")))
unfolding egress_proxy_port
egress_proxy_port-port_of getenv = by_value (getenv (codes "EGRESS_PROXY_PORT"))
