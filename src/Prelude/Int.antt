-- ===== src/Prelude/Int.antt =====
-- Go's signed integers: `negsuc n` is -(n + 1). A value of Go's 64-bit `int` that wraps is kept as
-- its bit pattern, a number below `int_modulus`.
use Prim.Native.Nat.{ℕ, ◌^◌}
use mathlib.Core.Bool.{Bool, ◌&&◌}
use agentic_dev_pipeline.Prelude.Tests.{ltb}

pub data ℤ : Type 0 where
  pos : ℕ → ℤ
  negsuc : ℕ → ℤ

abbrev pub int_modulus : ℕ
int_modulus = 2 ^ 64

abbrev pub max_int : ℕ
max_int = 9_223_372_036_854_775_807

-- `b < a` for a bit pattern `a` and a number `b` that is not negative
abbrev pub int_gt : ℕ → ℕ → Bool
int_gt a b = ltb b a && ltb a (2 ^ 63)
