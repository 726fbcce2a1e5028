-- ===== src/Prelude/Words.antt =====
-- Machine words as bit patterns: 64-bit sums and differences, and signed readings.
use Prim.Native.Nat.{ℕ, ◌+◌, ◌-◌, ◌%◌, ◌^◌}
use mathlib.Core.Bool.{Bool, not}
use systems_programming.Prelude.Tests.{ltb, if◌then◌else◌}

abbrev pub add64 : ℕ → ℕ → ℕ
add64 a b = (a + b) % 2 ^ 64

abbrev pub sub64 : ℕ → ℕ → ℕ
sub64 a b = (a + 2 ^ 64 - b) % 2 ^ 64

-- An int as a 64-bit pattern.
abbrev pub sign_extend : ℕ → ℕ
sign_extend b = if ltb b (2 ^ 31) then b else b + 2 ^ 64 - 2 ^ 32

-- The order of signed 64-bit numbers.
abbrev pub signed_ltb : ℕ → ℕ → Bool
signed_ltb a b = ltb ((a + 2 ^ 63) % 2 ^ 64) ((b + 2 ^ 63) % 2 ^ 64)

abbrev pub signed_leb : ℕ → ℕ → Bool
signed_leb a b = not (signed_ltb b a)

-- Sums, negation and order of ints.
abbrev pub add32 : ℕ → ℕ → ℕ
add32 a b = (a + b) % 2 ^ 32

abbrev pub neg32 : ℕ → ℕ
neg32 a = (2 ^ 32 - a) % 2 ^ 32

abbrev pub signed32_ltb : ℕ → ℕ → Bool
signed32_ltb a b = ltb ((a + 2 ^ 31) % 2 ^ 32) ((b + 2 ^ 31) % 2 ^ 32)
