-- ===== src/Common/Words.antt =====
-- 32-bit machine words. A C `int` is kept as its bit pattern, compared by sign where the source does.
use Prim.Native.Nat.{ℕ, ◌+◌, ◌-◌, ◌%◌, ◌^◌}
use mathlib.Core.Bool.{Bool}
use ele3021_spring.Common.Tests.{ltb}

abbrev pub word : ℕ
word = 2 ^ 32

-- unsigned (and two's complement) addition and subtraction
abbrev pub add32 : ℕ → ℕ → ℕ
add32 a b = (a + b) % word

abbrev pub sub32 : ℕ → ℕ → ℕ
sub32 a b = (a + word - b) % word

-- signed `<` on bit patterns
abbrev pub slt : ℕ → ℕ → Bool
slt a b = ltb ((a + 2 ^ 31) % word) ((b + 2 ^ 31) % word)

-- the pattern of -n
abbrev pub minus : ℕ → ℕ
minus n = word - n
