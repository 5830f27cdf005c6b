-- ===== src/Prelude/Words.antt =====
-- Go's 64-bit signed integers (`int`, `int64`, `time.Duration`) as bit patterns below 2 ^ 64.
use Prim.Native.Nat.{ℕ, suc, ◌+◌, ◌*◌, ◌%◌, ◌^◌}
use mathlib.Core.Path.{◌≡◌}
use mathlib.Core.Bool.{Bool, true}
use native.Mathlib.Omega.{arith}
use arkonis_operator.Prelude.Tests.{ltb, leb}

abbrev pub Int64 : Type 0
Int64 = ℕ

abbrev pub word : ℕ
word = 2 ^ 64

-- One above the largest positive value.
abbrev pub half : ℕ
half = 2 ^ 63

abbrev pub add64 : Int64 → Int64 → Int64
add64 a b = (a + b) % word

abbrev pub mul64 : Int64 → Int64 → Int64
mul64 a b = (a * b) % word

-- Adding 2 ^ 63 turns the signed order into the order of the patterns.
abbrev pub bias : Int64 → ℕ
bias a = (a + half) % word

-- `a < b` and `a <= b` on signed integers.
abbrev pub lt64 : Int64 → Int64 → Bool
lt64 a b = ltb (bias a) (bias b)

abbrev pub le64 : Int64 → Int64 → Bool
le64 a b = leb (bias a) (bias b)

-- Below another value, adding one does not wrap.
pub bias-suc : (a b : Int64) → lt64 a b ≡ true → bias (add64 a 1) ≡ suc (bias a)
bias-suc a b h = ground arith
