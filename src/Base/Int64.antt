-- ===== src/Base/Int64.antt =====
-- Go's `int` and `int64` as bit patterns below 2 ^ 64, the negative ones from 2 ^ 63 on.
use Prim.Native.Nat.{ℕ, ◌+◌, ◌-◌, ◌/◌, ◌%◌, ◌^◌}
use mathlib.Core.Bool.{Bool}
use snmpproxy.Base.Tests.{ltb, leb, if◌then◌else◌}

abbrev pub word : ℕ
word = 2 ^ 64

abbrev pub half_word : ℕ
half_word = 2 ^ 63

abbrev pub add64 : ℕ → ℕ → ℕ
add64 a b = (a + b) % word

-- `a < b` and `a <= b` on signed values.
abbrev pub slt : ℕ → ℕ → Bool
slt a b = ltb ((a + half_word) % word) ((b + half_word) % word)

abbrev pub sle : ℕ → ℕ → Bool
sle a b = leb ((a + half_word) % word) ((b + half_word) % word)

-- The bit pattern of -1.
abbrev pub minus_one : ℕ
minus_one = word - 1

-- `a / b` on signed values with 0 < b: the quotient is cut off towards 0.
abbrev pub sdiv : ℕ → ℕ → ℕ
sdiv a b = if leb half_word a then (word - (word - a) / b) % word else a / b
