-- ===== src/Base/Int64.antt =====
-- Go's int64, and its int on a 64-bit machine, in excess form: the integer v is the number
-- v + 2 ^ 63. So the order of int64 is the order of ℕ, and arithmetic wraps by `% 2 ^ 64`.
use adaptive_leader.Base.Tests.{ltb}
use mathlib.Core.Path.{◌≡◌}
use mathlib.Core.Bool.{Bool}
use native.Mathlib.Omega.{arith}
use Prim.Native.Nat.{ℕ, ◌+◌, ◌-◌, ◌*◌, ◌%◌, ◌^◌, ◌<◌}

abbrev pub Int64 : Type 0
Int64 = ℕ

abbrev pub IsInt64 : Int64 → Type 0
IsInt64 a = a < 2 ^ 64

-- The integers n and -n.
abbrev pub int64 : ℕ → Int64
int64 n = n + 2 ^ 63

abbrev pub negative : ℕ → Int64
negative n = 2 ^ 63 - n

abbrev pub min_int64 : Int64
min_int64 = 0

abbrev pub max_int64 : Int64
max_int64 = 2 ^ 64 - 1

abbrev pub add64 : Int64 → Int64 → Int64
add64 a b = (a + b + 2 ^ 63) % 2 ^ 64

abbrev pub sub64 : Int64 → Int64 → Int64
sub64 a b = (a + 3 * 2 ^ 63 - b) % 2 ^ 64

-- The distance from 0, and the sign.
abbrev pub magnitude : Int64 → ℕ
magnitude a = (a - 2 ^ 63) + (2 ^ 63 - a)

abbrev pub is_negative : Int64 → Bool
is_negative a = ltb a (2 ^ 63)

-- `a++`
abbrev pub inc64 : Int64 → Int64
inc64 a = add64 a (int64 1)

pub inc64-of_lt : (a : Int64) → a < max_int64 → inc64 a ≡ a + 1
inc64-of_lt a h = omega arith

inc64_max : inc64 max_int64 ≡ min_int64
inc64_max = omega arith

add64-IsInt64 : (a b : Int64) → IsInt64 (add64 a b)
add64-IsInt64 a b = omega arith

pub sub64-add64 : (a b : Int64) → IsInt64 a → IsInt64 b → sub64 (add64 a b) b ≡ a
sub64-add64 a b p q = omega arith
