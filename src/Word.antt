-- ===== src/Word.antt =====
-- The machine integers of the C++ code: an `int` is its 32-bit pattern, a number below 2 ^ 32, and
-- stands for a signed integer. The compilers that SystemC runs on use two's complement, and convert
-- a wide integer to a narrow one by dropping the high bits.
pub mod Signed
pub mod Division
use simple_bus_mdu.Prelude.{ℕ, zero, suc, ◌+◌, ◌-◌, ◌*◌, ◌/◌, ◌%◌, ◌^◌, ltb, if◌then◌else◌}
use simple_bus_mdu.Prelude.Int.{ℤ, pos, negsuc, magnitude}

-- The integer that a 32-bit pattern stands for.
abbrev pub signed32 : ℕ → ℤ
signed32 w = if ltb w (2 ^ 31) then pos w else negsuc (2 ^ 32 - w - 1)

-- The integer, reduced to 32 bits.
abbrev pub wrap32 : ℤ → ℕ
wrap32 (pos n) = n % 2 ^ 32
wrap32 (negsuc n) = 2 ^ 32 - 1 - n % 2 ^ 32

-- The 64-bit pattern of an integer.
abbrev pub wrap64 : ℤ → ℕ
wrap64 (pos n) = n % 2 ^ 64
wrap64 (negsuc n) = 2 ^ 64 - 1 - n % 2 ^ 64

-- - n
abbrev pub negate : ℕ → ℤ
negate zero = pos 0
negate (suc n) = negsuc n

-- The quotient of C++, rounded towards zero, and its remainder, with the sign of the dividend.
unfoldable pub quotient : ℤ → ℤ → ℤ
quotient (pos x) (pos y) = pos (x / y)
quotient (pos x) (negsuc y) = negate (x / suc y)
quotient (negsuc x) (pos y) = negate (suc x / y)
quotient (negsuc x) (negsuc y) = pos (suc x / suc y)

unfoldable pub remainder : ℤ → ℤ → ℤ
remainder (pos x) b = pos (x % magnitude b)
remainder (negsuc x) b = negate (suc x % magnitude b)
