-- ===== src/Word/Signed.antt =====
-- Bit patterns and the integers that they stand for.
use simple_bus_mdu.Prelude.{ℕ, ◌*◌, ◌/◌, ◌%◌, ◌^◌, ◌≤◌, ◌<◌, ◌≡◌, arith}
use simple_bus_mdu.Prelude.Int.{ℤ, pos, negsuc, pos_part, neg_part, magnitude, ◌+ℤ◌, ◌*ℤ◌}
use simple_bus_mdu.Word.{signed32, wrap32, wrap64}

-- The integers of an `int`.
abbrev pub FitsInt : ℤ → Type 0
FitsInt a = (pos_part a < 2 ^ 31) × (neg_part a ≤ 2 ^ 31)

pub signed32-FitsInt : (w : ℕ) → w < 2 ^ 32 → FitsInt (signed32 w)
signed32-FitsInt w h = ground arith

pub wrap32-lt : (a : ℤ) → wrap32 a < 2 ^ 32
wrap32-lt (pos n) = omega arith
wrap32-lt (negsuc n) = omega arith

pub signed32-wrap32 : (a : ℤ) → FitsInt a → signed32 (wrap32 a) ≡ a
signed32-wrap32 (pos n) h = ground arith
signed32-wrap32 (negsuc n) h = ground arith

pub wrap32-signed32 : (w : ℕ) → w < 2 ^ 32 → wrap32 (signed32 w) ≡ w
wrap32-signed32 w h = ground arith

mul-bound : (x y m n : ℕ) → x ≤ m → y ≤ n → x * y ≤ m * n
mul-bound x y m n h k = grind arith

pub magnitude-mul : (a b : ℤ) → magnitude (a *ℤ b) ≤ magnitude a * magnitude b
unfolding ◌*ℤ◌
magnitude-mul (pos x) (pos y) = ground arith
magnitude-mul (pos x) (negsuc y) = ground arith
magnitude-mul (negsuc x) (pos y) = ground arith
magnitude-mul (negsuc x) (negsuc y) = ground arith

pub product_fits : (a b : ℤ) → FitsInt a → FitsInt b → magnitude (a *ℤ b) ≤ 2 ^ 62
product_fits a b h k = omega (
  arith,
  magnitude-mul a b,
  mul-bound (magnitude a) (magnitude b) (2 ^ 31) (2 ^ 31) (ground arith) (ground arith),
)

-- A 64-bit pattern is its high word, signed, and its low word, unsigned.
pub signed64_split :
    (a : ℤ)
    → magnitude a ≤ 2 ^ 62
    → signed32 (wrap64 a / 2 ^ 32) *ℤ pos (2 ^ 32) +ℤ pos (wrap64 a % 2 ^ 32) ≡ a
unfolding ◌*ℤ◌ ◌+ℤ◌
signed64_split (pos n) h = ground arith
signed64_split (negsuc n) h = ground arith
