-- ===== src/Mdu/Arithmetic.antt =====
-- What `calculate` of include/mdu.h returns, as signed arithmetic.
use simple_bus_mdu.Prelude.{
  ℕ, ◌-◌, ◌/◌, ◌%◌, ◌^◌, ◌<◌, ◌≡◌, ◌≢◌, refl, false, returns, fault, bad_division, arith, ◌⊎◌,
}
use simple_bus_mdu.Prelude.Int.{ℤ, pos, magnitude, ◌+ℤ◌, ◌*ℤ◌}
use simple_bus_mdu.Word.{signed32, wrap32, quotient, remainder}
use simple_bus_mdu.Word.Signed.{
  FitsInt, signed32-FitsInt, signed32-wrap32, product_fits, signed64_split,
}
use simple_bus_mdu.Word.Division.{
  quotient-remainder, remainder-lt, SameSign, remainder-SameSign, Overflows, quotient-FitsInt,
  remainder-FitsInt,
}
use simple_bus_mdu.Mdu.Const
use simple_bus_mdu.Mdu.{Mdu, product, divides_badly, calculate}

-- The registers hold `int`s.
pub record HoldsInts (m : Mdu) : Type 0 where
  pub op_a : m.op_a < 2 ^ 32
  pub op_b : m.op_b < 2 ^ 32

pub calculate-m_low : (m : Mdu) → calculate m Const.m_low ≡ returns (product m % 2 ^ 32)
unfolding calculate
calculate-m_low m = refl

pub calculate-m_high : (m : Mdu) → calculate m Const.m_high ≡ returns (product m / 2 ^ 32)
unfolding calculate
calculate-m_high m = refl

-- For all 32-bit operands, MHigh and MLow are the high and the low word of the signed product.
pub calculate-product :
    (m : Mdu)
    → HoldsInts m
    → (high low : ℕ) × (calculate m Const.m_high ≡ returns high)
      × (calculate m Const.m_low ≡ returns low)
      × (signed32 high *ℤ pos (2 ^ 32) +ℤ pos low ≡ signed32 m.op_a *ℤ signed32 m.op_b)
calculate-product m h = (
  product m / 2 ^ 32,
  product m % 2 ^ 32,
  calculate-m_high m,
  calculate-m_low m,
  unfold product in
      signed64_split (signed32 m.op_a *ℤ signed32 m.op_b) (
        product_fits (signed32 m.op_a) (signed32 m.op_b) (signed32-FitsInt m.op_a h.op_a)
          (signed32-FitsInt m.op_b h.op_b)),
)

-- The operands that C++ can divide.
pub record Divides (m : Mdu) : Type 0 where
  pub nonzero : m.op_b ≢ 0
  pub no_overflow : ¬ Overflows (signed32 m.op_a) (signed32 m.op_b)

divides_badly-Divides : (m : Mdu) → HoldsInts m → Divides m → divides_badly m.op_a m.op_b ≡ false
divides_badly-Divides m h d = ground (arith, d.nonzero, d.no_overflow)

magnitude_ne_zero : (w : ℕ) → w < 2 ^ 32 → w ≢ 0 → magnitude (signed32 w) ≢ 0
magnitude_ne_zero w h n = ground (arith, n)

-- For 32-bit operands with a divisor other than 0, and not the least `int` by -1, Div and Mod give the
-- dividend back; the remainder is smaller than the divisor and has the sign of the dividend.
pub calculate-division :
    (m : Mdu)
    → HoldsInts m
    → Divides m
    → (q r : ℕ) × (calculate m Const.div ≡ returns q)
      × (calculate m Const.modulo ≡ returns r)
      × (signed32 q *ℤ signed32 m.op_b +ℤ signed32 r ≡ signed32 m.op_a)
      × (magnitude (signed32 r) < magnitude (signed32 m.op_b))
      × SameSign (signed32 r) (signed32 m.op_a)
calculate-division m h d =
    let a : ℤ = signed32 m.op_a in
    let b : ℤ = signed32 m.op_b in
    let fits : FitsInt a = signed32-FitsInt m.op_a h.op_a in
    let well = divides_badly-Divides m h d in
    let back_q = signed32-wrap32 (quotient a b) (quotient-FitsInt a b fits d.no_overflow) in
    let back_r = signed32-wrap32 (remainder a b) (remainder-FitsInt a b fits) in
    (
      wrap32 (quotient a b),
      wrap32 (remainder a b),
      unfold calculate in ground (arith, well),
      unfold calculate in ground (arith, well),
      rw (back_q, back_r) (quotient-remainder a b),
      rw back_r (remainder-lt a b (magnitude_ne_zero m.op_b h.op_b d.nonzero)),
      rw back_r (remainder-SameSign a b),
    )

-- With a zero divisor, or with the least `int` by -1, Div and Mod have no defined result.
pub calculate-undivided :
    (m : Mdu)
    → (m.op_b ≡ 0) ⊎ ((m.op_a ≡ 2 ^ 31) × (m.op_b ≡ 2 ^ 32 - 1))
    → (calculate m Const.div ≡ fault bad_division) × (calculate m Const.modulo ≡ fault bad_division)
unfolding calculate
calculate-undivided m h = ground arith
