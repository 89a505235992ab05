-- ===== src/Word/Division.antt =====
-- The quotient and the remainder of C++ on signed integers.
use native.Mathlib.Nat.{div-add-mod, mod-lt, mod-le, div-le_self, div-one}
use simple_bus_mdu.Prelude.{ℕ, zero, suc, ◌+◌, ◌*◌, ◌/◌, ◌%◌, ◌^◌, ◌≤◌, ◌<◌, ◌≡◌, ◌≢◌, refl, arith}
use simple_bus_mdu.Prelude.Int.{
  ℤ, pos, negsuc, pos_part, neg_part, magnitude, ◌+ℤ◌, ◌*ℤ◌, +ℤ_parts, *ℤ_parts, eq_of_parts,
}
use simple_bus_mdu.Word.{negate, quotient, remainder}
use simple_bus_mdu.Word.Signed.{FitsInt}

negate_parts : (n : ℕ) → (pos_part (negate n) ≡ 0) × (neg_part (negate n) ≡ n)
negate_parts zero = (refl, refl)
negate_parts (suc n) = (refl, refl)

-- What each sign makes of the parts.
quotient_parts :
    (a b : ℤ)
    → (pos_part (quotient a b) * pos_part b
          + neg_part (quotient a b) * neg_part b
          + pos_part (remainder a b)
          + neg_part a
        ≡ pos_part (quotient a b) * neg_part b
          + neg_part (quotient a b) * pos_part b
          + neg_part (remainder a b)
          + pos_part a)
unfolding quotient remainder
quotient_parts (pos x) (pos y) = ground (arith, div-add-mod x y)
quotient_parts (pos x) (negsuc y) = ground (arith, negate_parts (x / suc y), div-add-mod x (suc y))
quotient_parts (negsuc x) (pos y) =
    ground (arith, negate_parts (suc x / y), negate_parts (suc x % y), div-add-mod (suc x) y)
quotient_parts (negsuc x) (negsuc y) =
    ground (arith, negate_parts (suc x % suc y), div-add-mod (suc x) (suc y))

pub quotient-remainder : (a b : ℤ) → quotient a b *ℤ b +ℤ remainder a b ≡ a
quotient-remainder a b = eq_of_parts _ _ (
    omega (
      arith,
      quotient_parts a b,
      *ℤ_parts (quotient a b) b,
      +ℤ_parts (quotient a b *ℤ b) (remainder a b),
    ))

pub remainder-lt : (a b : ℤ) → magnitude b ≢ 0 → magnitude (remainder a b) < magnitude b
unfolding remainder
remainder-lt (pos x) b h = omega (arith, mod-lt x {m = magnitude b})
remainder-lt (negsuc x) b h =
    omega (arith, negate_parts (suc x % magnitude b), mod-lt (suc x) {m = magnitude b})

-- The remainder has the sign of the dividend, or is 0.
abbrev pub SameSign : ℤ → ℤ → Type 0
SameSign r (pos x) = neg_part r ≡ 0
SameSign r (negsuc x) = pos_part r ≡ 0

pub remainder-SameSign : (a b : ℤ) → SameSign (remainder a b) a
unfolding remainder
remainder-SameSign (pos x) b = refl
remainder-SameSign (negsuc x) b = (negate_parts (suc x % magnitude b)).0

-- The one quotient of two `int`s that is no `int`.
abbrev pub Overflows : ℤ → ℤ → Type 0
Overflows a b = (neg_part a ≡ 2 ^ 31) × (neg_part b ≡ 1)

div-lt-half : (x y : ℕ) → x ≤ 2 ^ 31 → 1 < y → x / y < 2 ^ 31
div-lt-half x y h k = grind (arith, div-add-mod x y)

pub quotient-FitsInt : (a b : ℤ) → FitsInt a → ¬ Overflows a b → FitsInt (quotient a b)
unfolding quotient
quotient-FitsInt (pos x) (pos y) h n = omega (arith, div-le_self x y)
quotient-FitsInt (pos x) (negsuc y) h n =
    omega (arith, div-le_self x (suc y), negate_parts (x / suc y))
quotient-FitsInt (negsuc x) (pos y) h n =
    omega (arith, div-le_self (suc x) y, negate_parts (suc x / y))
quotient-FitsInt (negsuc x) (negsuc zero) h n =
    let not_least : suc x ≢ 2 ^ 31 = λ e. n (e, refl) in omega (arith, div-one (suc x))
quotient-FitsInt (negsuc x) (negsuc (suc y)) h n = omega (arith, div-lt-half (suc x) (suc (suc y)))

pub remainder-FitsInt : (a b : ℤ) → FitsInt a → FitsInt (remainder a b)
unfolding remainder
remainder-FitsInt (pos x) b h = omega (arith, mod-le x (magnitude b))
remainder-FitsInt (negsuc x) b h =
    omega (arith, mod-le (suc x) (magnitude b), negate_parts (suc x % magnitude b))
