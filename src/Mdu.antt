-- ===== src/Mdu.antt =====
-- The multiplication and division unit: include/mdu.h.
pub mod Const
pub mod Arithmetic
pub mod Timing
pub mod NoWaitStates
pub mod Undivided
use Const
use simple_bus_mdu.Prelude.{
  ℕ, zero, suc, ◌+◌, ◌-◌, ◌*◌, ◌/◌, ◌%◌, ◌^◌, Bool, true, false, ◌&&◌, ◌||◌, Outcome, returns,
  fault, bad_division, ◌==◌, if◌then◌else◌, ◌>>=◌,
}
use simple_bus_mdu.Prelude.Int.{ℤ, pos, negsuc, ◌*ℤ◌}
use simple_bus_mdu.Word.{signed32, wrap32, wrap64, quotient, remainder}
use simple_bus_mdu.Types.{Status, ok, wait, error, SlaveIf}

-- `struct MDU`. The registers are `int`s; `verbose` only prints.
pub record Mdu : Type 0 where
  pub op_a : ℕ
  pub op_b : ℕ
  pub wait_states : ℤ
  pub wait_left : ℤ

-- The constructor. It leaves the registers as they are.
abbrev pub new : ℕ → ℕ → ℤ → Mdu
new a b states = record { op_a = a; op_b = b; wait_states = states; wait_left = negsuc 0 }

abbrev pub count_down : ℤ → ℤ
count_down (pos zero) = negsuc 0
count_down (pos (suc n)) = pos n
count_down (negsuc n) = negsuc n

-- `update_wait_left`, at each rising edge
abbrev pub update_wait_left : Mdu → Mdu
update_wait_left m = record m { wait_left = count_down m.wait_left }

-- `1ll * opA * opB`, which fits in 64 bits
unfoldable pub product : Mdu → ℕ
product m = wrap64 (signed32 m.op_a *ℤ signed32 m.op_b)

-- C++ leaves `x / y` and `x % y` undefined at y = 0 and where the quotient is no `int`.
abbrev pub divides_badly : ℕ → ℕ → Bool
divides_badly a b = b == 0 || (a == 2 ^ 31 && b == 2 ^ 32 - 1)

unfoldable pub div_by : (ℤ → ℤ → ℤ) → ℕ → ℕ → Outcome ℕ
div_by f a b =
    if divides_badly a b then fault bad_division else returns (wrap32 (f (signed32 a) (signed32 b)))

unfoldable pub calculate : Mdu → ℕ → Outcome ℕ
unfolding product div_by
calculate m address =
    if address == Const.m_low
    then returns (product m % 2 ^ 32)
    else if address == Const.m_high
    then returns (product m / 2 ^ 32)
    else if address == Const.div
    then div_by quotient m.op_a m.op_b
    else if address == Const.modulo
    then div_by remainder m.op_a m.op_b
    else returns 0

-- `read`, by the sign of `wait_left`
unfoldable pub read_at : ℤ → Mdu → ℕ → ℕ → Outcome (Status × ℕ × Mdu)
unfolding calculate
read_at (pos (suc n)) m d address = returns (wait, d, m)
read_at (pos zero) m d address = calculate m address >>= λ v. returns (ok, v, m)
read_at (negsuc n) m d address = returns (wait, d, record m { wait_left = m.wait_states })

unfoldable pub read : Mdu → ℕ → ℕ → Outcome (Status × ℕ × Mdu)
unfolding read_at
read m d address = read_at m.wait_left m d address

-- The two writes that `write` and `direct_write` share.
unfoldable pub store : Mdu → ℕ → ℕ → Bool × Mdu
store m d address =
    if address == Const.op_a
    then (true, record m { op_a = d })
    else if address == Const.op_b
    then (true, record m { op_b = d })
    else (false, m)

abbrev pub stored_status : Bool × Mdu → Status × Mdu
stored_status (true, m) = (ok, m)
stored_status (false, m) = (error, m)

unfoldable pub write_at : ℤ → Mdu → ℕ → ℕ → Outcome (Status × Mdu)
unfolding store
write_at (pos n) m d address = returns (wait, m)
write_at (negsuc n) m d address = returns (stored_status (store m d address))

unfoldable pub write : Mdu → ℕ → ℕ → Outcome (Status × Mdu)
unfolding write_at
write m d address = write_at m.wait_left m d address

unfoldable pub direct_read : Mdu → ℕ → ℕ → Outcome (Bool × ℕ)
unfolding calculate
direct_read m d address = calculate m address >>= λ v. returns (true, v)

unfoldable pub direct_write : Mdu → ℕ → ℕ → Outcome (Bool × Mdu)
unfolding store
direct_write m d address = returns (store m d address)

instance abbrev pub mdu : SlaveIf Mdu
mdu = record {
  read = read;
  write = write;
  direct_read = direct_read;
  direct_write = direct_write;
  start_address = λ m. Const.start_addr;
  end_address = λ m. Const.end_addr;
  posedge = update_wait_left;
}
