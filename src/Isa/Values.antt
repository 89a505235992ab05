-- ===== src/Isa/Values.antt =====
-- The words that the instructions of the architecture give, as the C++ of include/mips_v0.h and of
-- MipsCpp/mips.cpp computes them on bit patterns.
use native.Mathlib.Nat.{div-le_self}
use Prim.Native.Nat.{bit_and, bit_or, bit_xor}
use simple_bus_mdu.Prelude.{ap, Bool, not, ◌==◌, ℕ, ◌-◌, ◌*◌, ◌/◌, ◌^◌, ◌<◌, ◌≡◌, refl, arith}
use simple_bus_mdu.Prelude.Int.{◌+ℤ◌}
use simple_bus_mdu.Word.{signed32, wrap32}
use simple_bus_mdu.MemMips.{shift_right, int16}
use simple_bus_mdu.Mips.{plus, subtract, shift_left, less_than, branch_target, jump_target, bit}
use simple_bus_mdu.Isa.{
  RegisterOp, ShiftOp, BranchOp, add, addu, sub, and, or, xor, nor, slt, sll, srl, sra, beq, bne,
  blez, bgtz, register_value, shift_value, is_taken, signed16, is_less, minus, floor_shift,
  branch_to, jump_to,
}

pub plus-signed32 :
    (s t : ℕ) → s < 2 ^ 32 → t < 2 ^ 32 → plus s t ≡ wrap32 (signed32 s +ℤ signed32 t)
unfolding ◌+ℤ◌
plus-signed32 s t h k = ground arith

pub plus-signed16 :
    (s c : ℕ) → s < 2 ^ 32 → c < 2 ^ 16 → plus s (int16 c) ≡ wrap32 (signed32 s +ℤ signed16 c)
unfolding ◌+ℤ◌
plus-signed16 s c h k = ground arith

pub subtract-signed32 :
    (s t : ℕ) → s < 2 ^ 32 → t < 2 ^ 32 → subtract s t ≡ wrap32 (minus (signed32 s) (signed32 t))
subtract-signed32 s t h k = ground arith

pub less_than-signed32 :
    (s t : ℕ) → s < 2 ^ 32 → t < 2 ^ 32 → less_than s t ≡ is_less (signed32 s) (signed32 t)
less_than-signed32 s t h k = ground arith

pub less_than-signed16 :
    (s c : ℕ) → s < 2 ^ 32 → c < 2 ^ 16 → less_than s (int16 c) ≡ is_less (signed32 s) (signed16 c)
less_than-signed16 s c h k = ground arith

pub int16-signed16 : (c : ℕ) → c < 2 ^ 16 → int16 c ≡ wrap32 (signed16 c)
int16-signed16 c h = ground arith

pub int16_small : (c : ℕ) → c < 2 ^ 15 → int16 c ≡ c
int16_small c h = ground arith

pub shift_right-floor_shift :
    (t n : ℕ) → t < 2 ^ 32 → shift_right t n ≡ wrap32 (floor_shift (signed32 t) n)
unfolding shift_right
shift_right-floor_shift t n h =
    ground (arith, div-le_self t (2 ^ n), div-le_self (2 ^ 32 - 1 - t) (2 ^ n))

pub shift_left-int16 : (c : ℕ) → c < 2 ^ 16 → shift_left (int16 c) 16 ≡ c * 2 ^ 16
shift_left-int16 c h = ground arith

pub branch_target-branch_to :
    (pc c : ℕ) → pc < 2 ^ 32 → c < 2 ^ 16 → branch_target pc (int16 c) ≡ branch_to pc c
unfolding branch_to ◌+ℤ◌
branch_target-branch_to pc c h k = ground arith

pub jump_target-jump_to : (pc target : ℕ) → jump_target pc target ≡ jump_to pc target
jump_target-jump_to pc target = omega arith

-- What the C++ code computes for an instruction; `c` is what its decoder makes of the constant.
unfoldable pub computed_register : RegisterOp → ℕ → ℕ → ℕ
computed_register add s t = plus s t
computed_register addu s t = plus s t
computed_register sub s t = subtract s t
computed_register and s t = bit_and s t
computed_register or s t = bit_or s t
computed_register xor s t = bit_xor s t
computed_register nor s t = 2 ^ 32 - 1 - bit_or s t
computed_register slt s t = bit (less_than s t)

unfoldable pub computed_shift : ShiftOp → ℕ → ℕ → ℕ
computed_shift sll t n = shift_left t n
computed_shift srl t n = t / 2 ^ n
computed_shift sra t n = shift_right t n

unfoldable pub computed_test : BranchOp → ℕ → ℕ → Bool
computed_test beq s t = s == t
computed_test bne s t = not (s == t)
computed_test blez s t = not (less_than 0 s)
computed_test bgtz s t = less_than 0 s

pub computed_register-value :
    (op : RegisterOp) (s t : ℕ)
    → s < 2 ^ 32
    → t < 2 ^ 32
    → computed_register op s t ≡ register_value op s t
unfolding computed_register register_value
computed_register-value add s t h k = plus-signed32 s t h k
computed_register-value addu s t h k = plus-signed32 s t h k
computed_register-value sub s t h k = subtract-signed32 s t h k
computed_register-value and s t h k = refl
computed_register-value or s t h k = refl
computed_register-value xor s t h k = refl
computed_register-value nor s t h k = refl
computed_register-value slt s t h k = ap bit (less_than-signed32 s t h k)

pub computed_shift-value :
    (op : ShiftOp) (t n : ℕ) → t < 2 ^ 32 → computed_shift op t n ≡ shift_value op t n
unfolding computed_shift shift_value
computed_shift-value sll t n h = refl
computed_shift-value srl t n h = refl
computed_shift-value sra t n h = shift_right-floor_shift t n h

pub computed_test-is_taken :
    (op : BranchOp) (s t : ℕ) → s < 2 ^ 32 → computed_test op s t ≡ is_taken op s t
unfolding computed_test is_taken
computed_test-is_taken beq s t h = refl
computed_test-is_taken bne s t h = refl
computed_test-is_taken blez s t h = ap not (less_than-signed32 0 s (omega arith) h)
computed_test-is_taken bgtz s t h = less_than-signed32 0 s (omega arith) h
