-- ===== src/Isa.antt =====
-- The MIPS instructions that work on the registers and on `pc` alone, as the architecture defines them
-- without delay slots: what include/mips_v0.h and MipsCpp/mips.cpp are compared with. A register is a
-- 32-bit pattern; the constant of an instruction is a number of 16 bits.
pub mod Encoding
pub mod Values
use Prim.Native.Nat.{bit_and, bit_or, bit_xor}
use simple_bus_mdu.Prelude.{
  ℕ, ◌+◌, ◌-◌, ◌*◌, ◌/◌, ◌%◌, ◌^◌, ◌<◌, Bool, false, not, leb, ltb, Option, none, some, ◌==◌,
  if◌then◌else◌,
}
use simple_bus_mdu.Prelude.Int.{ℤ, pos, negsuc, pos_part, neg_part, sub_ℕ, ◌+ℤ◌}
use simple_bus_mdu.Word.{signed32, wrap32}
use simple_bus_mdu.Bus.Forms.{update}

pub data RegisterOp : Type 0 where
  add addu sub and or xor nor slt : RegisterOp

pub data ShiftOp : Type 0 where
  sll srl sra : ShiftOp

pub data ImmediateOp : Type 0 where
  addi addiu slti sltiu andi ori xori lui : ImmediateOp

pub data BranchOp : Type 0 where
  beq bne blez bgtz : BranchOp

-- `of_registers op rd rs rt`, `shift op rd rt shamt`, `immediate op rt rs k`, `branch op rs rt k`.
pub data Instruction : Type 0 where
  of_registers : RegisterOp → ℕ → ℕ → ℕ → Instruction
  shift : ShiftOp → ℕ → ℕ → ℕ → Instruction
  immediate : ImmediateOp → ℕ → ℕ → ℕ → Instruction
  branch : BranchOp → ℕ → ℕ → ℕ → Instruction
  jump_register : ℕ → Instruction
  jump : ℕ → Instruction
  jump_and_link : ℕ → Instruction

-- The fields have their widths.
abbrev pub IsEncodable : Instruction → Type 0
IsEncodable (of_registers op rd rs rt) = (rd < 2 ^ 5) × (rs < 2 ^ 5) × (rt < 2 ^ 5)
IsEncodable (shift op rd rt shamt) = (rd < 2 ^ 5) × (rt < 2 ^ 5) × (shamt < 2 ^ 5)
IsEncodable (immediate op rt rs k) = (rt < 2 ^ 5) × (rs < 2 ^ 5) × (k < 2 ^ 16)
IsEncodable (branch op rs rt k) = (rs < 2 ^ 5) × (rt < 2 ^ 5) × (k < 2 ^ 16)
IsEncodable (jump_register rs) = rs < 2 ^ 5
IsEncodable (jump target) = target < 2 ^ 26
IsEncodable (jump_and_link target) = target < 2 ^ 26

-- The integer that a constant of 16 bits stands for.
abbrev pub signed16 : ℕ → ℤ
signed16 k = if ltb k (2 ^ 15) then pos k else negsuc (2 ^ 16 - k - 1)

-- a < b and a - b, for integers.
abbrev pub is_less : ℤ → ℤ → Bool
is_less a b = ltb (pos_part a + neg_part b) (pos_part b + neg_part a)

abbrev pub minus : ℤ → ℤ → ℤ
minus a b = sub_ℕ (pos_part a + neg_part b) (pos_part b + neg_part a)

abbrev pub times_4 : ℤ → ℤ
times_4 (pos n) = pos (4 * n)
times_4 (negsuc n) = negsuc (4 * n + 3)

-- a / 2 ^ n, rounded down.
abbrev pub floor_shift : ℤ → ℕ → ℤ
floor_shift (pos a) n = pos (a / 2 ^ n)
floor_shift (negsuc a) n = negsuc (a / 2 ^ n)

abbrev pub truth : Bool → ℕ
truth b = if b then 1 else 0

unfoldable pub register_value : RegisterOp → ℕ → ℕ → ℕ
register_value add s t = wrap32 (signed32 s +ℤ signed32 t)
register_value addu s t = wrap32 (signed32 s +ℤ signed32 t)
register_value sub s t = wrap32 (minus (signed32 s) (signed32 t))
register_value and s t = bit_and s t
register_value or s t = bit_or s t
register_value xor s t = bit_xor s t
register_value nor s t = 2 ^ 32 - 1 - bit_or s t
register_value slt s t = truth (is_less (signed32 s) (signed32 t))

unfoldable pub shift_value : ShiftOp → ℕ → ℕ → ℕ
shift_value sll t n = t * 2 ^ n % 2 ^ 32
shift_value srl t n = t / 2 ^ n
shift_value sra t n = wrap32 (floor_shift (signed32 t) n)

-- ANDI, ORI and XORI take the constant without a sign; the others extend its sign.
unfoldable pub immediate_value : ImmediateOp → ℕ → ℕ → ℕ
immediate_value addi s k = wrap32 (signed32 s +ℤ signed16 k)
immediate_value addiu s k = wrap32 (signed32 s +ℤ signed16 k)
immediate_value slti s k = truth (is_less (signed32 s) (signed16 k))
immediate_value sltiu s k = truth (ltb s (wrap32 (signed16 k)))
immediate_value andi s k = bit_and s k
immediate_value ori s k = bit_or s k
immediate_value xori s k = bit_xor s k
immediate_value lui s k = k * 2 ^ 16

unfoldable pub is_taken : BranchOp → ℕ → ℕ → Bool
is_taken beq s t = s == t
is_taken bne s t = not (s == t)
is_taken blez s t = not (is_less (pos 0) (signed32 s))
is_taken bgtz s t = is_less (pos 0) (signed32 s)

-- A branch or a jump, from the `pc` of the next instruction.
unfoldable pub branch_to : ℕ → ℕ → ℕ
branch_to pc k = wrap32 (pos pc +ℤ times_4 (signed16 k))

abbrev pub jump_to : ℕ → ℕ → ℕ
jump_to pc target = pc / 2 ^ 28 * 2 ^ 28 + 4 * target

-- A sum or a difference that is no `int`: ADD, SUB and ADDI trap.
abbrev pub is_no_int : ℤ → Bool
is_no_int (pos n) = leb (2 ^ 31) n
is_no_int (negsuc n) = leb (2 ^ 31) n

unfoldable pub register_traps : RegisterOp → ℕ → ℕ → Bool
register_traps add s t = is_no_int (signed32 s +ℤ signed32 t)
register_traps sub s t = is_no_int (minus (signed32 s) (signed32 t))
register_traps _ s t = false

unfoldable pub immediate_traps : ImmediateOp → ℕ → ℕ → Bool
immediate_traps addi s k = is_no_int (signed32 s +ℤ signed16 k)
immediate_traps _ s k = false

-- What is written to register 0 is lost.
abbrev pub put : (ℕ → ℕ) → ℕ → ℕ → ℕ → ℕ
put r d v = if d == 0 then r else update r d v

-- The registers and `pc` after an instruction, where it does not trap. Register 0 is 0.
unfoldable pub meaning : Instruction → (ℕ → ℕ) → ℕ → Option ((ℕ → ℕ) × ℕ)
unfolding register_value shift_value immediate_value is_taken branch_to register_traps
    immediate_traps
meaning (of_registers op rd rs rt) r pc =
    if register_traps op (r rs) (r rt)
    then none
    else some (put r rd (register_value op (r rs) (r rt)), pc)
meaning (shift op rd rt shamt) r pc = some (put r rd (shift_value op (r rt) shamt), pc)
meaning (immediate op rt rs k) r pc =
    if immediate_traps op (r rs) k then none else some (put r rt (immediate_value op (r rs) k), pc)
meaning (branch op rs rt k) r pc =
    some (r, if is_taken op (r rs) (r rt) then branch_to pc k else pc)
meaning (jump_register rs) r pc = some (r, r rs)
meaning (jump target) r pc = some (r, jump_to pc target)
meaning (jump_and_link target) r pc = some (put r 31 pc, jump_to pc target)

-- The same without the traps, and with register 0 cleared before the instruction in place of after it:
-- what the two programs do.
unfoldable pub effect : Instruction → (ℕ → ℕ) → ℕ → (ℕ → ℕ) × ℕ
unfolding register_value shift_value immediate_value is_taken branch_to
effect ins regs pc =
    let r : ℕ → ℕ = update regs 0 0 in
    elim ins [
      | of_registers op rd rs rt ↦ (update r rd (register_value op (r rs) (r rt)), pc)
      | shift op rd rt shamt ↦ (update r rd (shift_value op (r rt) shamt), pc)
      | immediate op rt rs k ↦ (update r rt (immediate_value op (r rs) k), pc)
      | branch op rs rt k ↦ (r, if is_taken op (r rs) (r rt) then branch_to pc k else pc)
      | jump_register rs ↦ (r, r rs)
      | jump target ↦ (r, jump_to pc target)
      | jump_and_link target ↦ (update r 31 pc, jump_to pc target)
    ]
