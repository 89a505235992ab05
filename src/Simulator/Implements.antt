-- ===== src/Simulator/Implements.antt =====
-- The instructions of MipsCpp/mips.cpp that use the registers and `pc` alone, against their effect in Isa.
use simple_bus_mdu.Prelude.{
  ℕ, ◌*◌, ◌^◌, ◌<◌, ◌≡◌, refl, ap, sym, ◌∙◌, Bool, true, false, returns, arith, if◌then◌else◌,
}
use simple_bus_mdu.Word.{wrap32}
use simple_bus_mdu.Bus.Forms.{update}
use simple_bus_mdu.Mips.Codes.Opcode
use simple_bus_mdu.Mips.Codes.Funct
use simple_bus_mdu.Mips.{Decoded, shift_left, jump_target, branch_target}
use simple_bus_mdu.Simulator.{Machine, set_reg, decode}
use simple_bus_mdu.Simulator.Execute.{execute, execute_opcode, execute_fun, branch_if}
use simple_bus_mdu.Isa.{
  Instruction, of_registers, shift, immediate, branch, jump_register, jump, jump_and_link,
  RegisterOp, ShiftOp, ImmediateOp, BranchOp, IsEncodable, add, addu, sub, and, or, xor, nor, slt,
  sll, srl, sra, addi, addiu, slti, sltiu, andi, ori, xori, lui, beq, bne, blez, bgtz, effect,
  immediate_value, signed16, branch_to,
}
use simple_bus_mdu.Isa.Encoding.{
  encode, decode-encode, register_funct, shift_funct, immediate_opcode, branch_opcode,
}
use simple_bus_mdu.Isa.Values.{
  computed_register, computed_shift, computed_test, computed_register-value, computed_shift-value,
  computed_test-is_taken, plus-signed16, less_than-signed16, int16_small, branch_target-branch_to,
  jump_target-jump_to,
}

-- The sign of the constant of SLTIU and of the branches is not set.
abbrev pub OffsetsAreSmall : Instruction → Type 0
OffsetsAreSmall (immediate sltiu rt rs k) = k < 2 ^ 15
OffsetsAreSmall (branch op rs rt k) = k < 2 ^ 15
OffsetsAreSmall _ = Unit

-- Register 0 is cleared before an instruction.
abbrev pub cleared : Machine → ℕ → ℕ
cleared p = update p.breg 0 0

-- The machine with other registers and another `pc`.
abbrev pub moved : Machine → (ℕ → ℕ) × ℕ → Machine
moved p (regs, pc) = record p { breg = regs; pc = pc }

-- Every register holds a word, and `pc` too.
abbrev pub HoldsWords : Machine → Type 0
HoldsWords p = ((j : ℕ) → p.breg j < 2 ^ 32) × (p.pc < 2 ^ 32)

cleared-lt : (p : Machine) (j : ℕ) → HoldsWords p → cleared p j < 2 ^ 32
cleared-lt p j h = ground (arith, h.0 j)

execute-of_registers :
    (p : Machine) (i : Decoded) (op : RegisterOp)
    → i.opcode ≡ Opcode.fun
    → i.funct ≡ register_funct op
    → execute p i
      ≡ returns (
          (moved p (
            update (cleared p) i.rd (computed_register op (cleared p i.rs) (cleared p i.rt)),
            p.pc,
          )))
unfolding execute execute_opcode execute_fun computed_register
execute-of_registers p i add o f = rw (o, f) refl
execute-of_registers p i addu o f = rw (o, f) refl
execute-of_registers p i sub o f = rw (o, f) refl
execute-of_registers p i and o f = rw (o, f) refl
execute-of_registers p i or o f = rw (o, f) refl
execute-of_registers p i xor o f = rw (o, f) refl
execute-of_registers p i nor o f = rw (o, f) refl
execute-of_registers p i slt o f = rw (o, f) refl

execute-shift :
    (p : Machine) (i : Decoded) (op : ShiftOp)
    → i.opcode ≡ Opcode.fun
    → i.funct ≡ shift_funct op
    → execute p i
      ≡ returns
          ((moved p (update (cleared p) i.rd (computed_shift op (cleared p i.rt) i.shamt), p.pc)))
unfolding execute execute_opcode execute_fun computed_shift
execute-shift p i sll o f = rw (o, f) refl
execute-shift p i srl o f = rw (o, f) refl
execute-shift p i sra o f = rw (o, f) refl

execute-immediate :
    (p : Machine) (i : Decoded) (op : ImmediateOp) (rt rs k : ℕ)
    → i.opcode ≡ immediate_opcode op
    → i.kte16 ≡ k
    → k < 2 ^ 16
    → OffsetsAreSmall (immediate op rt rs k)
    → HoldsWords p
    → execute p i
      ≡ returns ((moved p (update (cleared p) i.rt (immediate_value op (cleared p i.rs) k), p.pc)))
unfolding execute execute_opcode immediate_value
execute-immediate p i addi rt rs k o c lt small h =
    rw (o, c, plus-signed16 (cleared p i.rs) k (cleared-lt p i.rs h) lt) refl
execute-immediate p i addiu rt rs k o c lt small h =
    rw (o, c, plus-signed16 (cleared p i.rs) k (cleared-lt p i.rs h) lt) refl
execute-immediate p i slti rt rs k o c lt small h =
    rw (o, c, less_than-signed16 (cleared p i.rs) k (cleared-lt p i.rs h) lt) refl
execute-immediate p i sltiu rt rs k o c lt small h = rw (o, c, unsigned k small) refl
  where
    unsigned : (k : ℕ) → k < 2 ^ 15 → wrap32 (signed16 k) ≡ k
    unsigned k lt = ground arith
execute-immediate p i andi rt rs k o c lt small h = rw (o, c) refl
execute-immediate p i ori rt rs k o c lt small h = rw (o, c) refl
execute-immediate p i xori rt rs k o c lt small h = rw (o, c) refl
execute-immediate p i lui rt rs k o c lt small h = rw (o, c, shifted k lt) refl
  where
    shifted : (k : ℕ) → k < 2 ^ 16 → shift_left k 16 ≡ k * 2 ^ 16
    shifted k lt = omega arith

small_branch : (pc c : ℕ) → pc < 2 ^ 32 → c < 2 ^ 15 → branch_target pc c ≡ branch_to pc c
small_branch pc c h lt =
    ap (branch_target pc) (sym (int16_small c lt)) ∙ branch_target-branch_to pc c h (omega arith)

abbrev branched : Machine → Bool → ℕ → Machine
branched p taken target = moved p (cleared p, if taken then target else p.pc)

branch_if-moved :
    (p : Machine) (test : Bool) (c : ℕ)
    → branch_if test (set_reg p 0 0) c ≡ returns ((branched p test (branch_target p.pc c)))
branch_if-moved p true c = refl
branch_if-moved p false c = refl

execute-branch :
    (p : Machine) (i : Decoded) (op : BranchOp)
    → i.opcode ≡ branch_opcode op
    → execute p i
      ≡ returns (
          (branched p
            (computed_test op (cleared p i.rs) (cleared p i.rt))
            (branch_target p.pc i.kte16)))
unfolding execute execute_opcode computed_test
execute-branch p i beq o = rw o (branch_if-moved p _ i.kte16)
execute-branch p i bne o = rw o (branch_if-moved p _ i.kte16)
execute-branch p i blez o = rw o (branch_if-moved p _ i.kte16)
execute-branch p i bgtz o = rw o (branch_if-moved p _ i.kte16)

execute-jump_register :
    (p : Machine) (i : Decoded)
    → i.opcode ≡ Opcode.fun
    → i.funct ≡ Funct.jr
    → execute p i ≡ returns ((moved p (cleared p, cleared p i.rs)))
unfolding execute execute_opcode execute_fun
execute-jump_register p i o f = rw (o, f) refl

execute-jump :
    (p : Machine) (i : Decoded)
    → i.opcode ≡ Opcode.j
    → execute p i ≡ returns ((moved p (cleared p, jump_target p.pc i.kte26)))
unfolding execute execute_opcode
execute-jump p i o = rw o refl

execute-jump_and_link :
    (p : Machine) (i : Decoded)
    → i.opcode ≡ Opcode.jal
    → execute p i ≡ returns ((moved p (update (cleared p) 31 p.pc, jump_target p.pc i.kte26)))
unfolding execute execute_opcode
execute-jump_and_link p i o = rw o refl

-- From any state whose registers and `pc` hold 32-bit words, the simulator decodes and executes the
-- word of an instruction that works on the registers and `pc` alone with its effect,
-- and changes nothing else; but for SLTIU and the branches with a constant of 2 ^ 15 or more.
pub execute-effect :
    (p : Machine) (ins : Instruction)
    → IsEncodable ins
    → OffsetsAreSmall ins
    → HoldsWords p
    → execute p (decode (encode ins)) ≡ returns ((moved p (effect ins p.breg p.pc)))
unfolding effect
execute-effect p (of_registers op rd rs rt) e small h =
    let (o, f, d, s, t) = (decode-encode (of_registers op rd rs rt) e).1 in
    execute-of_registers p _ op o f
    ∙ rw
        (
          d,
          s,
          t,
          computed_register-value op (cleared p rs) (cleared p rt) (cleared-lt p rs h)
              (cleared-lt p rt h),
        )
        refl
execute-effect p (shift op rd rt shamt) e small h =
    let (o, f, d, t, n) = (decode-encode (shift op rd rt shamt) e).1 in
    execute-shift p _ op o f
    ∙ rw (d, t, n, computed_shift-value op (cleared p rt) shamt (cleared-lt p rt h)) refl
execute-effect p (immediate op rt rs k) e small h =
    let (o, t, s, c) = (decode-encode (immediate op rt rs k) e).1 in
    execute-immediate p _ op rt rs k o c e.2 small h ∙ rw (t, s) refl
execute-effect p (branch op rs rt k) e small h =
    let (o, s, t, c) = (decode-encode (branch op rs rt k) e).1 in
    execute-branch p _ op o
    ∙ rw
        (
          s,
          t,
          c,
          computed_test-is_taken op (cleared p rs) (cleared p rt) (cleared-lt p rs h),
          small_branch p.pc k h.1 small,
        )
        refl
execute-effect p (jump_register rs) e small h =
    let (o, f, s) = (decode-encode (jump_register rs) e).1 in
    execute-jump_register p _ o f ∙ rw s refl
execute-effect p (jump target) e small h =
    let (o, t) = (decode-encode (jump target) e).1 in
    execute-jump p _ o ∙ rw (t, jump_target-jump_to p.pc target) refl
execute-effect p (jump_and_link target) e small h =
    let (o, t) = (decode-encode (jump_and_link target) e).1 in
    execute-jump_and_link p _ o ∙ rw (t, jump_target-jump_to p.pc target) refl
