-- ===== src/Mips/Effects.antt =====
-- The instructions of include/mips_v0.h that use the registers and `pc` alone, against their effect in Isa.
use simple_bus_mdu.Prelude.{
  ℕ, ◌^◌, ◌<◌, ◌≡◌, refl, ◌∙◌, Bool, true, false, some, returns, arith, if◌then◌else◌,
}
use simple_bus_mdu.Types.{SlaveIf}
use simple_bus_mdu.MemMips.{int16}
use simple_bus_mdu.Bus.Forms.{update}
use simple_bus_mdu.Mips.Codes.Opcode
use simple_bus_mdu.Mips.Codes.Funct
use simple_bus_mdu.Mips.{Mips, Decoded, set_cell, decode, jump_target, branch_target}
use simple_bus_mdu.Mips.Execute.{execute, execute_opcode, execute_fun, branch_if}
use simple_bus_mdu.Isa.{
  Instruction, of_registers, shift, immediate, branch, jump_register, jump, jump_and_link,
  RegisterOp, ShiftOp, ImmediateOp, BranchOp, IsEncodable, add, addu, sub, and, or, xor, nor, slt,
  sll, srl, sra, addi, addiu, slti, sltiu, andi, ori, xori, lui, beq, bne, blez, bgtz, effect,
  immediate_value,
}
use simple_bus_mdu.Isa.Encoding.{
  encode, decode-encode, register_funct, shift_funct, immediate_opcode, branch_opcode,
}
use simple_bus_mdu.Isa.Values.{
  computed_register, computed_shift, computed_test, computed_register-value, computed_shift-value,
  computed_test-is_taken, plus-signed16, less_than-signed16, int16-signed16, int16_small,
  shift_left-int16, branch_target-branch_to, jump_target-jump_to,
}

-- The sign of the constant of ANDI, ORI and XORI is not set.
abbrev pub MasksAreSmall : Instruction → Type 0
MasksAreSmall (immediate andi rt rs k) = k < 2 ^ 15
MasksAreSmall (immediate ori rt rs k) = k < 2 ^ 15
MasksAreSmall (immediate xori rt rs k) = k < 2 ^ 15
MasksAreSmall _ = Unit

module _ {S : Type 0} ⦃slave_if : SlaveIf S⦄ where
  -- Register 0 is cleared before an instruction.
  abbrev pub cleared : Mips S → ℕ → ℕ
  cleared p = update p.bus.cells 0 0

  -- The processor with other registers and another `pc`.
  abbrev pub moved : Mips S → (ℕ → ℕ) × ℕ → Mips S
  moved p (regs, pc) = record p { bus = record p.bus { cells = regs }; pc = pc }

  -- Every register holds a word, and `pc` too.
  abbrev pub HoldsWords : Mips S → Type 0
  HoldsWords p = ((j : ℕ) → p.bus.cells j < 2 ^ 32) × (p.pc < 2 ^ 32)

  cleared-lt : (p : Mips S) (j : ℕ) → HoldsWords p → cleared p j < 2 ^ 32
  cleared-lt p j h = ground (arith, h.0 j)

  execute-of_registers :
      (fuel : ℕ) (p : Mips S) (i : Decoded) (op : RegisterOp)
      → i.opcode ≡ Opcode.fun
      → i.funct ≡ register_funct op
      → execute fuel p i
        ≡ returns (
            some (
              moved p (
                update (cleared p) i.rd (computed_register op (cleared p i.rs) (cleared p i.rt)),
                p.pc,
              )))
  unfolding execute execute_opcode execute_fun computed_register
  execute-of_registers fuel p i add o f = rw (o, f) refl
  execute-of_registers fuel p i addu o f = rw (o, f) refl
  execute-of_registers fuel p i sub o f = rw (o, f) refl
  execute-of_registers fuel p i and o f = rw (o, f) refl
  execute-of_registers fuel p i or o f = rw (o, f) refl
  execute-of_registers fuel p i xor o f = rw (o, f) refl
  execute-of_registers fuel p i nor o f = rw (o, f) refl
  execute-of_registers fuel p i slt o f = rw (o, f) refl

  execute-shift :
      (fuel : ℕ) (p : Mips S) (i : Decoded) (op : ShiftOp)
      → i.opcode ≡ Opcode.fun
      → i.funct ≡ shift_funct op
      → execute fuel p i
        ≡ returns (
            some (
              moved p (update (cleared p) i.rd (computed_shift op (cleared p i.rt) i.shamt), p.pc)))
  unfolding execute execute_opcode execute_fun computed_shift
  execute-shift fuel p i sll o f = rw (o, f) refl
  execute-shift fuel p i srl o f = rw (o, f) refl
  execute-shift fuel p i sra o f = rw (o, f) refl

  execute-immediate :
      (fuel : ℕ) (p : Mips S) (i : Decoded) (op : ImmediateOp) (rt rs k : ℕ)
      → i.opcode ≡ immediate_opcode op
      → i.kte16 ≡ int16 k
      → k < 2 ^ 16
      → MasksAreSmall (immediate op rt rs k)
      → HoldsWords p
      → execute fuel p i
        ≡ returns
            (some (moved p (update (cleared p) i.rt (immediate_value op (cleared p i.rs) k), p.pc)))
  unfolding execute execute_opcode immediate_value
  execute-immediate fuel p i addi rt rs k o c lt small h =
      rw (o, c, plus-signed16 (cleared p i.rs) k (cleared-lt p i.rs h) lt) refl
  execute-immediate fuel p i addiu rt rs k o c lt small h =
      rw (o, c, plus-signed16 (cleared p i.rs) k (cleared-lt p i.rs h) lt) refl
  execute-immediate fuel p i slti rt rs k o c lt small h =
      rw (o, c, less_than-signed16 (cleared p i.rs) k (cleared-lt p i.rs h) lt) refl
  execute-immediate fuel p i sltiu rt rs k o c lt small h = rw (o, c, int16-signed16 k lt) refl
  execute-immediate fuel p i andi rt rs k o c lt small h = rw (o, c, int16_small k small) refl
  execute-immediate fuel p i ori rt rs k o c lt small h = rw (o, c, int16_small k small) refl
  execute-immediate fuel p i xori rt rs k o c lt small h = rw (o, c, int16_small k small) refl
  execute-immediate fuel p i lui rt rs k o c lt small h = rw (o, c, shift_left-int16 k lt) refl

  abbrev branched : Mips S → Bool → ℕ → Mips S
  branched p taken target = moved p (cleared p, if taken then target else p.pc)

  branch_if-moved :
      (p : Mips S) (test : Bool) (c : ℕ)
      → branch_if test (set_cell p 0 0) c ≡ returns (some (branched p test (branch_target p.pc c)))
  branch_if-moved p true c = refl
  branch_if-moved p false c = refl

  execute-branch :
      (fuel : ℕ) (p : Mips S) (i : Decoded) (op : BranchOp)
      → i.opcode ≡ branch_opcode op
      → execute fuel p i
        ≡ returns (
            some (
              branched p
                (computed_test op (cleared p i.rs) (cleared p i.rt))
                (branch_target p.pc i.kte16)))
  unfolding execute execute_opcode computed_test
  execute-branch fuel p i beq o = rw o (branch_if-moved p _ i.kte16)
  execute-branch fuel p i bne o = rw o (branch_if-moved p _ i.kte16)
  execute-branch fuel p i blez o = rw o (branch_if-moved p _ i.kte16)
  execute-branch fuel p i bgtz o = rw o (branch_if-moved p _ i.kte16)

  execute-jump_register :
      (fuel : ℕ) (p : Mips S) (i : Decoded)
      → i.opcode ≡ Opcode.fun
      → i.funct ≡ Funct.jr
      → execute fuel p i ≡ returns (some (moved p (cleared p, cleared p i.rs)))
  unfolding execute execute_opcode execute_fun
  execute-jump_register fuel p i o f = rw (o, f) refl

  execute-jump :
      (fuel : ℕ) (p : Mips S) (i : Decoded)
      → i.opcode ≡ Opcode.j
      → execute fuel p i ≡ returns (some (moved p (cleared p, jump_target p.pc i.kte26)))
  unfolding execute execute_opcode
  execute-jump fuel p i o = rw o refl

  execute-jump_and_link :
      (fuel : ℕ) (p : Mips S) (i : Decoded)
      → i.opcode ≡ Opcode.jal
      → execute fuel p i
        ≡ returns (some (moved p (update (cleared p) 31 p.pc, jump_target p.pc i.kte26)))
  unfolding execute execute_opcode
  execute-jump_and_link fuel p i o = rw o refl

  -- From any state whose registers and `pc` hold 32-bit words, the processor decodes and executes the
  -- word of an instruction that works on the registers and `pc` alone with its effect,
  -- and changes nothing else; but for ANDI, ORI and XORI with a constant of 2 ^ 15 or more.
  pub execute-effect :
      (fuel : ℕ) (p : Mips S) (ins : Instruction)
      → IsEncodable ins
      → MasksAreSmall ins
      → HoldsWords p
      → execute fuel p (decode (encode ins))
        ≡ returns (some (moved p (effect ins p.bus.cells p.pc)))
  unfolding effect
  execute-effect fuel p (of_registers op rd rs rt) e small h =
      let (o, f, d, s, t) = (decode-encode (of_registers op rd rs rt) e).0 in
      execute-of_registers fuel p _ op o f
      ∙ rw
          (
            d,
            s,
            t,
            computed_register-value op (cleared p rs) (cleared p rt) (cleared-lt p rs h)
                (cleared-lt p rt h),
          )
          refl
  execute-effect fuel p (shift op rd rt shamt) e small h =
      let (o, f, d, t, n) = (decode-encode (shift op rd rt shamt) e).0 in
      execute-shift fuel p _ op o f
      ∙ rw (d, t, n, computed_shift-value op (cleared p rt) shamt (cleared-lt p rt h)) refl
  execute-effect fuel p (immediate op rt rs k) e small h =
      let (o, t, s, c) = (decode-encode (immediate op rt rs k) e).0 in
      execute-immediate fuel p _ op rt rs k o c e.2 small h ∙ rw (t, s) refl
  execute-effect fuel p (branch op rs rt k) e small h =
      let (o, s, t, c) = (decode-encode (branch op rs rt k) e).0 in
      execute-branch fuel p _ op o
      ∙ rw
          (
            s,
            t,
            c,
            computed_test-is_taken op (cleared p rs) (cleared p rt) (cleared-lt p rs h),
            branch_target-branch_to p.pc k h.1 e.2,
          )
          refl
  execute-effect fuel p (jump_register rs) e small h =
      let (o, f, s) = (decode-encode (jump_register rs) e).0 in
      execute-jump_register fuel p _ o f ∙ rw s refl
  execute-effect fuel p (jump target) e small h =
      let (o, t) = (decode-encode (jump target) e).0 in
      execute-jump fuel p _ o ∙ rw (t, jump_target-jump_to p.pc target) refl
  execute-effect fuel p (jump_and_link target) e small h =
      let (o, t) = (decode-encode (jump_and_link target) e).0 in
      execute-jump_and_link fuel p _ o ∙ rw (t, jump_target-jump_to p.pc target) refl
