-- ===== src/Isa/Encoding.antt =====
-- The words of the instructions, with the codes of the architecture, and their fields as `decode` of
-- include/mips_v0.h and `decode` of MipsCpp/mips.cpp find them.
use simple_bus_mdu.Prelude.{ℕ, ◌+◌, ◌*◌, ◌%◌, ◌^◌, ◌<◌, ◌≡◌, ap, arith}
use simple_bus_mdu.MemMips.{shift_right, int16}
use simple_bus_mdu.Mips
use simple_bus_mdu.Simulator
use simple_bus_mdu.Isa.{
  Instruction, of_registers, shift, immediate, branch, jump_register, jump, jump_and_link,
  RegisterOp, ShiftOp, ImmediateOp, BranchOp, IsEncodable, add, addu, sub, and, or, xor, nor, slt,
  sll, srl, sra, addi, addiu, slti, sltiu, andi, ori, xori, lui, beq, bne, blez, bgtz,
}

abbrev pub register_funct : RegisterOp → ℕ
register_funct add = 0x20
register_funct addu = 0x21
register_funct sub = 0x22
register_funct and = 0x24
register_funct or = 0x25
register_funct xor = 0x26
register_funct nor = 0x27
register_funct slt = 0x2a

abbrev pub shift_funct : ShiftOp → ℕ
shift_funct sll = 0x00
shift_funct srl = 0x02
shift_funct sra = 0x03

abbrev pub immediate_opcode : ImmediateOp → ℕ
immediate_opcode addi = 0x08
immediate_opcode addiu = 0x09
immediate_opcode slti = 0x0a
immediate_opcode sltiu = 0x0b
immediate_opcode andi = 0x0c
immediate_opcode ori = 0x0d
immediate_opcode xori = 0x0e
immediate_opcode lui = 0x0f

abbrev pub branch_opcode : BranchOp → ℕ
branch_opcode beq = 0x04
branch_opcode bne = 0x05
branch_opcode blez = 0x06
branch_opcode bgtz = 0x07

-- The formats R, I and J.
abbrev pub format_r : ℕ → ℕ → ℕ → ℕ → ℕ → ℕ
format_r rs rt rd shamt funct = rs * 2 ^ 21 + rt * 2 ^ 16 + rd * 2 ^ 11 + shamt * 2 ^ 6 + funct

abbrev pub format_i : ℕ → ℕ → ℕ → ℕ → ℕ
format_i opcode rs rt k = opcode * 2 ^ 26 + rs * 2 ^ 21 + rt * 2 ^ 16 + k

abbrev pub format_j : ℕ → ℕ → ℕ
format_j opcode target = opcode * 2 ^ 26 + target

unfoldable pub encode : Instruction → ℕ
encode (of_registers op rd rs rt) = format_r rs rt rd 0 (register_funct op)
encode (shift op rd rt shamt) = format_r 0 rt rd shamt (shift_funct op)
encode (immediate op rt rs k) = format_i (immediate_opcode op) rs rt k
encode (branch op rs rt k) = format_i (branch_opcode op) rs rt k
encode (jump_register rs) = format_r rs 0 0 0 0x08
encode (jump target) = format_j 0x02 target
encode (jump_and_link target) = format_j 0x03 target

-- The fields that an instruction uses, as they are in what a `decode` gives; `k'` is what it makes of
-- the constant.
abbrev pub Fields : Instruction → (ℕ → ℕ) → Mips.Decoded → Type 0
Fields (of_registers op rd rs rt) c i =
    (i.opcode ≡ 0x00) × (i.funct ≡ register_funct op) × (i.rd ≡ rd) × (i.rs ≡ rs) × (i.rt ≡ rt)
Fields (shift op rd rt shamt) c i =
    (i.opcode ≡ 0x00) × (i.funct ≡ shift_funct op) × (i.rd ≡ rd) × (i.rt ≡ rt) × (i.shamt ≡ shamt)
Fields (immediate op rt rs k) c i =
    (i.opcode ≡ immediate_opcode op) × (i.rt ≡ rt) × (i.rs ≡ rs) × (i.kte16 ≡ c k)
Fields (branch op rs rt k) c i =
    (i.opcode ≡ branch_opcode op) × (i.rs ≡ rs) × (i.rt ≡ rt) × (i.kte16 ≡ c k)
Fields (jump_register rs) c i = (i.opcode ≡ 0x00) × (i.funct ≡ 0x08) × (i.rs ≡ rs)
Fields (jump target) c i = (i.opcode ≡ 0x02) × (i.kte26 ≡ target)
Fields (jump_and_link target) c i = (i.opcode ≡ 0x03) × (i.kte26 ≡ target)

abbrev field_at : ℕ → ℕ → ℕ → ℕ
field_at w n k = shift_right w n % 2 ^ k

format_r-fields :
    (rs rt rd shamt funct : ℕ)
    → rs < 2 ^ 5
    → rt < 2 ^ 5
    → rd < 2 ^ 5
    → shamt < 2 ^ 5
    → funct < 2 ^ 6
    → (let w : ℕ = format_r rs rt rd shamt funct in
        (field_at w 26 6 ≡ 0)
        × (w % 2 ^ 6 ≡ funct)
        × (field_at w 21 5 ≡ rs)
        × (field_at w 16 5 ≡ rt)
        × (field_at w 11 5 ≡ rd)
        × (field_at w 6 5 ≡ shamt))
unfolding shift_right
format_r-fields rs rt rd shamt funct h1 h2 h3 h4 h5 =
    (ground arith, ground arith, ground arith, ground arith, ground arith, ground arith)

format_i-fields :
    (opcode rs rt k : ℕ)
    → opcode < 2 ^ 5
    → rs < 2 ^ 5
    → rt < 2 ^ 5
    → k < 2 ^ 16
    → (let w : ℕ = format_i opcode rs rt k in
        (field_at w 26 6 ≡ opcode)
        × (field_at w 21 5 ≡ rs)
        × (field_at w 16 5 ≡ rt)
        × (w % 2 ^ 16 ≡ k))
unfolding shift_right
format_i-fields opcode rs rt k h1 h2 h3 h4 =
    (ground arith, ground arith, ground arith, ground arith)

format_j-fields :
    (opcode target : ℕ)
    → opcode < 2 ^ 5
    → target < 2 ^ 26
    → (let w : ℕ = format_j opcode target in (field_at w 26 6 ≡ opcode) × (w % 2 ^ 26 ≡ target))
unfolding shift_right
format_j-fields opcode target h1 h2 = (ground arith, omega arith)

register_funct-lt : (op : RegisterOp) → register_funct op < 2 ^ 6
register_funct-lt add = omega arith
register_funct-lt addu = omega arith
register_funct-lt sub = omega arith
register_funct-lt and = omega arith
register_funct-lt or = omega arith
register_funct-lt xor = omega arith
register_funct-lt nor = omega arith
register_funct-lt slt = omega arith

shift_funct-lt : (op : ShiftOp) → shift_funct op < 2 ^ 6
shift_funct-lt sll = omega arith
shift_funct-lt srl = omega arith
shift_funct-lt sra = omega arith

immediate_opcode-lt : (op : ImmediateOp) → immediate_opcode op < 2 ^ 5
immediate_opcode-lt addi = omega arith
immediate_opcode-lt addiu = omega arith
immediate_opcode-lt slti = omega arith
immediate_opcode-lt sltiu = omega arith
immediate_opcode-lt andi = omega arith
immediate_opcode-lt ori = omega arith
immediate_opcode-lt xori = omega arith
immediate_opcode-lt lui = omega arith

branch_opcode-lt : (op : BranchOp) → branch_opcode op < 2 ^ 5
branch_opcode-lt beq = omega arith
branch_opcode-lt bne = omega arith
branch_opcode-lt blez = omega arith
branch_opcode-lt bgtz = omega arith

-- The decoders of the processor and of the simulator find in the word of an instruction the fields that
-- it was made of; the processor extends the sign of its constant, the simulator does not.
pub decode-encode :
    (ins : Instruction)
    → IsEncodable ins
    → Fields ins int16 (Mips.decode (encode ins))
      × Fields ins (λ k. k) (Simulator.decode (encode ins))
unfolding encode Mips.decode Simulator.decode
decode-encode (of_registers op rd rs rt) h =
    let (o, f, s, t, d, n) =
      format_r-fields rs rt rd 0 (register_funct op) h.1 h.2 h.0 (omega arith)
        (register_funct-lt op) in
    ((o, f, d, s, t), (o, f, d, s, t))
decode-encode (shift op rd rt shamt) h =
    let (o, f, s, t, d, n) =
      format_r-fields 0 rt rd shamt (shift_funct op) (omega arith) h.1 h.0 h.2
        (shift_funct-lt op) in
    ((o, f, d, t, n), (o, f, d, t, n))
decode-encode (immediate op rt rs k) h =
    let (o, s, t, c) =
      format_i-fields (immediate_opcode op) rs rt k (immediate_opcode-lt op) h.1 h.0 h.2 in
    ((o, t, s, ap int16 c), (o, t, s, c))
decode-encode (branch op rs rt k) h =
    let (o, s, t, c) =
      format_i-fields (branch_opcode op) rs rt k (branch_opcode-lt op) h.0 h.1 h.2 in
    ((o, s, t, ap int16 c), (o, s, t, c))
decode-encode (jump_register rs) h =
    let (o, f, s, t, d, n) =
      format_r-fields rs 0 0 0 0x08 h (omega arith) (omega arith) (omega arith) (omega arith) in
    ((o, f, s), (o, f, s))
decode-encode (jump target) h =
    let (o, t) = format_j-fields 0x02 target (omega arith) h in ((o, t), (o, t))
decode-encode (jump_and_link target) h =
    let (o, t) = format_j-fields 0x03 target (omega arith) h in ((o, t), (o, t))
