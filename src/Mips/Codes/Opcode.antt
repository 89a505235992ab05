-- ===== src/Mips/Codes/Opcode.antt =====
-- `enum OPCODES` of include/definitions.h.
use simple_bus_mdu.Prelude.{ℕ}

abbrev pub fun : ℕ
fun = 0x00

abbrev pub lw : ℕ
lw = 0x23

abbrev pub lb : ℕ
lb = 0x20

abbrev pub lh : ℕ
lh = 0x21

abbrev pub lhu : ℕ
lhu = 0x25

abbrev pub lui : ℕ
lui = 0x0f

abbrev pub sw : ℕ
sw = 0x2b

abbrev pub sb : ℕ
sb = 0x28

abbrev pub sh : ℕ
sh = 0x29

abbrev pub beq : ℕ
beq = 0x04

abbrev pub bne : ℕ
bne = 0x05

abbrev pub blez : ℕ
blez = 0x06

abbrev pub bgtz : ℕ
bgtz = 0x07

abbrev pub addi : ℕ
addi = 0x08

abbrev pub addiu : ℕ
addiu = 0x09

abbrev pub slti : ℕ
slti = 0x0a

abbrev pub sltiu : ℕ
sltiu = 0x0b

abbrev pub andi : ℕ
andi = 0x0c

abbrev pub ori : ℕ
ori = 0x0d

abbrev pub xori : ℕ
xori = 0x0e

abbrev pub j : ℕ
j = 0x02

abbrev pub jal : ℕ
jal = 0x03
