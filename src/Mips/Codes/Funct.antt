-- ===== src/Mips/Codes/Funct.antt =====
-- `enum FUNCT` of include/definitions.h.
use simple_bus_mdu.Prelude.{ℕ}

abbrev pub add : ℕ
add = 0x20

abbrev pub addu : ℕ
addu = 0x21

abbrev pub sub : ℕ
sub = 0x22

abbrev pub mul : ℕ
mul = 0x18

abbrev pub div : ℕ
div = 0x1a

abbrev pub and : ℕ
and = 0x24

abbrev pub or : ℕ
or = 0x25

abbrev pub xor : ℕ
xor = 0x26

abbrev pub nor : ℕ
nor = 0x27

abbrev pub slt : ℕ
slt = 0x2a

abbrev pub jr : ℕ
jr = 0x08

abbrev pub sll : ℕ
sll = 0x00

abbrev pub srl : ℕ
srl = 0x02

abbrev pub sra : ℕ
sra = 0x03

abbrev pub syscall : ℕ
syscall = 0x0c
