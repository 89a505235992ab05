-- ===== src/Mips/Codes.antt =====
-- The codes of include/definitions.h: operations, function fields and register numbers.
use simple_bus_mdu.Prelude.{ℕ}
pub mod Funct
pub mod Opcode

-- `DATA_SEGMENT_START`
abbrev pub data_segment_start : ℕ
data_segment_start = 0x2000

-- `MEM_SIZE`
abbrev pub mem_size : ℕ
mem_size = 20000

-- Of `REGISTERS`, those that the processor names.
abbrev pub v0 : ℕ
v0 = 2

abbrev pub a0 : ℕ
a0 = 4

abbrev pub sp : ℕ
sp = 29

abbrev pub ra : ℕ
ra = 31
