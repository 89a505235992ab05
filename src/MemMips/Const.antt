-- ===== src/MemMips/Const.antt =====
-- The constants of include/mem_mips.h.
use simple_bus_mdu.Prelude.{ℕ}

-- `enum OpType`
abbrev pub byte : ℕ
byte = 0

abbrev pub half : ℕ
half = 1

abbrev pub word : ℕ
word = 2

-- `enum Const`
abbrev pub priority : ℕ
priority = 2

abbrev pub start_addr : ℕ
start_addr = 1024

abbrev pub op_type_reg : ℕ
op_type_reg = 1028

abbrev pub addr_reg : ℕ
addr_reg = 1032

abbrev pub mem_addr : ℕ
mem_addr = 1036

abbrev pub end_addr : ℕ
end_addr = 1039
