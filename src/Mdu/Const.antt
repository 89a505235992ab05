-- ===== src/Mdu/Const.antt =====
-- `enum Const` of `struct MDU`, include/mdu.h: its priority and its addresses.
use simple_bus_mdu.Prelude.{ℕ}

abbrev pub priority : ℕ
priority = 1

abbrev pub start_addr : ℕ
start_addr = 256

abbrev pub op_a : ℕ
op_a = 256

abbrev pub op_b : ℕ
op_b = 260

abbrev pub m_low : ℕ
m_low = 264

abbrev pub m_high : ℕ
m_high = 268

abbrev pub div : ℕ
div = 272

abbrev pub modulo : ℕ
modulo = 276

abbrev pub end_addr : ℕ
end_addr = 319
