-- ===== src/Wrapper.antt =====
-- The memory of the MIPS as its processor calls it, over the bus: include/mem_mips_bus_wrapper.h.
pub mod Laws
pub mod Effects
pub mod RoundTrip
use simple_bus_mdu.Prelude.{ℕ, ◌+◌, ◌%◌, ◌^◌, Bool, false, Option, some, Outcome, returns}
use simple_bus_mdu.Types.{u32, SlaveIf}
use simple_bus_mdu.Bus.Forms.{Bus, update}
use simple_bus_mdu.Bus.Blocking.{◌>>=?◌, burst_read, burst_write}
use simple_bus_mdu.MemMips.Const
use simple_bus_mdu.MemMips.{int8, int16}

-- The cells of the locals `op_type`, `addr` and `data` of `load` and `store`.
abbrev pub op_type_cell : ℕ
op_type_cell = 64

abbrev pub addr_cell : ℕ
addr_cell = 65

abbrev pub data_cell : ℕ
data_cell = 66

module _ {S : Type 0} ⦃slave_if : SlaveIf S⦄ where
  abbrev pub assign : Bus S → ℕ → ℕ → Bus S
  assign b at v = record b { cells = update b.cells at v }

  -- One word written or read by a blocking call that drops its status.
  abbrev pub write_word : ℕ → Bus S → ℕ → ℕ → Outcome (Option (Bus S))
  write_word fuel b at address =
      burst_write fuel b Const.priority at address 1 false >>=? λ (st, b'). returns (some b')

  abbrev pub read_word : ℕ → Bus S → ℕ → ℕ → Outcome (Option (Bus S))
  read_word fuel b at address =
      burst_read fuel b Const.priority at address 1 false >>=? λ (st, b'). returns (some b')

  unfoldable pub load : ℕ → Bus S → ℕ → ℕ → Outcome (Option (ℕ × Bus S))
  load fuel b op_type addr =
      write_word fuel (assign (assign b op_type_cell op_type) addr_cell addr) op_type_cell
        Const.op_type_reg
      >>=? λ b1. write_word fuel b1 addr_cell Const.addr_reg >>=? λ b2.
          read_word fuel b2 data_cell Const.mem_addr >>=? λ b3.
          returns (some (b3.cells data_cell, b3))

  unfoldable pub store : ℕ → Bus S → ℕ → ℕ → ℕ → Outcome (Option (Bus S))
  store fuel b op_type addr d =
      write_word fuel (assign (assign (assign b op_type_cell op_type) addr_cell addr) data_cell d)
        op_type_cell Const.op_type_reg
      >>=? λ b1. write_word fuel b1 addr_cell Const.addr_reg >>=? λ b2.
          write_word fuel b2 data_cell Const.mem_addr

  -- The result of `load` becomes an `int8_t`, then an `int` again.
  unfoldable pub lb : ℕ → Bus S → ℕ → ℕ → Outcome (Option (ℕ × Bus S))
  lb fuel b addr kte = load fuel b Const.byte (u32 (addr + kte)) >>=? λ (v, b').
      returns (some (int8 (v % 2 ^ 8), b'))

  unfoldable pub lh : ℕ → Bus S → ℕ → ℕ → Outcome (Option (ℕ × Bus S))
  lh fuel b addr kte = load fuel b Const.half (u32 (addr + kte)) >>=? λ (v, b').
      returns (some (int16 (v % 2 ^ 16), b'))

  unfoldable pub lw : ℕ → Bus S → ℕ → ℕ → Outcome (Option (ℕ × Bus S))
  lw fuel b addr kte = load fuel b Const.word (u32 (addr + kte))

  -- `kte` becomes a `sc_uint<5>`, and the datum a `sc_int` of 8, 16 or 32 bits.
  unfoldable pub sb : ℕ → Bus S → ℕ → ℕ → ℕ → Outcome (Option (Bus S))
  sb fuel b addr kte d = store fuel b Const.byte (u32 (addr + kte % 2 ^ 5)) (int8 (d % 2 ^ 8))

  unfoldable pub sh : ℕ → Bus S → ℕ → ℕ → ℕ → Outcome (Option (Bus S))
  sh fuel b addr kte d = store fuel b Const.half (u32 (addr + kte % 2 ^ 5)) (int16 (d % 2 ^ 16))

  unfoldable pub sw : ℕ → Bus S → ℕ → ℕ → ℕ → Outcome (Option (Bus S))
  sw fuel b addr kte d = store fuel b Const.word (u32 (addr + kte % 2 ^ 5)) d
