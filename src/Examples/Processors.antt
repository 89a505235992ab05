-- ===== src/Examples/Processors.antt =====
-- The processor's use of the memory and of the unit, on the whole system in small.
use simple_bus_mdu.Prelude.{◌^◌, ◌≡◌, refl, ◌<◌, true, false, none, some, [], ◌∷◌, returns, arith}
use simple_bus_mdu.Prelude.Int.{pos, ◌+ℤ◌, ◌*ℤ◌, magnitude}
use simple_bus_mdu.Word.{signed32}
use simple_bus_mdu.Word.Division.{SameSign}
use simple_bus_mdu.Bus.Forms.{Bus, update}
use simple_bus_mdu.Bus.Slaves.{end_of_elaboration}
use simple_bus_mdu.Bus.Mounted.{checked-Mounted}
use simple_bus_mdu.Bus.Quiet.{Quiet}
use simple_bus_mdu.FastMem.{fast_mem}
use simple_bus_mdu.SlowMem.{slow_mem}
use simple_bus_mdu.Mdu.Timing.{idle as idle_unit}
use simple_bus_mdu.MemMips.Const
use simple_bus_mdu.MemMips
use simple_bus_mdu.MemMips.{
  MemMips, mem_mips, new, lw, sb, sh, sw, direct_read, direct_write, check_address_range, word_of,
  checked_word, change, shift_right,
}
use simple_bus_mdu.MemMips.Timing.{idle}
use simple_bus_mdu.System.{Slave, unit, memory, slave}
use simple_bus_mdu.Wrapper
use simple_bus_mdu.Wrapper.Laws.{
  ReadyMemory, Gave, load_cells, Left, selected, load-Gave, store-Left,
}
use simple_bus_mdu.Wrapper.RoundTrip.{lb-sb, lw-sw}
use simple_bus_mdu.Mips.{Mips, Decoded, lo_cell, hi_cell}
use simple_bus_mdu.Mips.Execute.{execute}
use simple_bus_mdu.Mips.Loads.{execute-lw}
use simple_bus_mdu.Mips.Unit.{ReadyUnit, execute-mul, execute-div}
use simple_bus_mdu.Examples.Memories.{small, small-IsWellFormed}

-- The unit and the memory on one bus. Registers 8 and 9 hold -7 and 3.
abbrev system : Bus Slave
system = record {
  requests = [];
  current = none;
  slave_port = unit (idle_unit 0 0 4) ∷ memory (idle small 2) ∷ [];
  cells = update (update (λ j. 0) 8 4294967289) 9 3;
}

system-checked : end_of_elaboration system.slave_port ≡ true
unfolding end_of_elaboration
system-checked = refl

system-Quiet : Quiet system
system-Quiet = record { current = refl; none_pending = tt; no_locks = tt }

system-ReadyMemory : ReadyMemory system 1 small 2
system-ReadyMemory = record {
  quiet = system-Quiet;
  mounted = checked-Mounted system.slave_port 1 system-checked refl;
}

system-ReadyUnit : ReadyUnit system 0 0 0 4
system-ReadyUnit = record {
  quiet = system-Quiet;
  mounted = checked-Mounted system.slave_port 0 system-checked refl;
}

half_word :
    direct_read (idle (selected small Const.half 2) 2) 0 Const.mem_addr ≡ returns (true, 4386)
unfolding direct_read MemMips.lh check_address_range word_of shift_right
half_word = refl

load-Gave_example :
    Gave
      (Wrapper.load 3 system Const.half 2)
      4386
      1
      (selected small Const.half 2)
      2
      (load_cells system.cells Const.half 2 4386)
load-Gave_example =
    load-Gave 3 system 1 2 Const.half 2 small system-ReadyMemory (λ e. omega arith) (omega arith)
      half_word

-- A byte of 255 stored at the address 5, over the bus.
abbrev after_store : MemMips
after_store = record (selected small Const.byte 5) { mem = 287454020 ∷ 65285 ∷ 0 ∷ 4294967295 ∷ [] }

byte_written :
    direct_write (idle (selected small Const.byte 5) 2) 255 Const.mem_addr
    ≡ returns (true, idle after_store 2)
unfolding direct_write MemMips.sb change checked_word check_address_range word_of
byte_written = refl

store-Left_example : Left (Wrapper.store 1 system Const.byte 5 255) 1 after_store 2 (
    update
      (update (update system.cells Wrapper.op_type_cell Const.byte) Wrapper.addr_cell 5)
      Wrapper.data_cell
      255)
store-Left_example =
    store-Left 0 system 1 2 Const.byte 5 255 small after_store system-ReadyMemory byte_written

lb-sb_example :
    (b1 b2 : Bus Slave) × (Wrapper.sb 3 system 5 0 200 ≡ returns (some b1))
    × (Wrapper.lb 3 b1 5 0 ≡ returns (some (4294967240, b2)))
lb-sb_example =
    lb-sb 3 system 1 2 5 5 200 small system-ReadyMemory (λ e. omega arith) (omega arith)
      small-IsWellFormed (omega arith, omega arith) (omega arith, omega arith)

lw-sw_example :
    (b1 b2 : Bus Slave) × (Wrapper.sw 3 system 8 0 77 ≡ returns (some b1))
    × (Wrapper.lw 3 b1 4 0 ≡ returns (some (5, b2)))
lw-sw_example =
    lw-sw 3 system 1 2 8 4 77 small system-ReadyMemory (λ e. omega arith) (omega arith)
      small-IsWellFormed (omega arith, omega arith) (omega arith, omega arith) refl refl
      (omega arith)

-- A processor on this system, and the two instructions on its registers 8 and 9.
abbrev processor : Mips Slave
processor = record { bus = system; pc = 4; stopped = false; input = []; output = [] }

abbrev mul_instruction : Decoded
mul_instruction = record {
  opcode = 0;
  rs = 8;
  rt = 9;
  rd = 0;
  shamt = 0;
  funct = 24;
  kte16 = 24;
  kte26 = 17367064;
}

abbrev div_instruction : Decoded
div_instruction = record mul_instruction { funct = 26; kte16 = 26; kte26 = 17367066 }

execute-mul_example :
    (m' : Mips Slave) × (execute 5 processor mul_instruction ≡ returns (some m'))
    × (signed32 (m'.bus.cells hi_cell) *ℤ pos (2 ^ 32) +ℤ pos (m'.bus.cells lo_cell)
        ≡ signed32 4294967289 *ℤ signed32 3)
    × (m'.pc ≡ 4)
execute-mul_example =
    execute-mul 5 processor mul_instruction 0 0 0 4 system-ReadyUnit (λ e. omega arith)
      (omega arith) refl (omega arith) (omega arith) refl

execute-div_example :
    (m' : Mips Slave) × (execute 5 processor div_instruction ≡ returns (some m'))
    × (signed32 (m'.bus.cells lo_cell) *ℤ signed32 3 +ℤ signed32 (m'.bus.cells hi_cell)
        ≡ signed32 4294967289)
    × (magnitude (signed32 (m'.bus.cells hi_cell)) < magnitude (signed32 3))
    × SameSign (signed32 (m'.bus.cells hi_cell)) (signed32 4294967289)
    × (m'.pc ≡ 4)
execute-div_example =
    execute-div 5 processor div_instruction 0 0 0 4 system-ReadyUnit (λ e. omega arith)
      (omega arith) refl (omega arith) (omega arith) refl
      (record { nonzero = λ e. omega arith; no_overflow = λ e. omega arith })

-- lw $10, 4($0)
abbrev lw_instruction : Decoded
lw_instruction = record {
  opcode = 35;
  rs = 0;
  rt = 10;
  rd = 0;
  shamt = 0;
  funct = 4;
  kte16 = 4;
  kte26 = 655364;
}

execute-lw_example :
    (p' : Mips Slave) × (execute 3 processor lw_instruction ≡ returns (some p'))
    × (p'.bus.cells 10 ≡ 5)
    × (p'.pc ≡ 4)
    × ReadyMemory p'.bus 1 (selected small Const.word 4) 2
execute-lw_example =
    execute-lw 3 processor lw_instruction 1 2 4 small system-ReadyMemory (λ e. omega arith)
      (omega arith) small-IsWellFormed refl refl (omega arith, omega arith) refl
