-- ===== src/Examples/Programs.antt =====
-- A program of five instructions on the processor of include/mips_v0.h: it prints 7 and stops.
use simple_bus_mdu.Prelude.{
  ℕ, ◌≡◌, refl, arith, Bool, true, false, Option, none, some, List, [], ◌∷◌, Outcome, returns,
  fault,
}
use simple_bus_mdu.Prelude.Int.{pos}
use simple_bus_mdu.Mdu.{Mdu, calculate}
use simple_bus_mdu.Mdu.Timing.{idle as idle_unit}
use simple_bus_mdu.MemMips.{new}
use simple_bus_mdu.System.{Slave, unit, memory, slave}
use simple_bus_mdu.Mips.{Mips, Output, integer}
use simple_bus_mdu.Mips.{init, decode}
use simple_bus_mdu.Mips.Execute.{
  run, loop, wait_clock, step, fetch, execute, execute_opcode, execute_fun, execute_memory, syscall,
}
use simple_bus_mdu.Bus.Slaves.{end_of_elaboration}
use simple_bus_mdu.Bus.Mounted.{checked-Mounted}
use simple_bus_mdu.MemMips.Const
use simple_bus_mdu.MemMips.{MemMips}
use simple_bus_mdu.MemMips.Bytes.{IsWellFormed}
use simple_bus_mdu.Wrapper.Laws.{ReadyMemory, selected, load_cells}
use simple_bus_mdu.Mips.Fetch.{step-execute}
use simple_bus_mdu.Wrapper
use simple_bus_mdu.System
use simple_bus_mdu.Mdu
use simple_bus_mdu.MemMips
use simple_bus_mdu.MemMips.{shift_right, checked_word, check_address_range, word_of}
use simple_bus_mdu.Bus.Forms.{burst, fill, get_request, get_next_request, clear_locks, pending}
use simple_bus_mdu.Bus.Slaves.{get_slave}
use simple_bus_mdu.Bus.Service.{
  main_action, pick, handle_current, clear_if_idle, handle_request, transfer, call_slave, complete,
}
use simple_bus_mdu.Bus.Blocking.{blocking, await, status_of}
use simple_bus_mdu.Arbiter.{arbitrate, find_first, least_from}

-- addi $4, $0, 7; addi $2, $0, 1; syscall; addi $2, $0, 10; syscall
abbrev program : List ℕ
program = 0x20040007 ∷ 0x20020001 ∷ 0x0000000c ∷ 0x2002000a ∷ 0x0000000c ∷ []

abbrev start : Mips Slave
start = record {
  bus = record {
    requests = [];
    current = none;
    slave_port = unit (idle_unit 0 0 4) ∷ memory (new program (pos 2)) ∷ [];
    cells = λ j. 0;
  };
  pc = 0;
  stopped = false;
  input = [];
  output = [];
}

-- What the run printed, and whether it stopped.
abbrev summary : Outcome (Option (Mips Slave)) → List Output × Bool
summary (returns (some m)) = (m.output, m.stopped)
summary (returns none) = ([], false)
summary (fault f) = ([], false)

program_prints : summary (run 10 10 start) ≡ (integer 7 ∷ [], true)
unfolding run init loop wait_clock step fetch execute execute_opcode execute_fun execute_memory
    syscall decode shift_right Wrapper.lw Wrapper.load blocking burst fill get_request await
    status_of main_action pick handle_current clear_if_idle get_next_request clear_locks pending
    arbitrate find_first least_from handle_request transfer call_slave complete get_slave
    System.read System.write Mdu.read Mdu.read_at MemMips.read MemMips.read_at MemMips.write
    MemMips.write_at MemMips.direct_read MemMips.direct_write MemMips.lw checked_word
    check_address_range word_of
program_prints = refl

-- The same program, and the bus with it.
abbrev store_of : MemMips
store_of = new program (pos 2)

start-checked : end_of_elaboration start.bus.slave_port ≡ true
unfolding end_of_elaboration
start-checked = refl

start-ReadyMemory : ReadyMemory start.bus 1 store_of 2
start-ReadyMemory = record {
  quiet = record { current = refl; none_pending = tt; no_locks = tt };
  mounted = checked-Mounted start.bus.slave_port 1 start-checked refl;
}

store_of-IsWellFormed : IsWellFormed store_of
store_of-IsWellFormed = record {
  sized = refl;
  words = (omega arith, (omega arith, (omega arith, (omega arith, (omega arith, tt)))));
}

step-execute_example :
    (p' : Mips Slave) × (step 3 start ≡ execute 3 p' (decode 0x20040007))
    × (p'.pc ≡ 4)
    × ReadyMemory p'.bus 1 (selected store_of Const.word 0) 2
    × (p'.bus.cells ≡ load_cells start.bus.cells Const.word 0 0x20040007)
step-execute_example =
    step-execute 3 start 1 2 store_of start-ReadyMemory (λ e. omega arith) (omega arith)
      store_of-IsWellFormed (omega arith, omega arith) refl
