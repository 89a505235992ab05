-- ===== src/Examples/Simulation.antt =====
-- The simulator of MipsCpp/ and the processor of include/mips_v0.h on concrete instructions.
use simple_bus_mdu.Prelude.{
  ℕ, ◌+◌, ◌*◌, ◌^◌, ◌≤◌, ◌<◌, ◌≡◌, refl, ◌⊎◌, false, none, some, List, [], ◌∷◌, Fault, Option,
  Outcome, returns, fault, get_elem?-replicate, word_at, arith,
}
use simple_bus_mdu.Bus.Forms.{update}
use simple_bus_mdu.System.{Slave, slave}
use simple_bus_mdu.Mips
use simple_bus_mdu.Mips.{Mips}
use simple_bus_mdu.Mips.Execute
use simple_bus_mdu.Mips.Effects.{moved}
use simple_bus_mdu.Mips.Implements.{HoldsRegisters, execute-meaning}
use simple_bus_mdu.Prelude.Int.{◌+ℤ◌}
use simple_bus_mdu.MemMips.{shift_right}
use simple_bus_mdu.Simulator
use simple_bus_mdu.Simulator.{Machine}
use simple_bus_mdu.Simulator.Execute as Simulated
use simple_bus_mdu.Simulator.Memory
use simple_bus_mdu.Simulator.Memory.{mem_size}
use simple_bus_mdu.Simulator.Program.{start, dump_mem, dump_words}
use simple_bus_mdu.Simulator.Operations.{SameOperations, operations-same}
use simple_bus_mdu.Simulator.Ending.{HasNoJumps, run-Ends}
use simple_bus_mdu.Simulator.Equivalence.{Agree, execute-Agree}
use simple_bus_mdu.Isa.{
  immediate, branch, jump, addi, bne, meaning, put, immediate_traps, immediate_value,
}
use simple_bus_mdu.Isa.Encoding.{encode}

-- Register 8 holds 5 and register 9 holds -2.
abbrev registers : ℕ → ℕ
registers = update (update (λ j. 0) 8 5) 9 4294967294

abbrev processor : Mips Slave
processor = record {
  bus = record { requests = []; current = none; slave_port = []; cells = registers };
  pc = 104;
  stopped = false;
  input = [];
  output = [];
}

abbrev machine : Machine
machine = record (start []) { breg = registers; pc = 104 }

registers-lt : (j : ℕ) → registers j < 2 ^ 32
registers-lt j = ground arith

-- ADDI $10, $9, 7, where the cell of register 0 still holds what a program wrote to it.
abbrev used : Mips Slave
used = record processor { bus = record processor.bus { cells = update registers 0 1 } }

used-lt : (j : ℕ) → used.bus.cells j < 2 ^ 32
used-lt j = ground arith

adds : meaning (immediate addi 10 9 7) registers 104 ≡ some (put registers 10 5, 104)
unfolding meaning immediate_traps immediate_value ◌+ℤ◌
adds = refl

execute-meaning_example :
    (cells' : ℕ → ℕ) × (Mips.Execute.execute 1 used (Mips.decode (encode (immediate addi 10 9 7)))
      ≡ returns (some (moved used (cells', 104))))
    × HoldsRegisters cells' (put registers 10 5)
execute-meaning_example =
    execute-meaning 1 used (immediate addi 10 9 7) registers (put registers 10 5) 104
      (omega arith, omega arith, omega arith) tt (used-lt, omega arith)
      (record { zero_is_0 = refl; others = λ j n. ground arith }) adds

execute-Agree_example :
    (p' : Mips Slave) × (m' : Machine) × (Mips.Execute.execute 1 processor
        (Mips.decode (encode (immediate addi 10 9 65535)))
      ≡ returns (some p'))
    × (Simulated.execute machine (Simulator.decode (encode (immediate addi 10 9 65535)))
        ≡ returns m')
    × Agree p' m'
execute-Agree_example =
    execute-Agree 1 processor machine (immediate addi 10 9 65535)
      (omega arith, omega arith, omega arith) tt tt (registers-lt, omega arith)
      (registers-lt, omega arith) (λ j lt. refl, refl)

operations-same_example : SameOperations (287454020 ∷ 4294967295 ∷ []) 4 3 171
operations-same_example =
    operations-same (287454020 ∷ 4294967295 ∷ []) 4 3 171 (omega arith, (omega arith, tt))

-- The word 0 is SLL, and a memory of zeros a program without jumps.
zeros-HasNoJumps : HasNoJumps (start []).mem
unfolding Simulator.decode shift_right
zeros-HasNoJumps k lt = rw (get_elem?-replicate {A = ℕ} mem_size k 0 (omega arith), word_at) refl

run-Ends_example :
    ((m' : Machine) × (Simulated.run 2049 (start []) ≡ returns (some m')) × (8192 ≤ m'.pc))
    ⊎ ((e : Fault) × (Simulated.run 2049 (start []) ≡ fault e))
run-Ends_example = run-Ends (start []) zeros-HasNoJumps

-- The listing of a memory of zeros, from 8 to 17.
dump_zeros : dump_mem 9 (start []) 8 17 104 ≡ returns (some ((8, 0) ∷ (12, 0) ∷ (16, 0) ∷ []))
unfolding dump_mem dump_words Memory.lw Memory.word Memory.check_address_range
dump_zeros = refl

-- addi $2, $0, 10; syscall, which is meant to end the program; addi $8, $0, 7; j 0x2000. The system call
-- does nothing but the shift of the case that follows it, and the program goes on.
abbrev program : Machine
program = record (start []) {
  mem =
      encode (immediate addi 2 0 10)
      ∷ 0x0000000c
      ∷ encode (immediate addi 8 0 7)
      ∷ encode (jump 2048)
      ∷ [];
}

abbrev registers_after : Outcome (Option Machine) → List ℕ
registers_after (returns (some m)) = m.breg 2 ∷ m.breg 8 ∷ m.pc ∷ []
registers_after _ = []

program_ends : registers_after (Simulated.run 5 program) ≡ 10 ∷ 7 ∷ 8192 ∷ []
unfolding Simulated.run Simulated.loop Simulated.step Simulated.fetch Simulated.execute
    Simulated.execute_opcode Simulated.execute_fun Simulated.syscall Simulator.init Simulator.decode
    shift_right encode Memory.lw Memory.word Memory.check_address_range
program_ends = refl

abbrev pc_after : Outcome Machine → ℕ
pc_after (returns m) = m.pc
pc_after (fault e) = 0

-- A branch by -3 words goes forward.
branch_back :
    pc_after (Simulated.execute machine (Simulator.decode (encode (branch bne 8 9 65533))))
    ≡ 104 + 4 * 65533
unfolding Simulated.execute Simulated.execute_opcode Simulator.decode shift_right encode
branch_back = refl
