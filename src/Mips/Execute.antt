-- ===== src/Mips/Execute.antt =====
-- The execution of an instruction: include/mips_v0.h (fetch, execute, step, run).
use Prim.Native.Nat.{bit_and, bit_or, bit_xor}
use simple_bus_mdu.Prelude.{
  ℕ, zero, suc, ◌-◌, ◌/◌, ◌%◌, ◌^◌, Bool, true, false, not, ◌||◌, List, [], ◌∷◌, Option, none, some,
  Outcome, returns, ◌==◌, ltb, if◌then◌else◌, ◌>>=◌,
}
use simple_bus_mdu.Types.{u32, SlaveIf}
use simple_bus_mdu.Bus.Forms.{Bus}
use simple_bus_mdu.Bus.Service.{main_action}
use simple_bus_mdu.Bus.Blocking.{◌>>=?◌, burst_read, burst_write, posedge}
use simple_bus_mdu.Mdu.Const
use simple_bus_mdu.MemMips.{shift_right}
use simple_bus_mdu.Wrapper
use simple_bus_mdu.Mips.Codes
use simple_bus_mdu.Mips.Codes.Funct
use simple_bus_mdu.Mips.Codes.Opcode
use simple_bus_mdu.Mips.{
  integer, character, Mips, lo_cell, hi_cell, breg, set_cell, jump, print, init, Decoded, decode,
  plus, subtract, shift_left, less_than, bit, jump_target, branch_target,
}

module _ {S : Type 0} ⦃slave_if : SlaveIf S⦄ where
  abbrev pub with_bus : Mips S → Bus S → Mips S
  with_bus m b = record m { bus = b }

  abbrev pub done : Mips S → Outcome (Option (Mips S))
  done m = returns (some m)

  -- The register `rt` takes what a load gives.
  abbrev pub loaded : Mips S → ℕ → ℕ × Bus S → Outcome (Option (Mips S))
  loaded m rt (v, b) = done (set_cell (with_bus m b) rt v)

  abbrev pub stored : Mips S → Bus S → Outcome (Option (Mips S))
  stored m b = done (with_bus m b)

  -- Two registers to the unit, and two of its results to `lo` and `hi`.
  unfoldable pub use_unit : ℕ → Mips S → ℕ → ℕ → ℕ → ℕ → Outcome (Option (Mips S))
  use_unit fuel m rs rt low high =
      burst_write fuel m.bus Const.priority rs Const.op_a 1 false >>=? λ (st, b1).
      burst_write fuel b1 Const.priority rt Const.op_b 1 false >>=? λ (st, b2).
      burst_read fuel b2 Const.priority lo_cell low 1 false >>=? λ (st, b3).
      burst_read fuel b3 Const.priority hi_cell high 1 false >>=? λ (st, b4). stored m b4

  -- System call 4: the characters from `pos` on, up to a zero. The fuel is also for these.
  unfoldable pub print_string : ℕ → ℕ → Mips S → ℕ → Outcome (Option (Mips S))
  print_string fuel zero m pos = returns none
  print_string fuel (suc n) m pos = Wrapper.lb fuel m.bus (u32 pos) 0 >>=? λ (c, b).
      let rest = print_string fuel n (print (with_bus m b) (character c)) (suc pos) in
      if c == 0 then done (with_bus m b) else rest

  -- System call 5 at the end of the input leaves the register, as `cin >>` does.
  abbrev pub read_integer : Mips S → List ℕ → Mips S
  read_integer m [] = m
  read_integer m (n ∷ ns) = set_cell (record m { input = ns }) Codes.v0 n

  unfoldable pub syscall : ℕ → Mips S → Outcome (Option (Mips S))
  unfolding print_string
  syscall fuel m =
      let service : ℕ = breg m Codes.v0 in
      if service == 1
      then done (print m (integer (breg m Codes.a0)))
      else if service == 4
      then print_string fuel fuel m (breg m Codes.a0)
      else if service == 5
      then done (read_integer m m.input)
      else if service == 10
      then done (record m { stopped = true })
      else done m

  -- `case FUN`. An unknown function prints a message.
  unfoldable pub execute_fun : ℕ → Mips S → Decoded → Outcome (Option (Mips S))
  unfolding syscall use_unit
  execute_fun fuel m i =
      let f : ℕ = i.funct in
      let s : ℕ = breg m i.rs in
      let t : ℕ = breg m i.rt in
      if f == Funct.syscall
      then syscall fuel m
      else if f == Funct.sll
      then done (set_cell m i.rd (shift_left t i.shamt))
      else if f == Funct.srl
      then done (set_cell m i.rd (t / 2 ^ i.shamt))
      else if f == Funct.sra
      then done (set_cell m i.rd (shift_right t i.shamt))
      else if f == Funct.jr
      then done (jump m s)
      else if f == Funct.mul
      then use_unit fuel m i.rs i.rt Const.m_low Const.m_high
      else if f == Funct.div
      then use_unit fuel m i.rs i.rt Const.div Const.modulo
      else if f == Funct.add
      then done (set_cell m i.rd (plus s t))
      else if f == Funct.addu
      then done (set_cell m i.rd (plus s t))
      else if f == Funct.sub
      then done (set_cell m i.rd (subtract s t))
      else if f == Funct.and
      then done (set_cell m i.rd (bit_and s t))
      else if f == Funct.or
      then done (set_cell m i.rd (bit_or s t))
      else if f == Funct.xor
      then done (set_cell m i.rd (bit_xor s t))
      else if f == Funct.nor
      then done (set_cell m i.rd (2 ^ 32 - 1 - bit_or s t))
      else if f == Funct.slt
      then done (set_cell m i.rd (bit (less_than s t)))
      else done m

  -- Jumps and branches, by the `pc` of the next instruction.
  abbrev pub branch_if : Bool → Mips S → ℕ → Outcome (Option (Mips S))
  branch_if test m kte16 = done (if test then jump m (branch_target m.pc kte16) else m)

  -- The cases of `execute` that use the memory. An unknown operation does nothing.
  unfoldable pub execute_memory : ℕ → Mips S → Decoded → Outcome (Option (Mips S))
  execute_memory fuel m i =
      let s : ℕ = breg m i.rs in
      let t : ℕ = breg m i.rt in
      let k : ℕ = i.kte16 in
      if i.opcode == Opcode.lb
      then (Wrapper.lb fuel m.bus (plus s k) 0 >>=? loaded m i.rt)
      else if i.opcode == Opcode.lh
      then (Wrapper.lh fuel m.bus s (k % 2 ^ 16) >>=? loaded m i.rt)
      else if i.opcode == Opcode.lw
      then (Wrapper.lw fuel m.bus s (k % 2 ^ 16) >>=? loaded m i.rt)
      else if i.opcode == Opcode.lhu
      then (Wrapper.lw fuel m.bus (plus s k) 0 >>=? loaded m i.rt)
      else if i.opcode == Opcode.sb
      then (Wrapper.sb fuel m.bus s k (t % 2 ^ 8) >>=? stored m)
      else if i.opcode == Opcode.sh
      then (Wrapper.sh fuel m.bus s k (t % 2 ^ 16) >>=? stored m)
      else if i.opcode == Opcode.sw
      then (Wrapper.sw fuel m.bus s k t >>=? stored m)
      else done m

  -- The `switch` on the operation.
  unfoldable pub execute_opcode : ℕ → Mips S → Decoded → Outcome (Option (Mips S))
  unfolding execute_fun execute_memory
  execute_opcode fuel m i =
      let s : ℕ = breg m i.rs in
      let t : ℕ = breg m i.rt in
      let k : ℕ = i.kte16 in
      if i.opcode == Opcode.fun
      then execute_fun fuel m i
      else if i.opcode == Opcode.jal
      then done (jump (set_cell m Codes.ra m.pc) (jump_target m.pc i.kte26))
      else if i.opcode == Opcode.j
      then done (jump m (jump_target m.pc i.kte26))
      else if i.opcode == Opcode.beq
      then branch_if (s == t) m k
      else if i.opcode == Opcode.bne
      then branch_if (not (s == t)) m k
      else if i.opcode == Opcode.blez
      then branch_if (not (less_than 0 s)) m k
      else if i.opcode == Opcode.bgtz
      then branch_if (less_than 0 s) m k
      else if i.opcode == Opcode.addi
      then done (set_cell m i.rt (plus s k))
      else if i.opcode == Opcode.addiu
      then done (set_cell m i.rt (plus s k))
      else if i.opcode == Opcode.slti
      then done (set_cell m i.rt (bit (less_than s k)))
      else if i.opcode == Opcode.sltiu
      then done (set_cell m i.rt (bit (ltb s k)))
      else if i.opcode == Opcode.andi
      then done (set_cell m i.rt (bit_and s k))
      else if i.opcode == Opcode.ori
      then done (set_cell m i.rt (bit_or s k))
      else if i.opcode == Opcode.xori
      then done (set_cell m i.rt (bit_xor s k))
      else if i.opcode == Opcode.lui
      then done (set_cell m i.rt (shift_left k 16))
      else execute_memory fuel m i

  -- `execute` clears register 0 first.
  unfoldable pub execute : ℕ → Mips S → Decoded → Outcome (Option (Mips S))
  unfolding execute_opcode
  execute fuel m i = execute_opcode fuel (set_cell m 0 0) i

  -- `fetch`: the instruction, and the state with `pc` after it.
  unfoldable pub fetch : ℕ → Mips S → Outcome (Option (ℕ × Mips S))
  fetch fuel m = Wrapper.lw fuel m.bus m.pc 0 >>=? λ (ri, b).
      returns (some (ri, record m { bus = b; pc = plus m.pc 4 }))

  unfoldable pub step : ℕ → Mips S → Outcome (Option (Mips S))
  unfolding fetch execute
  step fuel m = fetch fuel m >>=? λ (ri, m'). execute fuel m' (decode ri)

  -- `wait()` for the next rising edge.
  unfoldable pub wait_clock : Mips S → Outcome (Mips S)
  wait_clock m = main_action m.bus >>= λ (b, woken). returns (with_bus m (posedge b))

  -- The loop of `run`, for at most `n` instructions; `sc_stop` ends it too.
  unfoldable pub loop : ℕ → ℕ → Mips S → Outcome (Option (Mips S))
  unfolding wait_clock step
  loop fuel zero m = returns none
  loop fuel (suc n) m =
      let next = wait_clock m >>= λ m1. step fuel m1 >>=? λ m2. loop fuel n m2 in
      if m.stopped || not (less_than m.pc Codes.data_segment_start)
      then done (record m { stopped = true })
      else next

  unfoldable pub run : ℕ → ℕ → Mips S → Outcome (Option (Mips S))
  unfolding loop init
  run fuel n m = loop fuel n (init m)
