-- ===== src/Simulator/Execute.antt =====
-- The execution of an instruction: MipsCpp/mips.cpp (execute, fetch, step, run).
use Prim.Native.Nat.{bit_and, bit_or, bit_xor}
use simple_bus_mdu.Prelude.{
  ℕ, zero, suc, ◌-◌, ◌*◌, ◌/◌, ◌%◌, ◌^◌, Bool, not, List, [], ◌∷◌, Option, none, some, Outcome,
  returns, fault, exit_normally, bad_division, out_of_bounds, ◌==◌, ltb, if◌then◌else◌, ◌>>=◌,
}
use simple_bus_mdu.Types.{u32}
use simple_bus_mdu.Word.{signed32, wrap32, quotient, remainder}
use simple_bus_mdu.MemMips.{shift_right, int8, int16}
use simple_bus_mdu.Mips.Codes
use simple_bus_mdu.Mips.Codes.Funct
use simple_bus_mdu.Mips.Codes.Opcode
use simple_bus_mdu.Mips.{
  Decoded, plus, subtract, shift_left, less_than, bit, jump_target, branch_target,
}
use simple_bus_mdu.Simulator.Memory
use simple_bus_mdu.Simulator.{Machine, integer, text, init, decode, set_reg, jump, show}

abbrev pub with_mem : Machine → List ℕ → Machine
with_mem m mem = record m { mem = mem }

-- The bytes of an array of words.
abbrev pub bytes : List ℕ → List ℕ
bytes [] = []
bytes (w ∷ ws) = w % 2 ^ 8 ∷ w / 2 ^ 8 % 2 ^ 8 ∷ w / 2 ^ 16 % 2 ^ 8 ∷ w / 2 ^ 24 % 2 ^ 8 ∷ bytes ws

abbrev pub drop : ℕ → List ℕ → List ℕ
drop zero bs = bs
drop (suc n) [] = []
drop (suc n) (b ∷ bs) = drop n bs

-- The characters before the first zero; the end of the array comes too early.
unfoldable pub c_string : List ℕ → Outcome (List ℕ)
c_string [] = fault out_of_bounds
c_string (b ∷ bs) =
    let rest = c_string bs >>= λ s. returns (b ∷ s) in if b == 0 then returns [] else rest

-- The loop of system call 4 prints all that follows each character that is not 0.
unfoldable pub print_string : Machine → List ℕ → Outcome Machine
unfolding c_string
print_string m [] = fault out_of_bounds
print_string m (b ∷ bs) =
    let rest = c_string bs >>= λ s. print_string (show m (text s)) bs in
    if b == 0 then returns (show m (text (10 ∷ []))) else rest

-- System call 5 at the end of the input leaves the register, as `cin >>` does.
abbrev pub read_integer : Machine → List ℕ → Machine
read_integer m [] = m
read_integer m (n ∷ ns) = set_reg (record m { input = ns }) Codes.v0 n

-- `switch (V0)`, on the number of the register, which is the constant 2.
unfoldable pub syscall : ℕ → Machine → Outcome Machine
unfolding print_string
syscall service m =
    if service == 1
    then returns (show m (integer (m.breg Codes.a0)))
    else if service == 4
    then print_string m (drop (m.breg Codes.a0) (bytes m.mem))
    else if service == 5
    then returns (read_integer m m.input)
    else if service == 10
    then fault exit_normally
    else returns m

-- The product is one of `int`s; then it becomes an `int64_t`.
abbrev pub multiply : Machine → ℕ → ℕ → Machine
multiply m s t =
    let u : ℕ = u32 (s * t) in record m { hi = if ltb u (2 ^ 31) then 0 else 2 ^ 32 - 1; lo = u }

-- C++ leaves a division undefined where the divisor is 0 and where the quotient is no `int`.
unfoldable pub divide : Machine → ℕ → ℕ → Outcome Machine
divide m s t =
    if t == 0
    then fault bad_division
    else if s == 2 ^ 31
    then (if t == 2 ^ 32 - 1 then fault bad_division else returns (quotients m))
    else returns (quotients m)
  where
    quotients : Machine → Machine
    quotients n = record n {
      lo = wrap32 (quotient (signed32 s) (signed32 t));
      hi = wrap32 (remainder (signed32 s) (signed32 t));
    }

-- `case FUN`. The case of SYSCALL has no `break` and goes on with that of SLL.
unfoldable pub execute_fun : Machine → Decoded → Outcome Machine
unfolding syscall divide
execute_fun m i =
    let f : ℕ = i.funct in
    let s : ℕ = m.breg i.rs in
    let t : ℕ = m.breg i.rt in
    if f == Funct.syscall
    then (syscall Codes.v0 m >>= λ m'.
        returns (set_reg m' i.rd (shift_left (m'.breg i.rt) i.shamt)))
    else if f == Funct.sll
    then returns (set_reg m i.rd (shift_left t i.shamt))
    else if f == Funct.srl
    then returns (set_reg m i.rd (t / 2 ^ i.shamt))
    else if f == Funct.sra
    then returns (set_reg m i.rd (shift_right t i.shamt))
    else if f == Funct.jr
    then returns (jump m s)
    else if f == Funct.mul
    then returns (multiply m s t)
    else if f == Funct.div
    then divide m s t
    else if f == Funct.add
    then returns (set_reg m i.rd (plus s t))
    else if f == Funct.addu
    then returns (set_reg m i.rd (plus s t))
    else if f == Funct.sub
    then returns (set_reg m i.rd (subtract s t))
    else if f == Funct.and
    then returns (set_reg m i.rd (bit_and s t))
    else if f == Funct.or
    then returns (set_reg m i.rd (bit_or s t))
    else if f == Funct.xor
    then returns (set_reg m i.rd (bit_xor s t))
    else if f == Funct.nor
    then returns (set_reg m i.rd (2 ^ 32 - 1 - bit_or s t))
    else if f == Funct.slt
    then returns (set_reg m i.rd (bit (less_than s t)))
    else returns m

abbrev pub branch_if : Bool → Machine → ℕ → Outcome Machine
branch_if test m kte16 = returns (if test then jump m (branch_target m.pc kte16) else m)

-- The cases of `execute` that use the memory. LB and LHU index the words by the address of a byte.
unfoldable pub execute_memory : Machine → Decoded → Outcome Machine
execute_memory m i =
    let s : ℕ = m.breg i.rs in
    let t : ℕ = m.breg i.rt in
    let k : ℕ = i.kte16 in
    if i.opcode == Opcode.lb
    then (Memory.word m.mem (plus s k) >>= λ w. returns (set_reg m i.rt (int8 (w % 2 ^ 8))))
    else if i.opcode == Opcode.lh
    then (Memory.lh m.mem s k >>= λ v. returns (set_reg m i.rt v))
    else if i.opcode == Opcode.lw
    then (Memory.lw m.mem s k >>= λ v. returns (set_reg m i.rt v))
    else if i.opcode == Opcode.lhu
    then (Memory.word m.mem (plus s k) >>= λ w. returns (set_reg m i.rt w))
    else if i.opcode == Opcode.sb
    then (Memory.sb m.mem s k (t % 2 ^ 8) >>= λ mem. returns (with_mem m mem))
    else if i.opcode == Opcode.sh
    then (Memory.sh m.mem s k (t % 2 ^ 16) >>= λ mem. returns (with_mem m mem))
    else if i.opcode == Opcode.sw
    then (Memory.sw m.mem s k t >>= λ mem. returns (with_mem m mem))
    else returns m

-- The `switch` on the operation. `(short) kte16` extends the sign.
unfoldable pub execute_opcode : Machine → Decoded → Outcome Machine
unfolding execute_fun execute_memory
execute_opcode m i =
    let s : ℕ = m.breg i.rs in
    let t : ℕ = m.breg i.rt in
    let k : ℕ = i.kte16 in
    if i.opcode == Opcode.fun
    then execute_fun m i
    else if i.opcode == Opcode.jal
    then returns (jump (set_reg m Codes.ra m.pc) (jump_target m.pc i.kte26))
    else if i.opcode == Opcode.j
    then returns (jump m (jump_target m.pc i.kte26))
    else if i.opcode == Opcode.beq
    then branch_if (s == t) m k
    else if i.opcode == Opcode.bne
    then branch_if (not (s == t)) m k
    else if i.opcode == Opcode.blez
    then branch_if (not (less_than 0 s)) m k
    else if i.opcode == Opcode.bgtz
    then branch_if (less_than 0 s) m k
    else if i.opcode == Opcode.addi
    then returns (set_reg m i.rt (plus s (int16 k)))
    else if i.opcode == Opcode.addiu
    then returns (set_reg m i.rt (plus s (int16 k)))
    else if i.opcode == Opcode.slti
    then returns (set_reg m i.rt (bit (less_than s (int16 k))))
    else if i.opcode == Opcode.sltiu
    then returns (set_reg m i.rt (bit (ltb s k)))
    else if i.opcode == Opcode.andi
    then returns (set_reg m i.rt (bit_and s k))
    else if i.opcode == Opcode.ori
    then returns (set_reg m i.rt (bit_or s k))
    else if i.opcode == Opcode.xori
    then returns (set_reg m i.rt (bit_xor s k))
    else if i.opcode == Opcode.lui
    then returns (set_reg m i.rt (shift_left k 16))
    else execute_memory m i

-- `execute` clears register 0 first.
unfoldable pub execute : Machine → Decoded → Outcome Machine
unfolding execute_opcode
execute m i = execute_opcode (set_reg m 0 0) i

unfoldable pub fetch : Machine → Outcome Machine
fetch m = Memory.lw m.mem m.pc 0 >>= λ w. returns (record m { ri = w; pc = plus m.pc 4 })

unfoldable pub step : Machine → Outcome Machine
unfolding fetch execute
step m = fetch m >>= λ m'. execute m' (decode m'.ri)

-- The loop of `run`, for at most `n` instructions.
unfoldable pub loop : ℕ → Machine → Outcome (Option Machine)
unfolding step
loop zero m = returns none
loop (suc n) m =
    let next = step m >>= λ m'. loop n m' in
    if less_than m.pc Codes.data_segment_start then next else returns (some m)

unfoldable pub run : ℕ → Machine → Outcome (Option Machine)
unfolding loop init
run n m = loop n (init m)
