-- ===== src/Mips.antt =====
-- The processor of include/mips_v0.h: its state, the decoding of an instruction, and its arithmetic.
pub mod Codes
pub mod Execute
pub mod Unit
pub mod Fetch
pub mod Loads
pub mod Effects
pub mod Implements
use simple_bus_mdu.Prelude.{
  ℕ, ◌+◌, ◌-◌, ◌*◌, ◌/◌, ◌%◌, ◌^◌, Bool, false, List, [], ◌∷◌, ◌++◌, ltb, if◌then◌else◌,
}
use simple_bus_mdu.Types.{u32}
use simple_bus_mdu.Bus.Forms.{Bus, update}
use simple_bus_mdu.MemMips.{shift_right, int16}
use Codes

-- What a system call prints: an integer, or a character of a string.
pub data Output : Type 0 where
  integer : ℕ → Output
  character : ℕ → Output

-- `mips_v0`. The register file `breg` is the cells 0 to 31 of the memory that the bus points into,
-- `lo` and `hi` the two after it; `ri` and the fields of the instruction are in what `decode` gives.
-- `stopped` is true after `sc_stop`.
pub record Mips (S : Type 0) : Type 0 where
  pub bus : Bus S
  pub pc : ℕ
  pub stopped : Bool
  pub input : List ℕ
  pub output : List Output

abbrev pub lo_cell : ℕ
lo_cell = 32

abbrev pub hi_cell : ℕ
hi_cell = 33

-- The registers that `init` writes.
abbrev pub reset_registers : (ℕ → ℕ) → ℕ → ℕ
reset_registers cells j =
    if ltb j 34
    then (if ltb j Codes.sp then 0 else if ltb Codes.sp j then 0 else Codes.data_segment_start - 4)
    else cells j

module _ {S : Type 0} where
  abbrev pub breg : Mips S → ℕ → ℕ
  breg m i = m.bus.cells i

  abbrev pub set_cell : Mips S → ℕ → ℕ → Mips S
  set_cell m i v = record m { bus = record m.bus { cells = update m.bus.cells i v } }

  abbrev pub jump : Mips S → ℕ → Mips S
  jump m target = record m { pc = target }

  abbrev pub print : Mips S → Output → Mips S
  print m o = record m { output = m.output ++ o ∷ [] }

  -- `init`
  unfoldable pub init : Mips S → Mips S
  init m = record m { pc = 0; bus = record m.bus { cells = reset_registers m.bus.cells } }

-- The fields of an instruction; the constant `kte16` is sign-extended.
pub record Decoded : Type 0 where
  pub opcode : ℕ
  pub rs : ℕ
  pub rt : ℕ
  pub rd : ℕ
  pub shamt : ℕ
  pub funct : ℕ
  pub kte16 : ℕ
  pub kte26 : ℕ

-- `decode`; `& (2 ^ n - 1)` keeps the `n` lowest bits.
unfoldable pub decode : ℕ → Decoded
decode ri = record {
  opcode = shift_right ri 26 % 2 ^ 6;
  rs = shift_right ri 21 % 2 ^ 5;
  rt = shift_right ri 16 % 2 ^ 5;
  rd = shift_right ri 11 % 2 ^ 5;
  shamt = shift_right ri 6 % 2 ^ 5;
  funct = ri % 2 ^ 6;
  kte16 = int16 (ri % 2 ^ 16);
  kte26 = ri % 2 ^ 26;
}

-- The operations of C++ on `int32_t` patterns. An overflow of `+` or `-`, which C++ leaves undefined,
-- wraps around.
abbrev pub plus : ℕ → ℕ → ℕ
plus x y = u32 (x + y)

abbrev pub subtract : ℕ → ℕ → ℕ
subtract x y = u32 (x + 2 ^ 32 - y)

abbrev pub shift_left : ℕ → ℕ → ℕ
shift_left x n = u32 (x * 2 ^ n)

-- `x < y`, signed: the patterns in order once the sign bit is flipped.
abbrev pub less_than : ℕ → ℕ → Bool
less_than x y = ltb (u32 (x + 2 ^ 31)) (u32 (y + 2 ^ 31))

abbrev pub bit : Bool → ℕ
bit c = if c then 1 else 0

-- `(pc & 0xf0000000) | (kte26 << 2)`
abbrev pub jump_target : ℕ → ℕ → ℕ
jump_target pc kte26 = pc / 2 ^ 28 * 2 ^ 28 + kte26 * 4

-- `pc + (kte16 << 2)`
abbrev pub branch_target : ℕ → ℕ → ℕ
branch_target pc kte16 = plus pc (shift_left kte16 2)
